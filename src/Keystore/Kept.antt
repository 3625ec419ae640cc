-- ===== src/Keystore/Kept.antt =====
-- The first record that is not archived.
use passport_nostr_signer.Prelude.{
  ◌≡◌, refl, sym, ap, subst, ◌∙◌, Bool, false, not, inl, inr, Option, none, some, List, [], ◌∷◌,
  map, length, eqb, eqb_iff, eqb_refl, find_first, All, Bool-cases, arith,
}
use passport_nostr_signer.Keystore.{EncryptedRecord, map_option}
use passport_nostr_signer.Keystore.Invariant.{IsDistinct, uuid_of}
use passport_nostr_signer.Keystore.Lookup.{find_uuid, find_absent}

abbrev pub is_kept : EncryptedRecord → Bool
is_kept r = not r.archived

-- The first record that is kept is the one that its uuid finds.
pub find_kept :
    (rs : List EncryptedRecord) (r : EncryptedRecord)
    → IsDistinct uuid_of rs
    → find_first is_kept rs ≡ some r
    → find_uuid r.uuid rs ≡ some r
find_kept [] r d h = absurd (cc h)
find_kept (x ∷ rs) r d h = elim (Bool-cases x.archived) [
  | inl gone ↦
      let later : find_first is_kept rs ≡ some r = ground (arith, h, gone) in
      let ih = find_kept rs r d.1 later in
      elim (Bool-cases (eqb x.uuid r.uuid)) [
        | inl same ↦
            let e : x.uuid ≡ r.uuid = (eqb_iff x.uuid r.uuid).0 same in
            let none_left : find_uuid r.uuid rs ≡ none =
              subst (λ u. find_uuid u rs ≡ none) e (find_absent x.uuid rs d.0) in
            absurd (cc (none_left, ih))
        | inr other ↦ ground (arith, other, ih)
      ]
  | inr kept ↦
      let e : x ≡ r = ground (arith, h, kept) in
      subst (λ y. find_uuid y.uuid (x ∷ rs) ≡ some y) e (rw (eqb_refl x.uuid) refl)
]

pub find_mapped :
    {A B : Type 0} (f : A → B) (q : B → Bool) (xs : List A)
    → find_first q (map f xs) ≡ map_option f (find_first (λ x. q (f x)) xs)
find_mapped f q [] = refl
find_mapped f q (x ∷ xs) = elim (Bool-cases (q (f x))) [
  | inl here ↦ rw here refl
  | inr there ↦ rw there (find_mapped f q xs)
]

pub map_option_twice :
    {A B C : Type 0} (f : A → B) (g : B → C) (o : Option A)
    → map_option g (map_option f o) ≡ map_option (λ x. g (f x)) o
map_option_twice f g none = refl
map_option_twice f g (some a) = refl

pub find_width :
    (rs : List EncryptedRecord) (r : EncryptedRecord)
    → All (λ (x : EncryptedRecord). length x.uuid ≡ 16) rs
    → find_first is_kept rs ≡ some r
    → length r.uuid ≡ 16
find_width [] r all h = absurd (cc h)
find_width (x ∷ rs) r all h = elim (Bool-cases x.archived) [
  | inl gone ↦ find_width rs r all.1 (ground (arith, h, gone))
  | inr kept ↦
      let e : x ≡ r = ground (arith, h, kept) in
      subst (λ (y : EncryptedRecord). length y.uuid ≡ 16) e all.0
]

pub find_is_kept :
    (rs : List EncryptedRecord) (r : EncryptedRecord)
    → find_first is_kept rs ≡ some r
    → r.archived ≡ false
find_is_kept [] r h = absurd (cc h)
find_is_kept (x ∷ rs) r h = elim (Bool-cases x.archived) [
  | inl gone ↦ find_is_kept rs r (ground (arith, h, gone))
  | inr kept ↦
      let e : x ≡ r = ground (arith, h, kept) in
      ap (λ (y : EncryptedRecord). y.archived) (sym e) ∙ kept
]
