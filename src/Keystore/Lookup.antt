-- ===== src/Keystore/Lookup.antt =====
-- What each operation does to the lookup of any uuid.
use passport_nostr_signer.Prelude.{
  ◌≡◌, refl, sym, ◌∙◌, ap, false, inl, inr, Option, none, some, List, [], ◌∷◌, ◌++◌, arith, Bytes,
  eqb, eqb_iff, any_of, find_first, update_first, if◌then◌else◌, Bool-cases,
}
use passport_nostr_signer.Keystore.Invariant.{IsDistinct, uuid_of}
use passport_nostr_signer.Keystore.{EncryptedRecord, has_uuid, map_option, remove_first}

abbrev pub find_uuid : Bytes → List EncryptedRecord → Option EncryptedRecord
find_uuid u rs = find_first (has_uuid u) rs

pub find-update_first :
    (u v : Bytes) (f : EncryptedRecord → EncryptedRecord) (rs : List EncryptedRecord)
    → ((r : EncryptedRecord) → (f r).uuid ≡ r.uuid)
    → find_uuid u (update_first (has_uuid v) f rs)
      ≡ (if eqb v u then map_option f (find_uuid u rs) else find_uuid u rs)
find-update_first u v f [] keep = ground arith
find-update_first u v f (r ∷ rs) keep = ground (
  arith,
  keep r,
  eqb_iff v u,
  eqb_iff r.uuid u,
  eqb_iff r.uuid v,
  ap (λ w. eqb w u) (keep r),
  find-update_first u v f rs keep,
)

abbrev or_else : Option EncryptedRecord → Option EncryptedRecord → Option EncryptedRecord
or_else none b = b
or_else (some a) b = some a

pub find-snoc :
    (u : Bytes) (rs : List EncryptedRecord) (r : EncryptedRecord)
    → find_uuid u (rs ++ r ∷ []) ≡ or_else (find_uuid u rs) (if has_uuid u r then some r else none)
find-snoc u [] r = ground arith
find-snoc u (x ∷ rs) r = ground (arith, find-snoc u rs r)

pub find_absent :
    (u : Bytes) (rs : List EncryptedRecord) → any_of (has_uuid u) rs ≡ false → find_uuid u rs ≡ none
find_absent u [] h = refl
find_absent u (r ∷ rs) h = ground (arith, find_absent u rs)

pub find-remove_first :
    (u v : Bytes) (rs : List EncryptedRecord)
    → IsDistinct uuid_of rs
    → find_uuid u (remove_first v rs) ≡ (if eqb v u then none else find_uuid u rs)
unfolding remove_first
find-remove_first u v [] d = ground arith
find-remove_first u v (r ∷ rs) d = elim (Bool-cases (has_uuid v r)) [
  | inl here ↦
      let e : r.uuid ≡ v = (eqb_iff r.uuid v).0 here in
      let gone : find_uuid v rs ≡ none =
        find_absent v rs (ap (λ w. any_of (has_uuid w) rs) (sym e) ∙ d.0) in
      rw here (ground (arith, eqb_iff v u, eqb_iff r.uuid u, gone))
  | inr there ↦
      let ih = find-remove_first u v rs d.1 in
      rw there (ground (arith, ih, eqb_iff v u, eqb_iff r.uuid u, eqb_iff r.uuid v))
]
