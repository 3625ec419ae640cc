-- ===== src/Autosign/Listing.antt =====
-- src/autosign.rs: `rules_for_key`, the rules of a key as its screen lists them. `sort_by` is stable: the
-- insertion sort here is the same function.
use passport_nostr_signer.Prelude.{
  ℕ, ◌+◌, ◌≡◌, ◌<◌, ◌≤◌, ◌⊎◌, ==_iff, refl, ap, ◌∙◌, inl, inr, Bool, true, false, ◌&&◌, List, [],
  ◌∷◌, map, arith, Bytes, Text, eqb, eqb_iff, length, keep_if, All, ltb, leb, ◌==◌, if◌then◌else◌,
  Bool-cases,
}
use passport_nostr_signer.Autosign.{AutoSignRule, AutoSignRuleInfo, AutoSignStore, is_key, info}

-- `String::cmp`, by code points, which UTF-8 keeps in order: whether the first comes no later.
unfoldable pub text_leb : Text → Text → Bool
text_leb [] ys = true
text_leb (x ∷ xs) [] = false
text_leb (x ∷ xs) (y ∷ ys) = let rest = text_leb xs ys in if x == y then rest else ltb x y

-- `a.origin.cmp(&b.origin).then(a.kind.cmp(&b.kind))` is not `Greater`.
unfoldable pub info_leb : AutoSignRuleInfo → AutoSignRuleInfo → Bool
unfolding text_leb
info_leb a b = if eqb a.origin b.origin then leb a.kind b.kind else text_leb a.origin b.origin

unfoldable pub insert_info : AutoSignRuleInfo → List AutoSignRuleInfo → List AutoSignRuleInfo
insert_info a [] = a ∷ []
insert_info a (b ∷ bs) =
    let rest = insert_info a bs in if info_leb a b then a ∷ b ∷ bs else b ∷ rest

unfoldable pub sort_infos : List AutoSignRuleInfo → List AutoSignRuleInfo
unfolding insert_info
sort_infos [] = []
sort_infos (a ∷ infos) = insert_info a (sort_infos infos)

unfoldable pub rules_for_key : Bytes → AutoSignStore → List AutoSignRuleInfo
unfolding sort_infos
rules_for_key key s = sort_infos (map info (keep_if (is_key key) s.rules))

text_leb_total : (xs ys : Text) → text_leb xs ys ≡ false → text_leb ys xs ≡ true
unfolding text_leb
text_leb_total [] ys h = absurd (cc h)
text_leb_total (x ∷ xs) [] h = refl
text_leb_total (x ∷ xs) (y ∷ ys) h = ground (arith, text_leb_total xs ys)

text_leb_trans :
    (xs ys zs : Text) → text_leb xs ys ≡ true → text_leb ys zs ≡ true → text_leb xs zs ≡ true
unfolding text_leb
text_leb_trans [] ys zs h k = refl
text_leb_trans (x ∷ xs) [] zs h k = absurd (cc h)
text_leb_trans (x ∷ xs) (y ∷ ys) [] h k = absurd (cc k)
text_leb_trans (x ∷ xs) (y ∷ ys) (z ∷ zs) h k = ground (arith, text_leb_trans xs ys zs)

text_leb_antisym : (xs ys : Text) → text_leb xs ys ≡ true → text_leb ys xs ≡ true → eqb xs ys ≡ true
unfolding text_leb eqb
text_leb_antisym [] [] h k = refl
text_leb_antisym [] (y ∷ ys) h k = absurd (cc k)
text_leb_antisym (x ∷ xs) [] h k = absurd (cc h)
text_leb_antisym (x ∷ xs) (y ∷ ys) h k = ground (arith, text_leb_antisym xs ys)

info_leb_total : (a b : AutoSignRuleInfo) → info_leb a b ≡ false → info_leb b a ≡ true
unfolding info_leb
info_leb_total a b h =
    ground (
      arith,
      eqb_iff a.origin b.origin,
      eqb_iff b.origin a.origin,
      text_leb_total a.origin b.origin,
    )

info_leb_trans :
    (a b c : AutoSignRuleInfo) → info_leb a b ≡ true → info_leb b c ≡ true → info_leb a c ≡ true
unfolding info_leb
info_leb_trans a b c h k = elim (Bool-cases (eqb a.origin b.origin)) [
  | inl e ↦
      let p : a.origin ≡ b.origin = (eqb_iff a.origin b.origin).0 e in
      ground (arith, h, k, e, ap (λ o. eqb o c.origin) p, ap (λ o. text_leb o c.origin) p)
  | inr n ↦ elim (Bool-cases (eqb b.origin c.origin)) [
    | inl e ↦
        let p : b.origin ≡ c.origin = (eqb_iff b.origin c.origin).0 e in
        ground (arith, h, n, ap (λ o. eqb a.origin o) p, ap (λ o. text_leb a.origin o) p)
    | inr m ↦
        let ab : text_leb a.origin b.origin ≡ true = ground (arith, h, n) in
        let bc : text_leb b.origin c.origin ≡ true = ground (arith, k, m) in
        let ac = text_leb_trans a.origin b.origin c.origin ab bc in
        elim (Bool-cases (eqb a.origin c.origin)) [
          | inl e ↦
              let p : a.origin ≡ c.origin = (eqb_iff a.origin c.origin).0 e in
              let ba : text_leb b.origin a.origin ≡ true = ap (λ o. text_leb b.origin o) p ∙ bc in
              absurd (cc (text_leb_antisym a.origin b.origin ab ba, n))
          | inr other ↦ ground (arith, ac, other)
        ]
  ]
]

-- The order of dictionaries: at the first place where two texts differ the code point is less, or the
-- first text has ended.
unfoldable pub Before : Text → Text → Type 0
Before [] [] = ⊥
Before [] (y ∷ ys) = Unit
Before (x ∷ xs) [] = ⊥
Before (x ∷ xs) (y ∷ ys) = (x < y) ⊎ ((x ≡ y) × Before xs ys)

-- A row that may stand above another: its origin is earlier, or it is the same and the kind is no greater.
pub Precedes : AutoSignRuleInfo → AutoSignRuleInfo → Type 0
Precedes a b = Before a.origin b.origin ⊎ ((a.origin ≡ b.origin) × (a.kind ≤ b.kind))

text_leb-Before : (xs ys : Text) → text_leb xs ys ≡ true → Before xs ys ⊎ (xs ≡ ys)
unfolding text_leb Before
text_leb-Before [] [] h = inr refl
text_leb-Before [] (y ∷ ys) h = inl tt
text_leb-Before (x ∷ xs) [] h = absurd (cc h)
text_leb-Before (x ∷ xs) (y ∷ ys) h = elim (Bool-cases (x == y)) [
  | inl same ↦
      let is : x ≡ y = (==_iff x y).0 same in
      elim (text_leb-Before xs ys (rw same at h)) [
        | inl before ↦ inl (inr (is, before))
        | inr equal ↦ inr (cc (is, equal))
      ]
  | inr differ ↦ inl (inl (ground (arith, differ)))
]

info_leb-Precedes : (a b : AutoSignRuleInfo) → info_leb a b ≡ true → Precedes a b
unfolding info_leb Precedes
info_leb-Precedes a b h = elim (Bool-cases (eqb a.origin b.origin)) [
  | inl same ↦ inr ((eqb_iff a.origin b.origin).0 same, ground (arith, same))
  | inr differ ↦ elim (text_leb-Before a.origin b.origin (rw differ at h)) [
    | inl before ↦ inl before
    | inr equal ↦ absurd (cc ((eqb_iff a.origin b.origin).1 equal, differ))
  ]
]

-- Each row precedes all that follow it, by the code's comparison and by `Precedes`.
Ordered : List AutoSignRuleInfo → Type 0
Ordered [] = Unit
Ordered (a ∷ bs) = All (λ b. info_leb a b ≡ true) bs × Ordered bs

unfoldable pub IsSorted : List AutoSignRuleInfo → Type 0
IsSorted [] = Unit
IsSorted (a ∷ bs) = All (Precedes a) bs × IsSorted bs

All-Precedes :
    (a : AutoSignRuleInfo) (bs : List AutoSignRuleInfo)
    → All (λ b. info_leb a b ≡ true) bs
    → All (Precedes a) bs
All-Precedes a [] h = tt
All-Precedes a (b ∷ bs) h = (info_leb-Precedes a b h.0, All-Precedes a bs h.1)

Ordered-IsSorted : (infos : List AutoSignRuleInfo) → Ordered infos → IsSorted infos
unfolding Ordered IsSorted
Ordered-IsSorted [] h = tt
Ordered-IsSorted (a ∷ bs) h = (All-Precedes a bs h.0, Ordered-IsSorted bs h.1)

All-insert_info :
    (p : AutoSignRuleInfo → Type 0) (a : AutoSignRuleInfo) (bs : List AutoSignRuleInfo)
    → p a
    → All p bs
    → All p (insert_info a bs)
unfolding insert_info
All-insert_info p a [] pa h = (pa, tt)
All-insert_info p a (b ∷ bs) pa h = elim (Bool-cases (info_leb a b)) [
  | inl here ↦ rw here (pa, h)
  | inr there ↦ rw there (h.0, All-insert_info p a bs pa h.1)
]

All-later :
    (a b : AutoSignRuleInfo) (bs : List AutoSignRuleInfo)
    → info_leb a b ≡ true
    → All (λ c. info_leb b c ≡ true) bs
    → All (λ c. info_leb a c ≡ true) bs
All-later a b [] h after = tt
All-later a b (c ∷ cs) h after = (info_leb_trans a b c h after.0, All-later a b cs h after.1)

insert_info-Ordered :
    (a : AutoSignRuleInfo) (bs : List AutoSignRuleInfo) → Ordered bs → Ordered (insert_info a bs)
unfolding insert_info Ordered
insert_info-Ordered a [] h = (tt, tt)
insert_info-Ordered a (b ∷ bs) h = elim (Bool-cases (info_leb a b)) [
  | inl here ↦ rw here ((here, All-later a b bs here h.0), h)
  | inr there ↦ rw there (
    All-insert_info (λ c. info_leb b c ≡ true) a bs (info_leb_total a b there) h.0,
    insert_info-Ordered a bs h.1,
  )
]

sort_infos-Ordered : (infos : List AutoSignRuleInfo) → Ordered (sort_infos infos)
unfolding sort_infos Ordered
sort_infos-Ordered [] = tt
sort_infos-Ordered (a ∷ infos) = insert_info-Ordered a (sort_infos infos) (sort_infos-Ordered infos)

-- How many rows pass a test.
unfoldable pub count_if : (AutoSignRuleInfo → Bool) → List AutoSignRuleInfo → ℕ
count_if p [] = 0
count_if p (a ∷ bs) = (if p a then 1 else 0) + count_if p bs

insert_info_count :
    (p : AutoSignRuleInfo → Bool) (a : AutoSignRuleInfo) (bs : List AutoSignRuleInfo)
    → count_if p (insert_info a bs) ≡ count_if p (a ∷ bs)
unfolding insert_info count_if
insert_info_count p a [] = refl
insert_info_count p a (b ∷ bs) = ground (arith, insert_info_count p a bs)

sort_infos_count :
    (p : AutoSignRuleInfo → Bool) (infos : List AutoSignRuleInfo)
    → count_if p (sort_infos infos) ≡ count_if p infos
unfolding sort_infos count_if
sort_infos_count p [] = refl
sort_infos_count p (a ∷ infos) =
    insert_info_count p a (sort_infos infos)
    ∙ (unfold count_if in omega (arith, sort_infos_count p infos))

of_key_count :
    (p : AutoSignRuleInfo → Bool) (key : Bytes) (rs : List AutoSignRule)
    → count_if p (map info (keep_if (is_key key) rs))
      ≡ length (keep_if (λ r. is_key key r && p (info r)) rs)
unfolding count_if
of_key_count p key [] = refl
of_key_count p key (r ∷ rs) = ground (arith, of_key_count p key rs)

-- The rows come in the order of dictionaries of their origins, and for one origin in that of their kinds,
-- and are those of the key's rules: as many of them pass any test as do rules of the key.
pub rules_for_key-IsSorted :
    (key : Bytes) (s : AutoSignStore) (p : AutoSignRuleInfo → Bool)
    → IsSorted (rules_for_key key s)
      × (count_if p (rules_for_key key s)
          ≡ length (keep_if (λ r. is_key key r && p (info r)) s.rules))
unfolding rules_for_key
rules_for_key-IsSorted key s p =
    let rows = map info (keep_if (is_key key) s.rules) in
    (
      Ordered-IsSorted (sort_infos rows) (sort_infos-Ordered rows),
      sort_infos_count p rows ∙ of_key_count p key s.rules,
    )
