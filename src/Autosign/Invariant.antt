-- ===== src/Autosign/Invariant.antt =====
-- The invariant of the store, and that every operation keeps it.
use passport_nostr_signer.Prelude.{
  ℕ, ◌≤◌, ◌≡◌, refl, ap, Bool, false, inl, inr, List, [], ◌∷◌, map, arith, Bytes, length, keep_if,
  any_of, update_first, All, eqb, Bool-cases,
}
use passport_nostr_signer.Autosign.{
  AutoSignRule, AutoSignStore, is_for, is_key, max_rules_per_key, audit_limit,
}
use passport_nostr_signer.Autosign.Rule
use passport_nostr_signer.Autosign.Rule.{
  SameTarget, charge-SameTarget, charge-IsValid, is_for-SameTarget, is_for_comm,
}

-- No two rules are for the same key, origin and kind.
abbrev pub IsDistinct : List AutoSignRule → Type 0
IsDistinct [] = Unit
IsDistinct (r ∷ rs) = (any_of (is_for r.key_uuid r.origin r.kind) rs ≡ false) × IsDistinct rs

abbrev pub IsFew : List AutoSignRule → Type 0
IsFew rs = (key : Bytes) → length (keep_if (is_key key) rs) ≤ max_rules_per_key

pub record IsValid (s : AutoSignStore) : Type 0 where
  pub each : All Rule.IsValid s.rules
  pub distinct : IsDistinct s.rules
  pub few : IsFew s.rules
  pub audit : length s.audit ≤ audit_limit

-- Lists of rules that agree in the targets, place by place.
abbrev pub SameTargets : List AutoSignRule → List AutoSignRule → Type 0
SameTargets [] [] = Unit
SameTargets (r ∷ rs) (r' ∷ rs') = SameTarget r r' × SameTargets rs rs'
SameTargets _ _ = ⊥

pub SameTarget-refl : (r : AutoSignRule) → SameTarget r r
SameTarget-refl r = record { key = refl; origin = refl; kind = refl }

SameTargets-refl : (rs : List AutoSignRule) → SameTargets rs rs
SameTargets-refl [] = tt
SameTargets-refl (r ∷ rs) = (SameTarget-refl r, SameTargets-refl rs)

pub update_first-SameTargets :
    (p : AutoSignRule → Bool) (f : AutoSignRule → AutoSignRule) (rs : List AutoSignRule)
    → ((r : AutoSignRule) → SameTarget r (f r))
    → SameTargets rs (update_first p f rs)
update_first-SameTargets p f [] h = tt
update_first-SameTargets p f (r ∷ rs) h = elim (Bool-cases (p r)) [
  | inl here ↦ rw here (h r, SameTargets-refl rs)
  | inr there ↦ rw there (SameTarget-refl r, update_first-SameTargets p f rs h)
]

pub map-SameTargets :
    (f : AutoSignRule → AutoSignRule) (rs : List AutoSignRule)
    → ((r : AutoSignRule) → SameTarget r (f r))
    → SameTargets rs (map f rs)
map-SameTargets f [] h = tt
map-SameTargets f (r ∷ rs) h = (h r, map-SameTargets f rs h)

any_of-SameTargets :
    (key origin : Bytes) (kind : ℕ) (rs rs' : List AutoSignRule)
    → SameTargets rs rs'
    → any_of (is_for key origin kind) rs ≡ any_of (is_for key origin kind) rs'
any_of-SameTargets key origin kind [] [] h = refl
any_of-SameTargets key origin kind [] (r ∷ rs) h = absurd h
any_of-SameTargets key origin kind (r ∷ rs) [] h = absurd h
any_of-SameTargets key origin kind (r ∷ rs) (r' ∷ rs') h =
    cc (is_for-SameTarget key origin kind r r' h.0, any_of-SameTargets key origin kind rs rs' h.1)

pub IsDistinct-SameTargets :
    (rs rs' : List AutoSignRule) → SameTargets rs rs' → IsDistinct rs → IsDistinct rs'
IsDistinct-SameTargets [] [] h d = tt
IsDistinct-SameTargets [] (r ∷ rs) h d = absurd h
IsDistinct-SameTargets (r ∷ rs) [] h d = absurd h
IsDistinct-SameTargets (r ∷ rs) (r' ∷ rs') h d = (
  cc (h.0.key, h.0.origin, h.0.kind, d.0, any_of-SameTargets r.key_uuid r.origin r.kind rs rs' h.1),
  IsDistinct-SameTargets rs rs' h.1 d.1,
)

pub count-SameTargets :
    (key : Bytes) (rs rs' : List AutoSignRule)
    → SameTargets rs rs'
    → length (keep_if (is_key key) rs) ≡ length (keep_if (is_key key) rs')
count-SameTargets key [] [] h = refl
count-SameTargets key [] (r ∷ rs) h = absurd h
count-SameTargets key (r ∷ rs) [] h = absurd h
count-SameTargets key (r ∷ rs) (r' ∷ rs') h =
    let tail = count-SameTargets key rs rs' h.1 in
    let same : is_key key r ≡ is_key key r' = ap (λ k. eqb k key) h.0.key in rw same (ground arith)
