-- ===== src/Prelude/Search.antt =====
-- Laws of the searches and filters of `Lists`.
use Prim.Native.Nat.{◌+◌, ◌≤◌}
use mathlib.Core.Path.{◌≡◌, refl, ap}
use mathlib.Core.Logic.{inl, inr}
use mathlib.Core.Bool.{Bool, true, false, ◌&&◌, ◌||◌}
use mathlib.Core.Option.{none, some}
use mathlib.Core.List.{List, [], ◌∷◌, ◌++◌}
use native.Mathlib.Omega.{arith}
use passport_nostr_signer.Prelude.Tests.{if◌then◌else◌, Bool-cases}
use passport_nostr_signer.Prelude.Lists.{
  length, keep_if, any_of, find_first, update_first, All, Elem,
}

module _ {ℓ} {A : Type ℓ} (p : A → Bool) where
  pub any_of-snoc : (xs : List A) (y : A) → any_of p (xs ++ y ∷ []) ≡ (any_of p xs || p y)
  any_of-snoc [] y = ground arith
  any_of-snoc (x ∷ xs) y = ground (arith, any_of-snoc xs y)

  pub any_of-keep_if :
      (q : A → Bool) (xs : List A) → any_of p xs ≡ false → any_of p (keep_if q xs) ≡ false
  any_of-keep_if q [] h = refl
  any_of-keep_if q (x ∷ xs) h = ground (arith, any_of-keep_if q xs)

  pub find_first-none : (xs : List A) → any_of p xs ≡ false → find_first p xs ≡ none
  find_first-none [] h = refl
  find_first-none (x ∷ xs) h = ground (arith, find_first-none xs)

  pub any_of-none : (xs : List A) → find_first p xs ≡ none → any_of p xs ≡ false
  any_of-none [] h = refl
  any_of-none (x ∷ xs) h = ground (arith, any_of-none xs)

  -- Writing the value that was made from what was found is writing through the search.
  pub update_first-const :
      (f : A → A) (xs : List A) (a : A)
      → find_first p xs ≡ some a
      → update_first p (λ _. f a) xs ≡ update_first p f xs
  update_first-const f [] a h = refl
  update_first-const f (x ∷ xs) a h = ground (arith, update_first-const f xs a)

  pub length-keep_if : (xs : List A) → length (keep_if p xs) ≤ length xs
  length-keep_if [] = omega arith
  length-keep_if (x ∷ xs) = ground (arith, length-keep_if xs)

  pub length-keep_if-snoc :
      (xs : List A) (y : A)
      → length (keep_if p (xs ++ y ∷ [])) ≡ length (keep_if p xs) + (if p y then 1 else 0)
  length-keep_if-snoc [] y = ground arith
  length-keep_if-snoc (x ∷ xs) y = ground (arith, length-keep_if-snoc xs y)

  pub length-keep_if-keep_if :
      (q : A → Bool) (xs : List A) → length (keep_if p (keep_if q xs)) ≤ length (keep_if p xs)
  length-keep_if-keep_if q [] = omega arith
  length-keep_if-keep_if q (x ∷ xs) = ground (arith, length-keep_if-keep_if q xs)

module _ {ℓ κ} {A : Type ℓ} (P : A → Type κ) where
  pub All-keep_if : (q : A → Bool) (xs : List A) → All P xs → All P (keep_if q xs)
  All-keep_if q [] h = tt
  All-keep_if q (x ∷ xs) h = elim (Bool-cases (q x)) [
    | inl keep ↦ rw keep (h.0, All-keep_if q xs h.1)
    | inr drop ↦ rw drop (All-keep_if q xs h.1)
  ]

  pub All-snoc : (xs : List A) (y : A) → All P xs → P y → All P (xs ++ y ∷ [])
  All-snoc [] y h py = (py, tt)
  All-snoc (x ∷ xs) y h py = (h.0, All-snoc xs y h.1 py)

  pub All-update_first :
      (q : A → Bool) (f : A → A) (xs : List A)
      → ((x : A) → P x → P (f x))
      → All P xs
      → All P (update_first q f xs)
  All-update_first q f [] keep h = tt
  All-update_first q f (x ∷ xs) keep h = elim (Bool-cases (q x)) [
    | inl here ↦ rw here (keep x h.0, h.1)
    | inr there ↦ rw there (h.0, All-update_first q f xs keep h.1)
  ]

module _ {A : Type 0} (p : A → Bool) where
  -- What is found passes the test and is in the list.
  pub find_first-some : (xs : List A) (a : A) → find_first p xs ≡ some a → (p a ≡ true) × Elem a xs
  find_first-some [] a h = absurd (ground arith)
  find_first-some (x ∷ xs) a h = elim (Bool-cases (p x)) [
    | inl here ↦ (ground arith, inl (ground arith))
    | inr there ↦ let rest = find_first-some xs a (ground arith) in (rest.0, inr rest.1)
  ]

-- The first element that passes the test is the only one that `update_first` changes.
pub update_first_split {ℓ} :
    {A : Type ℓ} (p : A → Bool) (f : A → A) (xs : List A) (a : A)
    → find_first p xs ≡ some a
    → (before : List A) × (after : List A) × (xs ≡ before ++ a ∷ after)
      × (update_first p f xs ≡ before ++ f a ∷ after)
update_first_split p f [] a h = absurd (cc h)
update_first_split p f (x ∷ xs) a h = elim (Bool-cases (p x)) [
  | inl here ↦
      let is : x ≡ a = cc (rw here at h) in
      ([], xs, ap (λ y. y ∷ xs) is, rw here (ap (λ y. f y ∷ xs) is))
  | inr there ↦
      let (before, after, same, updated) = update_first_split p f xs a (rw there at h) in
      (x ∷ before, after, ap (λ ys. x ∷ ys) same, rw there (ap (λ ys. x ∷ ys) updated))
]

-- A search for what passes `p` and `live`, beside the search for what passes `p`.
module _ {ℓ} {A : Type ℓ} (p live both : A → Bool)
    (parts : (x : A) → both x ≡ (p x && live x)) where
  pub find_first_both_none : (xs : List A) → any_of p xs ≡ false → find_first both xs ≡ none
  find_first_both_none [] h = refl
  find_first_both_none (x ∷ xs) h = ground (arith, parts x, find_first_both_none xs)

  pub find_first_both :
      (x : A) (xs : List A)
      → p x ≡ true
      → any_of p xs ≡ false
      → find_first both (x ∷ xs) ≡ (if live x then some x else none)
  find_first_both x xs h others = ground (arith, parts x, find_first_both_none xs others)

  pub find_first-update_first :
      (f : A → A) (xs : List A) (r : A)
      → ((x : A) → p x ≡ p (f x))
      → find_first p xs ≡ some r
      → live r ≡ true
      → find_first p (update_first both f xs) ≡ some (f r)
  find_first-update_first f [] r keep h l = absurd (ground arith)
  find_first-update_first f (x ∷ xs) r keep h l = elim (Bool-cases (p x)) [
    | inl here ↦
        let found : x ≡ r = ground arith in
        let match : both x ≡ true = ground (arith, parts x, ap live found) in
        rw (match, ← keep x, here) (ap (λ y. some (f y)) found)
    | inr there ↦
        let miss : both x ≡ false = ground (arith, parts x) in
        rw (miss, there) (find_first-update_first f xs r keep (ground arith) l)
  ]

module _ {ℓ} {A : Type ℓ} (p q : A → Bool) (f : A → A) where
  -- A write that the test does not see.
  pub any_of-update_first :
      ((x : A) → p (f x) ≡ p x) → (xs : List A) → any_of p (update_first q f xs) ≡ any_of p xs
  any_of-update_first keep [] = refl
  any_of-update_first keep (x ∷ xs) = ground (arith, keep x, any_of-update_first keep xs)
