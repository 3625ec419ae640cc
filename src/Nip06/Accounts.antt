-- ===== src/Nip06/Accounts.antt =====
-- logic/nostr-core/src/nip06.rs: the path of an account.
use Prim.Native.Nat.{zero, suc, max, digits, bit_or-bitwise}
use passport_nostr_signer.Prelude.{
  ℕ, ◌+◌, ◌*◌, ◌/◌, ◌%◌, ◌^◌, ◌<◌, ◌≤◌, ◌≡◌, refl, ap, ◌∙◌, bit_or, arith, get_or, [], ◌∷◌,
}
use native.Mathlib.Nat.{le_refl}
use passport_nostr_signer.Nip06.{path, hardened}

abbrev same_bit : ℕ → ℕ
same_bit b = b

-- Setting a bit above all others adds it.
digits_high : (k n a : ℕ) → a ≤ n → a < 2 ^ k → digits same_bit max n a (2 ^ k) ≡ a + 2 ^ k
digits_high k zero zero p q = omega arith
digits_high k zero (suc a) p q = absurd (omega arith)
digits_high k (suc n) zero p q = omega arith
digits_high zero (suc n) (suc a) p q = absurd (omega arith)
digits_high (suc k) (suc n) (suc a) p q =
    let twice : 2 ^ suc k ≡ 2 * 2 ^ k = omega arith in
    let half : 2 ^ suc k / 2 ≡ 2 ^ k = omega (arith, twice) in
    let even : 2 ^ suc k % 2 ≡ 0 = omega (arith, twice) in
    let ih = digits_high k n (suc a / 2) (omega arith) (omega (arith, twice)) in
    rw (half, even) (omega (arith, ih, twice))

pub hardened_index : (account : ℕ) → account < 2 ^ 31 → bit_or account hardened ≡ account + 2 ^ 31
hardened_index account h =
    bit_or-bitwise account hardened ∙ digits_high 31 account account (le_refl account) h

-- The path is m/44'/1237'/account'/0/0, a hardened index being 2^31 more, and two accounts below 2^31
-- have different paths.
pub path_lem :
    (account other : ℕ)
    → account < 2 ^ 31
    → other < 2 ^ 31
    → (path account ≡ (44 + 2 ^ 31) ∷ (1237 + 2 ^ 31) ∷ (account + 2 ^ 31) ∷ 0 ∷ 0 ∷ [])
      × (path account ≡ path other → account ≡ other)
path_lem account other h k =
    let mine = hardened_index account h in
    let theirs = hardened_index other k in
    (
      rw mine refl,
      λ e.
          let third : bit_or account hardened ≡ bit_or other hardened =
            ap (λ xs. get_or xs 2 0) e in
          omega (arith, mine, theirs, third),
    )
