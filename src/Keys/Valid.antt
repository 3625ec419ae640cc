-- ===== src/Keys/Valid.antt =====
-- Keys that the constructors let through.
use passport_nostr_signer.Prelude.{
  ◌≡◌, true, false, inl, inr, Option, some, List, [], ◌∷◌, ◌++◌, arith, Bytes, Text, length, All,
  map,
}
use passport_nostr_signer.Prelude.Result.{ok, Result-cases}
use passport_nostr_signer.External.{Hex, Curve}
use passport_nostr_signer.Keys.{SecretKey, secret_from_hex, generate}

module _ (curve : Curve) (hx : Hex) where
  -- A secret key of 32 bytes that the curve accepts.
  pub record IsSecret (sk : SecretKey) : Type 0 where
    pub size : length sk.bytes ≡ 32
    pub valid : curve.valid_secret sk.bytes ≡ true

  -- A text is read as a secret key exactly if it is the hex of 32 bytes that the curve accepts.
  pub secret_from_hex_iff :
      (s : Text) (sk : SecretKey)
      → (secret_from_hex curve hx s ≡ ok sk → (hx.decode s ≡ ok sk.bytes) × IsSecret sk)
        × (hx.decode s ≡ ok sk.bytes → IsSecret sk → secret_from_hex curve hx s ≡ ok sk)
  unfolding secret_from_hex
  secret_from_hex_iff s sk = elim (Result-cases (hx.decode s)) [
    | inl (b, e) ↦ (λ h. ground arith, λ d v. ground arith)
    | inr (x, e) ↦ (λ h. absurd (ground arith), λ d v. absurd (ground arith))
  ]

  -- The loop of `generate` skips invalid draws and returns the first valid one.
  pub generate_first :
      (bad : List Bytes) (buf : Bytes) (rest : List (Option Bytes))
      → All (λ b. curve.valid_secret b ≡ false) bad
      → curve.valid_secret buf ≡ true
      → generate curve hx (map some bad ++ some buf ∷ rest) ≡ some (ok (record { bytes = buf }))
  unfolding generate
  generate_first [] buf rest h v = ground arith
  generate_first (b ∷ bad) buf rest h v = ground (arith, generate_first bad buf rest h.1 v, h.0)
