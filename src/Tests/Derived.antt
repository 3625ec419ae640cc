-- ===== src/Tests/Derived.antt =====
-- NIP-06 over the numbers modulo 251 in place of the curve's order.
use passport_nostr_signer.Prelude.{
  ℕ, ◌+◌, ◌%◌, ◌^◌, ◌≡◌, refl, none, some, [], ◌∷◌, ◌++◌, Bytes, text, replicate, ltb, ◌==◌,
  if◌then◌else◌, arith,
}
use passport_nostr_signer.Prelude.Result.{ok}
use passport_nostr_signer.Keys.{SecretKey, secret_from_bytes}
use passport_nostr_signer.Nip06.{Lib, path, derive}
use passport_nostr_signer.Nip06.Accounts.{path_lem}
use passport_nostr_signer.Nip06.Bip32.{parse256, IsModular}
use passport_nostr_signer.Nip06.Child.{IsDerived, derive-IsDerived}
use passport_nostr_signer.Tests.Samples.{curve, hx}

path_lem_example :
    (path 3 ≡ (44 + 2 ^ 31) ∷ (1237 + 2 ^ 31) ∷ (3 + 2 ^ 31) ∷ 0 ∷ 0 ∷ [])
    × (path 3 ≡ path 4 → ◌≡◌ {A = ℕ} 3 4)
path_lem_example = path_lem 3 4 (omega arith) (omega arith)

abbrev last_byte : ℕ → Bytes
last_byte n = replicate 31 0 ++ n ∷ []

abbrev numbers : Lib ℕ
numbers = record {
  primitive = λ b. if ltb (parse256 b) 251 then some (parse256 b) else none;
  is_zero = λ s. s == 0;
  add = λ s t. (s + t) % 251;
  to_bytes = last_byte;
  compressed = λ s. some (2 ∷ []);
  hmac_sha512 = λ key b. some (last_byte 1 ++ last_byte 2);
  mnemonic_seed = λ words phrase. some (9 ∷ []);
}

numbers-IsModular : IsModular numbers 251 (λ s. s)
unfolding parse256
numbers-IsModular = record {
  reads = λ b s h. (ground (arith, h), ground (arith, h));
  adds = λ s t. refl;
  zero_tested = λ s h. ground (arith, h);
  written = λ s. omega arith;
}

abbrev derived : SecretKey
derived = record { bytes = last_byte 6 }

derived_key : derive numbers curve hx (text "words") (text "") 0 ≡ ok derived
unfolding derive parse256 secret_from_bytes
derived_key = refl

derive-IsDerived_example :
    IsDerived numbers 251 (λ s. s) numbers-IsModular curve hx (text "words") (text "") 0 derived
derive-IsDerived_example =
    derive-IsDerived numbers 251 (λ s. s) numbers-IsModular curve hx (text "words") (text "") 0
      derived (omega arith) derived_key
