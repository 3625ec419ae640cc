-- ===== src/Nip06.antt =====
-- logic/nostr-core/src/nip06.rs: the secret key of an account, along m/44'/1237'/account'/0/0. Scalars of the
-- curve, HMAC-SHA512 and BIP-39 are the crates'. Wiping (`zeroize`) has no counterpart.

pub mod Accounts
pub mod Bip32
pub mod Child
use passport_nostr_signer.Prelude.{
  ℕ, ◌/◌, ◌%◌, ◌^◌, bit_or, Bool, not, Option, none, some, List, [], ◌∷◌, ◌++◌, Bytes, Text, text,
  length, take, drop, leb, ◌==◌, if◌then◌else◌,
}
use passport_nostr_signer.Prelude.Result.{Result, ok, err, ◌>>=◌, ◌>>◌, reject_if, ok_or}
use passport_nostr_signer.External.{Hex, Curve}
use passport_nostr_signer.Keys.{NostrError, nip06, SecretKey, secret_from_bytes}

-- `ScalarPrimitive::from_bytes`, the field of scalars, the compressed encoding of a scalar's public key,
-- HMAC-SHA512 keyed by its first argument, and `bip39::Mnemonic` up to its seed.
pub record Lib (Scalar : Type 0) : Type 0 where
  pub primitive : Bytes → Option Scalar
  pub is_zero : Scalar → Bool
  pub add : Scalar → Scalar → Scalar
  pub to_bytes : Scalar → Bytes
  pub compressed : Scalar → Option Bytes
  pub hmac_sha512 : Bytes → Bytes → Option Bytes
  pub mnemonic_seed : Text → Text → Option Bytes

abbrev pub hardened : ℕ
hardened = 0x80000000

abbrev pub nostr_coin : ℕ
nostr_coin = 1237

-- `index.to_be_bytes()`
unfoldable pub to_be_bytes : ℕ → Bytes
to_be_bytes n = n / 2 ^ 24 % 256 ∷ n / 2 ^ 16 % 256 ∷ n / 2 ^ 8 % 256 ∷ n % 256 ∷ []

abbrev pub path : ℕ → List ℕ
path account =
    bit_or 44 hardened ∷ bit_or nostr_coin hardened ∷ bit_or account hardened ∷ 0 ∷ 0 ∷ []

module _ {Scalar : Type 0} (lib : Lib Scalar) where
  unfoldable pub scalar_from_bytes : Bytes → Result Scalar NostrError
  scalar_from_bytes bytes = do
    s ← ok_or (lib.primitive bytes) (nip06 (text "scalar out of range"))
    reject_if (lib.is_zero s) (nip06 (text "zero scalar"))
    ok s

  unfoldable pub scalar_from_bytes_allow_zero : Bytes → Result Scalar NostrError
  scalar_from_bytes_allow_zero bytes = do
    reject_if (not (length bytes == 32)) (nip06 (text "bad scalar length"))
    ok_or (lib.primitive bytes) (nip06 (text "IL out of range"))

  unfoldable pub master_from_seed : Bytes → Result (Bytes × Bytes) NostrError
  unfolding scalar_from_bytes
  master_from_seed seed = do
    i ← ok_or (lib.hmac_sha512 (text "Bitcoin seed") seed) (nip06 (text "hmac init"))
    scalar_from_bytes (take 32 i) >> ok (take 32 i, take 32 (drop 32 i))

  -- What is hashed before the index: the secret key, or the public one.
  unfoldable pub child_prefix : Bytes → ℕ → Result Bytes NostrError
  unfolding scalar_from_bytes
  child_prefix parent_k index =
      let public = do
        parent_scalar ← scalar_from_bytes parent_k
        ok_or (lib.compressed parent_scalar) (nip06 (text "bad point"))
      in if leb hardened index then ok (0 ∷ parent_k) else public

  -- The new key from the two halves of the hash.
  unfoldable pub child_of : Bytes → Bytes → Result (Bytes × Bytes) NostrError
  unfolding scalar_from_bytes scalar_from_bytes_allow_zero
  child_of parent_k i = do
    il_scalar ← scalar_from_bytes_allow_zero (take 32 i)
    parent_scalar ← scalar_from_bytes parent_k
    let child_scalar = lib.add il_scalar parent_scalar
    reject_if (lib.is_zero child_scalar) (nip06 (text "derived zero key"))
    ok (lib.to_bytes child_scalar, take 32 (drop 32 i))

  -- The code makes the HMAC before the prefix: a missing one is the first error.
  unfoldable pub derive_child : Bytes → Bytes → ℕ → Result (Bytes × Bytes) NostrError
  unfolding child_prefix child_of to_be_bytes
  derive_child parent_k parent_c index = do
    ok_or (lib.hmac_sha512 parent_c []) (nip06 (text "hmac init"))
    prefix ← child_prefix parent_k index
    i ← ok_or (lib.hmac_sha512 parent_c (prefix ++ to_be_bytes index)) (nip06 (text "hmac init"))
    child_of parent_k i

  -- The loop over the path.
  unfoldable pub derive_path : List ℕ → Bytes → Bytes → Result (Bytes × Bytes) NostrError
  unfolding derive_child
  derive_path [] k c = ok (k, c)
  derive_path (index ∷ rest) k c = derive_child k c index >>= λ next. derive_path rest next.0 next.1

  unfoldable pub derive : Curve → Hex → Text → Text → ℕ → Result SecretKey NostrError
  unfolding master_from_seed derive_path
  derive curve hx mnemonic passphrase account = do
    seed ← ok_or (lib.mnemonic_seed mnemonic passphrase) (nip06 (text "invalid mnemonic"))
    master ← master_from_seed seed
    last ← derive_path (path account) master.0 master.1
    secret_from_bytes curve hx last.0
