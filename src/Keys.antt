-- ===== src/Keys.antt =====
-- logic/nostr-core/src/keys.rs and error.rs: secret and public keys, 32 bytes each.
pub mod Valid
use passport_nostr_signer.Prelude.{
  ℕ, Bool, not, Option, none, some, List, [], ◌∷◌, Bytes, Text, length, ◌==◌, if◌then◌else◌,
}
use passport_nostr_signer.Prelude.Result.{Result, ok, err, ◌>>=◌, ◌>>◌, reject_if}
use passport_nostr_signer.External.{Hex, Curve}

-- `nostr_core::Error`; what another crate reports is given by its message.
pub data NostrError : Type 0 where
  hex : Text → NostrError
  key_length : ℕ → ℕ → NostrError
  invalid_key : NostrError
  bad_signature : NostrError
  json : Text → NostrError
  bech32 : Text → NostrError
  bech32_hrp : Text → Text → NostrError
  nip44 : Text → NostrError
  nip04 : Text → NostrError
  nip06 : Text → NostrError
  event_id_mismatch : NostrError
  base64 : Text → NostrError

pub record SecretKey : Type 0 where
  pub bytes : Bytes

pub record PublicKey : Type 0 where
  pub bytes : Bytes

abbrev pub from_hex_error : {A : Type 0} → Result A Text → Result A NostrError
from_hex_error (ok a) = ok a
from_hex_error (err e) = err (NostrError.hex e)

module _ (curve : Curve) (hx : Hex) where
  -- `SecretKey::from_bytes`
  unfoldable pub secret_from_bytes : Bytes → Result SecretKey NostrError
  secret_from_bytes b = if curve.valid_secret b then ok (record { bytes = b }) else err invalid_key

  -- `SecretKey::from_slice`
  unfoldable pub secret_from_slice : Bytes → Result SecretKey NostrError
  unfolding secret_from_bytes
  secret_from_slice b = do
    reject_if (not (length b == 32)) (key_length 32 (length b))
    secret_from_bytes b

  unfoldable pub secret_from_hex : Text → Result SecretKey NostrError
  unfolding secret_from_slice
  secret_from_hex s = do b ← from_hex_error (hx.decode s); secret_from_slice b

  -- `SecretKey::generate`, on what the calls of `getrandom` give; `none` if none of these ends it.
  unfoldable pub generate : List (Option Bytes) → Option (Result SecretKey NostrError)
  generate [] = none
  generate (none ∷ draws) = some (err invalid_key)
  generate (some buf ∷ draws) =
      let again = generate draws in
      if curve.valid_secret buf then some (ok (record { bytes = buf })) else again

  -- `SecretKey::public_key`
  unfoldable pub public_key : SecretKey → PublicKey
  public_key sk = record { bytes = curve.public_of sk.bytes }

  unfoldable pub secret_to_hex : SecretKey → Text
  secret_to_hex sk = hx.encode sk.bytes

  -- `PublicKey::from_bytes`
  unfoldable pub public_from_bytes : Bytes → Result PublicKey NostrError
  public_from_bytes b = if curve.valid_public b then ok (record { bytes = b }) else err invalid_key

  unfoldable pub public_from_slice : Bytes → Result PublicKey NostrError
  unfolding public_from_bytes
  public_from_slice b = do
    reject_if (not (length b == 32)) (key_length 32 (length b))
    public_from_bytes b

  unfoldable pub public_from_hex : Text → Result PublicKey NostrError
  unfolding public_from_slice
  public_from_hex s = do b ← from_hex_error (hx.decode s); public_from_slice b

  unfoldable pub public_to_hex : PublicKey → Text
  public_to_hex pk = hx.encode pk.bytes
