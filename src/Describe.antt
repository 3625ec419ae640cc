-- ===== src/Describe.antt =====
-- The messages of logic/nostr-core/src/error.rs and logic/keystore/src/lib.rs (`Error`). The decimal
-- digits of a number and the message of a `std::io::Error` come from the standard library.
use passport_nostr_signer.Prelude.{ℕ, ◌++◌, Text, text}
use passport_nostr_signer.Keys.{
  NostrError, key_length, invalid_key, bad_signature, bech32, bech32_hrp, nip44, nip04, nip06,
  event_id_mismatch, base64,
}
use passport_nostr_signer.Keystore.{
  Error, io, nostr, aead, unsupported_version, unknown_key, duplicate_key, duplicate_pubkey, rng,
}

pub record Show : Type 0 where
  pub decimal : ℕ → Text
  pub io_error : Text

module _ (show : Show) where
  unfoldable pub nostr_text : NostrError → Text
  nostr_text (NostrError.hex e) = text "invalid hex: " ++ e
  nostr_text (key_length expected got) =
      text "invalid key length: expected "
      ++ show.decimal expected
      ++ text ", got "
      ++ show.decimal got
  nostr_text invalid_key = text "invalid secp256k1 key"
  nostr_text bad_signature = text "signature verification failed"
  nostr_text (NostrError.json e) = text "json: " ++ e
  nostr_text (bech32 e) = text "bech32: " ++ e
  nostr_text (bech32_hrp expected got) =
      text "wrong bech32 hrp: expected " ++ expected ++ text ", got " ++ got
  nostr_text (nip44 e) = text "nip-44: " ++ e
  nostr_text (nip04 e) = text "nip-04: " ++ e
  nostr_text (nip06 e) = text "nip-06: " ++ e
  nostr_text event_id_mismatch = text "event id mismatch"
  nostr_text (base64 e) = text "base64: " ++ e

  unfoldable pub keystore_text : Error → Text
  unfolding nostr_text
  keystore_text io = text "io: " ++ show.io_error
  keystore_text (Error.json e) = text "json: " ++ e
  keystore_text (Error.hex e) = text "hex: " ++ e
  keystore_text (nostr e) = text "nostr: " ++ nostr_text e
  keystore_text (aead e) = text "aead: " ++ e
  keystore_text (unsupported_version v) =
      text "unsupported keystore format version: " ++ show.decimal v
  keystore_text unknown_key = text "unknown key uuid"
  keystore_text duplicate_key = text "duplicate key uuid"
  keystore_text duplicate_pubkey = text "duplicate public key"
  keystore_text rng = text "rng failed"
