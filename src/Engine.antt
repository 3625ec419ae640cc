-- ===== src/Engine.antt =====
-- src/engine.rs: the engine between the transports, the device's screens and the two stores. Here: its
-- state, identities and how a request names one; the child modules hold the requests and the screens'
-- calls. The clock, random draws, the app seed and file calls are arguments.
pub mod Policy
pub mod Screens
pub mod Requests
pub mod Grants
pub mod Consent
pub mod Prompted
pub mod Refused
pub mod Identities
pub mod Additions
pub mod Ciphers
use passport_nostr_signer.Prelude.{
  ℕ, Bool, true, false, not, Option, none, some, List, [], ◌∷◌, ◌++◌, Bytes, Text, text, length,
  take, leb, ◌==◌, if◌then◌else◌,
}
use passport_nostr_signer.Prelude.Result.{map_err, Result, ok, err, ◌>>=◌, ◌>>◌, reject_if, ok_or}
use passport_nostr_signer.External.{Hex, Curve, Json}
use passport_nostr_signer.Storage.{FilePath, Disk}
use passport_nostr_signer.Keys.{NostrError, SecretKey, PublicKey}
use passport_nostr_signer.Keystore
use passport_nostr_signer.Keystore.{Keystore, KeyInfo, get_info, reveal}
use passport_nostr_signer.Keystore.File.{KeystoreFile}
use passport_nostr_signer.Autosign.{AutoSignStore}
use passport_nostr_signer.Autosign.File
use passport_nostr_signer.Event
use passport_nostr_signer.Describe.{Show, keystore_text}
use passport_nostr_signer.Message.{
  ErrorCode, invalid_request, unknown_key, internal, Response, err_response,
}

-- `EngineConfig`, and the paths and the key that `Engine::new` is given.
pub record Config : Type 0 where
  pub keystore_path : FilePath
  pub autosign_path : FilePath
  pub autosign_mac_key : Option Bytes
  pub content_preview_chars : ℕ

-- What changes while the engine runs: the stores, the selected key and the files.
pub record Device : Type 0 where
  pub keystore : Keystore
  pub autosign : AutoSignStore
  pub selected : Option Bytes
  pub disk : Disk

-- `nip04` and `nip44`, with the random bytes that an encryption draws.
pub record Cipher : Type 0 where
  pub encrypt : SecretKey → PublicKey → Text → Bytes → Result Text NostrError
  pub decrypt : SecretKey → PublicKey → Text → Result Text NostrError

pub record Lib : Type 0 where
  pub keystore : Keystore.Lib
  pub keystore_json : Json KeystoreFile
  pub autosign : File.Lib
  pub event : Event.Lib
  pub to_value : Event.Event → Result (Unit {0}) Text
  pub nip04 : Cipher
  pub nip44 : Cipher
  pub show : Show
  pub encode_nsec : SecretKey → Result Text NostrError

pub record EngineError : Type 0 where
  pub code : ErrorCode
  pub msg : Text

abbrev pub no_such_uuid : EngineError
no_such_uuid = record { code = unknown_key; msg = text "no such uuid" }

-- `EngineError::into_response`
unfoldable pub into_response : EngineError → Text → Response
into_response e id = err_response id e.code e.msg

unfoldable pub is_live : Option KeyInfo → Bool
is_live none = false
is_live (some i) = not i.archived

abbrev pub ellipsis : ℕ
ellipsis = 8230

unfoldable pub truncate : Text → ℕ → Text
truncate s max_chars = if leb (length s) max_chars then s else take max_chars s ++ ellipsis ∷ []

module _ (lib : Lib) where
  unfoldable pub parse_uuid : Text → Result Bytes Text
  parse_uuid s = do
    bytes ← map_err (λ e. text "bad uuid hex: " ++ e) (lib.keystore.hx.decode s)
    reject_if (not (length bytes == 16))
        (text "uuid must be 16 bytes hex, got " ++ lib.show.decimal (length bytes))
    ok bytes

  -- The uuid that a request means, whether or not there is such a key.
  unfoldable pub named_uuid : Option Text → Device → Result Bytes EngineError
  named_uuid (some hex_str) d =
      map_err (λ m. record { code = invalid_request; msg = m }) (parse_uuid hex_str)
  named_uuid none d =
      ok_or d.selected
        (record { code = invalid_request; msg = text "no key selected and no uuid supplied" })

  unfoldable pub resolve_uuid : Option Text → Device → Result Bytes EngineError
  resolve_uuid uuid_hex d = do
    uuid ← named_uuid uuid_hex d
    reject_if (not (is_live (get_info uuid d.keystore))) no_such_uuid
    ok uuid

  -- `Engine::reveal`
  unfoldable pub reveal_key :
      Bytes → Result Bytes Keystore.Error → Device → Result (KeyInfo × SecretKey) EngineError
  reveal_key uuid seed d = do
    info ← ok_or (get_info uuid d.keystore) no_such_uuid
    sk ←
        map_err (λ e. record { code = internal; msg = keystore_text lib.show e })
          (reveal lib.keystore uuid seed d.keystore)
    ok (info, sk)
