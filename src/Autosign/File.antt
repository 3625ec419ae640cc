-- ===== src/Autosign/File.antt =====
-- src/autosign.rs: the policy file, with its MAC.
pub mod Mac
pub mod RoundTrip
use passport_nostr_signer.Prelude.{
  ℕ, Bool, true, false, not, Option, none, some, List, [], ◌∷◌, bit_or, bit_xor, Bytes, Text, text,
  length, ◌==◌, if◌then◌else◌,
}
use passport_nostr_signer.Prelude.Result.{map_err, Result, ok, err, ◌>>=◌, ◌>>◌, reject_if}
use passport_nostr_signer.External.{Hex, Json}
use passport_nostr_signer.Storage.{FilePath, Disk, SaveOutcome, SaveError, save_file}
use passport_nostr_signer.Autosign.{
  AutoSignRule, AutoSignAuditEntry, AutoSignStore, empty_store, format_version,
}

pub record AutoSignPayload : Type 0 where
  pub version : ℕ
  pub rules : List AutoSignRule
  pub audit : List AutoSignAuditEntry

pub record AutoSignFile : Type 0 where
  pub version : ℕ
  pub rules : List AutoSignRule
  pub audit : List AutoSignAuditEntry
  pub mac : Text

-- HMAC-SHA256, `hex`, and `serde_json` at the two types.
pub record Lib : Type 0 where
  pub hmac_sha256 : Bytes → Bytes → Bytes
  pub hex : Hex
  pub payload_json : Json AutoSignPayload
  pub file_json : Json AutoSignFile

pub data FileError : Type 0 where
  json : Text → FileError
  hex : Text → FileError
  unsupported_version : ℕ → FileError
  mac_failed : FileError

-- The loop of `constant_time_eq`: `diff |= a ^ b`.
unfoldable pub diff_from : ℕ → Bytes → Bytes → ℕ
diff_from diff (a ∷ as') (b ∷ bs) = diff_from (bit_or diff (bit_xor a b)) as' bs
diff_from diff _ _ = diff

unfoldable pub constant_time_eq : Bytes → Bytes → Bool
unfolding diff_from
constant_time_eq left right =
    if not (length left == length right) then false else (diff_from 0 left right == 0)

abbrev pub payload_of : AutoSignStore → AutoSignPayload
payload_of s = record { version = s.version; rules = s.rules; audit = s.audit }

abbrev pub file_of : AutoSignStore → Text → AutoSignFile
file_of s mac = record { version = s.version; rules = s.rules; audit = s.audit; mac = mac }

module _ (lib : Lib) where
  unfoldable pub mac_bytes : Bytes → AutoSignPayload → Result Bytes FileError
  mac_bytes mac_key payload = do
    bytes ← map_err FileError.json (lib.payload_json.print payload)
    ok (lib.hmac_sha256 mac_key bytes)

  -- `derive_mac_key`
  unfoldable pub derive_mac_key : Bytes → Bytes
  derive_mac_key app_seed = lib.hmac_sha256 app_seed (text "nostr-signer-v1/autosign/mac-key")

  unfoldable pub to_bytes : AutoSignStore → Bytes → Result Bytes FileError
  to_bytes s mac_key = do
    mac ← mac_bytes mac_key (payload_of s)
    map_err FileError.json (lib.file_json.print (file_of s (lib.hex.encode mac)))

  -- `from_bytes` from the parsed file on.
  unfoldable pub check_file : AutoSignFile → Bytes → Result AutoSignStore FileError
  check_file parsed mac_key = do
    reject_if (not (parsed.version == format_version)) (unsupported_version parsed.version)
    let payload : AutoSignPayload = record {
      version = parsed.version;
      rules = parsed.rules;
      audit = parsed.audit;
    }
    mac ← map_err FileError.hex (lib.hex.decode parsed.mac)
    expected ← mac_bytes mac_key payload
    reject_if (not (constant_time_eq mac expected)) mac_failed
    ok (record { version = payload.version; rules = payload.rules; audit = payload.audit })

  unfoldable pub from_bytes : Bytes → Bytes → Result AutoSignStore FileError
  from_bytes [] mac_key = ok empty_store
  from_bytes (b ∷ bs) mac_key = do
    parsed ← map_err FileError.json (lib.file_json.parse (b ∷ bs))
    check_file parsed mac_key

  unfoldable pub save :
      AutoSignStore
      → FilePath
      → Bytes
      → SaveOutcome
      → Disk
      → Disk × Result (Unit {0}) (SaveError FileError)
  save s path mac_key = save_file (text "autosign") path (to_bytes s mac_key)

  -- `load`, where `fs::read` succeeds on a file that exists.
  unfoldable pub load : FilePath → Bytes → Disk → Result AutoSignStore FileError
  load path mac_key disk = elim (disk path) [
    | none ↦ ok empty_store
    | some bytes ↦ from_bytes bytes mac_key
  ]
