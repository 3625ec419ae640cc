-- ===== src/Tests/Samples.antt =====
-- Small stand-ins for the crates, and a device with two keys and a rule.
use passport_nostr_signer.Prelude.{
  ℕ, Bool, true, false, Option, none, some, [], ◌∷◌, ◌++◌, Bytes, Text, text, length, replicate,
  eqb, ◌==◌,
}
use passport_nostr_signer.Prelude.Result.{ok, err}
use passport_nostr_signer.External.{Hex, Curve, Json}
use passport_nostr_signer.Storage.{FilePath, SaveOutcome, written}
use passport_nostr_signer.Keys.{SecretKey}
use passport_nostr_signer.Keystore
use passport_nostr_signer.Keystore.{EncryptedRecord, Keystore}
use passport_nostr_signer.Keystore.File.{KeystoreFile}
use passport_nostr_signer.Autosign.{AutoSignRule, AutoSignStore}
use passport_nostr_signer.Autosign.File
use passport_nostr_signer.Autosign.File.{AutoSignPayload, AutoSignFile}
use passport_nostr_signer.Event
use passport_nostr_signer.Message.{Request, SignEventParams, UnsignedEvent, EncryptParams}
use passport_nostr_signer.Message
use passport_nostr_signer.Engine
use passport_nostr_signer.Engine.{Config, Device, Cipher}
use passport_nostr_signer.Engine.Requests.{World}

abbrev pub curve : Curve
curve = record {
  valid_secret = λ b. length b == 32;
  valid_public = λ b. length b == 32;
  public_of = λ b. b;
  sign_prehash = λ sk id r. some id;
  valid_signature = λ s. true;
  verify_prehash = λ pk id sig. eqb id sig;
}

abbrev pub hx : Hex
hx = record { encode = λ b. b; decode = λ t. ok t }

abbrev pub keystore_lib : Keystore.Lib
keystore_lib = record {
  curve = curve;
  hx = hx;
  hkdf_expand = λ m i n. m;
  aead_encrypt = λ k n p. some p;
  aead_decrypt = λ k n c. some c;
}

abbrev pub event_lib : Event.Lib
event_lib = record { curve = curve; hx = hx; print_array = λ pk t k tags c. ok c; sha256 = λ b. b }

abbrev pub secret_a : SecretKey
secret_a = record { bytes = replicate 32 7 }

abbrev pub secret_b : SecretKey
secret_b = record { bytes = replicate 32 8 }

abbrev pub uuid_a : Bytes
uuid_a = replicate 16 1

abbrev pub uuid_b : Bytes
uuid_b = replicate 16 2

abbrev stored_key : Bytes → SecretKey → Bool → EncryptedRecord
stored_key uuid sk archived = record {
  uuid = uuid;
  label = text "key";
  npub = sk.bytes;
  nonce = replicate 12 0;
  ciphertext = sk.bytes;
  created_at = 1;
  color = 3;
  archived = archived;
}

-- One live key and one archived key.
abbrev pub two_keys : Keystore
two_keys = record {
  records = stored_key uuid_a secret_a false ∷ stored_key uuid_b secret_b true ∷ [];
}

abbrev pub origin_a : Text
origin_a = text "https://a.io"

abbrev pub rule_a : AutoSignRule
rule_a = record {
  id = replicate 16 5;
  key_uuid = uuid_a;
  origin = origin_a;
  kind = 1;
  enabled = true;
  expires_at = 0;
  max_per_hour = 2;
  used_in_window = 0;
  window_started_at = 50;
  total_uses = 0;
  created_at = 50;
  last_used_at = 0;
}

abbrev pub one_rule : AutoSignStore
one_rule = record { version = 1; rules = rule_a ∷ []; audit = [] }

abbrev pub mac_key : Bytes
mac_key = replicate 32 4

abbrev pub payload_json : Json AutoSignPayload
payload_json = record {
  print = λ p. ok (p.version ∷ length p.rules ∷ []);
  parse = λ b. err (text "unused");
}

-- A reader that knows one file.
abbrev pub known_json : {A : Type 0} → A → Json A
known_json a = record { print = λ x. ok (1 ∷ []); parse = λ b. ok a }

abbrev pub policy_file : AutoSignFile
policy_file = record { version = 1; rules = rule_a ∷ []; audit = []; mac = mac_key ++ 1 ∷ 1 ∷ [] }

abbrev pub policy_lib : File.Lib
policy_lib = record {
  hmac_sha256 = λ k m. k ++ m;
  hex = hx;
  payload_json = payload_json;
  file_json = known_json policy_file;
}

abbrev pub keystore_json : Json KeystoreFile
keystore_json = known_json (record { version = 1; records = two_keys.records })

abbrev pub plain_cipher : Cipher
plain_cipher = record { encrypt = λ sk pk t r. ok t; decrypt = λ sk pk t. ok t }

abbrev pub lib : Engine.Lib
lib = record {
  keystore = keystore_lib;
  keystore_json = keystore_json;
  autosign = policy_lib;
  event = event_lib;
  to_value = λ e. ok tt;
  nip04 = plain_cipher;
  nip44 = plain_cipher;
  show = record { decimal = λ n. n ∷ []; io_error = text "io" };
  encode_nsec = λ sk. ok sk.bytes;
}

abbrev pub path_to : Text → FilePath
path_to name = record { parent = none; name = some name }

abbrev pub config : Config
config = record {
  keystore_path = path_to (1 ∷ []);
  autosign_path = path_to (2 ∷ []);
  autosign_mac_key = some mac_key;
  content_preview_chars = 140;
}

abbrev pub device : Device
device = record {
  keystore = two_keys;
  autosign = one_rule;
  selected = some uuid_a;
  disk = λ p. none;
}

abbrev pub saves : SaveOutcome
saves = record { dir_created = true; write = written; renamed = true }

abbrev pub world : World
world = record {
  seed = ok (replicate 32 9);
  reserved_at = 100;
  recorded_at = 101;
  reserve_save = saves;
  record_save = saves;
  randomness = replicate 32 3;
}

abbrev pub note_of_kind : ℕ → UnsignedEvent
note_of_kind kind = record {
  pubkey = none;
  created_at = 99;
  kind = kind;
  tags = [];
  content = text "gm";
}

abbrev pub sign_note : ℕ → Option Text → Request
sign_note kind uuid = record {
  id = text "1";
  method =
      Message.sign_event
        (record { uuid = uuid; origin = some origin_a; event = note_of_kind kind });
}
