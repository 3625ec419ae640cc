-- ===== src/Keystore.antt =====
-- logic/keystore/src/lib.rs: the stored identities, each with its secret key sealed under a key of
-- its own. Random draws and the app seed are arguments: the results of `getrandom` and `app_seed`.
pub mod Lookup
pub mod Kept
pub mod Invariant
pub mod Secrets
pub mod Vault
pub mod Holding
pub mod Refines
pub mod Master
pub mod File
use passport_nostr_signer.Prelude.{
  ℕ, Bool, true, false, not, Option, none, some, List, [], ◌∷◌, ◌++◌, map, Bytes, Text, text, eqb,
  length, any_of, find_first, update_first, is_some, if◌then◌else◌,
}
use passport_nostr_signer.Prelude.Result.{map_err, Result, ok, err, ◌>>=◌, ◌>>◌, reject_if, ok_or}
use passport_nostr_signer.External.{Hex, Curve}
use passport_nostr_signer.Keys.{NostrError, SecretKey, PublicKey, public_key, secret_from_slice}

pub data Error : Type 0 where
  io : Error
  json : Text → Error
  hex : Text → Error
  nostr : NostrError → Error
  aead : Text → Error
  unsupported_version : ℕ → Error
  unknown_key : Error
  duplicate_key : Error
  duplicate_pubkey : Error
  rng : Error

pub record KeyInfo : Type 0 where
  pub uuid : Bytes
  pub label : Text
  pub npub : Bytes
  pub created_at : ℕ
  pub color : ℕ
  pub archived : Bool

abbrev pub default_color : ℕ
default_color = 3

pub record EncryptedRecord : Type 0 where
  pub uuid : Bytes
  pub label : Text
  pub npub : Bytes
  pub nonce : Bytes
  pub ciphertext : Text
  pub created_at : ℕ
  pub color : ℕ
  pub archived : Bool

-- AES-256-GCM, HKDF-Expand over SHA-256, `hex` and the curve.
pub record Lib : Type 0 where
  pub curve : Curve
  pub hx : Hex
  pub hkdf_expand : Bytes → Bytes → ℕ → Bytes
  pub aead_encrypt : Bytes → Bytes → Bytes → Option Bytes
  pub aead_decrypt : Bytes → Bytes → Bytes → Option Bytes

-- `Keystore`, whose master key source is what `app_seed` gives at each call.
pub record Keystore : Type 0 where
  pub records : List EncryptedRecord

abbrev pub new : Keystore
new = record { records = [] }

abbrev pub info_of : EncryptedRecord → KeyInfo
info_of r = record {
  uuid = r.uuid;
  label = r.label;
  npub = r.npub;
  created_at = r.created_at;
  color = r.color;
  archived = r.archived;
}

abbrev pub has_uuid : Bytes → EncryptedRecord → Bool
has_uuid uuid r = eqb r.uuid uuid

abbrev pub has_npub : Bytes → EncryptedRecord → Bool
has_npub npub r = eqb r.npub npub

unfoldable pub list : Keystore → List KeyInfo
list ks = map info_of ks.records

abbrev pub map_option : {A B : Type 0} → (A → B) → Option A → Option B
map_option f none = none
map_option f (some a) = some (f a)

unfoldable pub get_info : Bytes → Keystore → Option KeyInfo
get_info uuid ks = map_option info_of (find_first (has_uuid uuid) ks.records)

unfoldable pub count : Keystore → ℕ
count ks = length ks.records

unfoldable pub lookup_by_npub : PublicKey → Keystore → Option KeyInfo
lookup_by_npub npub ks = map_option info_of (find_first (has_npub npub.bytes) ks.records)

-- Every change of an existing record: `iter_mut().find(..).ok_or(UnknownKey)?`, then a write.
unfoldable pub modify :
    Bytes → (EncryptedRecord → EncryptedRecord) → Keystore → Keystore × Result (Unit {0}) Error
modify uuid f ks =
    if is_some (find_first (has_uuid uuid) ks.records)
    then (record { records = update_first (has_uuid uuid) f ks.records }, ok tt)
    else (ks, err unknown_key)

unfoldable pub rename : Bytes → Text → Keystore → Keystore × Result (Unit {0}) Error
unfolding modify
rename uuid new_label = modify uuid (λ r. record r { label = new_label })

unfoldable pub set_color : Bytes → ℕ → Keystore → Keystore × Result (Unit {0}) Error
unfolding modify
set_color uuid color = modify uuid (λ r. record r { color = color })

unfoldable pub set_archived : Bytes → Bool → Keystore → Keystore × Result (Unit {0}) Error
unfolding modify
set_archived uuid archived = modify uuid (λ r. record r { archived = archived })

-- `records.remove(position)`: the first record with the uuid goes.
unfoldable pub remove_first : Bytes → List EncryptedRecord → List EncryptedRecord
remove_first uuid [] = []
remove_first uuid (r ∷ rs) =
    let rest = remove_first uuid rs in if has_uuid uuid r then rs else r ∷ rest

unfoldable pub remove : Bytes → Keystore → Keystore × Result (Unit {0}) Error
unfolding remove_first
remove uuid ks =
    if is_some (find_first (has_uuid uuid) ks.records)
    then (record { records = remove_first uuid ks.records }, ok tt)
    else (ks, err unknown_key)

module _ (lib : Lib) where
  unfoldable pub derive_key : Bytes → Bytes → Bytes
  derive_key master uuid = lib.hkdf_expand master (text "nostr-signer-v1/key/" ++ uuid) 32

  -- The encryption in `add`, from the nonce on.
  unfoldable pub seal_record :
      Text → SecretKey → ℕ → Bytes → Bytes → Result Bytes Error → Result EncryptedRecord Error
  unfolding derive_key
  seal_record label sk now uuid nonce seed = do
    master ← seed
    ct ←
        ok_or (lib.aead_encrypt (derive_key master uuid) nonce sk.bytes)
          (aead (text "encrypt failed"))
    ok (record {
      uuid = uuid;
      label = label;
      npub = (public_key lib.curve lib.hx sk).bytes;
      nonce = nonce;
      ciphertext = lib.hx.encode ct;
      created_at = now;
      color = default_color;
      archived = false;
    })

  -- What `add` pushes, or why it fails.
  unfoldable pub make_record :
      Text
      → SecretKey
      → ℕ
      → Option Bytes
      → Option Bytes
      → Result Bytes Error
      → Keystore
      → Result EncryptedRecord Error
  make_record label sk now uuid_draw nonce_draw seed ks = do
    reject_if (any_of (has_npub (public_key lib.curve lib.hx sk).bytes) ks.records) duplicate_pubkey
    uuid ← ok_or uuid_draw rng
    reject_if (any_of (has_uuid uuid) ks.records) duplicate_key
    nonce ← ok_or nonce_draw rng
    seal_record label sk now uuid nonce seed

  unfoldable pub push_record :
      Result EncryptedRecord Error → Keystore → Keystore × Result Bytes Error
  push_record (err e) ks = (ks, err e)
  push_record (ok r) ks = (record { records = ks.records ++ r ∷ [] }, ok r.uuid)

  unfoldable pub add :
      Text
      → SecretKey
      → ℕ
      → Option Bytes
      → Option Bytes
      → Result Bytes Error
      → Keystore
      → Keystore × Result Bytes Error
  unfolding make_record push_record
  add label sk now uuid_draw nonce_draw seed ks =
      push_record (make_record label sk now uuid_draw nonce_draw seed ks) ks

  -- `reveal` once the record is found.
  unfoldable pub open_record : Bytes → Result Bytes Error → EncryptedRecord → Result SecretKey Error
  unfolding derive_key
  open_record uuid seed r = do
    master ← seed
    ct ← map_err Error.hex (lib.hx.decode r.ciphertext)
    pt ←
        ok_or (lib.aead_decrypt (derive_key master uuid) r.nonce ct)
          (aead (text "decrypt failed (wrong master or tampered record)"))
    map_err Error.nostr (secret_from_slice lib.curve lib.hx pt)

  unfoldable pub reveal : Bytes → Result Bytes Error → Keystore → Result SecretKey Error
  unfolding open_record
  reveal uuid seed ks = do
    r ← ok_or (find_first (has_uuid uuid) ks.records) unknown_key
    open_record uuid seed r
