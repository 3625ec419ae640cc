-- ===== src/Event.antt =====
-- logic/nostr-core/src/event.rs: event ids, signing and verifying (NIP-01 over BIP-340).
pub mod Signed
use passport_nostr_signer.Prelude.{ℕ, Bool, not, Option, List, Bytes, Text, eqb, if◌then◌else◌}
use passport_nostr_signer.Prelude.Result.{Result, ok, err, ◌>>=◌, ◌>>◌, reject_if, ok_or}
use passport_nostr_signer.External.{Hex, Curve}
use passport_nostr_signer.Keys.{
  NostrError, invalid_key, event_id_mismatch, bad_signature, SecretKey, PublicKey, public_key,
  public_to_hex,
}

pub record Event : Type 0 where
  pub id : Bytes
  pub pubkey : PublicKey
  pub created_at : ℕ
  pub kind : ℕ
  pub tags : List (List Text)
  pub content : Text
  pub sig : Bytes

pub record UnsignedEvent : Type 0 where
  pub pubkey : PublicKey
  pub created_at : ℕ
  pub kind : ℕ
  pub tags : List (List Text)
  pub content : Text

-- The curve, `hex`, `serde_json::to_string` on the array [0, pubkey, created_at, kind, tags, content],
-- and SHA-256.
pub record Lib : Type 0 where
  pub curve : Curve
  pub hx : Hex
  pub print_array : Text → ℕ → ℕ → List (List Text) → Text → Result Bytes Text
  pub sha256 : Bytes → Bytes

abbrev pub from_json_error : {A : Type 0} → Result A Text → Result A NostrError
from_json_error (ok a) = ok a
from_json_error (err e) = err (NostrError.json e)

-- The copy of an event's contents that `verify` hashes again.
abbrev pub unsigned_of : Event → UnsignedEvent
unsigned_of e = record {
  pubkey = e.pubkey;
  created_at = e.created_at;
  kind = e.kind;
  tags = e.tags;
  content = e.content;
}

abbrev pub event_of : UnsignedEvent → Bytes → Bytes → Event
event_of u id sig = record {
  id = id;
  pubkey = u.pubkey;
  created_at = u.created_at;
  kind = u.kind;
  tags = u.tags;
  content = u.content;
  sig = sig;
}

module _ (lib : Lib) where
  -- `UnsignedEvent::id`
  unfoldable pub id_of : UnsignedEvent → Result Bytes NostrError
  id_of u = do
    serialised ← from_json_error (
        lib.print_array (public_to_hex lib.curve lib.hx u.pubkey) u.created_at u.kind u.tags
          u.content)
    ok (lib.sha256 serialised)

  -- `UnsignedEvent::sign`, with what `OsRng` gives.
  unfoldable pub sign : UnsignedEvent → SecretKey → Bytes → Result Event NostrError
  sign u sk randomness = do
    reject_if (not (eqb (public_key lib.curve lib.hx sk).bytes u.pubkey.bytes)) invalid_key
    id ← id_of u
    sig ← ok_or (lib.curve.sign_prehash sk.bytes id randomness) invalid_key
    ok (event_of u id sig)

  -- `Event::verify`
  unfoldable pub verify : Event → Result (Unit {0}) NostrError
  verify e = do
    expected ← id_of (unsigned_of e)
    reject_if (not (eqb expected e.id)) event_id_mismatch
    reject_if (not (lib.curve.valid_signature e.sig)) bad_signature
    reject_if (not (lib.curve.verify_prehash e.pubkey.bytes e.id e.sig)) bad_signature
