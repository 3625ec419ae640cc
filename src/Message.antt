-- ===== src/Message.antt =====
-- logic/protocol/src/message.rs: requests and responses. A `serde_json::Value` that the engine puts in
-- a response is one of `Value`'s constructors.
use passport_nostr_signer.Prelude.{ℕ, Option, List, Text}
use passport_nostr_signer.Event.{Event}

pub record SelectKeyParams : Type 0 where
  pub uuid : Text

pub record UnsignedEvent : Type 0 where
  pub pubkey : Option Text
  pub created_at : ℕ
  pub kind : ℕ
  pub tags : List (List Text)
  pub content : Text

pub record SignEventParams : Type 0 where
  pub uuid : Option Text
  pub origin : Option Text
  pub event : UnsignedEvent

pub record EncryptParams : Type 0 where
  pub uuid : Option Text
  pub origin : Option Text
  pub peer_pubkey : Text
  pub plaintext : Text

pub record DecryptParams : Type 0 where
  pub uuid : Option Text
  pub origin : Option Text
  pub peer_pubkey : Text
  pub ciphertext : Text

pub data Method : Type 0 where
  ping : Method
  list_keys : Method
  select_key : SelectKeyParams → Method
  get_public_key : Method
  sign_event : SignEventParams → Method
  nip04_encrypt : EncryptParams → Method
  nip04_decrypt : DecryptParams → Method
  nip44_encrypt : EncryptParams → Method
  nip44_decrypt : DecryptParams → Method

pub record Request : Type 0 where
  pub id : Text
  pub method : Method

-- `protocol::message::KeyInfo`
pub record ListedKey : Type 0 where
  pub uuid : Text
  pub label : Text
  pub pubkey : Text
  pub created_at : ℕ

-- The results of the engine, by the key of their JSON object.
pub data Value : Type 0 where
  pong : Value
  keys : List ListedKey → Value
  selected : Text → Value
  pubkey : Text → Value
  signed : Event → Value
  ciphertext : Text → Value
  plaintext : Text → Value

pub data ErrorCode : Type 0 where
  invalid_request : ErrorCode
  unknown_method : ErrorCode
  unknown_key : ErrorCode
  user_rejected : ErrorCode
  timeout : ErrorCode
  not_unlocked : ErrorCode
  internal : ErrorCode

unfoldable pub as_i32 : ErrorCode → ℕ
as_i32 invalid_request = 1
as_i32 unknown_method = 2
as_i32 unknown_key = 3
as_i32 user_rejected = 4
as_i32 timeout = 5
as_i32 not_unlocked = 6
as_i32 internal = 99

pub record ErrorPayload : Type 0 where
  pub code : ℕ
  pub message : Text

pub data ResponseBody : Type 0 where
  body_ok : Value → ResponseBody
  body_err : ErrorPayload → ResponseBody

pub record Response : Type 0 where
  pub id : Text
  pub body : ResponseBody

-- `Response::ok` and `Response::err`
unfoldable pub ok_response : Text → Value → Response
ok_response id result = record { id = id; body = body_ok result }

unfoldable pub err_response : Text → ErrorCode → Text → Response
unfolding as_i32
err_response id code message = record {
  id = id;
  body = body_err (record { code = as_i32 code; message = message });
}
