-- ===== src/Engine/Requests.antt =====
-- src/engine.rs: `handle`. A request either is answered at once or waits for the user's decision; the
-- engine holds no lock while it waits, so the device may change in between, and the rest of the request
-- is `finish` on whatever the device is by then.
use passport_nostr_signer.Prelude.{
  ℕ, not, Option, none, some, List, map, keep_if, Bytes, Text, text, length, if◌then◌else◌,
}
use passport_nostr_signer.Prelude.Result.{map_err, Result, ok, err, ◌>>=◌, ok_or}
use passport_nostr_signer.Storage.{SaveOutcome}
use passport_nostr_signer.Keys.{SecretKey, PublicKey, public_from_bytes, public_from_hex}
use passport_nostr_signer.Keystore
use passport_nostr_signer.Keystore.{KeyInfo, get_info}
use passport_nostr_signer.Event
use passport_nostr_signer.Event.{Event}
use passport_nostr_signer.Describe.{nostr_text}
use passport_nostr_signer.Message
use passport_nostr_signer.Message.{
  Method, ping, list_keys, select_key, get_public_key, SignEventParams, EncryptParams,
  DecryptParams, Request, ListedKey, Value, pong, invalid_request, unknown_key, user_rejected,
  internal, Response, ok_response, err_response,
}
use passport_nostr_signer.Approval
use passport_nostr_signer.Approval.{
  ApprovalRequest, SignPrompt, CipherPrompt, ApprovalDecision, approve, reject,
}
use passport_nostr_signer.Engine.{
  Config, Device, Cipher, Lib, EngineError, no_such_uuid, into_response, is_live, truncate,
  parse_uuid, resolve_uuid, reveal_key,
}
use passport_nostr_signer.Engine.Policy.{Failure, reserve_auto_sign, record_auto_signed}

-- What the world gives a request: the app seed, the clock at the reservation and at the audit entry,
-- the outcomes of the two saves, and the random bytes drawn.
pub record World : Type 0 where
  pub seed : Result Bytes Keystore.Error
  pub reserved_at : ℕ
  pub recorded_at : ℕ
  pub reserve_save : SaveOutcome
  pub record_save : SaveOutcome
  pub randomness : Bytes

pub data CipherKind : Type 0 where
  nip04 : CipherKind
  nip44 : CipherKind

pub data Direction : Type 0 where
  encrypting : Direction
  decrypting : Direction

-- What a request carries over the wait.
pub record SignJob : Type 0 where
  pub id : Text
  pub uuid : Bytes
  pub info : KeyInfo
  pub sk : SecretKey
  pub params : SignEventParams

pub record CipherJob : Type 0 where
  pub id : Text
  pub direction : Direction
  pub kind : CipherKind
  pub sk : SecretKey
  pub peer : PublicKey
  pub input : Text

pub data Job : Type 0 where
  sign_job : SignJob → Job
  cipher_job : CipherJob → Job

pub data Progress : Type 0 where
  done : Device → Response → Progress
  ask : Device → ApprovalRequest → Job → Progress

abbrev pub answer : Device → Text → Result Value EngineError → Progress
answer d id (ok v) = done d (ok_response id v)
answer d id (err e) = done d (into_response e id)

module _ (lib : Lib) (config : Config) where
  unfoldable pub listed : KeyInfo → ListedKey
  listed k = record {
    uuid = lib.keystore.hx.encode k.uuid;
    label = k.label;
    pubkey = lib.keystore.hx.encode k.npub;
    created_at = k.created_at;
  }

  unfoldable pub live_keys : Device → List ListedKey
  live_keys d = map listed (keep_if (λ (k : KeyInfo). not k.archived) (Keystore.list d.keystore))

  unfoldable pub answer_select : Text → Text → Device → Progress
  answer_select id uuid_hex d = elim (parse_uuid lib uuid_hex) [
    | err msg ↦ done d (err_response id invalid_request msg)
    | ok uuid ↦
        if not (is_live (get_info uuid d.keystore))
        then done d (err_response id unknown_key (text "no such uuid"))
        else done (record d { selected = some uuid }) (ok_response id (Message.selected uuid_hex))
  ]

  unfoldable pub public_key_of : Option Text → Device → Result Value EngineError
  public_key_of uuid_hex d = do
    uuid ← resolve_uuid lib uuid_hex d
    info ← ok_or (get_info uuid d.keystore) no_such_uuid
    ok (Message.pubkey (lib.keystore.hx.encode info.npub))

  -- The event that `sign_event` makes of the request's contents and the key's public key.
  unfoldable pub sign_contents : SignJob → World → Result Event EngineError
  sign_contents job w =
      map_err (λ e. record { code = internal; msg = nostr_text lib.show e })
        do
          pk ← public_from_bytes lib.event.curve lib.event.hx job.info.npub
          let unsigned : Event.UnsignedEvent = record {
            pubkey = pk;
            created_at = job.params.event.created_at;
            kind = job.params.event.kind;
            tags = job.params.event.tags;
            content = job.params.event.content;
          }
          Event.sign lib.event unsigned job.sk w.randomness

  -- The audit entry of an event that a rule signed; a failed save of it is only logged.
  unfoldable pub audited : SignJob → Event → Option Bytes → World → Device → Device
  audited job signed none w d = d
  audited job signed (some rule_id) w d =
      (record_auto_signed lib config rule_id job.uuid
        (elim job.params.origin [ none ↦ text "" | some o ↦ o ]) job.params.event.kind
        (lib.keystore.hx.encode signed.id) w.recorded_at w.record_save d).0

  -- `sign_event` from the decision on; `rule` is the rule that took the user's place.
  unfoldable pub finish_sign : SignJob → Option Bytes → World → Device → Device × Response
  finish_sign job rule w d = elim (sign_contents job w) [
    | err e ↦ (d, into_response e job.id)
    | ok signed ↦ (
      audited job signed rule w d,
      elim (lib.to_value signed) [
        | ok _ ↦ ok_response job.id (Message.signed signed)
        | err e ↦ err_response job.id internal e
      ],
    )
  ]

  unfoldable pub sign_prompt : SignJob → SignPrompt
  sign_prompt job = record {
    origin = job.params.origin;
    key_label = job.info.label;
    npub_hex = lib.keystore.hx.encode job.info.npub;
    kind = job.params.event.kind;
    content_preview = truncate job.params.event.content config.content_preview_chars;
    tag_count = length job.params.event.tags;
  }

  -- `resolve_uuid` and then `reveal`.
  unfoldable pub open_key :
      Option Text → World → Device → Result (Bytes × KeyInfo × SecretKey) EngineError
  open_key uuid_hex w d = do
    uuid ← resolve_uuid lib uuid_hex d
    opened ← reveal_key lib uuid w.seed d
    ok (uuid, opened.0, opened.1)

  -- `sign_event` once the reservation is made: a failed save of the policy counts as no rule.
  unfoldable pub after_reserve : SignJob → World → Device × Result (Option Bytes) Failure → Progress
  after_reserve job w (d, ok (some rule_id)) =
      let finished = finish_sign job (some rule_id) w d in done finished.0 finished.1
  after_reserve job w (d, ok none) = ask d (Approval.sign_event (sign_prompt job)) (sign_job job)
  after_reserve job w (d, err _) = ask d (Approval.sign_event (sign_prompt job)) (sign_job job)

  unfoldable pub start_sign : SignJob → World → Device → Progress
  start_sign job w d = after_reserve job w (
      reserve_auto_sign lib config job.uuid job.params.origin job.params.event.kind w.reserved_at
        w.reserve_save d)

  unfoldable pub handle_sign : Text → SignEventParams → World → Device → Progress
  handle_sign id params w d = elim (open_key params.uuid w d) [
    | err e ↦ done d (into_response e id)
    | ok (uuid, info, sk) ↦
        start_sign (record { id = id; uuid = uuid; info = info; sk = sk; params = params }) w d
  ]

  abbrev cipher_of : CipherKind → Cipher
  cipher_of nip04 = lib.nip04
  cipher_of nip44 = lib.nip44

  abbrev pub prompt_of : Direction → CipherKind → CipherPrompt → ApprovalRequest
  prompt_of encrypting nip04 p = Approval.nip04_encrypt p
  prompt_of encrypting nip44 p = Approval.nip44_encrypt p
  prompt_of decrypting nip04 p = Approval.nip04_decrypt p
  prompt_of decrypting nip44 p = Approval.nip44_decrypt p

  -- `encrypt` and `decrypt` up to the wait.
  unfoldable pub open_peer :
      Option Text → Text → World → Device → Result (KeyInfo × SecretKey × PublicKey) EngineError
  open_peer uuid_hex peer_hex w d = do
    uuid ← resolve_uuid lib uuid_hex d
    peer ←
        map_err (λ e. record { code = invalid_request; msg = nostr_text lib.show e })
          (public_from_hex lib.event.curve lib.event.hx peer_hex)
    opened ← reveal_key lib uuid w.seed d
    ok (opened.0, opened.1, peer)

  unfoldable pub handle_cipher :
      Text
      → Direction
      → CipherKind
      → Option Text
      → Option Text
      → Text
      → Text
      → World
      → Device
      → Progress
  handle_cipher id direction kind uuid_hex origin peer_hex input w d =
      elim (open_peer uuid_hex peer_hex w d) [
        | err e ↦ done d (into_response e id)
        | ok (info, sk, peer) ↦
            ask d
              (prompt_of direction kind (record {
                origin = origin;
                key_label = info.label;
                peer_pubkey_hex = peer_hex;
                preview = truncate input config.content_preview_chars;
              }))
              (cipher_job (record {
                id = id;
                direction = direction;
                kind = kind;
                sk = sk;
                peer = peer;
                input = input;
              }))
      ]

  -- The same, from the decision on.
  unfoldable pub run_cipher : CipherJob → World → Result Value EngineError
  run_cipher job w =
      map_err (λ e. record { code = internal; msg = nostr_text lib.show e })
        elim job.direction [
          | encrypting ↦ do
            s ← (cipher_of job.kind).encrypt job.sk job.peer job.input w.randomness
            ok (Message.ciphertext s)
          | decrypting ↦ do
            s ← (cipher_of job.kind).decrypt job.sk job.peer job.input
            ok (Message.plaintext s)
        ]

  unfoldable pub finish_cipher : CipherJob → World → Device → Device × Response
  finish_cipher job w d = elim (run_cipher job w) [
    | ok v ↦ (d, ok_response job.id v)
    | err e ↦ (d, into_response e job.id)
  ]

  abbrev pub rejection : Job → Response
  rejection (sign_job job) = err_response job.id user_rejected (text "user rejected sign request")
  rejection (cipher_job job) = err_response job.id user_rejected elim job.direction [
    | encrypting ↦ text "user rejected encryption"
    | decrypting ↦ text "user rejected decryption"
  ]

  -- The rest of a request that waited, on the decision.
  unfoldable pub finish : Job → ApprovalDecision → World → Device → Device × Response
  finish job reject w d = (d, rejection job)
  finish (sign_job job) approve w d = finish_sign job none w d
  finish (cipher_job job) approve w d = finish_cipher job w d

  -- `Engine::handle`, up to the wait: its `match` on the method.
  unfoldable pub handle_method : Text → Method → World → Device → Progress
  handle_method id ping w d = done d (ok_response id pong)
  handle_method id list_keys w d = done d (ok_response id (Message.keys (live_keys d)))
  handle_method id (select_key p) w d = answer_select id p.uuid d
  handle_method id get_public_key w d = answer d id (public_key_of none d)
  handle_method id (Message.sign_event p) w d = handle_sign id p w d
  handle_method id (Message.nip04_encrypt p) w d =
      handle_cipher id encrypting nip04 p.uuid p.origin p.peer_pubkey p.plaintext w d
  handle_method id (Message.nip04_decrypt p) w d =
      handle_cipher id decrypting nip04 p.uuid p.origin p.peer_pubkey p.ciphertext w d
  handle_method id (Message.nip44_encrypt p) w d =
      handle_cipher id encrypting nip44 p.uuid p.origin p.peer_pubkey p.plaintext w d
  handle_method id (Message.nip44_decrypt p) w d =
      handle_cipher id decrypting nip44 p.uuid p.origin p.peer_pubkey p.ciphertext w d

  unfoldable pub handle : Request → World → Device → Progress
  unfolding handle_method
  handle req w d = handle_method req.id req.method w d
