-- ===== src/Transport/Replies.antt =====
-- src/transport/websocket.rs and src/engine.rs: which request a reply belongs to.
use passport_nostr_signer.Prelude.{
  ◌≡◌, refl, ◌∙◌, inl, inr, Option, none, some, Bool-cases, Bytes, Text,
}
use passport_nostr_signer.Prelude.Result.{Result, ok, err, Result-cases}
use passport_nostr_signer.Approval.{ApprovalDecision, approve, reject}
use passport_nostr_signer.Message
use passport_nostr_signer.Message.{
  Method, Request, SignEventParams, Response, Value, ok_response, err_response,
}
use passport_nostr_signer.Keystore.{get_info}
use passport_nostr_signer.Engine
use passport_nostr_signer.Engine.{Config, Device, EngineError, is_live, parse_uuid, into_response}
use passport_nostr_signer.Engine.Policy.{Failure, reserve_auto_sign}
use passport_nostr_signer.Engine.Requests.{
  World, Progress, done, ask, Job, SignJob, CipherJob, CipherKind, Direction, encrypting,
  decrypting, sign_job, cipher_job, answer, answer_select, public_key_of, handle, handle_method,
  handle_sign, handle_cipher, start_sign, after_reserve, finish, finish_sign, finish_cipher, nip04,
  nip44, sign_contents, run_cipher, open_key, open_peer,
}
use passport_nostr_signer.Transport.{Lib, Turn, decided, handle_await, dispatch_text, id_or_0}

-- Whatever comes of it answers this request.
abbrev pub job_id : Job → Text
job_id (sign_job job) = job.id
job_id (cipher_job job) = job.id

abbrev Carries : Text → Progress → Type 0
Carries id (done d r) = r.id ≡ id
Carries id (ask d prompt job) = job_id job ≡ id

module _ (lib : Engine.Lib) (config : Config) where
  finish_sign-id :
      (job : SignJob) (rule : Option Bytes) (w : World) (d : Device)
      → (finish_sign lib config job rule w d).1.id ≡ job.id
  unfolding finish_sign into_response ok_response err_response
  finish_sign-id job rule w d = elim (Result-cases (sign_contents lib config job w)) [
    | inl (signed, e) ↦ elim (Result-cases (lib.to_value signed)) [
      | inl (u, f) ↦ rw (e, f, finish_sign) refl
      | inr (x, f) ↦ rw (e, f, finish_sign) refl
    ]
    | inr (x, e) ↦ rw (e, finish_sign) refl
  ]

  finish_cipher-id :
      (job : CipherJob) (w : World) (d : Device) → (finish_cipher lib config job w d).1.id ≡ job.id
  unfolding finish_cipher into_response ok_response err_response
  finish_cipher-id job w d = elim (Result-cases (run_cipher lib config job w)) [
    | inl (v, e) ↦ rw (e, finish_cipher) refl
    | inr (x, e) ↦ rw (e, finish_cipher) refl
  ]

  finish-id :
      (job : Job) (v : ApprovalDecision) (w : World) (d : Device)
      → (finish lib config job v w d).1.id ≡ job_id job
  unfolding finish err_response
  finish-id (sign_job job) reject w d = refl
  finish-id (cipher_job job) reject w d = refl
  finish-id (sign_job job) approve w d = finish_sign-id job none w d
  finish-id (cipher_job job) approve w d = finish_cipher-id job w d

  answer-Carries :
      (d : Device) (id : Text) (r : Result Value EngineError) → Carries id (answer d id r)
  unfolding into_response ok_response err_response
  answer-Carries d id (ok v) = refl
  answer-Carries d id (err e) = refl

  after_reserve-Carries :
      (job : SignJob) (w : World) (x : Device × Result (Option Bytes) Failure)
      → Carries job.id (after_reserve lib config job w x)
  unfolding after_reserve
  after_reserve-Carries job w (d, ok none) = refl
  after_reserve-Carries job w (d, ok (some rule)) = finish_sign-id job (some rule) w d
  after_reserve-Carries job w (d, err e) = refl

  handle_sign-Carries :
      (id : Text) (p : SignEventParams) (w : World) (d : Device)
      → Carries id (handle_sign lib config id p w d)
  unfolding handle_sign start_sign into_response err_response
  handle_sign-Carries id p w d = elim (Result-cases (open_key lib config p.uuid w d)) [
    | inl ((uuid, info, sk), e) ↦
        let job : SignJob = record { id = id; uuid = uuid; info = info; sk = sk; params = p } in
        rw (e, handle_sign)
          (after_reserve-Carries job w (
            reserve_auto_sign lib config uuid p.origin p.event.kind w.reserved_at w.reserve_save d))
    | inr (x, e) ↦ rw (e, handle_sign) refl
  ]

  handle_cipher-Carries :
      (id : Text) (dir : Direction) (kind : CipherKind) (uuid origin : Option Text)
      (peer input : Text) (w : World) (d : Device)
      → Carries id (handle_cipher lib config id dir kind uuid origin peer input w d)
  unfolding handle_cipher into_response err_response
  handle_cipher-Carries id dir kind uuid origin peer input w d =
      elim (Result-cases (open_peer lib config uuid peer w d)) [
        | inl ((info, sk, pk), e) ↦ rw (e, handle_cipher) refl
        | inr (x, e) ↦ rw (e, handle_cipher) refl
      ]

  answer_select-Carries :
      (id uuid_hex : Text) (d : Device) → Carries id (answer_select lib config id uuid_hex d)
  unfolding answer_select ok_response err_response
  answer_select-Carries id uuid_hex d = elim (Result-cases (parse_uuid lib uuid_hex)) [
    | inl (uuid, e) ↦ elim (Bool-cases (is_live (get_info uuid d.keystore))) [
      | inl live ↦ rw (e, live, answer_select) refl
      | inr dead ↦ rw (e, dead, answer_select) refl
    ]
    | inr (x, e) ↦ rw (e, answer_select) refl
  ]

  handle_method-Carries :
      (id : Text) (m : Method) (w : World) (d : Device)
      → Carries id (handle_method lib config id m w d)
  unfolding handle_method ok_response
  handle_method-Carries id Message.ping w d = refl
  handle_method-Carries id Message.list_keys w d = refl
  handle_method-Carries id (Message.select_key p) w d = answer_select-Carries id p.uuid d
  handle_method-Carries id Message.get_public_key w d =
      answer-Carries d id (public_key_of lib config none d)
  handle_method-Carries id (Message.sign_event p) w d = handle_sign-Carries id p w d
  handle_method-Carries id (Message.nip04_encrypt p) w d =
      handle_cipher-Carries id encrypting nip04 p.uuid p.origin p.peer_pubkey p.plaintext w d
  handle_method-Carries id (Message.nip04_decrypt p) w d =
      handle_cipher-Carries id decrypting nip04 p.uuid p.origin p.peer_pubkey p.ciphertext w d
  handle_method-Carries id (Message.nip44_encrypt p) w d =
      handle_cipher-Carries id encrypting nip44 p.uuid p.origin p.peer_pubkey p.plaintext w d
  handle_method-Carries id (Message.nip44_decrypt p) w d =
      handle_cipher-Carries id decrypting nip44 p.uuid p.origin p.peer_pubkey p.ciphertext w d

  decided-Carries :
      (id : Text) (p : Progress) (turn : Turn)
      → Carries id p
      → (decided lib config p turn).1.id ≡ id
  unfolding decided
  decided-Carries id (done d r) turn h = h
  decided-Carries id (ask d prompt job) turn h =
      finish-id job turn.decision turn.world (turn.meanwhile d) ∙ h

  handle_await-id :
      (req : Request) (turn : Turn) (d : Device)
      → (handle_await lib config req turn d).1.id ≡ req.id
  unfolding handle_await handle
  handle_await-id req turn d =
      decided-Carries req.id (handle lib config req turn.world d) turn
        (handle_method-Carries req.id req.method turn.world d)

module _ (engine : Engine.Lib) (config : Config) (lib : Lib) where
  -- The id that a reply to this text must have.
  unfoldable pub expected_id : Text → Text
  expected_id t = elim (lib.parse t) [ ok req ↦ req.id | err _ ↦ id_or_0 (lib.id_of t) ]

  -- A text message is answered with the id of its request, whatever the request is, whatever the user
  -- decides and whatever happens to the device meanwhile; what is no request is answered with the id
  -- that it holds, or else 0.
  pub dispatch_text-id :
      (t : Text) (turn : Turn) (d : Device)
      → (dispatch_text engine config lib t turn d).1.id ≡ expected_id t
  unfolding dispatch_text err_response expected_id
  dispatch_text-id t turn d = elim (Result-cases (lib.parse t)) [
    | inl (req, e) ↦ rw (e, expected_id) (handle_await-id engine config req turn d)
    | inr (x, e) ↦ rw (e, expected_id) refl
  ]
