-- ===== src/Engine/Prompted.antt =====
-- What the prompt handed to the approver says is what is signed.
use passport_nostr_signer.Prelude.{
  ◌≡◌, refl, sym, ◌∙◌, ap, inl, inr, Option, none, some, Bytes, Text, length, Bool-cases,
}
use passport_nostr_signer.Prelude.Result.{Result, ok, err, Result-cases}
use passport_nostr_signer.Keys.{public_from_bytes}
use passport_nostr_signer.Keystore.{get_info}
use passport_nostr_signer.Event
use passport_nostr_signer.Event.{Event}
use passport_nostr_signer.Event.Signed.{sign-IsSigned}
use passport_nostr_signer.Message
use passport_nostr_signer.Message.{
  Method, ping, list_keys, select_key, get_public_key, SignEventParams, Request, Value,
  user_rejected, body_ok, body_err, Response, ok_response, err_response,
}
use passport_nostr_signer.Approval
use passport_nostr_signer.Approval.{ApprovalRequest, SignPrompt, ApprovalDecision, approve, reject}
use passport_nostr_signer.Engine.{
  Config, Device, Lib, EngineError, is_live, into_response, truncate, parse_uuid,
}
use passport_nostr_signer.Engine.Policy.{Failure, reserve_auto_sign}
use passport_nostr_signer.Engine.Requests.{
  World, SignJob, Job, sign_job, ask, CipherKind, nip04, nip44, Direction, encrypting, decrypting,
  answer, answer_select, public_key_of, open_key, open_peer, sign_contents, sign_prompt,
  finish_sign, after_reserve, start_sign, handle_sign, handle_cipher, prompt_of, finish,
  handle_method, handle,
}

module _ (lib : Lib) (config : Config) where
  -- A wait for the user's decision on signing: the prompt is about the job that goes on afterwards.
  pub record IsSignWait (id : Text) (prompt : SignPrompt) (job : Job) : Type 0 where
    pub sign : SignJob
    pub same_job : job ≡ sign_job sign
    pub shown : prompt ≡ sign_prompt lib config sign
    pub same_id : sign.id ≡ id

  after_reserve_waits :
      (j : SignJob) (w : World) (reserved : Device × Result (Option Bytes) Failure) (d' : Device)
      (prompt : SignPrompt) (job : Job)
      → after_reserve lib config j w reserved ≡ ask d' (Approval.sign_event prompt) job
      → IsSignWait j.id prompt job
  unfolding after_reserve
  after_reserve_waits j w (d, ok (some rule_id)) d' prompt job h = absurd (cc h)
  after_reserve_waits j w (d, ok none) d' prompt job h = record {
    sign = j;
    same_job = cc h;
    shown = cc h;
    same_id = refl;
  }
  after_reserve_waits j w (d, err e) d' prompt job h = record {
    sign = j;
    same_job = cc h;
    shown = cc h;
    same_id = refl;
  }

  handle_sign_waits :
      (id : Text) (params : SignEventParams) (w : World) (d d' : Device) (prompt : SignPrompt)
      (job : Job)
      → handle_sign lib config id params w d ≡ ask d' (Approval.sign_event prompt) job
      → IsSignWait id prompt job
  unfolding handle_sign start_sign
  handle_sign_waits id params w d d' prompt job h =
      elim (Result-cases (open_key lib config params.uuid w d)) [
        | inl ((uuid, info, sk), e) ↦
            let j : SignJob = record {
              id = id;
              uuid = uuid;
              info = info;
              sk = sk;
              params = params;
            } in
            let reserved =
              reserve_auto_sign lib config uuid params.origin params.event.kind w.reserved_at
                w.reserve_save d in
            after_reserve_waits j w reserved d' prompt job (rw (e, handle_sign) at h)
        | inr (x, e) ↦ absurd (cc (rw (e, handle_sign) at h))
      ]

  prompt_of-ne :
      (direction : Direction) (kind : CipherKind) (p : Approval.CipherPrompt) (prompt : SignPrompt)
      → prompt_of lib config direction kind p ≡ Approval.sign_event prompt
      → ⊥
  prompt_of-ne encrypting nip04 p prompt h = cc h
  prompt_of-ne encrypting nip44 p prompt h = cc h
  prompt_of-ne decrypting nip04 p prompt h = cc h
  prompt_of-ne decrypting nip44 p prompt h = cc h

  handle_cipher_other :
      (id : Text) (direction : Direction) (kind : CipherKind) (uuid_hex origin : Option Text)
      (peer input : Text) (w : World) (d d' : Device) (prompt : SignPrompt) (job : Job)
      → handle_cipher lib config id direction kind uuid_hex origin peer input w d
        ≡ ask d' (Approval.sign_event prompt) job
      → ⊥
  unfolding handle_cipher
  handle_cipher_other id direction kind uuid_hex origin peer input w d d' prompt job h =
      elim (Result-cases (open_peer lib config uuid_hex peer w d)) [
        | inl ((info, sk, pk), e) ↦
            prompt_of-ne direction kind
              (record {
                origin = origin;
                key_label = info.label;
                peer_pubkey_hex = peer;
                preview = truncate input config.content_preview_chars;
              })
              prompt (cc (rw (e, handle_cipher) at h))
        | inr (x, e) ↦ cc (rw (e, handle_cipher) at h)
      ]

  answer_other :
      (d d' : Device) (id : Text) (o : Result Value EngineError) (prompt : ApprovalRequest)
      (job : Job)
      → answer d id o ≡ ask d' prompt job
      → ⊥
  answer_other d d' id (ok v) prompt job h = cc h
  answer_other d d' id (err e) prompt job h = cc h

  answer_select_other :
      (id uuid_hex : Text) (d d' : Device) (prompt : ApprovalRequest) (job : Job)
      → answer_select lib config id uuid_hex d ≡ ask d' prompt job
      → ⊥
  unfolding answer_select
  answer_select_other id uuid_hex d d' prompt job h =
      elim (Result-cases (parse_uuid lib uuid_hex)) [
        | inl (uuid, e) ↦ elim (Bool-cases (is_live (get_info uuid d.keystore))) [
          | inl live ↦ cc (rw (e, live, answer_select) at h)
          | inr dead ↦ cc (rw (e, dead, answer_select) at h)
        ]
        | inr (x, e) ↦ cc (rw (e, answer_select) at h)
      ]

  handle_method_waits :
      (id : Text) (m : Method) (w : World) (d d' : Device) (prompt : SignPrompt) (job : Job)
      → handle_method lib config id m w d ≡ ask d' (Approval.sign_event prompt) job
      → IsSignWait id prompt job
  unfolding handle_method
  handle_method_waits id ping w d d' prompt job h = absurd (cc h)
  handle_method_waits id list_keys w d d' prompt job h = absurd (cc h)
  handle_method_waits id (select_key p) w d d' prompt job h =
      absurd (answer_select_other id p.uuid d d' (Approval.sign_event prompt) job h)
  handle_method_waits id get_public_key w d d' prompt job h =
      absurd
        (answer_other d d' id (public_key_of lib config none d) (Approval.sign_event prompt) job h)
  handle_method_waits id (Message.sign_event p) w d d' prompt job h =
      handle_sign_waits id p w d d' prompt job h
  handle_method_waits id (Message.nip04_encrypt p) w d d' prompt job h = absurd (
      handle_cipher_other id encrypting nip04 p.uuid p.origin p.peer_pubkey p.plaintext w d d'
        prompt job h)
  handle_method_waits id (Message.nip04_decrypt p) w d d' prompt job h = absurd (
      handle_cipher_other id decrypting nip04 p.uuid p.origin p.peer_pubkey p.ciphertext w d d'
        prompt job h)
  handle_method_waits id (Message.nip44_encrypt p) w d d' prompt job h = absurd (
      handle_cipher_other id encrypting nip44 p.uuid p.origin p.peer_pubkey p.plaintext w d d'
        prompt job h)
  handle_method_waits id (Message.nip44_decrypt p) w d d' prompt job h = absurd (
      handle_cipher_other id decrypting nip44 p.uuid p.origin p.peer_pubkey p.ciphertext w d d'
        prompt job h)

  -- The contents of an event as a prompt gives them.
  pub record IsPrompted (prompt : SignPrompt) (e : Event) : Type 0 where
    pub kind : prompt.kind ≡ e.kind
    pub preview : prompt.content_preview ≡ truncate e.content config.content_preview_chars
    pub tags : prompt.tag_count ≡ length e.tags
    pub author : prompt.npub_hex ≡ lib.keystore.hx.encode e.pubkey.bytes

  sign_contents-IsPrompted :
      (j : SignJob) (w : World) (e : Event)
      → sign_contents lib config j w ≡ ok e
      → IsPrompted (sign_prompt lib config j) e
  unfolding sign_contents public_from_bytes sign_prompt
  sign_contents-IsPrompted j w e h = elim (Bool-cases (lib.event.curve.valid_public j.info.npub)) [
    | inl valid ↦
        let u : Event.UnsignedEvent = record {
          pubkey = record { bytes = j.info.npub };
          created_at = j.params.event.created_at;
          kind = j.params.event.kind;
          tags = j.params.event.tags;
          content = j.params.event.content;
        } in
        elim (Result-cases (Event.sign lib.event u j.sk w.randomness)) [
          | inl (x, s) ↦
              let same : x ≡ e = cc (rw (valid, s, sign_contents) at h) in
              let signed = sign-IsSigned lib.event u j.sk w.randomness e (s ∙ ap ok same) in
              record {
                kind = sym (ap (λ (v : Event.UnsignedEvent). v.kind) signed.contents);
                preview = sym (
                    ap
                      (λ (v : Event.UnsignedEvent). truncate v.content config.content_preview_chars)
                      signed.contents);
                tags = sym (ap (λ (v : Event.UnsignedEvent). length v.tags) signed.contents);
                author = sym (
                    ap (λ (v : Event.UnsignedEvent). lib.keystore.hx.encode v.pubkey.bytes)
                      signed.contents);
              }
          | inr (x, s) ↦ absurd (cc (rw (valid, s, sign_contents) at h))
        ]
    | inr invalid ↦ absurd (cc (rw (invalid, sign_contents) at h))
  ]

  finish_sign_signed :
      (j : SignJob) (w : World) (d : Device) (e : Event)
      → (finish_sign lib config j none w d).1.body ≡ body_ok (Message.signed e)
      → (sign_contents lib config j w ≡ ok e) × ((finish_sign lib config j none w d).1.id ≡ j.id)
  unfolding finish_sign into_response ok_response err_response
  finish_sign_signed j w d e h = elim (Result-cases (sign_contents lib config j w)) [
    | inl (x, s) ↦ elim (Result-cases (lib.to_value x)) [
      | inl (tt, v) ↦ (s ∙ ap ok (cc (rw (s, v, finish_sign) at h)), rw (s, v, finish_sign) refl)
      | inr (m, v) ↦ absurd (cc (rw (s, v, finish_sign) at h))
    ]
    | inr (x, s) ↦ absurd (cc (rw (s, finish_sign) at h))
  ]

  -- If a request makes the engine ask about a signature, and the decision is to approve, whatever has
  -- happened to the device in between, then an event in the response has the kind, the number of tags
  -- and the author of the prompt, and a content whose shortened form is the prompt's preview; the response
  -- is to that request.
  pub approved-IsPrompted :
      (req : Request) (w w' : World) (d d' later : Device) (prompt : SignPrompt) (job : Job)
      (e : Event)
      → handle lib config req w d ≡ ask d' (Approval.sign_event prompt) job
      → (finish lib config job approve w' later).1.body ≡ body_ok (Message.signed e)
      → IsPrompted prompt e × ((finish lib config job approve w' later).1.id ≡ req.id)
  unfolding handle finish
  approved-IsPrompted req w w' d d' later prompt job e asked signed =
      let wait = handle_method_waits req.id req.method w d d' prompt job asked in
      let goes : (finish lib config job approve w' later)
          ≡ finish_sign lib config wait.sign none w' later =
        ap (λ k. finish lib config k approve w' later) wait.same_job in
      let (made, replied) =
        finish_sign_signed wait.sign w' later e
          (sym (ap (λ (x : Device × Response). x.1.body) goes) ∙ signed) in
      (
        rw wait.shown (sign_contents-IsPrompted wait.sign w' e made),
        ap (λ (x : Device × Response). x.1.id) goes ∙ replied ∙ wait.same_id,
      )
