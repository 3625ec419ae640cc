-- ===== src/Engine/Consent.antt =====
-- Nothing that the key makes leaves the device without the user's consent or a rule's.
use passport_nostr_signer.Prelude.{
  ◌≡◌, refl, sym, ◌∙◌, ap, subst, text, Bool, true, false, inl, inr, Option, none, some, arith,
  Bytes, Text, Bool-cases,
}
use passport_nostr_signer.Prelude.Result.{Result, ok, err, Result-cases}
use passport_nostr_signer.Keystore.{get_info}
use passport_nostr_signer.Message
use passport_nostr_signer.Message.{
  Method, ping, list_keys, select_key, get_public_key, SignEventParams, Request, Value, pong,
  user_rejected, ResponseBody, body_ok, body_err, ErrorPayload, Response, ok_response, err_response,
}
use passport_nostr_signer.Engine.{
  Config, Device, Lib, EngineError, is_live, into_response, reveal_key, resolve_uuid, parse_uuid,
}
use passport_nostr_signer.Engine.Policy.{Failure, reserve_auto_sign}
use passport_nostr_signer.Engine.Grants.{
  IsGranted, IsStored, IsGranted-later, record_auto_signed-IsStored, reserve_auto_sign-IsGranted,
}
use passport_nostr_signer.Engine.Requests.{
  World, SignJob, Progress, done, ask, CipherKind, Direction, encrypting, decrypting, answer_select,
  public_key_of, open_key, open_peer, sign_contents, audited, finish_sign, after_reserve,
  start_sign, handle_sign, handle_cipher, answer, handle_method, handle, nip04, nip44,
}

-- The values that a secret key was used for.
unfoldable pub is_protected : Value → Bool
is_protected (Message.signed e) = true
is_protected (Message.ciphertext s) = true
is_protected (Message.plaintext s) = true
is_protected _ = false

-- A response with such a value.
unfoldable pub yields : Response → Bool
unfolding is_protected
yields r = elim r.body [ body_ok v ↦ is_protected v | body_err e ↦ false ]

-- A request that was answered at once with such a value.
unfoldable pub yields_at_once : Progress → Bool
unfolding yields
yields_at_once (done d r) = yields r
yields_at_once (ask d prompt job) = false

module _ (lib : Lib) (config : Config) where
  -- The consent that a rule gave in place of the user's; d' is the device afterwards.
  pub record IsPermitted (req : Request) (w : World) (d d' : Device) : Type 0 where
    pub params : SignEventParams
    pub is_sign : req.method ≡ Message.sign_event params
    pub uuid : Bytes
    pub named : resolve_uuid lib params.uuid d ≡ ok uuid
    pub rule_id : Bytes
    pub granted :
        IsGranted lib config uuid params.origin params.event.kind w.reserved_at d d' rule_id

  after_reserve_granted :
      (job : SignJob) (w : World) (reserved : Device × Result (Option Bytes) Failure) (d' : Device)
      (r : Response)
      → after_reserve lib config job w reserved ≡ done d' r
      → (rule_id : Bytes) × (reserved.1 ≡ ok (some rule_id))
        × (d' ≡ (finish_sign lib config job (some rule_id) w reserved.0).0)
  unfolding after_reserve
  after_reserve_granted job w (d, ok (some rule_id)) d' r h = (rule_id, refl, cc h)
  after_reserve_granted job w (d, ok none) d' r h = absurd (cc h)
  after_reserve_granted job w (d, err e) d' r h = absurd (cc h)

  finish_sign-IsStored :
      (job : SignJob) (rule_id : Bytes) (w : World) (d : Device)
      → IsStored lib config d
      → let d' = (finish_sign lib config job (some rule_id) w d).0 in
        IsStored lib config d' × (d'.autosign.rules ≡ d.autosign.rules)
  unfolding finish_sign audited
  finish_sign-IsStored job rule_id w d stored =
      elim (Result-cases (sign_contents lib config job w)) [
        | inl (signed, e) ↦
            rw (e, finish_sign)
              (record_auto_signed-IsStored lib config rule_id job.uuid
                (elim job.params.origin [ none ↦ text "" | some o ↦ o ]) job.params.event.kind
                (lib.keystore.hx.encode signed.id) w.recorded_at w.record_save d stored)
        | inr (x, e) ↦ rw (e, finish_sign) (stored, refl)
      ]

  start_sign-IsGranted :
      (job : SignJob) (w : World) (d d' : Device) (r : Response)
      → start_sign lib config job w d ≡ done d' r
      → (rule_id : Bytes) × IsGranted lib config job.uuid job.params.origin job.params.event.kind
          w.reserved_at d d' rule_id
  unfolding start_sign
  start_sign-IsGranted job w d d' r h =
      let reserved =
        reserve_auto_sign lib config job.uuid job.params.origin job.params.event.kind w.reserved_at
          w.reserve_save d in
      let (rule_id, o, is) = after_reserve_granted job w reserved d' r h in
      let g =
        reserve_auto_sign-IsGranted lib config job.uuid job.params.origin job.params.event.kind
          w.reserved_at w.reserve_save d rule_id o in
      let (stored, same) = finish_sign-IsStored job rule_id w reserved.0 g.stored in
      let finished = (finish_sign lib config job (some rule_id) w reserved.0).0 in
      (
        rule_id,
        subst
            (λ x.
              IsGranted lib config job.uuid job.params.origin job.params.event.kind w.reserved_at d
                x rule_id)
            (sym is)
            (IsGranted-later lib config job.uuid job.params.origin job.params.event.kind
              w.reserved_at d reserved.0 finished rule_id g stored same),
      )

  handle_sign-IsGranted :
      (id : Text) (params : SignEventParams) (w : World) (d d' : Device) (r : Response)
      → handle_sign lib config id params w d ≡ done d' r
      → yields r ≡ true
      → (uuid : Bytes) × (resolve_uuid lib params.uuid d ≡ ok uuid)
        × (rule_id : Bytes) × IsGranted lib config uuid params.origin params.event.kind
            w.reserved_at d d' rule_id
  unfolding handle_sign open_key yields into_response err_response yields_at_once
  handle_sign-IsGranted id params w d d' r h y =
      elim (Result-cases (resolve_uuid lib params.uuid d)) [
        | inl (uuid, named) ↦ elim (Result-cases (reveal_key lib uuid w.seed d)) [
          | inl (opened, e) ↦
              let job : SignJob = record {
                id = id;
                uuid = uuid;
                info = opened.0;
                sk = opened.1;
                params = params;
              } in
              let (rule_id, granted) =
                start_sign-IsGranted job w d d' r (rw (named, e, handle_sign) at h) in
              (uuid, named, rule_id, granted)
          | inr (x, e) ↦
              let refused = rw (named, e, handle_sign) at h in
              absurd (cc (ap yields_at_once refused ∙ y))
        ]
        | inr (x, e) ↦
            let refused = rw (e, handle_sign) at h in absurd (cc (ap yields_at_once refused ∙ y))
      ]

  handle_cipher_waits :
      (id : Text) (direction : Direction) (kind : CipherKind) (uuid_hex origin : Option Text)
      (peer input : Text) (w : World) (d : Device)
      → yields_at_once (handle_cipher lib config id direction kind uuid_hex origin peer input w d)
        ≡ false
  unfolding handle_cipher yields_at_once into_response err_response
  handle_cipher_waits id direction kind uuid_hex origin peer input w d =
      elim (Result-cases (open_peer lib config uuid_hex peer w d)) [
        | inl (x, e) ↦ rw (e, yields_at_once) refl
        | inr (x, e) ↦ rw (e, yields_at_once) refl
      ]

  answer_keeps :
      (d : Device) (id : Text) (o : Result Value EngineError)
      → ((v : Value) → o ≡ ok v → is_protected v ≡ false)
      → yields_at_once (answer d id o) ≡ false
  unfolding yields_at_once ok_response into_response err_response
  answer_keeps d id (ok v) h = h v refl
  answer_keeps d id (err e) h = refl

  answer_select_keeps :
      (id uuid_hex : Text) (d : Device)
      → yields_at_once (answer_select lib config id uuid_hex d) ≡ false
  unfolding answer_select yields_at_once ok_response err_response is_protected
  answer_select_keeps id uuid_hex d = elim (Result-cases (parse_uuid lib uuid_hex)) [
    | inl (uuid, e) ↦ elim (Bool-cases (is_live (get_info uuid d.keystore))) [
      | inl live ↦ rw (e, live, yields_at_once) refl
      | inr dead ↦ rw (e, dead, yields_at_once) refl
    ]
    | inr (x, e) ↦ rw (e, yields_at_once) refl
  ]

  public_key_keeps :
      (d : Device) (v : Value) → public_key_of lib config none d ≡ ok v → is_protected v ≡ false
  unfolding public_key_of is_protected
  public_key_keeps d v h = ground arith

  handle_method-IsPermitted :
      (req : Request) (m : Method) (w : World) (d d' : Device) (r : Response)
      → req.method ≡ m
      → handle_method lib config req.id m w d ≡ done d' r
      → yields r ≡ true
      → IsPermitted req w d d'
  unfolding handle_method yields_at_once ok_response
  handle_method-IsPermitted req m w d d' r e h y = by_method m e h (ap yields_at_once h ∙ y)
    where
      by_method :
          (m : Method)
          → req.method ≡ m
          → handle_method lib config req.id m w d ≡ done d' r
          → yields_at_once (handle_method lib config req.id m w d) ≡ true
          → IsPermitted req w d d'
      by_method ping e h t = absurd (ground arith)
      by_method list_keys e h t = absurd (ground arith)
      by_method (select_key p) e h t = absurd (cc (t, answer_select_keeps req.id p.uuid d))
      by_method get_public_key e h t =
          absurd
            (cc (t, answer_keeps d req.id (public_key_of lib config none d) (public_key_keeps d)))
      by_method (Message.sign_event p) e h t =
          let (uuid, named, rule_id, granted) = handle_sign-IsGranted req.id p w d d' r h y in
          record {
            params = p;
            is_sign = e;
            uuid = uuid;
            named = named;
            rule_id = rule_id;
            granted = granted;
          }
      by_method (Message.nip04_encrypt p) e h t = absurd (
          cc (
            t,
            handle_cipher_waits req.id encrypting nip04 p.uuid p.origin p.peer_pubkey p.plaintext w
                d,
          ))
      by_method (Message.nip04_decrypt p) e h t = absurd (
          cc (
            t,
            handle_cipher_waits req.id decrypting nip04 p.uuid p.origin p.peer_pubkey p.ciphertext w
                d,
          ))
      by_method (Message.nip44_encrypt p) e h t = absurd (
          cc (
            t,
            handle_cipher_waits req.id encrypting nip44 p.uuid p.origin p.peer_pubkey p.plaintext w
                d,
          ))
      by_method (Message.nip44_decrypt p) e h t = absurd (
          cc (
            t,
            handle_cipher_waits req.id decrypting nip44 p.uuid p.origin p.peer_pubkey p.ciphertext w
                d,
          ))

  -- A request that `handle` answers without asking the user, with a signed event, a ciphertext or a
  -- plaintext, is a `sign_event` for a key that is live, from an origin and of a kind that a stored rule
  -- of that key allows at that time. On the device that `handle` leaves, that rule alone of the rules has
  -- changed: it counts one use more, the last one now; and the policy file holds a policy with these rules
  -- and its MAC.
  pub handle-IsPermitted :
      (req : Request) (w : World) (d d' : Device) (r : Response)
      → handle lib config req w d ≡ done d' r
      → yields r ≡ true
      → IsPermitted req w d d'
  unfolding handle
  handle-IsPermitted req w d d' r h y = handle_method-IsPermitted req req.method w d d' r refl h y
