-- ===== src/Engine/Refused.antt =====
-- An archived or unknown key is used by no request.
use passport_nostr_signer.Prelude.{
  ◌≡◌, refl, ◌∙◌, ap, true, false, not, inl, inr, Option, none, some, arith, Bytes, Text, text, ◌↔◌,
}
use passport_nostr_signer.Prelude.Result.{ok, err, Result-cases}
use passport_nostr_signer.Keystore.{KeyInfo, get_info}
use passport_nostr_signer.Message
use passport_nostr_signer.Message.{
  Method, ping, list_keys, select_key, get_public_key, Request, unknown_key, err_response,
}
use passport_nostr_signer.Engine.{
  Config, Device, Lib, no_such_uuid, is_live, into_response, parse_uuid, named_uuid, resolve_uuid,
}
use passport_nostr_signer.Engine.Requests.{
  World, done, CipherKind, nip04, nip44, Direction, encrypting, decrypting, answer, answer_select,
  public_key_of, open_key, open_peer, handle_sign, handle_cipher, handle_method, handle,
}

-- How a request names the key it wants used.
unfoldable pub key_of : Method → Option (Option Text)
key_of ping = none
key_of list_keys = none
key_of (select_key p) = some (some p.uuid)
key_of get_public_key = some none
key_of (Message.sign_event p) = some p.uuid
key_of (Message.nip04_encrypt p) = some p.uuid
key_of (Message.nip04_decrypt p) = some p.uuid
key_of (Message.nip44_encrypt p) = some p.uuid
key_of (Message.nip44_decrypt p) = some p.uuid

dead_not_live :
    (found : Option KeyInfo)
    → ((info : KeyInfo) → found ≡ some info → info.archived ≡ true)
    → is_live found ≡ false
unfolding is_live
dead_not_live none h = refl
dead_not_live (some info) h = ap not (h info refl)

module _ (lib : Lib) where
  -- `resolve_uuid` gives just the keys named that are stored and not archived.
  pub resolve_uuid_iff :
      (uuid_hex : Option Text) (d : Device) (uuid : Bytes)
      → (resolve_uuid lib uuid_hex d ≡ ok uuid)
        ↔ ((named_uuid lib uuid_hex d ≡ ok uuid) × (is_live (get_info uuid d.keystore) ≡ true))
  unfolding resolve_uuid
  resolve_uuid_iff uuid_hex d uuid = ground arith

  resolve_dead :
      (uuid_hex : Option Text) (d : Device) (uuid : Bytes)
      → named_uuid lib uuid_hex d ≡ ok uuid
      → is_live (get_info uuid d.keystore) ≡ false
      → resolve_uuid lib uuid_hex d ≡ err no_such_uuid
  unfolding resolve_uuid
  resolve_dead uuid_hex d uuid named dead = ground (arith, named, dead)

module _ (lib : Lib) (config : Config) where
  handle_cipher_refuses :
      (id : Text) (direction : Direction) (kind : CipherKind) (uuid_hex origin : Option Text)
      (peer input : Text) (w : World) (d : Device)
      → resolve_uuid lib uuid_hex d ≡ err no_such_uuid
      → handle_cipher lib config id direction kind uuid_hex origin peer input w d
        ≡ done d (err_response id unknown_key (text "no such uuid"))
  unfolding handle_cipher open_peer into_response
  handle_cipher_refuses id direction kind uuid_hex origin peer input w d h =
      rw (h, handle_cipher) refl

  sign_refuses_dead :
      (id : Text) (p : Message.SignEventParams) (w : World) (d : Device)
      → resolve_uuid lib p.uuid d ≡ err no_such_uuid
      → handle_sign lib config id p w d ≡ done d (err_response id unknown_key (text "no such uuid"))
  unfolding handle_sign open_key into_response
  sign_refuses_dead id p w d h = rw (h, handle_sign) refl

  public_key_refuses :
      (id : Text) (d : Device)
      → resolve_uuid lib none d ≡ err no_such_uuid
      → answer d id (public_key_of lib config none d)
        ≡ done d (err_response id unknown_key (text "no such uuid"))
  unfolding public_key_of into_response
  public_key_refuses id d h = rw (h, answer) refl

  select_refuses :
      (id uuid_hex : Text) (d : Device) (uuid : Bytes)
      → named_uuid lib (some uuid_hex) d ≡ ok uuid
      → is_live (get_info uuid d.keystore) ≡ false
      → answer_select lib config id uuid_hex d
        ≡ done d (err_response id unknown_key (text "no such uuid"))
  unfolding named_uuid answer_select
  select_refuses id uuid_hex d uuid named dead = elim (Result-cases (parse_uuid lib uuid_hex)) [
    | inl (u, e) ↦
        let same : u ≡ uuid = cc (rw e at named) in
        let u_dead = ap (λ x. is_live (get_info x d.keystore)) same ∙ dead in
        rw (e, u_dead, answer_select) refl
    | inr (x, e) ↦ absurd (cc (rw e at named))
  ]

  method_refuses :
      (id : Text) (m : Method) (w : World) (d : Device) (uuid_hex : Option Text) (uuid : Bytes)
      → key_of m ≡ some uuid_hex
      → named_uuid lib uuid_hex d ≡ ok uuid
      → is_live (get_info uuid d.keystore) ≡ false
      → resolve_uuid lib uuid_hex d ≡ err no_such_uuid
      → handle_method lib config id m w d
        ≡ done d (err_response id unknown_key (text "no such uuid"))
  unfolding handle_method key_of
  method_refuses id ping w d o uuid k n dead h = absurd (cc k)
  method_refuses id list_keys w d o uuid k n dead h = absurd (cc k)
  method_refuses id (select_key p) w d o uuid k n dead h =
      let same : some p.uuid ≡ o = cc k in
      select_refuses id p.uuid d uuid (ap (λ x. named_uuid lib x d) same ∙ n) dead
  method_refuses id get_public_key w d o uuid k n dead h =
      let same : none ≡ o = cc k in
      public_key_refuses id d (ap (λ x. resolve_uuid lib x d) same ∙ h)
  method_refuses id (Message.sign_event p) w d o uuid k n dead h =
      let same : p.uuid ≡ o = cc k in
      sign_refuses_dead id p w d (ap (λ x. resolve_uuid lib x d) same ∙ h)
  method_refuses id (Message.nip04_encrypt p) w d o uuid k n dead h =
      let same : p.uuid ≡ o = cc k in
      handle_cipher_refuses id encrypting nip04 p.uuid p.origin p.peer_pubkey p.plaintext w d
        (ap (λ x. resolve_uuid lib x d) same ∙ h)
  method_refuses id (Message.nip04_decrypt p) w d o uuid k n dead h =
      let same : p.uuid ≡ o = cc k in
      handle_cipher_refuses id decrypting nip04 p.uuid p.origin p.peer_pubkey p.ciphertext w d
        (ap (λ x. resolve_uuid lib x d) same ∙ h)
  method_refuses id (Message.nip44_encrypt p) w d o uuid k n dead h =
      let same : p.uuid ≡ o = cc k in
      handle_cipher_refuses id encrypting nip44 p.uuid p.origin p.peer_pubkey p.plaintext w d
        (ap (λ x. resolve_uuid lib x d) same ∙ h)
  method_refuses id (Message.nip44_decrypt p) w d o uuid k n dead h =
      let same : p.uuid ≡ o = cc k in
      handle_cipher_refuses id decrypting nip44 p.uuid p.origin p.peer_pubkey p.ciphertext w d
        (ap (λ x. resolve_uuid lib x d) same ∙ h)

  -- A request, `select_key` included, that names a key, by its uuid or as the selected one, which is not
  -- stored or is archived, is answered at once with `UnknownKey`: the user is not asked, the device stays as it is.
  pub dead_key_refused :
      (req : Request) (w : World) (d : Device) (uuid_hex : Option Text) (uuid : Bytes)
      → key_of req.method ≡ some uuid_hex
      → named_uuid lib uuid_hex d ≡ ok uuid
      → ((info : KeyInfo) → get_info uuid d.keystore ≡ some info → info.archived ≡ true)
      → handle lib config req w d ≡ done d (err_response req.id unknown_key (text "no such uuid"))
  unfolding handle
  dead_key_refused req w d uuid_hex uuid k named dead =
      let not_live = dead_not_live (get_info uuid d.keystore) dead in
      method_refuses req.id req.method w d uuid_hex uuid k named not_live
        (resolve_dead lib uuid_hex d uuid named not_live)
