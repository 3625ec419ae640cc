-- ===== src/Event/Signed.antt =====
-- What a signature, and a verification that passes, say of an event.
use passport_nostr_signer.Prelude.{
  ◌≡◌, refl, ap, sym, ◌∙◌, true, false, inl, inr, some, arith, Bytes, eqb, eqb_iff, eqb_refl,
  Option-cases, ◌↔◌,
}
use passport_nostr_signer.Prelude.Result.{ok, err, Result-cases}
use passport_nostr_signer.Keys.{SecretKey, public_key, invalid_key}
use passport_nostr_signer.Event.{
  Event, UnsignedEvent, Lib, event_of, unsigned_of, id_of, sign, verify,
}

-- What a signing key and its public key must do: BIP-340 signatures verify.
pub record Signs (lib : Lib) (sk : SecretKey) : Type 0 where
  pub well_formed :
      (id randomness sig : Bytes)
      → lib.curve.sign_prehash sk.bytes id randomness ≡ some sig
      → lib.curve.valid_signature sig ≡ true
  pub verifies :
      (id randomness sig : Bytes)
      → lib.curve.sign_prehash sk.bytes id randomness ≡ some sig
      → lib.curve.verify_prehash (lib.curve.public_of sk.bytes) id sig ≡ true

-- What `sign` returns: the contents it was given, under the key's own public key.
pub record IsSigned (lib : Lib) (u : UnsignedEvent) (sk : SecretKey) (randomness : Bytes)
    (e : Event) : Type 0 where
  pub contents : unsigned_of e ≡ u
  pub own_key : e.pubkey.bytes ≡ lib.curve.public_of sk.bytes
  pub id_is : id_of lib u ≡ ok e.id
  pub sig_is : lib.curve.sign_prehash sk.bytes e.id randomness ≡ some e.sig

module _ (lib : Lib) where
  pub sign-IsSigned :
      (u : UnsignedEvent) (sk : SecretKey) (randomness : Bytes) (e : Event)
      → sign lib u sk randomness ≡ ok e
      → IsSigned lib u sk randomness e
  unfolding sign public_key
  sign-IsSigned u sk randomness e h = elim (Result-cases (id_of lib u)) [
    | inl (id, i) ↦ elim (Option-cases (lib.curve.sign_prehash sk.bytes id randomness)) [
      | inl failed ↦ absurd (ground arith)
      | inr (sig, s) ↦
          let is : event_of u id sig ≡ e = ground arith in
          record {
            contents = ap unsigned_of (sym is);
            own_key = ground (arith, eqb_iff (lib.curve.public_of sk.bytes) u.pubkey.bytes);
            id_is = i ∙ ap ok (ap (λ (x : Event). x.id) is);
            sig_is =
                ap (λ (x : Event). lib.curve.sign_prehash sk.bytes x.id randomness) (sym is)
                ∙ s
                ∙ ap (λ (x : Event). some x.sig) is;
          }
    ]
    | inr (x, i) ↦ absurd (ground arith)
  ]

  -- An event that `sign` returned passes `verify`, and holds the contents that were to be signed; the
  -- key's signatures must verify under its public key.
  pub verify-sign :
      (u : UnsignedEvent) (sk : SecretKey) (randomness : Bytes) (e : Event)
      → Signs lib sk
      → sign lib u sk randomness ≡ ok e
      → (verify lib e ≡ ok tt) × (unsigned_of e ≡ u)
  unfolding verify
  verify-sign u sk randomness e s h =
      let signed = sign-IsSigned u sk randomness e h in
      let good = s.verifies e.id randomness e.sig signed.sig_is in
      (
        rw
            (
              signed.contents,
              signed.id_is,
              eqb_refl e.id,
              s.well_formed e.id randomness e.sig signed.sig_is,
              signed.own_key,
              good,
            )
            refl,
        signed.contents,
      )

  -- `sign` refuses contents whose public key is not the signing key's.
  pub sign_refuses :
      (u : UnsignedEvent) (sk : SecretKey) (randomness : Bytes)
      → eqb (public_key lib.curve lib.hx sk).bytes u.pubkey.bytes ≡ false
      → sign lib u sk randomness ≡ err invalid_key
  unfolding sign
  sign_refuses u sk randomness h = rw h refl

  -- `verify` accepts an event just if its id is the hash of its contents and its signature is well
  -- formed and verifies over that id under its public key.
  pub verify_iff :
      (e : Event)
      → (verify lib e ≡ ok tt) ↔ (
          (id_of lib (unsigned_of e) ≡ ok e.id)
          × (lib.curve.valid_signature e.sig ≡ true)
          × (lib.curve.verify_prehash e.pubkey.bytes e.id e.sig ≡ true))
  unfolding verify
  verify_iff e = elim (Result-cases (id_of lib (unsigned_of e))) [
    | inl (id, i) ↦ ground (arith, i, eqb_iff id e.id)
    | inr (x, i) ↦ ground (arith, i)
  ]
