-- ===== src/Bech32.antt =====
-- logic/nostr-core/src/bech32.rs: NIP-19 entities. The `bech32` crate, with its parser of prefixes, is a
-- parameter; a failure is given by its message.
use passport_nostr_signer.Prelude.{
  ◌≡◌, refl, ap, ◌∙◌, false, not, inl, inr, arith, Bytes, Text, text, length, eqb, eqb_iff,
  eqb_refl, ◌==◌,
}
use passport_nostr_signer.Prelude.Result.{Result, ok, err, ◌>>=◌, ◌>>◌, reject_if, Result-cases}
use passport_nostr_signer.External.{Hex, Curve}
use passport_nostr_signer.Keys.{
  NostrError, bech32, bech32_hrp, key_length, SecretKey, PublicKey, secret_from_slice,
  public_from_slice,
}
use passport_nostr_signer.Keys.Valid.{IsSecret}

-- `bech32::encode` after `Hrp::parse`, and `bech32::decode`.
pub record Lib : Type 0 where
  pub encode : Text → Bytes → Result Text Text
  pub decode : Text → Result (Text × Bytes) Text

abbrev pub hrp_nsec : Text
hrp_nsec = text "nsec"

abbrev pub hrp_npub : Text
hrp_npub = text "npub"

abbrev pub hrp_note : Text
hrp_note = text "note"

abbrev pub bech32_error : {A : Type 0} → Result A Text → Result A NostrError
bech32_error (ok a) = ok a
bech32_error (err e) = err (bech32 e)

module _ (lib : Lib) where
  unfoldable pub encode_entity : Text → Bytes → Result Text NostrError
  encode_entity hrp bytes = bech32_error (lib.encode hrp bytes)

  unfoldable pub decode_entity : Text → Text → Result Bytes NostrError
  decode_entity expected_hrp s = do
    d ← bech32_error (lib.decode s)
    reject_if (not (eqb d.0 expected_hrp)) (bech32_hrp expected_hrp d.0)
    ok d.1

  unfoldable pub encode_note : Bytes → Result Text NostrError
  unfolding encode_entity
  encode_note event_id = encode_entity hrp_note event_id

  unfoldable pub decode_note : Text → Result Bytes NostrError
  unfolding decode_entity
  decode_note s = do
    bytes ← decode_entity hrp_note s
    reject_if (not (length bytes == 32)) (key_length 32 (length bytes))
    ok bytes

  unfoldable pub encode_nsec : SecretKey → Result Text NostrError
  unfolding encode_entity
  encode_nsec sk = encode_entity hrp_nsec sk.bytes

  unfoldable pub encode_npub : PublicKey → Result Text NostrError
  unfolding encode_entity
  encode_npub pk = encode_entity hrp_npub pk.bytes

  -- The crate decodes what it encoded under this prefix. It writes prefixes in lower case, so this is
  -- asked of a prefix in lower case only.
  unfoldable pub Inverts : Text → Type 0
  Inverts hrp =
      (bytes : Bytes) (s : Text) → lib.encode hrp bytes ≡ ok s → lib.decode s ≡ ok (hrp, bytes)

  entity_back :
      (hrp : Text) (bytes : Bytes) (s : Text)
      → Inverts hrp
      → encode_entity hrp bytes ≡ ok s
      → decode_entity hrp s ≡ ok bytes
  unfolding encode_entity decode_entity Inverts
  entity_back hrp bytes s back h = elim (Result-cases (lib.encode hrp bytes)) [
    | inl (t, e) ↦
        let same : t ≡ s = cc (rw e at h) in
        let again = back bytes s (e ∙ ap ok same) in rw (again, eqb_refl hrp) refl
    | inr (x, e) ↦ absurd (cc (rw e at h))
  ]

  entity_prefix :
      (hrp : Text) (bytes : Bytes) (s : Text)
      → decode_entity hrp s ≡ ok bytes
      → (d : Text × Bytes) × (lib.decode s ≡ ok d) × (d.0 ≡ hrp)
  unfolding decode_entity
  entity_prefix hrp bytes s h = elim (Result-cases (lib.decode s)) [
    | inl (d, e) ↦ (d, e, ground (arith, e, eqb_iff d.0 hrp))
    | inr (x, e) ↦ absurd (cc (rw e at h))
  ]

module _ (lib : Lib) (curve : Curve) (hx : Hex) where
  unfoldable pub decode_nsec : Text → Result SecretKey NostrError
  decode_nsec s = do bytes ← decode_entity lib hrp_nsec s; secret_from_slice curve hx bytes

  unfoldable pub decode_npub : Text → Result PublicKey NostrError
  decode_npub s = do bytes ← decode_entity lib hrp_npub s; public_from_slice curve hx bytes

  -- A secret key written as an nsec is read back, if the crate decodes what it encoded under the prefix
  -- "nsec" and the key is valid.
  pub decode_nsec-encode_nsec :
      (sk : SecretKey) (s : Text)
      → Inverts lib hrp_nsec
      → IsSecret curve hx sk
      → encode_nsec lib sk ≡ ok s
      → decode_nsec s ≡ ok sk
  unfolding encode_nsec decode_nsec secret_from_slice
  decode_nsec-encode_nsec sk s back valid h =
      let bytes = entity_back lib hrp_nsec sk.bytes s back h in
      rw bytes (ground (arith, valid.size, valid.valid))

  -- A text that is read as a secret key is refused as a public key, with the two prefixes named.
  pub nsec_not_npub :
      (s : Text) (sk : SecretKey)
      → decode_nsec s ≡ ok sk
      → decode_npub s ≡ err (bech32_hrp hrp_npub hrp_nsec)
  unfolding decode_nsec decode_npub
  nsec_not_npub s sk h = elim (Result-cases (decode_entity lib hrp_nsec s)) [
    | inl (x, e) ↦
        let (d, decoded, prefix) = entity_prefix lib hrp_nsec x s e in
        rw (refuses d decoded prefix) refl
    | inr (m, e) ↦ absurd (cc (rw e at h))
  ]
    where
      refuses :
          (d : Text × Bytes)
          → lib.decode s ≡ ok d
          → d.0 ≡ hrp_nsec
          → decode_entity lib hrp_npub s ≡ err (bech32_hrp hrp_npub hrp_nsec)
      refuses d decoded prefix =
          let differ : eqb hrp_nsec hrp_npub ≡ false = unfold text eqb in refl in
          unfold decode_entity in rw (decoded, prefix, differ) refl
