-- ===== src/Keystore/Secrets.antt =====
-- Which secret each uuid reveals, after every operation.
use passport_nostr_signer.Prelude.{
  ℕ, ◌≡◌, refl, sym, ◌∙◌, ap, Bool, true, false, ◌⊎◌, inl, inr, Option, none, some, [], ◌∷◌, ◌++◌,
  arith, Bytes, Text, eqb, eqb_iff, find_first, update_first, is_some, if◌then◌else◌, Bool-cases,
  Option-cases,
}
use passport_nostr_signer.Prelude.Result.{Result, ok, err, ◌>>=◌, Result-cases, ok_or}
use passport_nostr_signer.Keys.{SecretKey, secret_from_slice}
use passport_nostr_signer.Keys.Valid.{IsSecret}
use passport_nostr_signer.Keystore.{
  EncryptedRecord, Keystore, Error, unknown_key, Lib, has_uuid, map_option, modify, remove,
  remove_first, rename, set_color, set_archived, add, make_record, push_record, seal_record,
  open_record, reveal, derive_key,
}
use passport_nostr_signer.Keystore.Invariant
use passport_nostr_signer.Keystore.Invariant.{make_record-Fresh}
use passport_nostr_signer.Keystore.Lookup.{
  find_uuid, find-update_first, find-snoc, find_absent, find-remove_first,
}

module _ (lib : Lib) where
  reveal_found :
      (u : Bytes) (seed : Result Bytes Error) (ks : Keystore)
      → reveal lib u seed ks
        ≡ (ok_or (find_uuid u ks.records) unknown_key >>= open_record lib u seed)
  unfolding reveal
  reveal_found u seed ks = refl

  reveal-cong :
      (u : Bytes) (seed : Result Bytes Error) (ks ks' : Keystore)
      → find_uuid u ks.records ≡ find_uuid u ks'.records
      → reveal lib u seed ks ≡ reveal lib u seed ks'
  unfolding reveal
  reveal-cong u seed ks ks' h = ap (λ o. ok_or o unknown_key >>= open_record lib u seed) h

  -- A write that leaves the uuid, the nonce and the ciphertext of a record alone.
  abbrev pub KeepsSealed : (EncryptedRecord → EncryptedRecord) → Type 0
  KeepsSealed f =
      (r : EncryptedRecord)
      → ((f r).uuid ≡ r.uuid) × ((f r).nonce ≡ r.nonce) × ((f r).ciphertext ≡ r.ciphertext)

  open_record-KeepsSealed :
      (u : Bytes) (seed : Result Bytes Error) (f : EncryptedRecord → EncryptedRecord)
      (o : Option EncryptedRecord)
      → KeepsSealed f
      → (ok_or (map_option f o) unknown_key >>= open_record lib u seed)
        ≡ (ok_or o unknown_key >>= open_record lib u seed)
  unfolding open_record
  open_record-KeepsSealed u seed f none keep = refl
  open_record-KeepsSealed u seed f (some r) keep = let (_, n, c) = keep r in rw (n, c)

  modify-reveal :
      (v : Bytes) (f : EncryptedRecord → EncryptedRecord) (ks : Keystore) (u : Bytes)
      (seed : Result Bytes Error)
      → KeepsSealed f
      → reveal lib u seed (modify v f ks).0 ≡ reveal lib u seed ks
  unfolding modify
  modify-reveal v f ks u seed keep =
      elim (Bool-cases (is_some (find_first (has_uuid v) ks.records))) [
        | inl found ↦ rw found (reveal_updated (Bool-cases (eqb v u)))
        | inr missing ↦ rw missing refl
      ]
    where
      moved : Keystore
      moved = record { records = update_first (has_uuid v) f ks.records }

      reveal_updated :
          (eqb v u ≡ true) ⊎ (eqb v u ≡ false) → reveal lib u seed moved ≡ reveal lib u seed ks
      reveal_updated (inl same) =
          reveal_found u seed moved
          ∙ ap (λ o. ok_or o unknown_key >>= open_record lib u seed)
              (find-update_first u v f ks.records (λ r. (keep r).0) ∙ (rw same))
          ∙ open_record-KeepsSealed u seed f (find_uuid u ks.records) keep
          ∙ sym (reveal_found u seed ks)
      reveal_updated (inr other) =
          reveal-cong u seed moved ks
            (find-update_first u v f ks.records (λ r. (keep r).0) ∙ (rw other))

  -- Renaming, colouring and archiving an identity change what no uuid reveals.
  pub edits_keep_secrets :
      (v : Bytes) (label : Text) (color : ℕ) (archived : Bool) (ks : Keystore) (u : Bytes)
      (seed : Result Bytes Error)
      → (reveal lib u seed (rename v label ks).0 ≡ reveal lib u seed ks)
        × (reveal lib u seed (set_color v color ks).0 ≡ reveal lib u seed ks)
        × (reveal lib u seed (set_archived v archived ks).0 ≡ reveal lib u seed ks)
  edits_keep_secrets v label color archived ks u seed = (
    (unfold rename in
        modify-reveal v (λ r. record r { label = label }) ks u seed (λ r. (refl, refl, refl))),
    (unfold set_color in
        modify-reveal v (λ r. record r { color = color }) ks u seed (λ r. (refl, refl, refl))),
    (unfold set_archived in
        modify-reveal v (λ r. record r { archived = archived }) ks u seed
          (λ r. (refl, refl, refl))),
  )

  -- A removed identity reveals nothing, and the others what they did.
  pub remove-reveal :
      (v : Bytes) (ks : Keystore) (u : Bytes) (seed : Result Bytes Error)
      → Invariant.IsValid ks
      → (remove v ks).1 ≡ ok tt
      → reveal lib u seed (remove v ks).0
        ≡ (if eqb v u then err unknown_key else reveal lib u seed ks)
  unfolding remove
  remove-reveal v ks u seed valid done =
      elim (Bool-cases (is_some (find_first (has_uuid v) ks.records))) [
        | inl found ↦
            let ks' : Keystore = record { records = remove_first v ks.records } in
            let at = find-remove_first u v ks.records valid.uuids in
            elim (Bool-cases (eqb v u)) [
              | inl same ↦
                  let gone : find_uuid u ks'.records ≡ none = at ∙ (rw same) in
                  rw (found, same)
                    (reveal_found u seed ks'
                      ∙ ap (λ o. ok_or o unknown_key >>= open_record lib u seed) gone)
              | inr other ↦ rw (found, other) (reveal-cong u seed ks' ks (at ∙ (rw other)))
            ]
        | inr missing ↦ absurd (ground arith)
      ]

  -- Unsealing with the same seed gives the key that was sealed.
  pub record Unseals (sk : SecretKey) : Type 0 where
    pub aead_back :
        (key nonce ct : Bytes)
        → lib.aead_encrypt key nonce sk.bytes ≡ some ct
        → lib.aead_decrypt key nonce ct ≡ some sk.bytes
    pub hex_back : (b : Bytes) → lib.hx.decode (lib.hx.encode b) ≡ ok b
    pub secret : IsSecret lib.curve lib.hx sk

  pub open_record-seal_record :
      (label : Text) (sk : SecretKey) (now : ℕ) (uuid nonce master : Bytes) (r : EncryptedRecord)
      → Unseals sk
      → seal_record lib label sk now uuid nonce (ok master) ≡ ok r
      → (r.uuid ≡ uuid) × (open_record lib uuid (ok master) r ≡ ok sk)
  unfolding seal_record open_record secret_from_slice
  open_record-seal_record label sk now uuid nonce master r u h =
      elim (Option-cases (lib.aead_encrypt (derive_key lib master uuid) nonce sk.bytes)) [
        | inl failed ↦ absurd (ground arith)
        | inr (ct, e) ↦
            let back = u.aead_back (derive_key lib master uuid) nonce ct e in
            let sealed : r.ciphertext ≡ lib.hx.encode ct = ground arith in
            let nonced : r.nonce ≡ nonce = ground arith in
            (
              ground arith,
              rw (sealed, u.hex_back ct, nonced, back)
                  (ground (arith, u.secret.size, u.secret.valid)),
            )
      ]

module _ (lib : Lib) (label : Text) (sk : SecretKey) (now : ℕ) (uuid_draw nonce_draw : Option Bytes)
    (master : Bytes) where
  made_of_sealed :
      (ks : Keystore) (r : EncryptedRecord)
      → make_record lib label sk now uuid_draw nonce_draw (ok master) ks ≡ ok r
      → (uuid : Bytes) × (nonce : Bytes) × (seal_record lib label sk now uuid nonce (ok master)
          ≡ ok r)
  unfolding make_record
  made_of_sealed ks r h = elim (Option-cases uuid_draw) [
    | inl no_uuid ↦ absurd (ground arith)
    | inr (uuid, a) ↦ elim (Option-cases nonce_draw) [
      | inl no_nonce ↦ absurd (ground arith)
      | inr (nonce, b) ↦ (uuid, nonce, ground arith)
    ]
  ]

  -- What `add` has done if it returned a uuid.
  added :
      (ks : Keystore) (uuid : Bytes)
      → (add lib label sk now uuid_draw nonce_draw (ok master) ks).1 ≡ ok uuid
      → (r : EncryptedRecord) × (make_record lib label sk now uuid_draw nonce_draw (ok master) ks
          ≡ ok r)
        × (r.uuid ≡ uuid)
        × ((add lib label sk now uuid_draw nonce_draw (ok master) ks).0
            ≡ record { records = ks.records ++ r ∷ [] })
  unfolding add push_record
  added ks uuid h =
      elim (Result-cases (make_record lib label sk now uuid_draw nonce_draw (ok master) ks)) [
        | inl (r, e) ↦ (r, e, ground arith, ground arith)
        | inr (x, e) ↦ absurd (ground arith)
      ]

  -- Once `add` has returned a uuid, `reveal` gives the key under that uuid, and for every other uuid
  -- what it gave before.
  pub reveal-add :
      (ks : Keystore) (uuid u : Bytes)
      → Unseals lib sk
      → (add lib label sk now uuid_draw nonce_draw (ok master) ks).1 ≡ ok uuid
      → reveal lib u (ok master) (add lib label sk now uuid_draw nonce_draw (ok master) ks).0
        ≡ (if eqb uuid u then ok sk else reveal lib u (ok master) ks)
  reveal-add ks uuid u un h =
      let (r, made, named, state) = added ks uuid h in
      let (uuid', nonce, sealed) = made_of_sealed ks r made in
      let (named', opened) =
        open_record-seal_record lib label sk now uuid' nonce master r un sealed in
      let fresh = make_record-Fresh lib label sk now uuid_draw nonce_draw (ok master) ks r made in
      let ks' : Keystore = record { records = ks.records ++ r ∷ [] } in
      let at = find-snoc u ks.records r in
      let add_at =
        reveal-cong lib u (ok master) (add lib label sk now uuid_draw nonce_draw (ok master) ks).0
          ks' (ap (λ (k : Keystore). find_uuid u k.records) state) in
      let absent : find_uuid r.uuid ks.records ≡ none =
        find_absent r.uuid ks.records fresh.new_uuid in
      add_at ∙ elim (Bool-cases (eqb uuid u)) [
        | inl same ↦
            let is_u : r.uuid ≡ u = named ∙ (eqb_iff uuid u).0 same in
            let gone : find_uuid u ks.records ≡ none =
              ap (λ v. find_uuid v ks.records) (sym is_u) ∙ absent in
            let found : find_uuid u (ks.records ++ r ∷ []) ≡ some r =
              ground (arith, at, gone, eqb_iff r.uuid u) in
            rw same (
              reveal_found lib u (ok master) ks'
              ∙ ap (λ o. ok_or o unknown_key >>= open_record lib u (ok master)) found
              ∙ ap (λ v. open_record lib v (ok master) r) (sym is_u ∙ named')
              ∙ opened)
        | inr other ↦
            let kept : find_uuid u (ks.records ++ r ∷ []) ≡ find_uuid u ks.records =
              elim (Option-cases (find_uuid u ks.records)) [
                | inl empty ↦ ground (arith, at, eqb_iff r.uuid u, eqb_iff uuid u)
                | inr (x, full) ↦ ground (arith, at)
              ] in
            rw other (reveal-cong lib u (ok master) ks' ks kept)
      ]
