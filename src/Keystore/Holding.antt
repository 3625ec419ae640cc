-- ===== src/Keystore/Holding.antt =====
-- Records of logic/keystore/src/lib.rs that hold, sealed, what a vault holds.
use passport_nostr_signer.Prelude.{
  ℕ, ◌≡◌, refl, ap, subst, false, inl, inr, some, List, [], ◌∷◌, ◌++◌, Bytes, Text, eqb, eqb_iff,
  any_of, find_first, update_first, is_some, Bool-cases, arith, if◌then◌else◌,
}
use passport_nostr_signer.Prelude.Result.{ok, err, ◌>>=◌, ok_or}
use passport_nostr_signer.Keys.{SecretKey, public_key}
use passport_nostr_signer.Keystore.{
  EncryptedRecord, Keystore, unknown_key, Lib, has_uuid, has_npub, modify, remove_first,
  seal_record, open_record, derive_key, default_color,
}
use passport_nostr_signer.Keystore.Secrets.{Unseals, open_record-seal_record}
use passport_nostr_signer.Keystore.Vault.{
  Call, add_call, remove_call, rename_call, color_call, archive_call, reveal_call, Vault, is_under,
  is_in, key_in, without, has_key,
}

module _ (lib : Lib) (master : Bytes) where
  -- A record that holds this key, sealed.
  pub record Holds (r : EncryptedRecord) (p : Bytes × SecretKey) : Type 0 where
    pub uuid : r.uuid ≡ p.0
    pub npub : r.npub ≡ (public_key lib.curve lib.hx p.1).bytes
    pub opens : open_record lib p.0 (ok master) r ≡ ok p.1

  abbrev pub Holding : List EncryptedRecord → Vault → Type 0
  Holding [] [] = Unit {0}
  Holding (r ∷ rs) (p ∷ ps) = Holds r p × Holding rs ps
  Holding _ _ = ⊥

  -- A call that can be answered: the key to add is one, and the ciphers work on it.
  pub record Sealable (sk : SecretKey) : Type 0 where
    pub unseals : Unseals lib sk
    pub seals : (key nonce : Bytes) → (ct : Bytes) × (lib.aead_encrypt key nonce sk.bytes ≡ some ct)

  abbrev pub IsSealable : Call → Type 0
  IsSealable (add_call label sk now uuid_draw nonce_draw) = Sealable sk
  IsSealable (remove_call uuid) = Unit {0}
  IsSealable (rename_call uuid label) = Unit {0}
  IsSealable (color_call uuid color) = Unit {0}
  IsSealable (archive_call uuid flag) = Unit {0}
  IsSealable (reveal_call uuid) = Unit {0}

  pub any_uuid :
      (u : Bytes) (rs : List EncryptedRecord) (v : Vault)
      → Holding rs v
      → any_of (has_uuid u) rs ≡ any_of (is_under u) v
  any_uuid u [] [] h = refl
  any_uuid u [] (p ∷ ps) h = absurd h
  any_uuid u (r ∷ rs) [] h = absurd h
  any_uuid u (r ∷ rs) (p ∷ ps) h = rw (h.0.uuid, any_uuid u rs ps h.1) refl

  pub any_npub :
      (sk : SecretKey) (rs : List EncryptedRecord) (v : Vault)
      → Holding rs v
      → any_of (has_npub (public_key lib.curve lib.hx sk).bytes) rs
        ≡ any_of (has_key lib master sk) v
  any_npub sk [] [] h = refl
  any_npub sk [] (p ∷ ps) h = absurd h
  any_npub sk (r ∷ rs) [] h = absurd h
  any_npub sk (r ∷ rs) (p ∷ ps) h = rw (h.0.npub, any_npub sk rs ps h.1) refl

  pub found_uuid :
      (u : Bytes) (rs : List EncryptedRecord) (v : Vault)
      → Holding rs v
      → is_some (find_first (has_uuid u) rs) ≡ is_in u v
  found_uuid u [] [] h = refl
  found_uuid u [] (p ∷ ps) h = absurd h
  found_uuid u (r ∷ rs) [] h = absurd h
  found_uuid u (r ∷ rs) (p ∷ ps) h =
      ground (arith, ap (λ w. eqb w u) h.0.uuid, found_uuid u rs ps h.1)

  pub Holding-update_first :
      (u : Bytes) (f : EncryptedRecord → EncryptedRecord) (rs : List EncryptedRecord) (v : Vault)
      → ((r : EncryptedRecord) (p : Bytes × SecretKey) → Holds r p → Holds (f r) p)
      → Holding rs v
      → Holding (update_first (has_uuid u) f rs) v
  Holding-update_first u f [] [] keep h = h
  Holding-update_first u f [] (p ∷ ps) keep h = absurd h
  Holding-update_first u f (r ∷ rs) [] keep h = absurd h
  Holding-update_first u f (r ∷ rs) (p ∷ ps) keep h = elim (Bool-cases (has_uuid u r)) [
    | inl here ↦ rw here (keep r p h.0, h.1)
    | inr there ↦ rw there (h.0, Holding-update_first u f rs ps keep h.1)
  ]

  pub Holding-remove_first :
      (u : Bytes) (rs : List EncryptedRecord) (v : Vault)
      → Holding rs v
      → Holding (remove_first u rs) (without u v)
  unfolding remove_first without
  Holding-remove_first u [] [] h = h
  Holding-remove_first u [] (p ∷ ps) h = absurd h
  Holding-remove_first u (r ∷ rs) [] h = absurd h
  Holding-remove_first u (r ∷ rs) (p ∷ ps) h =
      let same : has_uuid u r ≡ is_under u p = ap (λ w. eqb w u) h.0.uuid in
      elim (Bool-cases (is_under u p)) [
        | inl here ↦ rw (same, here) h.1
        | inr there ↦ rw (same, there) (h.0, Holding-remove_first u rs ps h.1)
      ]

  pub Holding-snoc :
      (rs : List EncryptedRecord) (v : Vault) (r : EncryptedRecord) (p : Bytes × SecretKey)
      → Holding rs v
      → Holds r p
      → Holding (rs ++ r ∷ []) (v ++ p ∷ [])
  Holding-snoc [] [] r p h k = (k, tt)
  Holding-snoc [] (q ∷ qs) r p h k = absurd h
  Holding-snoc (x ∷ xs) [] r p h k = absurd h
  Holding-snoc (x ∷ xs) (q ∷ qs) r p h k = (h.0, Holding-snoc xs qs r p h.1 k)

  pub revealed_key :
      (u : Bytes) (rs : List EncryptedRecord) (v : Vault)
      → Holding rs v
      → (ok_or (find_first (has_uuid u) rs) unknown_key >>= open_record lib u (ok master))
        ≡ key_in (find_first (is_under u) v)
  revealed_key u [] [] h = refl
  revealed_key u [] (p ∷ ps) h = absurd h
  revealed_key u (r ∷ rs) [] h = absurd h
  revealed_key u (r ∷ rs) (p ∷ ps) h =
      let same : has_uuid u r ≡ is_under u p = ap (λ w. eqb w u) h.0.uuid in
      elim (Bool-cases (is_under u p)) [
        | inl here ↦
            let named : p.0 ≡ u = (eqb_iff p.0 u).0 here in
            rw (same, here) (subst (λ w. open_record lib w (ok master) r ≡ ok p.1) named h.0.opens)
        | inr there ↦ rw (same, there) (revealed_key u rs ps h.1)
      ]

  pub modified :
      (u : Bytes) (f : EncryptedRecord → EncryptedRecord) (ks : Keystore) (v : Vault)
      → ((r : EncryptedRecord) (p : Bytes × SecretKey) → Holds r p → Holds (f r) p)
      → Holding ks.records v
      → Holding (modify u f ks).0.records v
        × ((modify u f ks).1 ≡ (if is_in u v then ok tt else err unknown_key))
  unfolding modify
  modified u f ks v keep h =
      let same = found_uuid u ks.records v h in
      elim (Bool-cases (is_in u v)) [
        | inl there ↦ rw (same, there) (Holding-update_first u f ks.records v keep h, refl)
        | inr missing ↦ rw (same, missing) (h, refl)
      ]

  -- What a new record holds.
  pub seal_record-Holds :
      (label : Text) (sk : SecretKey) (now : ℕ) (uuid nonce : Bytes)
      → Sealable sk
      → (r : EncryptedRecord) × (seal_record lib label sk now uuid nonce (ok master) ≡ ok r)
        × Holds r (uuid, sk)
  seal_record-Holds label sk now uuid nonce s =
      let (ct, e) = s.seals (derive_key lib master uuid) nonce in
      let r : EncryptedRecord = record {
        uuid = uuid;
        label = label;
        npub = (public_key lib.curve lib.hx sk).bytes;
        nonce = nonce;
        ciphertext = lib.hx.encode ct;
        created_at = now;
        color = default_color;
        archived = false;
      } in
      let made : seal_record lib label sk now uuid nonce (ok master) ≡ ok r =
        unfold seal_record in rw e refl in
      let (_, opened) =
        open_record-seal_record lib label sk now uuid nonce master r s.unseals made in
      (r, made, record { uuid = refl; npub = refl; opens = opened })
