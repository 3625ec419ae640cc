-- ===== src/Engine/Additions.antt =====
-- What adding a key or a rule leaves behind, and which key is selected.
use passport_nostr_signer.Prelude.{
  ℕ, ◌+◌, ◌*◌, ◌^◌, ◌<◌, ◌≡◌, refl, sym, ◌∙◌, ap, true, false, ◌⊎◌, inl, inr, Option, some, Bytes,
  Text, eqb, if◌then◌else◌,
}
use passport_nostr_signer.Prelude.Result.{ok, Result-cases}
use passport_nostr_signer.Storage.{SaveOutcome}
use passport_nostr_signer.Keys.{SecretKey}
use passport_nostr_signer.Keystore
use passport_nostr_signer.Keystore.{Keystore, get_info, reveal}
use passport_nostr_signer.Keystore.Secrets.{Unseals, reveal-add, edits_keep_secrets}
use passport_nostr_signer.Autosign.Added.{IsAppended}
use passport_nostr_signer.Engine.{Config, Device, Lib, is_live}
use passport_nostr_signer.Engine.Grants.{IsPersisted}
use passport_nostr_signer.Engine.Identities.{IsSaved, change_keystore-IsSaved}
use passport_nostr_signer.Engine.Screens.{put_keystore, change_keystore, finish_add, add_key}

module _ (lib : Lib) (config : Config) (label : Text) (sk : SecretKey) (color now : ℕ)
    (uuid_draw nonce_draw : Option Bytes) (master : Bytes) (outcome : SaveOutcome)
    (d : Device) where
  -- What `add_key` has done if it returned Ok.
  pub record IsAdded (uuid_hex : Text) (d' : Device) : Type 0 where
    pub uuid : Bytes
    pub hex : uuid_hex ≡ lib.keystore.hx.encode uuid
    pub selected : d'.selected ≡ some uuid
    pub reveals :
        (u : Bytes)
        → reveal lib.keystore u (ok master) d'.keystore
          ≡ (if eqb uuid u then ok sk else reveal lib.keystore u (ok master) d.keystore)
    pub saved : IsSaved lib config d'.keystore d' d'

  finish_add_done :
      (d1 : Device) (uuid : Bytes) (uuid_hex : Text)
      → (finish_add lib config uuid color outcome d1).1 ≡ ok uuid_hex
      → let d' = (finish_add lib config uuid color outcome d1).0 in
        (uuid_hex ≡ lib.keystore.hx.encode uuid)
        × (d'.selected ≡ some uuid)
        × (d'.keystore ≡ (Keystore.set_color uuid color d1.keystore).0)
        × IsSaved lib config d'.keystore d' d'
  unfolding finish_add
  finish_add_done d1 uuid uuid_hex h =
      elim (Result-cases
        (change_keystore lib config (Keystore.set_color uuid color d1.keystore) outcome d1).1) [
          | inl (tt, e) ↦
              let (_, saved) =
                change_keystore-IsSaved lib config (Keystore.set_color uuid color d1.keystore)
                  outcome d1 e in
              rw e (
                sym (cc (rw e at h)),
                refl,
                saved.keystore,
                record {
                  keystore = refl;
                  selected = refl;
                  autosign = refl;
                  bytes = saved.bytes;
                  encoded =
                      ap (Keystore.File.to_bytes lib.keystore_json) saved.keystore ∙ saved.encoded;
                  on_disk = saved.on_disk;
                },
              )
          | inr (x, e) ↦ absurd (cc (rw e at h))
        ]

  -- An `add_key` that returns Ok gives the uuid of the new key in hex; that key is selected, its uuid
  -- reveals the key added and every other uuid what it did, and the new keystore is in its file, if the
  -- AEAD and hex invert and the key is valid.
  pub add_key-IsAdded :
      (uuid_hex : Text)
      → Unseals lib.keystore sk
      → (add_key lib config label sk color now uuid_draw nonce_draw (ok master) outcome d).1
        ≡ ok uuid_hex
      → IsAdded uuid_hex
          (add_key lib config label sk color now uuid_draw nonce_draw (ok master) outcome d).0
  unfolding add_key
  add_key-IsAdded uuid_hex un h =
      let added =
        Keystore.add lib.keystore label sk now uuid_draw nonce_draw (ok master) d.keystore in
      elim (Result-cases added.1) [
        | inl (uuid, e) ↦
            let d1 = put_keystore added.0 d in
            let (hex, selected, ks, saved) = finish_add_done d1 uuid uuid_hex (rw e at h) in
            rw e (record {
              uuid = uuid;
              hex = hex;
              selected = selected;
              reveals = λ u.
                  ap (reveal lib.keystore u (ok master)) ks
                  ∙ (edits_keep_secrets lib.keystore uuid label color false added.0 u (ok master)).1
                  ∙ reveal-add lib.keystore label sk now uuid_draw nonce_draw master d.keystore uuid
                      u un e;
              saved = saved;
            })
        | inr (x, e) ↦ absurd (cc (rw e at h))
      ]

module _ (lib : Lib) (config : Config) where
  -- What `add_auto_sign_rule` has done if it returned Ok.
  pub record IsRuleAdded (key_uuid : Bytes) (origin : Text) (kind hours max now : ℕ)
      (rule_id : Bytes) (d d' : Device) : Type 0 where
    pub live : is_live (get_info key_uuid d.keystore) ≡ true
    pub expires_at : ℕ
    pub in_range : expires_at < 2 ^ 64
    pub expiry : ((hours ≡ 0) × (expires_at ≡ 0)) ⊎ (expires_at ≡ now + hours * 3600)
    pub appended : IsAppended key_uuid origin kind expires_at max now rule_id d.autosign d'.autosign
    pub persisted : IsPersisted lib config d' d'
