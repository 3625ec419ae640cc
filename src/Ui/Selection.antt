-- ===== src/Ui/Selection.antt =====
-- src/engine.rs: which key is selected after each of the screens' calls.
use passport_nostr_signer.Prelude.{
  ℕ, ◌≡◌, refl, sym, ap, ◌∙◌, Bool, true, false, inl, inr, Option, none, some, Bytes, Text, eqb,
  Bool-cases, Option-cases, arith, if◌then◌else◌,
}
use passport_nostr_signer.Prelude.Result.{Result, ok, err, Result-cases}
use passport_nostr_signer.Storage.{SaveOutcome}
use passport_nostr_signer.Keystore
use passport_nostr_signer.Keystore.{
  Keystore, EncryptedRecord, get_info, make_record, seal_record, push_record, add,
}
use passport_nostr_signer.Keys.{SecretKey}
use passport_nostr_signer.Autosign.{add_rule, remove_rule, set_rule_enabled}
use passport_nostr_signer.Engine.{Config, Device, Lib}
use passport_nostr_signer.Engine.Policy.{
  Failure, put_autosign, add_auto_sign_rule, check_new_rule, delete_auto_sign_rule,
  set_auto_sign_enabled, disable_auto_sign_rules,
}
use passport_nostr_signer.Engine.Identities.{persist_auto_sign_keeps, disable_keeps, remove_keeps}
use passport_nostr_signer.Engine.Screens.{
  deselect, persist, put_keystore, change_keystore, set_archived, delete, finish_add, add_key,
}
use passport_nostr_signer.Ui.Callbacks.{is_selected}

-- The selection after a key is gone: none if it was that key.
abbrev pub after_gone : Bytes → Option Bytes → Option Bytes
after_gone uuid selected = if is_selected selected uuid then none else selected

-- What the engine's calls do to its selected key.
module _ (lib : Lib) (config : Config) where
  pub change_keystore_selected :
      (x : Keystore × Result (Unit {0}) Keystore.Error) (outcome : SaveOutcome) (d : Device)
      → (change_keystore lib config x outcome d).0.selected ≡ d.selected
  unfolding change_keystore persist
  change_keystore_selected (ks, ok u) outcome d = refl
  change_keystore_selected (ks, err e) outcome d = refl

  deselect_selected :
      (uuid : Bytes) (d : Device) → (deselect uuid d).selected ≡ after_gone uuid d.selected
  unfolding deselect is_selected
  deselect_selected uuid d = elim (Option-cases d.selected) [
    | inl e ↦ rw e refl
    | inr (u, e) ↦ elim (Bool-cases (eqb u uuid)) [
      | inl same ↦ rw (e, same) refl
      | inr other ↦ rw (e, other) refl
    ]
  ]

  pub set_archived_ok :
      (uuid : Bytes) (outcome policy : SaveOutcome) (d : Device)
      → (set_archived lib config uuid true outcome policy d).1 ≡ ok tt
      → (set_archived lib config uuid true outcome policy d).0.selected ≡ after_gone uuid d.selected
  unfolding set_archived
  set_archived_ok uuid outcome policy d h =
      let x = Keystore.set_archived uuid true d.keystore in
      let kept = change_keystore_selected x outcome d in
      elim (Result-cases (change_keystore lib config x outcome d).1) [
        | inl (tt, e) ↦
            let d1 = (change_keystore lib config x outcome d).0 in
            let d2 = (disable_auto_sign_rules lib config uuid policy d1).0 in
            rw e (
              deselect_selected uuid d2
              ∙ ap (after_gone uuid) ((disable_keeps lib config uuid policy d1).1 ∙ kept))
        | inr (x', e) ↦ absurd (cc (rw e at h))
      ]

  pub set_archived_err :
      (uuid : Bytes) (outcome policy : SaveOutcome) (d : Device) (e : Failure)
      → (set_archived lib config uuid true outcome policy d).1 ≡ err e
      → (set_archived lib config uuid true outcome policy d).0.selected ≡ d.selected
  unfolding set_archived
  set_archived_err uuid outcome policy d f h =
      let x = Keystore.set_archived uuid true d.keystore in
      elim (Result-cases (change_keystore lib config x outcome d).1) [
        | inl (tt, e) ↦ absurd (cc (rw e at h))
        | inr (x', e) ↦ rw e (change_keystore_selected x outcome d)
      ]

  pub restored_selected :
      (uuid : Bytes) (outcome policy : SaveOutcome) (d : Device)
      → (set_archived lib config uuid false outcome policy d).0.selected ≡ d.selected
  unfolding set_archived
  restored_selected uuid outcome policy d =
      let x = Keystore.set_archived uuid false d.keystore in
      elim (Result-cases (change_keystore lib config x outcome d).1) [
        | inl (tt, e) ↦ rw e (change_keystore_selected x outcome d)
        | inr (x', e) ↦ rw e (change_keystore_selected x outcome d)
      ]

  pub delete_ok :
      (uuid : Bytes) (outcome policy : SaveOutcome) (d : Device)
      → (delete lib config uuid outcome policy d).1 ≡ ok tt
      → (delete lib config uuid outcome policy d).0.selected ≡ after_gone uuid d.selected
  unfolding delete
  delete_ok uuid outcome policy d h =
      let x = Keystore.remove uuid d.keystore in
      let kept = change_keystore_selected x outcome d in
      elim (Result-cases (change_keystore lib config x outcome d).1) [
        | inl (tt, e) ↦
            let d1 = (change_keystore lib config x outcome d).0 in
            rw e (
              (remove_keeps lib config uuid policy (deselect uuid d1)).1
              ∙ deselect_selected uuid d1
              ∙ ap (after_gone uuid) kept)
        | inr (x', e) ↦ absurd (cc (rw e at h))
      ]

  pub delete_err :
      (uuid : Bytes) (outcome policy : SaveOutcome) (d : Device) (e : Failure)
      → (delete lib config uuid outcome policy d).1 ≡ err e
      → (delete lib config uuid outcome policy d).0.selected ≡ d.selected
  unfolding delete
  delete_err uuid outcome policy d f h =
      let x = Keystore.remove uuid d.keystore in
      elim (Result-cases (change_keystore lib config x outcome d).1) [
        | inl (tt, e) ↦ absurd (cc (rw e at h))
        | inr (x', e) ↦ rw e (change_keystore_selected x outcome d)
      ]

  pub add_rule_selected :
      (key origin : Bytes) (kind hours most now : ℕ) (id : Bytes) (outcome : SaveOutcome)
      (d : Device)
      → (add_auto_sign_rule lib config key origin kind hours most now id outcome d).0.selected
        ≡ d.selected
  unfolding add_auto_sign_rule
  add_rule_selected key origin kind hours most now id outcome d =
      elim (Result-cases (check_new_rule lib config key hours now d)) [
        | inl (at, e) ↦
            let added = add_rule key origin kind at most now id d.autosign in
            elim (Result-cases added.1) [
              | inl (u, f) ↦
                  rw (e, f, add_auto_sign_rule)
                    (persist_auto_sign_keeps lib config outcome (put_autosign added.0 d)).1
              | inr (x, f) ↦ rw (e, f, add_auto_sign_rule) refl
            ]
        | inr (x, e) ↦ rw (e, add_auto_sign_rule) refl
      ]

  pub delete_rule_selected :
      (id : Bytes) (outcome : SaveOutcome) (d : Device)
      → (delete_auto_sign_rule lib config id outcome d).0.selected ≡ d.selected
  unfolding delete_auto_sign_rule
  delete_rule_selected id outcome d =
      let removed = remove_rule id d.autosign in
      elim (Bool-cases removed.1) [
        | inl e ↦ rw e (persist_auto_sign_keeps lib config outcome (put_autosign removed.0 d)).1
        | inr e ↦ rw e refl
      ]

  pub toggle_rule_selected :
      (id : Bytes) (enabled : Bool) (outcome : SaveOutcome) (d : Device)
      → (set_auto_sign_enabled lib config id enabled outcome d).0.selected ≡ d.selected
  unfolding set_auto_sign_enabled
  toggle_rule_selected id enabled outcome d =
      let changed = set_rule_enabled id enabled d.autosign in
      elim (Bool-cases changed.1) [
        | inl e ↦ rw e (persist_auto_sign_keeps lib config outcome (put_autosign changed.0 d)).1
        | inr e ↦ rw e refl
      ]

  pub add_key_selected :
      (label : Text) (sk : SecretKey) (color now : ℕ) (uuid nonce : Option Bytes)
      (seed : Result Bytes Keystore.Error) (outcome : SaveOutcome) (d : Device) (e : Failure)
      → (add_key lib config label sk color now uuid nonce seed outcome d).1 ≡ err e
      → (add_key lib config label sk color now uuid nonce seed outcome d).0.selected ≡ d.selected
  unfolding add_key finish_add
  add_key_selected label sk color now uuid nonce seed outcome d f h =
      let added = Keystore.add lib.keystore label sk now uuid nonce seed d.keystore in
      elim (Result-cases added.1) [
        | inl (u, e) ↦
            let x = Keystore.set_color u color added.0 in
            let d1 = put_keystore added.0 d in
            elim (Result-cases (change_keystore lib config x outcome d1).1) [
              | inl (v, e') ↦ absurd (cc (rw (e, e') at h))
              | inr (v, e') ↦ rw (e, e') (change_keystore_selected x outcome d1)
            ]
        | inr (u, e) ↦ rw e refl
      ]

  drawn_uuid :
      (label : Text) (sk : SecretKey) (now : ℕ) (draw nonce_draw : Option Bytes)
      (seed : Result Bytes Keystore.Error) (ks : Keystore) (r : EncryptedRecord)
      → make_record lib.keystore label sk now draw nonce_draw seed ks ≡ ok r
      → draw ≡ some r.uuid
  unfolding make_record seal_record
  drawn_uuid label sk now draw nonce_draw seed ks r h = ground arith

  added_uuid :
      (label : Text) (sk : SecretKey) (now : ℕ) (draw nonce_draw : Option Bytes)
      (seed : Result Bytes Keystore.Error) (ks : Keystore) (uuid : Bytes)
      → (add lib.keystore label sk now draw nonce_draw seed ks).1 ≡ ok uuid
      → draw ≡ some uuid
  unfolding add push_record
  added_uuid label sk now draw nonce_draw seed ks uuid h =
      elim (Result-cases (make_record lib.keystore label sk now draw nonce_draw seed ks)) [
        | inl (r, e) ↦
            let same : r.uuid ≡ uuid = cc (rw e at h) in
            drawn_uuid label sk now draw nonce_draw seed ks r e ∙ ap some same
        | inr (x, e) ↦ absurd (cc (rw e at h))
      ]

  -- An `add_key` that returns Ok selects the uuid that was drawn, and returns it in hex.
  pub add_key_ok :
      (label : Text) (sk : SecretKey) (color now : ℕ) (draw nonce_draw : Option Bytes)
      (seed : Result Bytes Keystore.Error) (outcome : SaveOutcome) (d : Device) (uuid_hex : Text)
      → (add_key lib config label sk color now draw nonce_draw seed outcome d).1 ≡ ok uuid_hex
      → (uuid : Bytes) × (draw ≡ some uuid)
        × (uuid_hex ≡ lib.keystore.hx.encode uuid)
        × ((add_key lib config label sk color now draw nonce_draw seed outcome d).0.selected
            ≡ some uuid)
  unfolding add_key finish_add
  add_key_ok label sk color now draw nonce_draw seed outcome d uuid_hex h =
      let added = add lib.keystore label sk now draw nonce_draw seed d.keystore in
      elim (Result-cases added.1) [
        | inl (u, e) ↦
            let x = Keystore.set_color u color added.0 in
            let d1 = put_keystore added.0 d in
            elim (Result-cases (change_keystore lib config x outcome d1).1) [
              | inl (v, e') ↦ (
                u,
                added_uuid label sk now draw nonce_draw seed d.keystore u e,
                sym (cc (rw (e, e') at h)),
                rw (e, e') refl,
              )
              | inr (v, e') ↦ absurd (cc (rw (e, e') at h))
            ]
        | inr (u, e) ↦ absurd (cc (rw e at h))
      ]
