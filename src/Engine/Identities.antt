-- ===== src/Engine/Identities.antt =====
-- What the screens' calls leave behind when they return Ok.
use passport_nostr_signer.Prelude.{
  ℕ, ◌≡◌, ◌≢◌, refl, sym, ◌∙◌, ap, true, false, not, ◌&&◌, inl, inr, Option, none, some, List, [],
  ◌∷◌, map, arith, Bytes, Text, text, eqb, eqb_iff, eqb_refl, any_of, keep_if, find_first, is_some,
  Bool-cases, Option-cases, if◌then◌else◌,
}
use passport_nostr_signer.Prelude.Result.{Result, ok, err, Result-cases}
use passport_nostr_signer.Storage.{SaveOutcome}
use passport_nostr_signer.Storage.Atomic.{save_file-IsAtomic}
use passport_nostr_signer.Origin.{normalize_origin}
use passport_nostr_signer.Keystore
use passport_nostr_signer.Keystore.{
  EncryptedRecord, Keystore, get_info, has_uuid, info_of, map_option, modify,
}
use passport_nostr_signer.Keystore.Invariant
use passport_nostr_signer.Keystore.Lookup.{find_uuid, find-update_first, find-remove_first}
use passport_nostr_signer.Keystore.File.{to_bytes, save}
use passport_nostr_signer.Autosign.{
  AutoSignRule, AutoSignStore, is_key, is_match, reserve_match, disable_key_rules, remove_key_rules,
}
use passport_nostr_signer.Autosign.Reserve.{reserve_normal_missing}
use passport_nostr_signer.Engine.{Config, Device, Lib, is_live}
use passport_nostr_signer.Engine.Policy.{
  put_autosign, disable_auto_sign_rules, remove_auto_sign_rules_for_key, persist_auto_sign,
}
use passport_nostr_signer.Engine.Screens.{
  put_keystore, deselect, persist, change_keystore, set_archived, delete,
}

module _ (lib : Lib) (config : Config) where
  -- A change of the keystore that was saved.
  pub record IsSaved (ks : Keystore) (d d' : Device) : Type 0 where
    pub keystore : d'.keystore ≡ ks
    pub selected : d'.selected ≡ d.selected
    pub autosign : d'.autosign ≡ d.autosign
    pub bytes : Bytes
    pub encoded : to_bytes lib.keystore_json ks ≡ ok bytes
    pub on_disk : d'.disk config.keystore_path ≡ some bytes

  persist-IsSaved :
      (outcome : SaveOutcome) (d : Device)
      → (persist lib config outcome d).1 ≡ ok tt
      → IsSaved d.keystore d (persist lib config outcome d).0
  unfolding persist save
  persist-IsSaved outcome d h =
      let atomic =
        save_file-IsAtomic (text "keystore") config.keystore_path
          (to_bytes lib.keystore_json d.keystore) outcome d.disk in
      let (bytes, encoded, on_disk) = atomic.done (ground arith) in
      record {
        keystore = refl;
        selected = refl;
        autosign = refl;
        bytes = bytes;
        encoded = encoded;
        on_disk = on_disk;
      }

  pub change_keystore-IsSaved :
      (x : Keystore × Result (Unit {0}) Keystore.Error) (outcome : SaveOutcome) (d : Device)
      → (change_keystore lib config x outcome d).1 ≡ ok tt
      → (x.1 ≡ ok tt) × IsSaved x.0 d (change_keystore lib config x outcome d).0
  unfolding change_keystore
  change_keystore-IsSaved (ks, ok u) outcome d h =
      let saved = persist-IsSaved outcome (put_keystore ks d) h in
      (
        refl,
        record {
          keystore = saved.keystore;
          selected = saved.selected;
          autosign = saved.autosign;
          bytes = saved.bytes;
          encoded = saved.encoded;
          on_disk = saved.on_disk;
        },
      )
  change_keystore-IsSaved (ks, err e) outcome d h = absurd (cc h)

  pub persist_auto_sign_keeps :
      (outcome : SaveOutcome) (d : Device)
      → ((persist_auto_sign lib config outcome d).0.keystore ≡ d.keystore)
        × ((persist_auto_sign lib config outcome d).0.selected ≡ d.selected)
        × ((persist_auto_sign lib config outcome d).0.autosign ≡ d.autosign)
  unfolding persist_auto_sign
  persist_auto_sign_keeps outcome d = elim (Option-cases config.autosign_mac_key) [
    | inl e ↦ rw e (refl, refl, refl)
    | inr (k, e) ↦ rw e (refl, refl, refl)
  ]

  pub disable_keeps :
      (uuid : Bytes) (outcome : SaveOutcome) (d : Device)
      → let d' = (disable_auto_sign_rules lib config uuid outcome d).0 in
        (d'.keystore ≡ d.keystore)
        × (d'.selected ≡ d.selected)
        × (d'.autosign ≡ (disable_key_rules uuid d.autosign).0)
  unfolding disable_auto_sign_rules
  disable_keeps uuid outcome d = elim (Bool-cases (disable_key_rules uuid d.autosign).1) [
    | inl e ↦
        rw e
          (persist_auto_sign_keeps outcome (put_autosign (disable_key_rules uuid d.autosign).0 d))
    | inr e ↦ rw e (refl, refl, refl)
  ]

  pub remove_keeps :
      (uuid : Bytes) (outcome : SaveOutcome) (d : Device)
      → let d' = (remove_auto_sign_rules_for_key lib config uuid outcome d).0 in
        (d'.keystore ≡ d.keystore)
        × (d'.selected ≡ d.selected)
        × (d'.autosign ≡ (remove_key_rules uuid d.autosign).0)
  unfolding remove_auto_sign_rules_for_key
  remove_keeps uuid outcome d = elim (Bool-cases (remove_key_rules uuid d.autosign).1) [
    | inl e ↦
        rw e (persist_auto_sign_keeps outcome (put_autosign (remove_key_rules uuid d.autosign).0 d))
    | inr e ↦ rw e (refl, refl, refl)
  ]

deselect_lem :
    (uuid : Bytes) (d : Device)
    → ((deselect uuid d).keystore ≡ d.keystore)
      × ((deselect uuid d).autosign ≡ d.autosign)
      × ((deselect uuid d).selected ≢ some uuid)
unfolding deselect
deselect_lem uuid d = elim (Option-cases d.selected) [
  | inl e ↦ rw e (refl, refl, λ h. cc (h, e))
  | inr (u, e) ↦ elim (Bool-cases (eqb u uuid)) [
    | inl same ↦ rw (e, same) (refl, refl, λ h. cc h)
    | inr other ↦
        rw (e, other) (refl, refl, λ h. absurd (ground (arith, h, e, other, eqb_iff u uuid)))
  ]
]

-- A disabled key's rules match nothing.
find_disabled :
    (key origin : Bytes) (kind now : ℕ) (rs : List AutoSignRule)
    → find_first (is_match key origin kind now) (
        map
          (λ (r : AutoSignRule).
            if is_key key r && r.enabled then record r { enabled = false } else r)
          rs)
      ≡ none
unfolding is_match
find_disabled key origin kind now [] = refl
find_disabled key origin kind now (r ∷ rs) = ground (arith, find_disabled key origin kind now rs)

disabled_refuses :
    (key origin : Bytes) (kind now : ℕ) (s : AutoSignStore)
    → (reserve_match key origin kind now (disable_key_rules key s).0).1 ≡ none
unfolding reserve_match disable_key_rules
disabled_refuses key origin kind now s = elim (Result-cases (normalize_origin origin)) [
  | inl (o, e) ↦
      let gone =
        reserve_normal_missing key o kind now (disable_key_rules key s).0
          (find_disabled key o kind now s.rules) in
      rw (e, reserve_match) (ap (λ (p : AutoSignStore × Option Bytes). p.1) gone)
  | inr (x, e) ↦ rw (e, reserve_match) refl
]

archived_dead :
    (uuid : Bytes) (ks : Keystore)
    → is_live (get_info uuid (Keystore.set_archived uuid true ks).0) ≡ false
unfolding Keystore.set_archived modify get_info is_live
archived_dead uuid ks =
    let put = λ (r : EncryptedRecord). record r { archived = true } in
    elim (Option-cases (find_uuid uuid ks.records)) [
      | inl e ↦ ground (arith, e)
      | inr (r, e) ↦
          let moved = find-update_first uuid uuid put ks.records (λ r. refl) in
          ground (arith, e, moved, eqb_refl uuid)
    ]

find_removed :
    (key : Bytes) (rs : List AutoSignRule)
    → any_of (is_key key) (keep_if (λ (r : AutoSignRule). not (is_key key r)) rs) ≡ false
find_removed key [] = refl
find_removed key (r ∷ rs) = ground (arith, find_removed key rs)

removed_gone :
    (uuid : Bytes) (ks : Keystore)
    → Invariant.IsValid ks
    → (Keystore.remove uuid ks).1 ≡ ok tt
    → get_info uuid (Keystore.remove uuid ks).0 ≡ none
unfolding Keystore.remove get_info
removed_gone uuid ks valid h =
    let gone = find-remove_first uuid uuid ks.records valid.uuids in
    elim (Bool-cases (is_some (find_first (has_uuid uuid) ks.records))) [
      | inl found ↦
          let gone' : find_uuid uuid (Keystore.remove_first uuid ks.records) ≡ none =
            gone ∙ (rw (eqb_refl uuid) refl) in
          rw found (ap (map_option info_of) gone')
      | inr missing ↦ absurd (ground (arith, missing))
    ]

-- An identity that is out of use: not live, not selected, and signed for by no rule.
pub record IsRetired (uuid : Bytes) (d : Device) : Type 0 where
  pub dead : is_live (get_info uuid d.keystore) ≡ false
  pub unselected : d.selected ≢ some uuid
  pub no_rule :
      (origin : Text) (kind now : ℕ) → (reserve_match uuid origin kind now d.autosign).1 ≡ none

module _ (lib : Lib) (config : Config) where
  -- An archiving that returns Ok leaves the identity not live, not selected, and with no rule that could
  -- sign for it at any time, even if the policy could not be saved.
  pub set_archived-IsRetired :
      (uuid : Bytes) (outcome policy_outcome : SaveOutcome) (d : Device)
      → (set_archived lib config uuid true outcome policy_outcome d).1 ≡ ok tt
      → IsRetired uuid (set_archived lib config uuid true outcome policy_outcome d).0
  unfolding set_archived
  set_archived-IsRetired uuid outcome policy_outcome d h =
      elim (Result-cases
        (change_keystore lib config (Keystore.set_archived uuid true d.keystore) outcome d).1) [
          | inl (tt, e) ↦
              let d1 =
                (change_keystore lib config (Keystore.set_archived uuid true d.keystore) outcome
                  d).0 in
              let (_, saved) =
                change_keystore-IsSaved lib config (Keystore.set_archived uuid true d.keystore)
                  outcome d e in
              let d2 = (disable_auto_sign_rules lib config uuid policy_outcome d1).0 in
              let (ks, _, policy) = disable_keeps lib config uuid policy_outcome d1 in
              let (ks', policy', out) = deselect_lem uuid d2 in
              rw e (record {
                dead =
                    ap (λ k. is_live (get_info uuid k)) (ks' ∙ ks ∙ saved.keystore)
                    ∙ archived_dead uuid d.keystore;
                unselected = out;
                no_rule = λ origin kind now.
                    ap (λ s. (reserve_match uuid origin kind now s).1) (policy' ∙ policy)
                    ∙ disabled_refuses uuid origin kind now d1.autosign;
              })
          | inr (x, e) ↦ absurd (cc (rw e at h))
        ]

  -- A deletion that returns Ok leaves no identity with that uuid, not selected, and no rule for it.
  pub delete_done :
      (uuid : Bytes) (outcome policy_outcome : SaveOutcome) (d : Device)
      → Invariant.IsValid d.keystore
      → (delete lib config uuid outcome policy_outcome d).1 ≡ ok tt
      → let d' = (delete lib config uuid outcome policy_outcome d).0 in
        (get_info uuid d'.keystore ≡ none)
        × (d'.selected ≢ some uuid)
        × (any_of (is_key uuid) d'.autosign.rules ≡ false)
  unfolding delete
  delete_done uuid outcome policy_outcome d valid h =
      elim (Result-cases
        (change_keystore lib config (Keystore.remove uuid d.keystore) outcome d).1) [
          | inl (tt, e) ↦
              let d1 = (change_keystore lib config (Keystore.remove uuid d.keystore) outcome d).0 in
              let (removed, saved) =
                change_keystore-IsSaved lib config (Keystore.remove uuid d.keystore) outcome d e in
              let (ks, policy, out) = deselect_lem uuid d1 in
              let (ks', sel, policy') =
                remove_keeps lib config uuid policy_outcome (deselect uuid d1) in
              rw e (
                ap (get_info uuid) (ks' ∙ ks ∙ saved.keystore)
                    ∙ removed_gone uuid d.keystore valid removed,
                λ s. out (sym sel ∙ s),
                (ap (λ (s : AutoSignStore). any_of (is_key uuid) s.rules) policy'
                    ∙ (unfold remove_key_rules in
                        find_removed uuid (deselect uuid d1).autosign.rules)),
              )
          | inr (x, e) ↦ absurd (cc (rw e at h))
        ]
