-- ===== src/Engine/Policy.antt =====
-- src/engine.rs: the engine's use of the auto-sign policy, each change followed by a save.
use passport_nostr_signer.Prelude.{
  ℕ, ◌+◌, ◌*◌, ◌^◌, Bool, not, Option, none, some, List, Bytes, Text, is_some, leb, ◌==◌,
  if◌then◌else◌,
}
use passport_nostr_signer.Prelude.Result.{map_err, Result, ok, err, ◌>>◌, reject_if}
use passport_nostr_signer.Storage.{Disk, SaveOutcome, SaveError}
use passport_nostr_signer.Keystore
use passport_nostr_signer.Keystore.{get_info}
use passport_nostr_signer.Autosign.{
  AutoSignRuleInfo, AutoSignStore, AddRuleError, add_rule, remove_rule, set_rule_enabled,
  remove_key_rules, disable_key_rules, reserve_match, record_signed,
}
use passport_nostr_signer.Autosign.Listing.{rules_for_key}
use passport_nostr_signer.Autosign.File.{FileError, save}
use passport_nostr_signer.Engine.{Config, Device, Lib, is_live}

-- The causes of the `String`s that the engine's methods fail with.
pub data Failure : Type 0 where
  of_keystore : Keystore.Error → Failure
  keystore_save : SaveError Keystore.Error → Failure
  no_policy_key : Failure
  policy_save : SaveError FileError → Failure
  not_live : Failure
  expiry_too_large : Failure
  of_rule : AddRuleError → Failure
  no_such_rule : Failure
  of_encoding : Text → Failure

abbrev pub put_autosign : AutoSignStore → Device → Device
put_autosign s d = record d { autosign = s }

-- What a save did to the disk, with its error as a cause.
abbrev pub stored :
    {E : Type 0}
    → (SaveError E → Failure)
    → Device
    → Disk × Result (Unit {0}) (SaveError E)
    → Device × Result (Unit {0}) Failure
stored cause d saved = (record d { disk = saved.0 }, map_err cause saved.1)

-- A call that changes the device, `?`, and what follows.
abbrev pub and_then :
    {A B : Type 0}
    → Device × Result A Failure
    → (A → Device → Device × Result B Failure)
    → Device × Result B Failure
and_then (d, ok a) next = next a d
and_then (d, err e) next = (d, err e)

unfoldable pub auto_sign_rules_for_key : Bytes → Device → List AutoSignRuleInfo
auto_sign_rules_for_key key_uuid d = rules_for_key key_uuid d.autosign

module _ (lib : Lib) (config : Config) where
  -- `persist_auto_sign` of the device's own store.
  unfoldable pub persist_auto_sign : SaveOutcome → Device → Device × Result (Unit {0}) Failure
  persist_auto_sign outcome d = elim config.autosign_mac_key [
    | none ↦ (d, err no_policy_key)
    | some mac_key ↦
        stored policy_save d
          (save lib.autosign d.autosign config.autosign_path mac_key outcome d.disk)
  ]

  -- `expires_at` in `add_auto_sign_rule`: 0 for no expiry, and the checked `u64` arithmetic.
  unfoldable pub expiry_of : ℕ → ℕ → Result ℕ Failure
  expiry_of now expiry_hours =
      if expiry_hours == 0
      then ok 0
      else if leb (2 ^ 64) (expiry_hours * (60 * 60))
      then err expiry_too_large
      else if leb (2 ^ 64) (now + expiry_hours * (60 * 60))
      then err expiry_too_large
      else ok (now + expiry_hours * (60 * 60))

  -- `add_auto_sign_rule` up to the call of `add_rule`.
  unfoldable pub check_new_rule : Bytes → ℕ → ℕ → Device → Result ℕ Failure
  unfolding expiry_of
  check_new_rule key_uuid expiry_hours now d = do
    reject_if (not (is_some config.autosign_mac_key)) no_policy_key
    reject_if (not (is_live (get_info key_uuid d.keystore))) not_live
    expiry_of now expiry_hours

  unfoldable pub add_auto_sign_rule :
      Bytes
      → Text
      → ℕ
      → ℕ
      → ℕ
      → ℕ
      → Bytes
      → SaveOutcome
      → Device
      → Device × Result (Unit {0}) Failure
  add_auto_sign_rule key_uuid origin kind expiry_hours max_per_hour now rule_id outcome d =
      elim (check_new_rule key_uuid expiry_hours now d) [
        | err e ↦ (d, err e)
        | ok expires_at ↦
            let added =
              add_rule key_uuid origin kind expires_at max_per_hour now rule_id d.autosign in
            and_then (put_autosign added.0 d, map_err of_rule added.1)
              (λ _. persist_auto_sign outcome)
      ]

  unfoldable pub delete_auto_sign_rule :
      Bytes → SaveOutcome → Device → Device × Result (Unit {0}) Failure
  delete_auto_sign_rule rule_id outcome d =
      let removed = remove_rule rule_id d.autosign in
      let d' = put_autosign removed.0 d in
      if not removed.1 then (d', err no_such_rule) else persist_auto_sign outcome d'

  unfoldable pub set_auto_sign_enabled :
      Bytes → Bool → SaveOutcome → Device → Device × Result (Unit {0}) Failure
  set_auto_sign_enabled rule_id enabled outcome d =
      let changed = set_rule_enabled rule_id enabled d.autosign in
      let d' = put_autosign changed.0 d in
      if not changed.1 then (d', err no_such_rule) else persist_auto_sign outcome d'

  unfoldable pub remove_auto_sign_rules_for_key :
      Bytes → SaveOutcome → Device → Device × Result (Unit {0}) Failure
  remove_auto_sign_rules_for_key key_uuid outcome d =
      let removed = remove_key_rules key_uuid d.autosign in
      let d' = put_autosign removed.0 d in
      if removed.1 then persist_auto_sign outcome d' else (d', ok tt)

  unfoldable pub disable_auto_sign_rules :
      Bytes → SaveOutcome → Device → Device × Result (Unit {0}) Failure
  disable_auto_sign_rules key_uuid outcome d =
      let disabled = disable_key_rules key_uuid d.autosign in
      let d' = put_autosign disabled.0 d in
      if disabled.1 then persist_auto_sign outcome d' else (d', ok tt)

  -- `if matched.is_some() { persist_auto_sign(..)?; }`: the store keeps the use whatever the save gives.
  unfoldable pub save_reserved :
      Option Bytes → SaveOutcome → Device → Device × Result (Option Bytes) Failure
  save_reserved none outcome d = (d, ok none)
  save_reserved (some rule_id) outcome d =
      and_then (persist_auto_sign outcome d) (λ _ d'. (d', ok (some rule_id)))

  unfoldable pub reserve_auto_sign :
      Bytes → Option Text → ℕ → ℕ → SaveOutcome → Device → Device × Result (Option Bytes) Failure
  reserve_auto_sign key_uuid none kind now outcome d = (d, ok none)
  reserve_auto_sign key_uuid (some origin) kind now outcome d =
      if not (is_some config.autosign_mac_key)
      then (d, ok none)
      else let reserved = reserve_match key_uuid origin kind now d.autosign in
        save_reserved reserved.1 outcome (put_autosign reserved.0 d)

  unfoldable pub record_auto_signed :
      Bytes
      → Bytes
      → Text
      → ℕ
      → Text
      → ℕ
      → SaveOutcome
      → Device
      → Device × Result (Unit {0}) Failure
  record_auto_signed rule_id key_uuid origin kind event_id now outcome d =
      persist_auto_sign outcome
        (put_autosign (record_signed rule_id key_uuid origin kind event_id now d.autosign) d)
