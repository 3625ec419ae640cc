-- ===== src/Engine/Screens.antt =====
-- src/engine.rs: what the device's own screens call.
use passport_nostr_signer.Prelude.{
  ℕ, Bool, true, false, not, Option, none, some, List, map, Bytes, Text, eqb, if◌then◌else◌,
}
use passport_nostr_signer.Prelude.Result.{map_err, Result, ok, ◌>>=◌}
use passport_nostr_signer.Storage.{SaveOutcome}
use passport_nostr_signer.Keys.{SecretKey}
use passport_nostr_signer.Keystore
use passport_nostr_signer.Keystore.{Keystore, KeyInfo, get_info}
use passport_nostr_signer.Keystore.File.{save}
use passport_nostr_signer.Describe.{nostr_text}
use passport_nostr_signer.Engine.{Config, Device, Lib, is_live}
use passport_nostr_signer.Engine.Policy.{
  Failure, stored, and_then, of_keystore, keystore_save, of_encoding, disable_auto_sign_rules,
  remove_auto_sign_rules_for_key,
}

abbrev pub put_keystore : Keystore → Device → Device
put_keystore ks d = record d { keystore = ks }

unfoldable pub select : Bytes → Device → Device × Bool
select uuid d =
    if not (is_live (get_info uuid d.keystore))
    then (d, false)
    else (record d { selected = some uuid }, true)

-- `if *selected == Some(*uuid) { *selected = None; }`
unfoldable pub deselect : Bytes → Device → Device
deselect uuid d = elim d.selected [
  | none ↦ d
  | some u ↦ if eqb u uuid then record d { selected = none } else d
]

module _ (lib : Lib) (config : Config) where
  unfoldable pub persist : SaveOutcome → Device → Device × Result (Unit {0}) Failure
  persist outcome d =
      stored keystore_save d (save lib.keystore_json d.keystore config.keystore_path outcome d.disk)

  -- A change of the keystore, `?`, and the save.
  unfoldable pub change_keystore :
      Keystore × Result (Unit {0}) Keystore.Error
      → SaveOutcome
      → Device
      → Device × Result (Unit {0}) Failure
  change_keystore changed outcome d =
      and_then (put_keystore changed.0 d, map_err of_keystore changed.1) (λ _. persist outcome)

  unfoldable pub rename : Bytes → Text → SaveOutcome → Device → Device × Result (Unit {0}) Failure
  rename uuid label outcome d = change_keystore (Keystore.rename uuid label d.keystore) outcome d

  unfoldable pub set_color : Bytes → ℕ → SaveOutcome → Device → Device × Result (Unit {0}) Failure
  set_color uuid color outcome d =
      change_keystore (Keystore.set_color uuid color d.keystore) outcome d

  unfoldable pub set_archived :
      Bytes → Bool → SaveOutcome → SaveOutcome → Device → Device × Result (Unit {0}) Failure
  set_archived uuid archived outcome policy_outcome d =
      and_then (change_keystore (Keystore.set_archived uuid archived d.keystore) outcome d) (λ _ d'.
        if archived
        then (deselect uuid (disable_auto_sign_rules lib config uuid policy_outcome d').0, ok tt)
        else (d', ok tt))

  unfoldable pub delete :
      Bytes → SaveOutcome → SaveOutcome → Device → Device × Result (Unit {0}) Failure
  delete uuid outcome policy_outcome d =
      and_then (change_keystore (Keystore.remove uuid d.keystore) outcome d) (λ _ d'. (
        (remove_auto_sign_rules_for_key lib config uuid policy_outcome (deselect uuid d')).0,
        ok tt,
      ))

  unfoldable pub reveal_nsec : Bytes → Result Bytes Keystore.Error → Device → Result Text Failure
  reveal_nsec uuid seed d = do
    sk ← map_err of_keystore (Keystore.reveal lib.keystore uuid seed d.keystore)
    map_err (λ e. of_encoding (nostr_text lib.show e)) (lib.encode_nsec sk)

  -- `add_key` once the key is in the keystore.
  unfoldable pub finish_add : Bytes → ℕ → SaveOutcome → Device → Device × Result Text Failure
  finish_add uuid color outcome d =
      and_then (change_keystore (Keystore.set_color uuid color d.keystore) outcome d)
        (λ _ d'. (record d' { selected = some uuid }, ok (lib.keystore.hx.encode uuid)))

  unfoldable pub add_key :
      Text
      → SecretKey
      → ℕ
      → ℕ
      → Option Bytes
      → Option Bytes
      → Result Bytes Keystore.Error
      → SaveOutcome
      → Device
      → Device × Result Text Failure
  add_key label sk color now uuid_draw nonce_draw seed outcome d =
      let added = Keystore.add lib.keystore label sk now uuid_draw nonce_draw seed d.keystore in
      and_then (put_keystore added.0 d, map_err of_keystore added.1)
        (λ uuid. finish_add uuid color outcome)

  -- (uuid_hex, label, npub_hex, color, archived)
  unfoldable pub key_list : Device → List (Text × Text × Text × ℕ × Bool)
  key_list d =
      map
        (λ (k : KeyInfo). (
          lib.keystore.hx.encode k.uuid,
          k.label,
          lib.keystore.hx.encode k.npub,
          k.color,
          k.archived,
        ))
        (Keystore.list d.keystore)
