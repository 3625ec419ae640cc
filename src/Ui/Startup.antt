-- ===== src/Ui/Startup.antt =====
-- src/main.rs: `app_main` up to the event loop, with `ensure_dev_keystore` and `autosign_mac_key`.
use passport_nostr_signer.Prelude.{
  ℕ, Bool, true, false, not, Option, none, some, Bytes, Text, find_first, is_some, if◌then◌else◌,
}
use passport_nostr_signer.Prelude.Result.{Result, ok, err}
use passport_nostr_signer.Storage.{FilePath, Disk}
use passport_nostr_signer.Strings.{trim}
use passport_nostr_signer.Keystore
use passport_nostr_signer.Keystore.{Keystore}
use passport_nostr_signer.Keystore.File
use passport_nostr_signer.Autosign.{AutoSignStore, empty_store}
use passport_nostr_signer.Autosign.File as PolicyFile
use passport_nostr_signer.Engine.{Config, Device, Lib}
use passport_nostr_signer.Engine.Screens.{select, key_list}
use passport_nostr_signer.Ui.{App, blank}
use passport_nostr_signer.Ui.Format.{parse_uuid_arg}
use passport_nostr_signer.Ui.Rows.{refresh_keys_ui}
use passport_nostr_signer.Ui.Callbacks.{FileOutcome, UiLib, file_after, put_device}

-- `autosign_mac_key`, on what `app_seed` gives.
unfoldable pub autosign_mac_key : PolicyFile.Lib → Result Bytes Keystore.Error → Option Bytes
autosign_mac_key lib (ok seed) = some (PolicyFile.derive_mac_key lib seed)
autosign_mac_key lib (err _) = none

-- What `Engine::new` is given, with `EngineConfig::default()`.
unfoldable pub config_of :
    PolicyFile.Lib → Result Bytes Keystore.Error → FilePath → FilePath → Config
unfolding autosign_mac_key
config_of lib seed keys_path autosign_path = record {
  keystore_path = keys_path;
  autosign_path = autosign_path;
  autosign_mac_key = autosign_mac_key lib seed;
  content_preview_chars = 140;
}

abbrev or_empty : {E : Type 0} → Result AutoSignStore E → AutoSignStore
or_empty (ok store) = store
or_empty (err _) = empty_store

-- The policy to start with: an empty one without the key, or if the file cannot be loaded.
unfoldable pub initial_policy : PolicyFile.Lib → Option Bytes → FilePath → Disk → AutoSignStore
initial_policy lib none path disk = empty_store
initial_policy lib (some mac_key) path disk = or_empty (PolicyFile.load lib path mac_key disk)

abbrev pub put_selected_uuid : Text → App → App
put_selected_uuid uuid_hex a = record a { screen = record a.screen { selected_uuid = uuid_hex } }

abbrev pub restore_done : Text → App → Device × Bool → App
restore_done prev a (d, true) = put_selected_uuid prev (put_device d a)
restore_done prev a (d, false) = put_device d a

abbrev pub restore_at : Option Bytes → Text → App → App
restore_at none prev a = a
restore_at (some uuid) prev a = restore_done prev a (select uuid a.device)

abbrev pub default_done : Text → FileOutcome → App → Device × Bool → App
default_done uuid_hex file a (d, true) = record (put_selected_uuid uuid_hex (put_device d a)) {
  selected_file = file_after file (some uuid_hex);
}
default_done uuid_hex file a (d, false) = put_device d a

abbrev pub default_at : Option Bytes → Text → FileOutcome → App → App
default_at none uuid_hex file a = a
default_at (some uuid) uuid_hex file a = default_done uuid_hex file a (select uuid a.device)

abbrev pub is_unarchived : Text × Text × Text × ℕ × Bool → Bool
is_unarchived (_, _, _, _, archived) = not archived

-- `app_main` shows the error of the keystore, or runs.
pub data Boot : Type 0 where
  keystore_error : Keystore.Error → Boot
  running : App → Boot

module _ (lib : Lib) (config : Config) (ui : UiLib) where
  -- The key that `selected.txt` names.
  unfoldable pub restore_selected : Option Text → App → App
  restore_selected none a = a
  restore_selected (some prev) a =
      restore_at (parse_uuid_arg lib.keystore.hx (trim prev)) (trim prev) a

  abbrev pub default_named : Option (Text × Text × Text × ℕ × Bool) → FileOutcome → App → App
  default_named none file a = a
  default_named (some (uuid_hex, _, _, _, _)) file a =
      default_at (parse_uuid_arg lib.keystore.hx uuid_hex) uuid_hex file a

  -- "If nothing restored, default to the first key."
  unfoldable pub select_default : FileOutcome → App → App
  select_default file a =
      if is_some a.device.selected
      then a
      else default_named (find_first is_unarchived (key_list lib config a.device)) file a

  -- `Engine::new` and the first fill of the screens.
  unfoldable pub initial_app : Keystore → Option Text → Disk → App
  initial_app ks selected_file disk =
      let d : Device = record {
        keystore = ks;
        autosign = initial_policy lib.autosign config.autosign_mac_key config.autosign_path disk;
        selected = none;
        disk = disk;
      } in
      record {
        device = d;
        screen = refresh_keys_ui lib config ui.encode_npub d blank;
        selected_file = selected_file;
      }

  abbrev pub boot_with : Result Keystore Keystore.Error → Option Text → FileOutcome → Disk → Boot
  boot_with (err e) selected_file file disk = keystore_error e
  boot_with (ok ks) selected_file file disk =
      running
        (select_default file (restore_selected selected_file (initial_app ks selected_file disk)))

  -- `selected_file` is the text of `selected.txt`, `file` how its write goes.
  unfoldable pub boot : Option Text → FileOutcome → Disk → Boot
  unfolding select_default restore_selected initial_app
  boot selected_file file disk =
      boot_with (Keystore.File.load lib.keystore_json config.keystore_path disk) selected_file file
        disk
