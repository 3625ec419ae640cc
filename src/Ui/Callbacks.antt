-- ===== src/Ui/Callbacks.antt =====
-- src/main.rs: what the buttons do. The engine's locks are taken per call; a callback is one step here.
use passport_nostr_signer.Prelude.{
  ℕ, ◌+◌, Bool, true, false, Option, none, some, [], Bytes, Text, text, eqb, if◌then◌else◌,
}
use passport_nostr_signer.Prelude.Result.{Result, ok, err}
use passport_nostr_signer.Storage.{SaveOutcome}
use passport_nostr_signer.Strings.{trim}
use passport_nostr_signer.Keys.{NostrError, SecretKey, PublicKey}
use passport_nostr_signer.Keystore
use passport_nostr_signer.Engine.{Config, Device, Lib}
use passport_nostr_signer.Engine.Policy.{Failure}
use passport_nostr_signer.Engine.Screens.{
  select, add_key, rename, set_color, set_archived, delete, reveal_nsec,
}
use passport_nostr_signer.Ui.{ℤ, clamp_u8, nonneg_u32, Notice, quiet, says, failed, Screen, App}
use passport_nostr_signer.Ui.Format.{
  validate_label, parse_uuid_arg, parse_nsec_or_hex, ScanQrResult, scan_nsec_via_qr,
}
use passport_nostr_signer.Ui.Rows.{refresh_keys_ui}

-- What a write or a removal of `selected.txt` comes to; one that fails may leave anything.
pub data FileOutcome : Type 0 where
  done : FileOutcome
  left : Option Text → FileOutcome

-- What a callback meets: the clock, the draws, the app seed, the key derived for an account, the scanner,
-- and how the file calls go.
pub record World : Type 0 where
  pub now : ℕ
  pub uuid_draw : Option Bytes
  pub nonce_draw : Option Bytes
  pub rule_id : Bytes
  pub seed : Result Bytes Keystore.Error
  pub derive : ℕ → Result SecretKey Text
  pub scan : Result (Option ScanQrResult) Text
  pub save : SaveOutcome
  pub second_save : SaveOutcome
  pub policy_save : SaveOutcome
  pub file : FileOutcome

-- The crates and functions that the screens call beside the engine.
pub record UiLib : Type 0 where
  pub encode_npub : PublicKey → Result Text NostrError
  pub decode_nsec : Text → Result SecretKey NostrError
  pub from_utf8 : Bytes → Result Text Text

abbrev pub file_after : FileOutcome → Option Text → Option Text
file_after done intended = intended
file_after (left t) intended = t

abbrev pub set_editing_error : Notice → App → App
set_editing_error n a = record a { screen = record a.screen { editing_error = n } }

abbrev pub set_auto_sign_error : Notice → App → App
set_auto_sign_error n a = record a { screen = record a.screen { auto_sign_error = n } }

abbrev pub put_device : Device → App → App
put_device d a = record a { device = d }

abbrev pub put_screen : Screen → App → App
put_screen s a = record a { screen = s }

-- `engine.selected() == Some(uuid)`
unfoldable pub is_selected : Option Bytes → Bytes → Bool
is_selected none uuid = false
is_selected (some u) uuid = eqb u uuid

-- `set_selected_uuid` and the write of `selected.txt`.
abbrev pub remember : Text → World → App → App
remember uuid_hex w a = record a {
  screen = record a.screen { selected_uuid = uuid_hex };
  selected_file = file_after w.file (some uuid_hex);
}

-- `set_selected_uuid("")` and `remove_file`, if this key was the selected one.
unfoldable pub forget_if : Bool → World → App → App
forget_if true w a = record a {
  screen = record a.screen { selected_uuid = [] };
  selected_file = file_after w.file none;
}
forget_if false w a = a

abbrev pub go_back : App → App
go_back a = record a {
  screen = record a.screen { editing_error = quiet; backs = a.screen.backs + 1 };
}

abbrev pub select_done : Text → World → App → Device × Bool → App
select_done uuid_hex w a (d, true) = remember uuid_hex w (put_device d a)
select_done uuid_hex w a (d, false) = put_device d a

abbrev pub select_at : Option Bytes → Text → World → App → App
select_at none uuid_hex w a = a
select_at (some uuid) uuid_hex w a = select_done uuid_hex w a (select uuid a.device)

module _ (lib : Lib) (config : Config) (ui : UiLib) where
  unfoldable pub on_select_key : Text → World → App → App
  on_select_key uuid_hex w a = select_at (parse_uuid_arg lib.keystore.hx uuid_hex) uuid_hex w a

  abbrev pub refresh : App → App
  refresh a = put_screen (refresh_keys_ui lib config ui.encode_npub a.device a.screen) a

  -- The secret key of a scan; `none` if the user cancelled it.
  abbrev pub scanned_key : Result (Option Text) Text → Option (Result SecretKey Text)
  scanned_key (err e) = some (err e)
  scanned_key (ok none) = none
  scanned_key (ok (some s)) =
      some (parse_nsec_or_hex lib.keystore.curve lib.keystore.hx lib.show ui.decode_nsec s)

  -- The secret key of a new identity; `none` for an unknown method too.
  unfoldable pub secret_by : Text → ℤ → World → Option (Result SecretKey Text)
  secret_by method account w =
      if eqb method (text "generate")
      then some (w.derive (nonneg_u32 account))
      else if eqb method (text "qr")
      then scanned_key (scan_nsec_via_qr ui.from_utf8 w.scan)
      else none

  -- On what `add_key` gives.
  unfoldable pub save_new_done : World → App → Device × Result Text Failure → App
  save_new_done w a (d, err e) = set_editing_error (failed e) (put_device d a)
  save_new_done w a (d, ok uuid_hex) = go_back (remember uuid_hex w (refresh (put_device d a)))

  unfoldable pub save_new_with : Option (Result SecretKey Text) → Text → ℕ → World → App → App
  unfolding save_new_done
  save_new_with none label color w a = a
  save_new_with (some (err e)) label color w a = set_editing_error (says e) a
  save_new_with (some (ok sk)) label color w a =
      save_new_done w a
        (add_key lib config label sk color w.now w.uuid_draw w.nonce_draw w.seed w.save a.device)

  abbrev pub save_new_at : Option Text → Text → ℤ → Text → ℤ → World → App → App
  save_new_at (some e) label color method account w a = set_editing_error (says e) a
  save_new_at none label color method account w a =
      save_new_with (secret_by method account w) label (clamp_u8 color) w a

  unfoldable pub on_save_new : Text → ℤ → Text → ℤ → World → App → App
  unfolding save_new_with secret_by
  on_save_new label color method account w a =
      save_new_at (validate_label (trim label)) (trim label) color method account w a

  -- On what `set_color` gives.
  unfoldable pub edit_done : App → Device × Result (Unit {0}) Failure → App
  edit_done a (d, err e) = set_editing_error (failed e) (put_device d a)
  edit_done a (d, ok _) = go_back (refresh (put_device d a))

  -- On what `rename` gives.
  unfoldable pub edit_renamed : Bytes → ℕ → World → App → Device × Result (Unit {0}) Failure → App
  unfolding edit_done
  edit_renamed uuid color w a (d, err e) = set_editing_error (failed e) (put_device d a)
  edit_renamed uuid color w a (d, ok _) =
      edit_done a (set_color lib config uuid color w.second_save d)

  abbrev pub edit_at : Option Text → Option Bytes → Text → ℕ → World → App → App
  edit_at (some e) uuid label color w a = set_editing_error (says e) a
  edit_at none none label color w a = set_editing_error (says (text "Bad uuid.")) a
  edit_at none (some uuid) label color w a =
      edit_renamed uuid color w a (rename lib config uuid label w.save a.device)

  unfoldable pub on_edit_save : Text → Text → ℤ → World → App → App
  unfolding edit_renamed
  on_edit_save uuid_hex new_label new_color w a =
      edit_at (validate_label (trim new_label)) (parse_uuid_arg lib.keystore.hx uuid_hex)
        (trim new_label) (clamp_u8 new_color) w a

  -- On what `set_archived` or `delete` gives.
  unfoldable pub gone_done : Bool → World → App → Device × Result (Unit {0}) Failure → App
  unfolding forget_if
  gone_done was_selected w a (d, err e) = put_device d a
  gone_done was_selected w a (d, ok _) = refresh (forget_if was_selected w (put_device d a))

  abbrev pub archive_at : Option Bytes → World → App → App
  archive_at none w a = a
  archive_at (some uuid) w a =
      gone_done (is_selected a.device.selected uuid) w a
        (set_archived lib config uuid true w.save w.policy_save a.device)

  unfoldable pub on_archive : Text → World → App → App
  unfolding gone_done
  on_archive uuid_hex w a = archive_at (parse_uuid_arg lib.keystore.hx uuid_hex) w a

  abbrev pub restore_at : Option Bytes → World → App → App
  restore_at none w a = a
  restore_at (some uuid) w a =
      gone_done false w a (set_archived lib config uuid false w.save w.policy_save a.device)

  unfoldable pub on_restore : Text → World → App → App
  unfolding gone_done
  on_restore uuid_hex w a = restore_at (parse_uuid_arg lib.keystore.hx uuid_hex) w a

  abbrev pub delete_at : Option Bytes → World → App → App
  delete_at none w a = a
  delete_at (some uuid) w a =
      gone_done (is_selected a.device.selected uuid) w a
        (delete lib config uuid w.save w.policy_save a.device)

  unfoldable pub on_delete_forever : Text → World → App → App
  unfolding gone_done
  on_delete_forever uuid_hex w a = delete_at (parse_uuid_arg lib.keystore.hx uuid_hex) w a

  abbrev shown_nsec : Option Bytes → World → App → Text
  shown_nsec none w a = []
  shown_nsec (some uuid) w a = elim (reveal_nsec lib config uuid w.seed a.device) [
    | ok s ↦ s
    | err _ ↦ []
  ]

  -- The text that the reveal dialog shows.
  unfoldable pub on_reveal_nsec : Text → World → App → Text
  on_reveal_nsec uuid_hex w a = shown_nsec (parse_uuid_arg lib.keystore.hx uuid_hex) w a
