-- ===== src/Ui/Mirrored.antt =====
-- src/main.rs: whatever callback runs, the screens go on showing the engine's selected key.
use passport_nostr_signer.Prelude.{refl}
use passport_nostr_signer.Engine.{Config, Lib}
use passport_nostr_signer.Strings.{trim}
use passport_nostr_signer.Ui.{clamp_u8, App}
use passport_nostr_signer.Ui.Format.{parse_uuid_arg, validate_label}
use passport_nostr_signer.Ui.Callbacks.{
  World, UiLib, on_select_key, on_save_new, on_edit_save, on_archive, on_restore, on_delete_forever,
}
use passport_nostr_signer.Ui.Rules.{
  rule_limits, on_add_auto_sign_rule, on_delete_auto_sign_rule, on_toggle_auto_sign_rule,
}
use passport_nostr_signer.Ui.Events.{
  Callback, select_key, save_new, edit_save, archive, restore, delete_forever,
  refresh_auto_sign_rules, toggle_auto_sign_rule, run,
}
use passport_nostr_signer.Ui.Events
use passport_nostr_signer.Ui.Mirror.{
  IsMirrored, IsSound, select_at-IsMirrored, save_new_at-IsMirrored, edit_at-IsMirrored,
  archive_at-IsMirrored, restore_at-IsMirrored, delete_at-IsMirrored,
}
use passport_nostr_signer.Ui.RulesMirror.{
  on_refresh-IsMirrored, add_rule_at-IsMirrored, delete_rule_at-IsMirrored,
  toggle_rule_at-IsMirrored,
}

-- If the selected key on the screens is the engine's, it is so after any callback, whatever it is given
-- and whichever of its calls fail.
pub run-IsMirrored :
    (lib : Lib) (config : Config) (ui : UiLib) (c : Callback) (w : World) (a : App)
    → IsSound lib.keystore.hx w
    → IsMirrored lib.keystore.hx a
    → IsMirrored lib.keystore.hx (run lib config ui c w a)
unfolding run on_select_key on_save_new on_edit_save on_archive on_restore on_delete_forever
    on_add_auto_sign_rule on_delete_auto_sign_rule on_toggle_auto_sign_rule
run-IsMirrored lib config ui (select_key t) w a s m =
    select_at-IsMirrored lib config ui w s a m (parse_uuid_arg lib.keystore.hx t) t refl
run-IsMirrored lib config ui (save_new label color method account) w a s m =
    save_new_at-IsMirrored lib config ui w s a m (validate_label (trim label)) (trim label) color
      method account
run-IsMirrored lib config ui (edit_save t label color) w a s m =
    edit_at-IsMirrored lib config ui w s a m (validate_label (trim label))
      (parse_uuid_arg lib.keystore.hx t) (trim label) (clamp_u8 color)
run-IsMirrored lib config ui (archive t) w a s m =
    archive_at-IsMirrored lib config ui w s a m (parse_uuid_arg lib.keystore.hx t)
run-IsMirrored lib config ui (restore t) w a s m =
    restore_at-IsMirrored lib config ui w s a m (parse_uuid_arg lib.keystore.hx t)
run-IsMirrored lib config ui (delete_forever t) w a s m =
    delete_at-IsMirrored lib config ui w s a m (parse_uuid_arg lib.keystore.hx t)
run-IsMirrored lib config ui (refresh_auto_sign_rules t) w a s m =
    on_refresh-IsMirrored lib config ui w s a m t
run-IsMirrored lib config ui (Events.add_auto_sign_rule t origin kind hours most) w a s m =
    add_rule_at-IsMirrored lib config ui w s a m (parse_uuid_arg lib.keystore.hx t) t origin
      (rule_limits lib config kind hours most)
run-IsMirrored lib config ui (Events.delete_auto_sign_rule t id) w a s m =
    delete_rule_at-IsMirrored lib config ui w s a m (parse_uuid_arg lib.keystore.hx id) t
run-IsMirrored lib config ui (toggle_auto_sign_rule t id enabled) w a s m =
    toggle_rule_at-IsMirrored lib config ui w s a m (parse_uuid_arg lib.keystore.hx id) t enabled
