-- ===== src/Ui/Events.antt =====
-- src/main.rs: the callbacks that Slint can run, in any order.
use passport_nostr_signer.Prelude.{Bool, Text}
use passport_nostr_signer.Engine.{Config, Lib}
use passport_nostr_signer.Ui.{ℤ, App}
use passport_nostr_signer.Ui.Callbacks.{
  World, UiLib, on_select_key, on_save_new, on_edit_save, on_archive, on_restore, on_delete_forever,
}
use passport_nostr_signer.Ui.Rules.{
  on_refresh_auto_sign_rules, on_add_auto_sign_rule, on_delete_auto_sign_rule,
  on_toggle_auto_sign_rule,
}

pub data Callback : Type 0 where
  select_key : Text → Callback
  save_new : Text → ℤ → Text → ℤ → Callback
  edit_save : Text → Text → ℤ → Callback
  archive : Text → Callback
  restore : Text → Callback
  delete_forever : Text → Callback
  refresh_auto_sign_rules : Text → Callback
  add_auto_sign_rule : Text → Text → ℤ → ℤ → ℤ → Callback
  delete_auto_sign_rule : Text → Text → Callback
  toggle_auto_sign_rule : Text → Text → Bool → Callback

module _ (lib : Lib) (config : Config) (ui : UiLib) where
  unfoldable pub run : Callback → World → App → App
  run (select_key uuid) w a = on_select_key lib config ui uuid w a
  run (save_new label color method account) w a =
      on_save_new lib config ui label color method account w a
  run (edit_save uuid label color) w a = on_edit_save lib config ui uuid label color w a
  run (archive uuid) w a = on_archive lib config ui uuid w a
  run (restore uuid) w a = on_restore lib config ui uuid w a
  run (delete_forever uuid) w a = on_delete_forever lib config ui uuid w a
  run (refresh_auto_sign_rules uuid) w a = on_refresh_auto_sign_rules lib config uuid w a
  run (add_auto_sign_rule uuid origin kind hours most) w a =
      on_add_auto_sign_rule lib config uuid origin kind hours most w a
  run (delete_auto_sign_rule uuid rule) w a = on_delete_auto_sign_rule lib config uuid rule w a
  run (toggle_auto_sign_rule uuid rule enabled) w a =
      on_toggle_auto_sign_rule lib config uuid rule enabled w a
