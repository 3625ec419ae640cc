-- ===== src/Ui/Rules.antt =====
-- src/main.rs: the buttons of the auto-sign page.
use passport_nostr_signer.Prelude.{ℕ, ◌*◌, ◌-◌, ◌^◌, Bool, Option, none, some, Bytes, Text, text}
use passport_nostr_signer.Prelude.Result.{Result, ok, err, ◌>>=◌}
use passport_nostr_signer.Engine.{Config, Device, Lib}
use passport_nostr_signer.Engine.Policy.{
  Failure, add_auto_sign_rule, delete_auto_sign_rule, set_auto_sign_enabled,
}
use passport_nostr_signer.Ui.{ℤ, quiet, says, failed, App}
use passport_nostr_signer.Ui.Format.{ui_u32, parse_uuid_arg}
use passport_nostr_signer.Ui.Rows.{refresh_auto_sign_ui}
use passport_nostr_signer.Ui.Callbacks.{World, set_auto_sign_error, put_device, put_screen}

-- What the page's three numbers become: kind, hours to expiry, uses an hour.
pub record RuleLimits : Type 0 where
  pub kind : ℕ
  pub expiry_hours : ℕ
  pub max_per_hour : ℕ

module _ (lib : Lib) (config : Config) where
  unfoldable pub on_refresh_auto_sign_rules : Text → World → App → App
  on_refresh_auto_sign_rules uuid_hex w a =
      put_screen (refresh_auto_sign_ui lib uuid_hex w.now a.device a.screen) a

  -- On what the engine's call gives.
  unfoldable pub rules_done : Text → World → App → Device × Result (Unit {0}) Failure → App
  unfolding on_refresh_auto_sign_rules
  rules_done uuid_hex w a (d, ok _) =
      on_refresh_auto_sign_rules uuid_hex w (set_auto_sign_error quiet (put_device d a))
  rules_done uuid_hex w a (d, err e) = set_auto_sign_error (failed e) (put_device d a)

  unfoldable pub rule_limits : ℤ → ℤ → ℤ → Result RuleLimits Text
  rule_limits kind expiry_hours max_per_hour = do
    k ← ui_u32 lib.show kind (text "Kind") 0 (2 ^ 31 - 1)
    hours ← ui_u32 lib.show expiry_hours (text "Expiry hours") 0 (24 * 365)
    most ← ui_u32 lib.show max_per_hour (text "Max per hour") 1 1000
    ok (record { kind = k; expiry_hours = hours; max_per_hour = most })

  unfoldable pub add_rule_with : Bytes → Text → Text → Result RuleLimits Text → World → App → App
  unfolding rules_done
  add_rule_with uuid uuid_hex origin (err e) w a = set_auto_sign_error (says e) a
  add_rule_with uuid uuid_hex origin (ok limits) w a = rules_done uuid_hex w a (
      add_auto_sign_rule lib config uuid origin limits.kind limits.expiry_hours limits.max_per_hour
        w.now w.rule_id w.policy_save a.device)

  abbrev pub add_rule_at : Option Bytes → Text → Text → Result RuleLimits Text → World → App → App
  add_rule_at none uuid_hex origin limits w a = set_auto_sign_error (says (text "Bad key uuid.")) a
  add_rule_at (some uuid) uuid_hex origin limits w a = add_rule_with uuid uuid_hex origin limits w a

  unfoldable pub on_add_auto_sign_rule : Text → Text → ℤ → ℤ → ℤ → World → App → App
  unfolding add_rule_with rule_limits
  on_add_auto_sign_rule uuid_hex origin kind expiry_hours max_per_hour w a =
      add_rule_at (parse_uuid_arg lib.keystore.hx uuid_hex) uuid_hex origin
        (rule_limits kind expiry_hours max_per_hour) w a

  abbrev pub delete_rule_at : Option Bytes → Text → World → App → App
  delete_rule_at none uuid_hex w a = set_auto_sign_error (says (text "Bad auto-sign rule id.")) a
  delete_rule_at (some rule_id) uuid_hex w a =
      rules_done uuid_hex w a (delete_auto_sign_rule lib config rule_id w.policy_save a.device)

  unfoldable pub on_delete_auto_sign_rule : Text → Text → World → App → App
  unfolding rules_done
  on_delete_auto_sign_rule uuid_hex rule_id_hex w a =
      delete_rule_at (parse_uuid_arg lib.keystore.hx rule_id_hex) uuid_hex w a

  abbrev pub toggle_rule_at : Option Bytes → Text → Bool → World → App → App
  toggle_rule_at none uuid_hex enabled w a =
      set_auto_sign_error (says (text "Bad auto-sign rule id.")) a
  toggle_rule_at (some rule_id) uuid_hex enabled w a =
      rules_done uuid_hex w a
        (set_auto_sign_enabled lib config rule_id enabled w.policy_save a.device)

  unfoldable pub on_toggle_auto_sign_rule : Text → Text → Bool → World → App → App
  unfolding rules_done
  on_toggle_auto_sign_rule uuid_hex rule_id_hex enabled w a =
      toggle_rule_at (parse_uuid_arg lib.keystore.hx rule_id_hex) uuid_hex enabled w a
