-- ===== src/Ui/RulesMirror.antt =====
-- src/main.rs: the buttons of the auto-sign page leave the selected key as it is.
use passport_nostr_signer.Prelude.{
  ◌≡◌, Bool, inl, inr, Option, none, some, Bytes, Text, Option-cases,
}
use passport_nostr_signer.Prelude.Result.{Result, ok, err}
use passport_nostr_signer.External.{Hex}
use passport_nostr_signer.Engine.{Config, Device, Lib}
use passport_nostr_signer.Engine.Policy.{
  Failure, add_auto_sign_rule, delete_auto_sign_rule, set_auto_sign_enabled,
}
use passport_nostr_signer.Ui.{App}
use passport_nostr_signer.Ui.Format.{parse_uuid_arg}
use passport_nostr_signer.Ui.Callbacks.{World, UiLib}
use passport_nostr_signer.Ui.Rules.{
  RuleLimits, rules_done, add_rule_with, add_rule_at, delete_rule_at, toggle_rule_at,
  on_refresh_auto_sign_rules,
}
use passport_nostr_signer.Ui.Rows.{refresh_auto_sign_ui, show_rules}
use passport_nostr_signer.Ui.Selection.{
  add_rule_selected, delete_rule_selected, toggle_rule_selected,
}
use passport_nostr_signer.Ui.Mirror.{IsMirrored, IsSound, Names-kept}

module _ (lib : Lib) (config : Config) (ui : UiLib) (w : World) (sound : IsSound lib.keystore.hx w)
    (a : App) (mirrored : IsMirrored lib.keystore.hx a) where
  abbrev hx : Hex
  hx = lib.keystore.hx

  rules_done-IsMirrored :
      (t : Text) (x : Device × Result (Unit {0}) Failure)
      → x.0.selected ≡ a.device.selected
      → IsMirrored hx (rules_done lib config t w a x)
  unfolding rules_done on_refresh_auto_sign_rules refresh_auto_sign_ui
  rules_done-IsMirrored t (d, err e) kept =
      Names-kept lib config ui w sound a mirrored d.selected kept
  rules_done-IsMirrored t (d, ok u) kept =
      let o = parse_uuid_arg hx t in
      elim (Option-cases o) [
        | inl e ↦ rw (e, show_rules) (Names-kept lib config ui w sound a mirrored d.selected kept)
        | inr (uuid, e) ↦
            rw (e, show_rules) (Names-kept lib config ui w sound a mirrored d.selected kept)
      ]

  pub on_refresh-IsMirrored :
      (t : Text) → IsMirrored hx (on_refresh_auto_sign_rules lib config t w a)
  unfolding on_refresh_auto_sign_rules refresh_auto_sign_ui
  on_refresh-IsMirrored t = elim (Option-cases (parse_uuid_arg hx t)) [
    | inl e ↦ rw (e, show_rules) mirrored
    | inr (uuid, e) ↦ rw (e, show_rules) mirrored
  ]

  add_rule_with-IsMirrored :
      (uuid : Bytes) (t origin : Text) (r : Result RuleLimits Text)
      → IsMirrored hx (add_rule_with lib config uuid t origin r w a)
  unfolding add_rule_with
  add_rule_with-IsMirrored uuid t origin (err e) = mirrored
  add_rule_with-IsMirrored uuid t origin (ok l) =
      rules_done-IsMirrored t
        (add_auto_sign_rule lib config uuid origin l.kind l.expiry_hours l.max_per_hour w.now
          w.rule_id w.policy_save a.device)
        (add_rule_selected lib config uuid origin l.kind l.expiry_hours l.max_per_hour w.now
          w.rule_id w.policy_save a.device)

  pub add_rule_at-IsMirrored :
      (o : Option Bytes) (t origin : Text) (r : Result RuleLimits Text)
      → IsMirrored hx (add_rule_at lib config o t origin r w a)
  add_rule_at-IsMirrored none t origin r = mirrored
  add_rule_at-IsMirrored (some uuid) t origin r = add_rule_with-IsMirrored uuid t origin r

  pub delete_rule_at-IsMirrored :
      (o : Option Bytes) (t : Text) → IsMirrored hx (delete_rule_at lib config o t w a)
  delete_rule_at-IsMirrored none t = mirrored
  delete_rule_at-IsMirrored (some id) t =
      rules_done-IsMirrored t (delete_auto_sign_rule lib config id w.policy_save a.device)
        (delete_rule_selected lib config id w.policy_save a.device)

  pub toggle_rule_at-IsMirrored :
      (o : Option Bytes) (t : Text) (enabled : Bool)
      → IsMirrored hx (toggle_rule_at lib config o t enabled w a)
  toggle_rule_at-IsMirrored none t enabled = mirrored
  toggle_rule_at-IsMirrored (some id) t enabled =
      rules_done-IsMirrored t (set_auto_sign_enabled lib config id enabled w.policy_save a.device)
        (toggle_rule_selected lib config id enabled w.policy_save a.device)
