-- ===== src/Ui/Mirror.antt =====
-- src/main.rs: the selected key on the screens, beside the engine's.
use passport_nostr_signer.Prelude.{
  ℕ, ◌≡◌, refl, sym, ap, subst, ◌∙◌, Bool, true, false, inl, inr, Option, none, some, [], Bytes,
  Text, length, Bool-cases, if◌then◌else◌,
}
use passport_nostr_signer.Prelude.Result.{Result, ok, err}
use passport_nostr_signer.External.{Hex}
use passport_nostr_signer.Keys.{SecretKey}
use passport_nostr_signer.Keystore
use passport_nostr_signer.Keystore.{get_info}
use passport_nostr_signer.Engine.{Config, Device, Lib, is_live}
use passport_nostr_signer.Engine.Policy.{Failure}
use passport_nostr_signer.Engine.Screens.{select, add_key, rename, set_color, set_archived, delete}
use passport_nostr_signer.Ui.{ℤ, clamp_u8, App}
use passport_nostr_signer.Ui.Format.{parse_uuid_arg}
use passport_nostr_signer.Ui.Callbacks.{
  World, UiLib, is_selected, forget_if, secret_by, save_new_done, save_new_with, save_new_at,
  edit_done, edit_renamed, edit_at, gone_done, archive_at, restore_at, delete_at, select_at,
}
use passport_nostr_signer.Ui.Rows.{refresh_keys_ui}
use passport_nostr_signer.Ui.Selection.{
  add_key_selected, add_key_ok, set_archived_ok, set_archived_err, restored_selected, delete_ok,
  delete_err, change_keystore_selected,
}

-- The text on the screens names the engine's key; it is empty if there is none.
abbrev pub Names : Hex → Text → Option Bytes → Type 0
Names hx t none = t ≡ []
Names hx t (some uuid) = parse_uuid_arg hx t ≡ some uuid

abbrev pub IsMirrored : Hex → App → Type 0
IsMirrored hx a = Names hx a.screen.selected_uuid a.device.selected

-- What the screens need of `hex` and of the draw of a new uuid.
pub record IsSound (hx : Hex) (w : World) : Type 0 where
  pub hex_back : (b : Bytes) → hx.decode (hx.encode b) ≡ ok b
  pub uuid_size : (uuid : Bytes) → w.uuid_draw ≡ some uuid → length uuid ≡ 16

pub parse_encoded :
    (hx : Hex) (uuid : Bytes)
    → hx.decode (hx.encode uuid) ≡ ok uuid
    → length uuid ≡ 16
    → parse_uuid_arg hx (hx.encode uuid) ≡ some uuid
unfolding parse_uuid_arg
parse_encoded hx uuid back size = rw (back, size) refl

module _ (lib : Lib) (config : Config) (ui : UiLib) (w : World) (sound : IsSound lib.keystore.hx w)
    (a : App) (mirrored : IsMirrored lib.keystore.hx a) where
  abbrev hx : Hex
  hx = lib.keystore.hx

  -- A device with the same selection.
  pub Names-kept : (s : Option Bytes) → s ≡ a.device.selected → Names hx a.screen.selected_uuid s
  Names-kept s h = subst (λ o. Names hx a.screen.selected_uuid o) (sym h) mirrored

  pub select_at-IsMirrored :
      (o : Option Bytes) (t : Text) → parse_uuid_arg hx t ≡ o → IsMirrored hx (select_at o t w a)
  unfolding select
  select_at-IsMirrored none t h = mirrored
  select_at-IsMirrored (some uuid) t h =
      elim (Bool-cases (is_live (get_info uuid a.device.keystore))) [
        | inl live ↦ rw live h
        | inr dead ↦ rw dead mirrored
      ]

  gone_done_by :
      (was : Bool) (x : Device × Result (Unit {0}) Failure)
      → (x.1 ≡ ok tt → x.0.selected ≡ (if was then none else a.device.selected))
      → ((e : Failure) → x.1 ≡ err e → x.0.selected ≡ a.device.selected)
      → IsMirrored hx (gone_done lib config ui was w a x)
  unfolding gone_done forget_if refresh_keys_ui
  gone_done_by was (d, err e) gone kept = Names-kept d.selected (kept e refl)
  gone_done_by true (d, ok tt) gone kept = subst (λ o. Names hx [] o) (sym (gone refl)) refl
  gone_done_by false (d, ok tt) gone kept = Names-kept d.selected (gone refl)

  pub archive_at-IsMirrored : (o : Option Bytes) → IsMirrored hx (archive_at lib config ui o w a)
  archive_at-IsMirrored none = mirrored
  archive_at-IsMirrored (some uuid) =
      gone_done_by (is_selected a.device.selected uuid)
        (set_archived lib config uuid true w.save w.policy_save a.device)
        (set_archived_ok lib config uuid w.save w.policy_save a.device)
        (set_archived_err lib config uuid w.save w.policy_save a.device)

  pub restore_at-IsMirrored : (o : Option Bytes) → IsMirrored hx (restore_at lib config ui o w a)
  restore_at-IsMirrored none = mirrored
  restore_at-IsMirrored (some uuid) =
      let kept = restored_selected lib config uuid w.save w.policy_save a.device in
      gone_done_by false (set_archived lib config uuid false w.save w.policy_save a.device)
        (λ _. kept) (λ _ _. kept)

  pub delete_at-IsMirrored : (o : Option Bytes) → IsMirrored hx (delete_at lib config ui o w a)
  delete_at-IsMirrored none = mirrored
  delete_at-IsMirrored (some uuid) =
      gone_done_by (is_selected a.device.selected uuid)
        (delete lib config uuid w.save w.policy_save a.device)
        (delete_ok lib config uuid w.save w.policy_save a.device)
        (delete_err lib config uuid w.save w.policy_save a.device)

  edit_done-IsMirrored :
      (x : Device × Result (Unit {0}) Failure)
      → x.0.selected ≡ a.device.selected
      → IsMirrored hx (edit_done lib config ui a x)
  unfolding edit_done refresh_keys_ui
  edit_done-IsMirrored (d, err e) kept = Names-kept d.selected kept
  edit_done-IsMirrored (d, ok u) kept = Names-kept d.selected kept

  edit_renamed-IsMirrored :
      (uuid : Bytes) (color : ℕ) (x : Device × Result (Unit {0}) Failure)
      → x.0.selected ≡ a.device.selected
      → IsMirrored hx (edit_renamed lib config ui uuid color w a x)
  unfolding edit_renamed set_color
  edit_renamed-IsMirrored uuid color (d, err e) kept = Names-kept d.selected kept
  edit_renamed-IsMirrored uuid color (d, ok u) kept =
      edit_done-IsMirrored (set_color lib config uuid color w.second_save d) (
        change_keystore_selected lib config (Keystore.set_color uuid color d.keystore) w.second_save
          d
        ∙ kept)

  pub edit_at-IsMirrored :
      (e : Option Text) (o : Option Bytes) (label : Text) (color : ℕ)
      → IsMirrored hx (edit_at lib config ui e o label color w a)
  unfolding rename
  edit_at-IsMirrored (some e) o label color = mirrored
  edit_at-IsMirrored none none label color = mirrored
  edit_at-IsMirrored none (some uuid) label color =
      edit_renamed-IsMirrored uuid color (rename lib config uuid label w.save a.device) (
        change_keystore_selected lib config (Keystore.rename uuid label a.device.keystore) w.save
          a.device)

  save_new_done-IsMirrored :
      (x : Device × Result Text Failure)
      → ((t : Text) → x.1 ≡ ok t → Names hx t x.0.selected)
      → ((e : Failure) → x.1 ≡ err e → x.0.selected ≡ a.device.selected)
      → IsMirrored hx (save_new_done lib config ui w a x)
  unfolding save_new_done refresh_keys_ui
  save_new_done-IsMirrored (d, err e) named kept = Names-kept d.selected (kept e refl)
  save_new_done-IsMirrored (d, ok t) named kept = named t refl

  save_new_with-IsMirrored :
      (o : Option (Result SecretKey Text)) (label : Text) (color : ℕ)
      → IsMirrored hx (save_new_with lib config ui o label color w a)
  unfolding save_new_with
  save_new_with-IsMirrored none label color = mirrored
  save_new_with-IsMirrored (some (err e)) label color = mirrored
  save_new_with-IsMirrored (some (ok sk)) label color =
      let x =
        add_key lib config label sk color w.now w.uuid_draw w.nonce_draw w.seed w.save a.device in
      save_new_done-IsMirrored x
        (λ t h.
          let (uuid, drawn, is, selected) =
            add_key_ok lib config label sk color w.now w.uuid_draw w.nonce_draw w.seed w.save
              a.device t h in
          let named = parse_encoded hx uuid (sound.hex_back uuid) (sound.uuid_size uuid drawn) in
          subst (λ o. Names hx t o) (sym selected) (ap (parse_uuid_arg hx) is ∙ named))
        (add_key_selected lib config label sk color w.now w.uuid_draw w.nonce_draw w.seed w.save
          a.device)

  pub save_new_at-IsMirrored :
      (e : Option Text) (label : Text) (color : ℤ) (method : Text) (account : ℤ)
      → IsMirrored hx (save_new_at lib config ui e label color method account w a)
  save_new_at-IsMirrored (some e) label color method account = mirrored
  save_new_at-IsMirrored none label color method account =
      save_new_with-IsMirrored (secret_by lib config ui method account w) label (clamp_u8 color)
