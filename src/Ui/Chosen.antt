-- ===== src/Ui/Chosen.antt =====
-- src/main.rs: which key is selected when the event loop starts.
use passport_nostr_signer.Prelude.{
  ℕ, ◌≡◌, refl, sym, ap, subst, ◌∙◌, Bool, true, false, not, ◌⊎◌, inl, inr, Option, none, some, map,
  Bytes, Text, length, any_of, find_first, is_some, All, Bool-cases, Option-cases, any_of-none,
}
use passport_nostr_signer.Prelude.Result.{ok}
use passport_nostr_signer.External.{Hex}
use passport_nostr_signer.Storage.{Disk}
use passport_nostr_signer.Strings.{trim}
use passport_nostr_signer.Keystore
use passport_nostr_signer.Keystore.{
  EncryptedRecord, Keystore, KeyInfo, get_info, info_of, list, map_option,
}
use passport_nostr_signer.Keystore.File
use passport_nostr_signer.Keystore.Invariant.{IsValid}
use passport_nostr_signer.Keystore.Kept.{
  is_kept, find_kept, find_mapped, map_option_twice, find_width, find_is_kept,
}
use passport_nostr_signer.Engine.{Config, Device, Lib, is_live}
use passport_nostr_signer.Engine.Screens.{select, key_list}
use passport_nostr_signer.Ui.{App}
use passport_nostr_signer.Ui.Format.{parse_uuid_arg}
use passport_nostr_signer.Ui.Callbacks.{FileOutcome, UiLib}
use passport_nostr_signer.Ui.Rows.{refresh_keys_ui}
use passport_nostr_signer.Ui.Startup.{
  is_unarchived, restore_at, default_at, default_named, restore_selected, select_default,
  initial_app, boot, running,
}
use passport_nostr_signer.Ui.Mirror.{IsMirrored, parse_encoded}

-- The selected key is live, if there is one.
abbrev pub IsLiveIn : Keystore → Option Bytes → Type 0
IsLiveIn ks none = Unit {0}
IsLiveIn ks (some uuid) = is_live (get_info uuid ks) ≡ true

record Settled (hx : Hex) (ks : Keystore) (a : App) : Type 0 where
  mirrored : IsMirrored hx a
  kept : a.device.keystore ≡ ks
  live : IsLiveIn ks a.device.selected

module _ (lib : Lib) (config : Config) (ui : UiLib) (ks : Keystore)
    (hex_back : (b : Bytes) → lib.keystore.hx.decode (lib.keystore.hx.encode b) ≡ ok b)
    (valid : IsValid ks)
    (widths : All (λ (r : EncryptedRecord). length r.uuid ≡ 16) ks.records) where
  abbrev hx : Hex
  hx = lib.keystore.hx

  restore_at-Settled :
      (o : Option Bytes) (t : Text) (a : App)
      → parse_uuid_arg hx t ≡ o
      → Settled hx ks a
      → Settled hx ks (restore_at o t a)
  unfolding select
  restore_at-Settled none t a h s = s
  restore_at-Settled (some uuid) t a h s =
      elim (Bool-cases (is_live (get_info uuid a.device.keystore))) [
        | inl live ↦
            let same = ap (λ k. is_live (get_info uuid k)) (sym s.kept) in
            rw live (record { mirrored = h; kept = s.kept; live = same ∙ live })
        | inr dead ↦ rw dead s
      ]

  restore_selected-Settled :
      (file : Option Text) (a : App)
      → Settled hx ks a
      → Settled hx ks (restore_selected lib config ui file a)
  unfolding restore_selected
  restore_selected-Settled none a s = s
  restore_selected-Settled (some prev) a s =
      restore_at-Settled (parse_uuid_arg hx (trim prev)) (trim prev) a refl s

  -- How the event loop starts: with a live key, or without one if all are archived.
  pub record IsStarted (a : App) : Type 0 where
    pub mirrored : IsMirrored hx a
    pub kept : a.device.keystore ≡ ks
    pub chosen :
        ((uuid : Bytes) × (a.device.selected ≡ some uuid) × (is_live (get_info uuid ks) ≡ true))
        ⊎ ((a.device.selected ≡ none) × (any_of is_kept ks.records ≡ false))

  listed_first :
      (d : Device)
      → d.keystore ≡ ks
      → find_first is_unarchived (key_list lib config d)
        ≡ map_option
            (λ (r : EncryptedRecord).
              (hx.encode r.uuid, r.label, hx.encode r.npub, r.color, r.archived))
            (find_first is_kept ks.records)
  unfolding key_list list
  listed_first d e =
      let row : KeyInfo → Text × Text × Text × ℕ × Bool =
        λ k. (hx.encode k.uuid, k.label, hx.encode k.npub, k.color, k.archived) in
      ap (λ (k : Keystore). find_first is_unarchived (map row (map info_of k.records))) e
      ∙ find_mapped row is_unarchived (map info_of ks.records)
      ∙ ap (map_option row) (find_mapped info_of (λ k. is_unarchived (row k)) ks.records)
      ∙ map_option_twice info_of row (find_first is_kept ks.records)

  live_record :
      (r : EncryptedRecord)
      → find_first is_kept ks.records ≡ some r
      → is_live (get_info r.uuid ks) ≡ true
  unfolding get_info is_live
  live_record r h = rw (find_kept ks.records r valid.uuids h) (ap not (find_is_kept ks.records r h))

  default_at-IsStarted :
      (o : Option Bytes) (r : EncryptedRecord) (file : FileOutcome) (a : App)
      → o ≡ some r.uuid
      → Settled hx ks a
      → find_first is_kept ks.records ≡ some r
      → IsStarted (default_at o (hx.encode r.uuid) file a)
  unfolding select
  default_at-IsStarted none r file a e s h = absurd (cc e)
  default_at-IsStarted (some uuid) r file a e s h =
      let same : uuid ≡ r.uuid = cc e in
      let at_ks : is_live (get_info uuid ks) ≡ true =
        ap (λ u. is_live (get_info u ks)) same ∙ live_record r h in
      let live : is_live (get_info uuid a.device.keystore) ≡ true =
        ap (λ k. is_live (get_info uuid k)) s.kept ∙ at_ks in
      let named = parse_encoded hx r.uuid (hex_back r.uuid) (find_width ks.records r widths h) in
      rw live (record { mirrored = named ∙ sym e; kept = s.kept; chosen = inl (uuid, refl, at_ks) })

  abbrev row_of : EncryptedRecord → Text × Text × Text × ℕ × Bool
  row_of r = (hx.encode r.uuid, r.label, hx.encode r.npub, r.color, r.archived)

  -- On the first key that is not archived.
  default_named-IsStarted :
      (o : Option EncryptedRecord) (file : FileOutcome) (a : App)
      → find_first is_kept ks.records ≡ o
      → a.device.selected ≡ none
      → Settled hx ks a
      → IsStarted (default_named lib config ui (map_option row_of o) file a)
  default_named-IsStarted none file a h e s = record {
    mirrored = s.mirrored;
    kept = s.kept;
    chosen = inr (e, any_of-none is_kept ks.records h);
  }
  default_named-IsStarted (some r) file a h e s =
      default_at-IsStarted (parse_uuid_arg hx (hx.encode r.uuid)) r file a
        (parse_encoded hx r.uuid (hex_back r.uuid) (find_width ks.records r widths h)) s h

  chosen_live : (a : App) (u : Bytes) → a.device.selected ≡ some u → Settled hx ks a → IsStarted a
  chosen_live a u e s = record {
    mirrored = s.mirrored;
    kept = s.kept;
    chosen = inl (u, e, subst (IsLiveIn ks) e s.live);
  }

  select_default-IsStarted :
      (file : FileOutcome) (a : App)
      → Settled hx ks a
      → IsStarted (select_default lib config ui file a)
  unfolding select_default
  select_default-IsStarted file a s = elim (Option-cases a.device.selected) [
    | inl e ↦
        let missing : is_some a.device.selected ≡ false = ap is_some e in
        rw (missing, listed_first a.device s.kept)
          (default_named-IsStarted (find_first is_kept ks.records) file a refl e s)
    | inr (u, e) ↦
        let there : is_some a.device.selected ≡ true = ap is_some e in
        rw there (chosen_live a u e s)
  ]

  -- If the keystore loads, the program runs with it, the screens name the selected key, and that key is
  -- live; there is none only if all keys are archived. This needs that hex is inverted, that the uuids
  -- have 16 bytes and that no two records share a uuid or a public key.
  pub boot-IsStarted :
      (selected_file : Option Text) (file : FileOutcome) (disk : Disk)
      → Keystore.File.load lib.keystore_json config.keystore_path disk ≡ ok ks
      → (a : App) × (boot lib config ui selected_file file disk ≡ running a) × IsStarted a
  unfolding boot initial_app refresh_keys_ui
  boot-IsStarted selected_file file disk h =
      let a0 = initial_app lib config ui ks selected_file disk in
      let a1 = restore_selected lib config ui selected_file a0 in
      let s0 : Settled hx ks a0 = record { mirrored = refl; kept = refl; live = tt } in
      (
        select_default lib config ui file a1,
        rw h refl,
        select_default-IsStarted file a1 (restore_selected-Settled selected_file a0 s0),
      )
