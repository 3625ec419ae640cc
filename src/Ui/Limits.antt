-- ===== src/Ui/Limits.antt =====
-- src/main.rs: the numbers that the auto-sign page lets through.
use passport_nostr_signer.Prelude.{
  ℕ, ◌+◌, ◌^◌, ◌-◌, ◌*◌, ◌<◌, ◌≤◌, ◌≡◌, refl, sym, subst, List, [], ◌∷◌, ◌++◌, some, Bytes, Text,
  text, arith, ◌⊎◌, inl, inr, not, ltb, leb, ◌==◌, ◌||◌, ◌&&◌, Bool-cases, length, keep_if, any_of,
  is_some,
}
use passport_nostr_signer.Prelude.Result.{Result, ok, err, Result-cases}
use passport_nostr_signer.Engine.{Config, Device, Lib, is_live}
use passport_nostr_signer.Engine.Policy.{
  Failure, put_autosign, expiry_of, check_new_rule, add_auto_sign_rule,
}
use passport_nostr_signer.Engine.Identities.{persist_auto_sign_keeps}
use passport_nostr_signer.Storage.{SaveOutcome}
use passport_nostr_signer.Origin.{normalize_origin}
use passport_nostr_signer.Keystore.{get_info}
use passport_nostr_signer.Autosign.{
  AutoSignRule, AutoSignStore, max_rules_per_key, is_key, is_for, new_rule, add_normal, add_rule,
}
use passport_nostr_signer.Describe.{Show}
use passport_nostr_signer.Ui.{ℤ, pos, negsuc, App}
use passport_nostr_signer.Ui.Format.{ui_u32, parse_uuid_arg}
use passport_nostr_signer.Ui.Callbacks.{World}
use passport_nostr_signer.Ui.Rules.{
  RuleLimits, rule_limits, rules_done, add_rule_with, on_refresh_auto_sign_rules,
  on_add_auto_sign_rule,
}

ui_u32_bounds :
    (show : Show) (z : ℤ) (label : Text) (low high n : ℕ)
    → ui_u32 show z label low high ≡ ok n
    → (z ≡ pos n) × (low ≤ n) × (n ≤ high)
unfolding ui_u32
ui_u32_bounds show (negsuc m) label low high n h = absurd (cc h)
ui_u32_bounds show (pos m) label low high n h = ground (arith, h)

-- The numbers are within the page's limits.
rule_limits_bounds :
    (lib : Lib) (config : Config) (kind hours most : ℤ) (l : RuleLimits)
    → rule_limits lib config kind hours most ≡ ok l
    → (l.kind < 2 ^ 31) × (l.expiry_hours ≤ 8760)
unfolding rule_limits
rule_limits_bounds lib config kind hours most l h =
    elim (Result-cases (ui_u32 lib.show kind (text "Kind") 0 (2 ^ 31 - 1))) [
      | inl (k, e) ↦
          elim (Result-cases (ui_u32 lib.show hours (text "Expiry hours") 0 (24 * 365))) [
            | inl (n, f) ↦ elim (Result-cases (ui_u32 lib.show most (text "Max per hour") 1 1000)) [
              | inl (m, g) ↦
                  let (_, _, small) =
                    ui_u32_bounds lib.show kind (text "Kind") 0 (2 ^ 31 - 1) k e in
                  let (_, _, short) =
                    ui_u32_bounds lib.show hours (text "Expiry hours") 0 (24 * 365) n f in
                  let same : ok (record { kind = k; expiry_hours = n; max_per_hour = m }) ≡ ok l =
                    rw (e, f, g) at h in
                  let is : record { kind = k; expiry_hours = n; max_per_hour = m } ≡ l = cc same in
                  subst (λ (x : RuleLimits). (x.kind < 2 ^ 31) × (x.expiry_hours ≤ 8760)) is
                    (omega (arith, small), omega (arith, short))
              | inr (x, g) ↦ absurd (cc (rw (e, f, g) at h))
            ]
            | inr (x, f) ↦ absurd (cc (rw (e, f) at h))
          ]
      | inr (x, e) ↦ absurd (cc (rw e at h))
    ]

-- A rule as the page lets it be: the kind fits an `i32`, up to 1000 uses an hour, and an expiry that is
-- absent or at most a year of hours ahead.
pub record IsBounded (key : Bytes) (now : ℕ) (r : AutoSignRule) : Type 0 where
  pub owner : r.key_uuid ≡ key
  pub kind : r.kind < 2 ^ 31
  pub cap_low : 1 ≤ r.max_per_hour
  pub cap_high : r.max_per_hour ≤ 1000
  pub expiry : (r.expires_at ≡ 0) ⊎ ((now < r.expires_at) × (r.expires_at ≤ now + 8760 * 3600))

-- What adding a rule may do to the rules.
pub Grown : Bytes → ℕ → List AutoSignRule → List AutoSignRule → Type 0
Grown key now rs rs' =
    (rs' ≡ rs) ⊎ ((r : AutoSignRule) × (rs' ≡ rs ++ r ∷ []) × IsBounded key now r)

expiry_window :
    (lib : Lib) (config : Config) (now hours at : ℕ)
    → hours ≤ 8760
    → expiry_of lib config now hours ≡ ok at
    → at ≤ now + 8760 * 3600
unfolding expiry_of
expiry_window lib config now hours at small h = ground (arith, h, small)

add_normal-Grown :
    (key origin : Bytes) (kind at most now : ℕ) (id : Bytes) (s : AutoSignStore)
    → kind < 2 ^ 31
    → at ≤ now + 8760 * 3600
    → Grown key now s.rules (add_normal key origin kind at most now id s).0.rules
unfolding Grown add_normal
add_normal-Grown key origin kind at most now id s small window =
    elim (Bool-cases (leb max_rules_per_key (length (keep_if (is_key key) s.rules)))) [
      | inl full ↦ rw full (inl refl)
      | inr room ↦ elim (Bool-cases (any_of (is_for key origin kind) s.rules)) [
        | inl twice ↦ rw (room, twice) (inl refl)
        | inr fresh ↦ elim (Bool-cases ((most == 0) || ltb 1000 most)) [
          | inl wild ↦ rw (room, fresh, wild) (inl refl)
          | inr capped ↦ elim (Bool-cases (not (at == 0) && leb at now)) [
            | inl past ↦ rw (room, fresh, capped, past) (inl refl)
            | inr ahead ↦
                rw (room, fresh, capped, ahead)
                  (inr (
                    new_rule id key origin kind at most now,
                    refl,
                    record {
                      owner = refl;
                      kind = small;
                      cap_low = ground (arith, capped);
                      cap_high = ground (arith, capped);
                      expiry = ground (arith, ahead, window);
                    },
                  ))
          ]
        ]
      ]
    ]

add_rule-Grown :
    (key origin : Bytes) (kind at most now : ℕ) (id : Bytes) (s : AutoSignStore)
    → kind < 2 ^ 31
    → at ≤ now + 8760 * 3600
    → Grown key now s.rules (add_rule key origin kind at most now id s).0.rules
unfolding Grown add_rule
add_rule-Grown key origin kind at most now id s small window =
    elim (Result-cases (normalize_origin origin)) [
      | inl (o, e) ↦ rw (e, add_rule) (add_normal-Grown key o kind at most now id s small window)
      | inr (x, e) ↦ rw (e, add_rule) (inl refl)
    ]

module _ (lib : Lib) (config : Config) where
  expiry_of_new :
      (key : Bytes) (hours now at : ℕ) (d : Device)
      → check_new_rule lib config key hours now d ≡ ok at
      → expiry_of lib config now hours ≡ ok at
  unfolding check_new_rule
  expiry_of_new key hours now at d h = elim (Bool-cases (is_some config.autosign_mac_key)) [
    | inl mac ↦ elim (Bool-cases (is_live (get_info key d.keystore))) [
      | inl live ↦ rw (mac, live) at h
      | inr dead ↦ absurd (cc (rw (mac, dead) at h))
    ]
    | inr missing ↦ absurd (cc (rw missing at h))
  ]

  add_auto_sign_rule-Grown :
      (key origin : Bytes) (kind hours most now : ℕ) (id : Bytes) (outcome : SaveOutcome)
      (d : Device)
      → kind < 2 ^ 31
      → hours ≤ 8760
      → Grown key now d.autosign.rules
          (add_auto_sign_rule lib config key origin kind hours most now id outcome
            d).0.autosign.rules
  unfolding add_auto_sign_rule Grown
  add_auto_sign_rule-Grown key origin kind hours most now id outcome d small short =
      elim (Result-cases (check_new_rule lib config key hours now d)) [
        | inl (at, e) ↦
            let added = add_rule key origin kind at most now id d.autosign in
            let window =
              expiry_window lib config now hours at short (expiry_of_new key hours now at d e) in
            let grown = add_rule-Grown key origin kind at most now id d.autosign small window in
            elim (Result-cases added.1) [
              | inl (u, f) ↦
                  let (_, _, policy) =
                    persist_auto_sign_keeps lib config outcome (put_autosign added.0 d) in
                  rw (e, f, add_auto_sign_rule)
                    (subst (λ (s : AutoSignStore). Grown key now d.autosign.rules s.rules)
                      (sym policy) grown)
              | inr (x, f) ↦ rw (e, f, add_auto_sign_rule) grown
            ]
        | inr (x, e) ↦ rw (e, add_auto_sign_rule) (inl refl)
      ]

  rules_done_device :
      (t : Text) (w : World) (a : App) (x : Device × Result (Unit {0}) Failure)
      → (rules_done lib config t w a x).device ≡ x.0
  unfolding rules_done on_refresh_auto_sign_rules
  rules_done_device t w a (d, ok u) = refl
  rules_done_device t w a (d, err e) = refl

  add_rule_with-Grown :
      (key : Bytes) (t origin : Text) (r : Result RuleLimits Text) (w : World) (a : App)
      → ((l : RuleLimits) → r ≡ ok l → (l.kind < 2 ^ 31) × (l.expiry_hours ≤ 8760))
      → Grown key w.now a.device.autosign.rules
          (add_rule_with lib config key t origin r w a).device.autosign.rules
  unfolding add_rule_with Grown
  add_rule_with-Grown key t origin (err e) w a bounds = inl refl
  add_rule_with-Grown key t origin (ok l) w a bounds =
      let (small, short) = bounds l refl in
      let x =
        add_auto_sign_rule lib config key origin l.kind l.expiry_hours l.max_per_hour w.now
          w.rule_id w.policy_save a.device in
      let grown =
        add_auto_sign_rule-Grown key origin l.kind l.expiry_hours l.max_per_hour w.now w.rule_id
          w.policy_save a.device small short in
      subst (λ (d : Device). Grown key w.now a.device.autosign.rules d.autosign.rules)
        (sym (rules_done_device t w a x)) grown

  -- Whatever numbers the page is given, adding a rule leaves the rules as they are or appends one that is
  -- within bounds: its kind fits an `i32`, it allows 1 to 1000 uses an hour, and it never expires or does
  -- so later than now and at most 8760 hours ahead.
  pub on_add_auto_sign_rule-Grown :
      (uuid_hex origin : Text) (kind hours most : ℤ) (w : World) (a : App) (key : Bytes)
      → parse_uuid_arg lib.keystore.hx uuid_hex ≡ some key
      → Grown key w.now a.device.autosign.rules
          (on_add_auto_sign_rule lib config uuid_hex origin kind hours most w
            a).device.autosign.rules
  unfolding on_add_auto_sign_rule
  on_add_auto_sign_rule-Grown uuid_hex origin kind hours most w a key h = rw h (
      add_rule_with-Grown key uuid_hex origin (rule_limits lib config kind hours most) w a
        (rule_limits_bounds lib config kind hours most))
