-- ===== src/Tests/Ui.antt =====
-- The screens over the device of the samples.
use passport_nostr_signer.Prelude.{◌≡◌, refl, none, some, [], ◌∷◌, text, replicate}
use passport_nostr_signer.Prelude.Result.{ok}
use passport_nostr_signer.Storage.{Disk}
use passport_nostr_signer.Keystore.File
use passport_nostr_signer.Ui.{pos, App, blank}
use passport_nostr_signer.Ui.Format.{parse_uuid_arg}
use passport_nostr_signer.Ui.Callbacks.{World, UiLib, done}
use passport_nostr_signer.Ui.Rules.{on_add_auto_sign_rule}
use passport_nostr_signer.Ui.Startup.{boot, running}
use passport_nostr_signer.Ui.Events.{archive, run}
use passport_nostr_signer.Ui.Mirror.{IsMirrored, IsSound}
use passport_nostr_signer.Ui.Mirrored.{run-IsMirrored}
use passport_nostr_signer.Ui.Chosen.{IsStarted, boot-IsStarted}
use passport_nostr_signer.Ui.Limits.{Grown, on_add_auto_sign_rule-Grown}
use passport_nostr_signer.Tests.Samples.{
  lib, config, device, saves, hx, uuid_a, secret_b, two_keys, origin_a,
}
use passport_nostr_signer.Tests.Keys.{two_keys-IsValid}

abbrev ui : UiLib
ui = record {
  encode_npub = λ pk. ok pk.bytes;
  decode_nsec = λ s. ok secret_b;
  from_utf8 = λ b. ok b;
}

abbrev world : World
world = record {
  now = 100;
  uuid_draw = none;
  nonce_draw = none;
  rule_id = replicate 16 6;
  seed = ok (replicate 32 9);
  derive = λ account. ok secret_b;
  scan = ok none;
  save = saves;
  second_save = saves;
  policy_save = saves;
  file = done;
}

-- The live key of the samples is selected.
abbrev app : App
app = record {
  device = device;
  screen = record blank { selected_uuid = uuid_a };
  selected_file = some uuid_a;
}

world-IsSound : IsSound hx world
world-IsSound = record { hex_back = λ b. refl; uuid_size = λ uuid h. absurd (cc h) }

app-IsMirrored : IsMirrored hx app
unfolding parse_uuid_arg
app-IsMirrored = refl

run-IsMirrored_example : IsMirrored hx (run lib config ui (archive uuid_a) world app)
run-IsMirrored_example =
    run-IsMirrored lib config ui (archive uuid_a) world app world-IsSound app-IsMirrored

uuid_read : parse_uuid_arg hx uuid_a ≡ some uuid_a
unfolding parse_uuid_arg
uuid_read = refl

on_add_auto_sign_rule-Grown_example :
    Grown uuid_a 100 device.autosign.rules
      (on_add_auto_sign_rule lib config uuid_a origin_a
        (pos 7)
        (pos 24)
        (pos 10)
        world
        app).device.autosign.rules
on_add_auto_sign_rule-Grown_example =
    on_add_auto_sign_rule-Grown lib config uuid_a origin_a (pos 7) (pos 24) (pos 10) world app
      uuid_a uuid_read

-- A disk whose every file is the keystore's.
abbrev stored : Disk
stored p = some (1 ∷ [])

loaded : File.load lib.keystore_json config.keystore_path stored ≡ ok two_keys
unfolding File.load File.from_bytes
loaded = refl

boot-IsStarted_example :
    (a : App) × (boot lib config ui (some (text "junk")) done stored ≡ running a)
    × IsStarted lib config ui two_keys (λ b. refl) two_keys-IsValid (refl, (refl, tt)) a
boot-IsStarted_example =
    boot-IsStarted lib config ui two_keys (λ b. refl) two_keys-IsValid (refl, (refl, tt))
      (some (text "junk")) done stored loaded
