-- ===== src/Tests/Requests.antt =====
-- Requests to the device of the samples.
use passport_nostr_signer.Prelude.{◌≡◌, refl, true, false, none, some, [], text, eqb}
use passport_nostr_signer.Prelude.Result.{ok}
use passport_nostr_signer.Storage.{write_and_rename, dir_ready, replace, save_file}
use passport_nostr_signer.Keys.{public_key, public_from_bytes, secret_from_slice}
use passport_nostr_signer.Keystore.{reveal, open_record, derive_key, KeyInfo, get_info}
use passport_nostr_signer.Autosign.{
  reserve_match, reserve_normal, is_match, is_expired, charge, roll_window,
}
use passport_nostr_signer.Autosign.File.{to_bytes, mac_bytes, save}
use passport_nostr_signer.Event.{Event, sign, id_of}
use passport_nostr_signer.Message.{Response, err_response, ok_response, unknown_key}
use passport_nostr_signer.Message
use passport_nostr_signer.Approval
use passport_nostr_signer.Approval.{SignPrompt}
use passport_nostr_signer.Engine.{Device, is_live, parse_uuid, named_uuid, resolve_uuid, reveal_key}
use passport_nostr_signer.Engine.Policy.{reserve_auto_sign, save_reserved, persist_auto_sign}
use passport_nostr_signer.Engine.Requests.{
  Progress, SignJob, done, ask, handle, handle_method, handle_sign, open_key, start_sign,
  after_reserve, finish_sign, sign_contents,
}
use passport_nostr_signer.Engine.Consent.{is_protected, yields, IsPermitted, handle-IsPermitted}
use passport_nostr_signer.Engine.Refused.{key_of, dead_key_refused}
use passport_nostr_signer.Tests.Samples.{
  lib, config, device, world, sign_note, note_of_kind, uuid_a, uuid_b, secret_a,
}
use passport_nostr_signer.Tests.Policy.{normal_a}

-- The device and the reply of a request that has been answered.
abbrev left : Progress → Device
left (done d r) = d
left (ask d prompt job) = d

abbrev replied : Progress → Response
replied (done d r) = r
replied (ask d prompt job) = err_response [] unknown_key []

abbrev answered : Progress
answered = handle lib config (sign_note 1 none) world device

is_answered : answered ≡ done (left answered) (replied answered)
unfolding handle handle_method handle_sign open_key resolve_uuid named_uuid get_info is_live
    reveal_key reveal open_record derive_key secret_from_slice start_sign reserve_auto_sign
    reserve_match reserve_normal is_match is_expired charge roll_window save_reserved
    persist_auto_sign save to_bytes mac_bytes save_file replace write_and_rename dir_ready
    after_reserve finish_sign sign_contents public_from_bytes sign id_of public_key ok_response eqb
    text
is_answered = rw (normal_a, reserve_match) refl

signs_at_once : yields (replied answered) ≡ true
unfolding handle handle_method handle_sign open_key resolve_uuid named_uuid get_info is_live
    reveal_key reveal open_record derive_key secret_from_slice start_sign reserve_auto_sign
    reserve_match reserve_normal is_match is_expired charge roll_window save_reserved
    persist_auto_sign save to_bytes mac_bytes save_file replace write_and_rename dir_ready
    after_reserve finish_sign sign_contents public_from_bytes sign id_of public_key yields
    is_protected ok_response eqb text
signs_at_once = rw (normal_a, reserve_match) refl

handle-IsPermitted_example : IsPermitted lib config (sign_note 1 none) world device (left answered)
handle-IsPermitted_example =
    handle-IsPermitted lib config (sign_note 1 none) world device (left answered) (replied answered)
      is_answered signs_at_once

abbrev job : SignJob
job = record {
  id = text "1";
  uuid = uuid_a;
  info = record {
    uuid = uuid_a;
    label = text "key";
    npub = secret_a.bytes;
    created_at = 1;
    color = 3;
    archived = false;
  };
  sk = secret_a;
  params = record { uuid = none; origin = none; event = note_of_kind 7 };
}

abbrev request : Message.Request
request = record { id = text "1"; method = Message.sign_event job.params }

abbrev note : Event
note = record {
  id = text "gm";
  pubkey = record { bytes = secret_a.bytes };
  created_at = 99;
  kind = 7;
  tags = [];
  content = text "gm";
  sig = text "gm";
}

archived_b : (info : KeyInfo) → get_info uuid_b device.keystore ≡ some info → info.archived ≡ true
unfolding get_info eqb
archived_b info found = cc found

named_b : named_uuid lib (some uuid_b) device ≡ ok uuid_b
unfolding named_uuid parse_uuid
named_b = refl

names_b : key_of (sign_note 1 (some uuid_b)).method ≡ some (some uuid_b)
unfolding key_of
names_b = refl

dead_key_refused_example :
    handle lib config (sign_note 1 (some uuid_b)) world device
    ≡ done device (err_response (text "1") unknown_key (text "no such uuid"))
dead_key_refused_example =
    dead_key_refused lib config (sign_note 1 (some uuid_b)) world device (some uuid_b) uuid_b
      names_b named_b archived_b
