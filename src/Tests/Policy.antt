-- ===== src/Tests/Policy.antt =====
-- The auto-sign policy and its file.
use passport_nostr_signer.Prelude.{
  ◌*◌, ◌≤◌, ◌≡◌, ◌⊎◌, refl, ap, none, some, [], ◌∷◌, ◌++◌, arith, Bytes, Text, text, replicate, eqb,
  find_first,
}
use passport_nostr_signer.Prelude.Result.{ok}
use passport_nostr_signer.Origin.{normalize_origin, check_trimmed, check_parts, is_url_part}
use passport_nostr_signer.Origin.Normal.{normalize_origin-IsSiteOrigin}
use passport_nostr_signer.Strings.{
  is_whitespace, trim, trim_start_by, trim_end_by, lower, to_ascii_lowercase, len_utf8, len,
  strip_prefix, split_once,
}
use passport_nostr_signer.Storage.{temp_path, write_and_rename, dir_ready, replace, save_file, Disk}
use passport_nostr_signer.Storage.Atomic.{IsAtomic, save_file-IsAtomic}
use passport_nostr_signer.Autosign.{
  AutoSignStore, empty_store, add_rule, reserve_match, reserve_normal, is_match, is_expired, charge,
  roll_window, is_for,
}
use passport_nostr_signer.Autosign.Invariant.{IsValid}
use passport_nostr_signer.Autosign.Reserve.{IsAuthorised, reserve_match-IsAuthorised}
use passport_nostr_signer.Autosign.Cap.{grants, cap_of, grants_in_hour}
use passport_nostr_signer.Autosign.History
use passport_nostr_signer.Autosign.History.{Reach-IsValid}
use passport_nostr_signer.Autosign.File.{
  to_bytes, check_file, from_bytes, mac_bytes, diff_from, constant_time_eq, save, load,
}
use passport_nostr_signer.Autosign.File.Mac.{IsAuthentic, from_bytes-IsAuthentic}
use passport_nostr_signer.Autosign.File.RoundTrip.{load-save}
use passport_nostr_signer.Tests.Samples.{
  uuid_a, rule_a, one_rule, origin_a, mac_key, policy_lib, saves, path_to,
}

abbrev disk : Disk
disk p = none

save_file-IsAtomic_example :
    let (disk', r) =
      save_file {E = Text} (text "autosign") (path_to (2 ∷ [])) (ok (9 ∷ [])) saves disk in
    IsAtomic
      (path_to (2 ∷ []))
      (temp_path (text "autosign") (path_to (2 ∷ [])))
      (ok (9 ∷ []))
      disk
      disk'
      r
save_file-IsAtomic_example =
    save_file-IsAtomic (text "autosign") (path_to (2 ∷ [])) (ok (9 ∷ [])) saves disk

pub normal_a : normalize_origin origin_a ≡ ok origin_a
unfolding normalize_origin check_trimmed check_parts is_url_part is_whitespace trim trim_start_by
    trim_end_by lower to_ascii_lowercase len_utf8 len strip_prefix split_once text eqb
normal_a = refl

pub granted_a : (reserve_match uuid_a origin_a 1 100 one_rule).1 ≡ some (replicate 16 5)
unfolding reserve_match reserve_normal is_match is_expired charge roll_window eqb text
granted_a = rw (normal_a, reserve_match) refl

reserve_match-IsAuthorised_example : IsAuthorised uuid_a origin_a 1 100 one_rule (replicate 16 5)
reserve_match-IsAuthorised_example =
    reserve_match-IsAuthorised uuid_a origin_a 1 100 one_rule (replicate 16 5) granted_a

one_rule-IsValid : IsValid one_rule
one_rule-IsValid = record {
  each = (
    record {
      origin = normalize_origin-IsSiteOrigin origin_a origin_a normal_a;
      cap_low = omega arith;
      cap_high = omega arith;
      used = omega arith;
    },
    tt,
  );
  distinct = (refl, tt);
  few = λ key. ground arith;
  audit = omega arith;
}

grants_in_hour_example :
    grants uuid_a origin_a 1 (100 ∷ 200 ∷ 300 ∷ []) one_rule
    ≤ 2 * cap_of (find_first (is_for uuid_a origin_a 1) one_rule.rules)
grants_in_hour_example =
    grants_in_hour uuid_a origin_a origin_a 1 (100 ∷ 200 ∷ 300 ∷ []) one_rule 60 normal_a
      one_rule-IsValid
      (omega arith, omega arith, (omega arith, omega arith, (omega arith, omega arith, tt)))

found_a : find_first (is_for uuid_a origin_a 1) one_rule.rules ≡ some rule_a
unfolding eqb text
found_a = refl

abbrev after_add : AutoSignStore
after_add = (add_rule uuid_a origin_a 1 0 2 50 (replicate 16 5) empty_store).0

Reach-IsValid_example : IsValid (reserve_match uuid_a origin_a 1 100 after_add).0
Reach-IsValid_example = Reach-IsValid {s = (reserve_match uuid_a origin_a 1 100 after_add).0} (
    History.next (History.next History.here (History.add uuid_a origin_a 1 0 2 50 (replicate 16 5)))
      (History.reserve uuid_a origin_a 1 100))

policy_bytes : to_bytes policy_lib one_rule mac_key ≡ ok (1 ∷ [])
unfolding to_bytes mac_bytes
policy_bytes = refl

policy_saved : (save policy_lib one_rule (path_to (2 ∷ [])) mac_key saves disk).1 ≡ ok tt
unfolding save to_bytes mac_bytes save_file replace write_and_rename dir_ready
policy_saved = refl

abbrev OneMac : (mac : Bytes) → Type 0
OneMac mac =
    mac_bytes policy_lib mac_key (record { version = 1; rules = one_rule.rules; audit = [] })
    ≡ ok mac

the_mac : (mac : Bytes) → OneMac mac → mac_key ++ 1 ∷ 1 ∷ [] ≡ mac
unfolding mac_bytes
the_mac mac h = cc h

load-save_example :
    load policy_lib
      (path_to (2 ∷ []))
      mac_key
      (save policy_lib one_rule (path_to (2 ∷ [])) mac_key saves disk).0
    ≡ ok one_rule
load-save_example =
    load-save policy_lib one_rule mac_key (path_to (2 ∷ [])) saves disk refl
      (record {
        hex_back = λ mac h. refl;
        json_back = λ mac h bytes p. (
          λ e. absurd (cc (p, e)),
          ap (λ m. ok (record { version = 1; rules = one_rule.rules; audit = []; mac = m }))
              (the_mac mac h),
        );
      })
      policy_saved

policy_read : from_bytes policy_lib (1 ∷ []) mac_key ≡ ok one_rule
unfolding from_bytes check_file mac_bytes constant_time_eq diff_from
policy_read = refl

from_bytes-IsAuthentic_example :
    ((◌≡◌ {A = Bytes} (1 ∷ []) []) × (one_rule.rules ≡ []) × (one_rule.audit ≡ []))
    ⊎ IsAuthentic policy_lib (1 ∷ []) mac_key one_rule
from_bytes-IsAuthentic_example =
    from_bytes-IsAuthentic policy_lib (1 ∷ []) mac_key one_rule policy_read
