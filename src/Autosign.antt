-- ===== src/Autosign.antt =====
-- src/autosign.rs: the rules by which a request is signed without a tap, and their audit log.
-- Times are seconds, `u64`; kinds and counters are `u32`, and what the code adds to wraps around.
pub mod Rule
pub mod Reserve
pub mod Charged
pub mod Added
pub mod Invariant
pub mod Preserve
pub mod Window
pub mod Cap
pub mod History
pub mod Listing
pub mod File
use passport_nostr_signer.Prelude.{
  ℕ, ◌+◌, ◌-◌, ◌*◌, ◌%◌, ◌^◌, Bool, true, false, not, ◌&&◌, ◌||◌, Option, none, some, List, [], ◌∷◌,
  ◌++◌, map, Bytes, Text, eqb, length, drop, keep_if, any_of, find_first, update_first, ltb, leb,
  ◌==◌, if◌then◌else◌,
}
use passport_nostr_signer.Prelude.Result.{Result, ok, err}
use passport_nostr_signer.Strings.{trim}
use passport_nostr_signer.Origin.{OriginError, normalize_origin}

abbrev pub max_rules_per_key : ℕ
max_rules_per_key = 24

abbrev pub one_hour_secs : ℕ
one_hour_secs = 60 * 60

abbrev pub audit_limit : ℕ
audit_limit = 100

pub record AutoSignRuleInfo : Type 0 where
  pub id : Bytes
  pub origin : Text
  pub kind : ℕ
  pub enabled : Bool
  pub expires_at : ℕ
  pub max_per_hour : ℕ
  pub used_in_window : ℕ
  pub total_uses : ℕ
  pub last_used_at : ℕ

pub record AutoSignAuditEntry : Type 0 where
  pub timestamp : ℕ
  pub rule_id : Bytes
  pub key_uuid : Bytes
  pub origin : Text
  pub kind : ℕ
  pub event_id : Text

pub record AutoSignRule : Type 0 where
  pub id : Bytes
  pub key_uuid : Bytes
  pub origin : Text
  pub kind : ℕ
  pub enabled : Bool
  pub expires_at : ℕ
  pub max_per_hour : ℕ
  pub used_in_window : ℕ
  pub window_started_at : ℕ
  pub total_uses : ℕ
  pub created_at : ℕ
  pub last_used_at : ℕ

pub record AutoSignStore : Type 0 where
  pub version : ℕ
  pub rules : List AutoSignRule
  pub audit : List AutoSignAuditEntry

abbrev pub format_version : ℕ
format_version = 1

-- `AutoSignStore::default`
abbrev pub empty_store : AutoSignStore
empty_store = record { version = format_version; rules = []; audit = [] }

-- `AutoSignRule::info`
unfoldable pub info : AutoSignRule → AutoSignRuleInfo
info r = record {
  id = r.id;
  origin = r.origin;
  kind = r.kind;
  enabled = r.enabled;
  expires_at = r.expires_at;
  max_per_hour = r.max_per_hour;
  used_in_window = r.used_in_window;
  total_uses = r.total_uses;
  last_used_at = r.last_used_at;
}

-- `AutoSignRule::is_expired`
unfoldable pub is_expired : AutoSignRule → ℕ → Bool
is_expired r now = not (r.expires_at == 0) && leb r.expires_at now

-- `AutoSignRule::roll_window`; `-` stops at 0, as `saturating_sub` does.
unfoldable pub roll_window : ℕ → AutoSignRule → AutoSignRule
roll_window now r =
    if ltb now r.window_started_at || leb one_hour_secs (now - r.window_started_at)
    then record r { window_started_at = now; used_in_window = 0 }
    else r

pub data AddRuleError : Type 0 where
  bad_origin : OriginError → AddRuleError
  too_many_rules : AddRuleError
  duplicate_rule : AddRuleError
  bad_max_per_hour : AddRuleError
  expiry_in_past : AddRuleError

abbrev pub is_key : Bytes → AutoSignRule → Bool
is_key key r = eqb r.key_uuid key

-- The key, origin and kind that a rule is for.
abbrev pub is_for : Bytes → Text → ℕ → AutoSignRule → Bool
is_for key origin kind r = is_key key r && (eqb r.origin origin && (r.kind == kind))

abbrev pub new_rule : Bytes → Bytes → Text → ℕ → ℕ → ℕ → ℕ → AutoSignRule
new_rule id key origin kind expires_at max_per_hour now = record {
  id = id;
  key_uuid = key;
  origin = origin;
  kind = kind;
  enabled = true;
  expires_at = expires_at;
  max_per_hour = max_per_hour;
  used_in_window = 0;
  window_started_at = now;
  total_uses = 0;
  created_at = now;
  last_used_at = 0;
}

-- `add_rule` once the origin is in its normal form.
unfoldable pub add_normal :
    Bytes → Text → ℕ → ℕ → ℕ → ℕ → Bytes → AutoSignStore → AutoSignStore × Result Bytes AddRuleError
add_normal key origin kind expires_at max_per_hour now id s =
    if leb max_rules_per_key (length (keep_if (is_key key) s.rules))
    then (s, err too_many_rules)
    else if any_of (is_for key origin kind) s.rules
    then (s, err duplicate_rule)
    else if (max_per_hour == 0) || ltb 1000 max_per_hour
    then (s, err bad_max_per_hour)
    else if not (expires_at == 0) && leb expires_at now
    then (s, err expiry_in_past)
    else (
      record s { rules = s.rules ++ new_rule id key origin kind expires_at max_per_hour now ∷ [] },
      ok id,
    )

-- `AutoSignStore::add_rule`; `id` is the random one that `Uuid::new_v4` gives.
unfoldable pub add_rule :
    Bytes → Text → ℕ → ℕ → ℕ → ℕ → Bytes → AutoSignStore → AutoSignStore × Result Bytes AddRuleError
add_rule key origin kind expires_at max_per_hour now id s = elim (normalize_origin origin) [
  | err e ↦ (s, err (bad_origin e))
  | ok o ↦ add_normal key o kind expires_at max_per_hour now id s
]

-- `AutoSignStore::remove_rule`
unfoldable pub remove_rule : Bytes → AutoSignStore → AutoSignStore × Bool
remove_rule id s =
    let rest = keep_if (λ (r : AutoSignRule). not (eqb r.id id)) s.rules in
    (record s { rules = rest }, not (length s.rules == length rest))

-- `AutoSignStore::remove_key_rules`
unfoldable pub remove_key_rules : Bytes → AutoSignStore → AutoSignStore × Bool
remove_key_rules key s =
    let rest = keep_if (λ (r : AutoSignRule). not (is_key key r)) s.rules in
    (record s { rules = rest }, not (length s.rules == length rest))

-- `AutoSignStore::set_rule_enabled`
unfoldable pub set_rule_enabled : Bytes → Bool → AutoSignStore → AutoSignStore × Bool
set_rule_enabled id enabled s =
    let has_id = λ (r : AutoSignRule). eqb r.id id in
    elim (find_first has_id s.rules) [
      | none ↦ (s, false)
      | some _ ↦ (
        record s { rules = update_first has_id (λ r. record r { enabled = enabled }) s.rules },
        true,
      )
    ]

-- `AutoSignStore::disable_key_rules`
unfoldable pub disable_key_rules : Bytes → AutoSignStore → AutoSignStore × Bool
disable_key_rules key s =
    let is_changed = λ (r : AutoSignRule). is_key key r && r.enabled in
    (
      record s {
        rules = map (λ r. if is_changed r then record r { enabled = false } else r) s.rules;
      },
      any_of is_changed s.rules,
    )

-- The test of `reserve_match` on one rule.
unfoldable pub is_match : Bytes → Text → ℕ → ℕ → AutoSignRule → Bool
is_match key origin kind now r = r.enabled && (is_for key origin kind r && not (is_expired r now))

-- What `reserve_match` does to the rule that it found: the window is rolled also when the rule has
-- no use left.
unfoldable pub charge : ℕ → AutoSignRule → AutoSignRule × Bool
charge now r =
    let rolled = roll_window now r in
    if leb rolled.max_per_hour rolled.used_in_window then (rolled, false) else (
      record rolled {
        used_in_window = (rolled.used_in_window + 1) % 2 ^ 32;
        total_uses = (rolled.total_uses + 1) % 2 ^ 64;
        last_used_at = now;
      },
      true,
    )

-- `reserve_match` once the origin is in its normal form.
unfoldable pub reserve_normal : Bytes → Text → ℕ → ℕ → AutoSignStore → AutoSignStore × Option Bytes
reserve_normal key origin kind now s =
    let matches = is_match key origin kind now in
    elim (find_first matches s.rules) [
      | none ↦ (s, none)
      | some r ↦
          let (r', granted) = charge now r in
          (
            record s { rules = update_first matches (λ _. r') s.rules },
            if granted then some r'.id else none,
          )
    ]

-- `AutoSignStore::reserve_match`
unfoldable pub reserve_match : Bytes → Text → ℕ → ℕ → AutoSignStore → AutoSignStore × Option Bytes
reserve_match key origin kind now s = elim (normalize_origin origin) [
  | err _ ↦ (s, none)
  | ok o ↦ reserve_normal key o kind now s
]

-- The end of `record_signed`: `drain(0..excess)`.
unfoldable pub limit_audit : List AutoSignAuditEntry → List AutoSignAuditEntry
limit_audit audit =
    if ltb audit_limit (length audit) then drop (length audit - audit_limit) audit else audit

-- `AutoSignStore::record_signed`
unfoldable pub record_signed : Bytes → Bytes → Text → ℕ → Text → ℕ → AutoSignStore → AutoSignStore
record_signed rule_id key origin kind event_id now s =
    let entry : AutoSignAuditEntry = record {
      timestamp = now;
      rule_id = rule_id;
      key_uuid = key;
      origin = elim (normalize_origin origin) [ ok o ↦ o | err _ ↦ trim origin ];
      kind = kind;
      event_id = event_id;
    } in
    record s { audit = limit_audit (s.audit ++ entry ∷ []) }
