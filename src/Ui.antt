-- ===== src/Ui.antt =====
-- src/main.rs: the device's screens. Here: what the screens show; the child modules fill it from the engine
-- and answer the buttons.
pub mod Format
pub mod Rows
pub mod Callbacks
pub mod Rules
pub mod Startup
pub mod Derive
pub mod Events
pub mod Selection
pub mod Mirror
pub mod RulesMirror
pub mod Mirrored
pub mod Chosen
pub mod Counts
pub mod Limits
pub mod Shown
use passport_nostr_signer.Prelude.{
  ℕ, ◌+◌, ◌-◌, ◌^◌, Bool, false, Option, none, List, [], Text, min, ltb, if◌then◌else◌,
}
use passport_nostr_signer.Keystore
use passport_nostr_signer.Engine.{Device}
use passport_nostr_signer.Engine.Policy.{Failure}

-- `i32`, of which Slint makes its `int`: `negsuc n` is -1 - n.
pub data ℤ : Type 0 where
  pos : ℕ → ℤ
  negsuc : ℕ → ℤ

-- `n as i32` of a `u32`: from 2^31 on it wraps around.
unfoldable pub as_i32 : ℕ → ℤ
as_i32 n = if ltb n (2 ^ 31) then pos n else negsuc (2 ^ 32 - (n + 1))

-- `n.min(i32::MAX as u32) as i32`
unfoldable pub capped_i32 : ℕ → ℤ
unfolding as_i32
capped_i32 n = as_i32 (min n (2 ^ 31 - 1))

-- `z.clamp(0, 255) as u8`
unfoldable pub clamp_u8 : ℤ → ℕ
clamp_u8 (pos n) = min n 255
clamp_u8 (negsuc n) = 0

-- `z.max(0) as u32`
unfoldable pub nonneg_u32 : ℤ → ℕ
nonneg_u32 (pos n) = n
nonneg_u32 (negsuc n) = 0

pub record StoredKey : Type 0 where
  pub uuid : Text
  pub label : Text
  pub npub_short : Text
  pub npub_full : Text
  pub color : ℕ
  pub archived : Bool

pub record AutoSignRuleRow : Type 0 where
  pub rule_id : Text
  pub origin : Text
  pub kind : ℤ
  pub enabled : Bool
  pub expires_at_label : Text
  pub max_per_hour : ℤ
  pub used_in_window : ℤ
  pub total_uses : ℤ
  pub last_used_label : Text

pub record ApprovalState : Type 0 where
  pub active : Bool
  pub action : Text
  pub origin : Text
  pub key_label : Text
  pub key_short : Text
  pub peer_short : Text
  pub kind : ℤ
  pub kind_label : Text
  pub tag_count : ℤ
  pub content_label : Text
  pub content_preview : Text

-- What an error line says: nothing, a text of the screens' own, or why a call of the engine failed.
pub data Notice : Type 0 where
  quiet : Notice
  says : Text → Notice
  failed : Failure → Notice

-- The properties of `Callbacks` that the code writes. `backs` counts `invoke_backward`. The two counts are
-- `i32` in the code and stay below 2^31 with fewer keys than that.
pub record Screen : Type 0 where
  pub keys : List StoredKey
  pub live_count : ℕ
  pub archived_count : ℕ
  pub selected_uuid : Text
  pub editing_error : Notice
  pub auto_sign_rules : List AutoSignRuleRow
  pub auto_sign_rule_count : ℤ
  pub auto_sign_error : Notice
  pub backs : ℕ

-- The device, its screens, and the text in `selected.txt`, if it can be read.
pub record App : Type 0 where
  pub device : Device
  pub screen : Screen
  pub selected_file : Option Text

abbrev pub blank : Screen
blank = record {
  keys = [];
  live_count = 0;
  archived_count = 0;
  selected_uuid = [];
  editing_error = quiet;
  auto_sign_rules = [];
  auto_sign_rule_count = pos 0;
  auto_sign_error = quiet;
  backs = 0;
}
