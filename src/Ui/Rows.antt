-- ===== src/Ui/Rows.antt =====
-- src/main.rs: `populate_approval`, `refresh_keys_ui` and `refresh_auto_sign_ui`.
use passport_nostr_signer.Prelude.{
  ℕ, ◌+◌, ◌%◌, ◌^◌, Bool, true, Option, none, some, List, [], ◌∷◌, map, Bytes, Text, text, length,
  if◌then◌else◌,
}
use passport_nostr_signer.Prelude.Result.{Result, ok, err, ◌>>=◌}
use passport_nostr_signer.Keys.{NostrError, PublicKey, public_from_hex}
use passport_nostr_signer.Approval
use passport_nostr_signer.Approval.{ApprovalRequest, SignPrompt, CipherPrompt, action}
use passport_nostr_signer.Autosign.{AutoSignRuleInfo}
use passport_nostr_signer.Engine.{Config, Device, Lib}
use passport_nostr_signer.Engine.Policy.{auto_sign_rules_for_key}
use passport_nostr_signer.Engine.Screens.{key_list}
use passport_nostr_signer.Ui.{
  pos, StoredKey, AutoSignRuleRow, ApprovalState, Screen, as_i32, capped_i32,
}
use passport_nostr_signer.Ui.Format.{
  short_hex, kind_friendly, parse_uuid_arg, format_expiry, format_last_used,
}

abbrev unwrap_or_default : Option Text → Text
unwrap_or_default none = []
unwrap_or_default (some t) = t

-- `tag_count as i32`, of a `usize`: its low 32 bits.
unfoldable pub sign_state : SignPrompt → ApprovalRequest → ApprovalState
sign_state p req = record {
  active = true;
  action = action req;
  origin = unwrap_or_default p.origin;
  key_label = p.key_label;
  key_short = short_hex p.npub_hex;
  peer_short = [];
  kind = as_i32 p.kind;
  kind_label = kind_friendly p.kind;
  tag_count = as_i32 (p.tag_count % 2 ^ 32);
  content_label = text "Content";
  content_preview = p.content_preview;
}

unfoldable pub cipher_state : CipherPrompt → Text → Text → ApprovalRequest → ApprovalState
cipher_state p kind_label content_label req = record {
  active = true;
  action = action req;
  origin = unwrap_or_default p.origin;
  key_label = p.key_label;
  key_short = [];
  peer_short = short_hex p.peer_pubkey_hex;
  kind = pos 0;
  kind_label = kind_label;
  tag_count = pos 0;
  content_label = content_label;
  content_preview = p.preview;
}

-- `populate_approval`
unfoldable pub approval_state : ApprovalRequest → ApprovalState
unfolding sign_state cipher_state
approval_state (Approval.sign_event p) = sign_state p (Approval.sign_event p)
approval_state (Approval.nip04_encrypt p) =
    cipher_state p (text "NIP-04 encrypt") (text "Plaintext") (Approval.nip04_encrypt p)
approval_state (Approval.nip44_encrypt p) =
    cipher_state p (text "NIP-44 encrypt") (text "Plaintext") (Approval.nip44_encrypt p)
approval_state (Approval.nip04_decrypt p) =
    cipher_state p (text "NIP-04 decrypt") (text "Ciphertext") (Approval.nip04_decrypt p)
approval_state (Approval.nip44_decrypt p) =
    cipher_state p (text "NIP-44 decrypt") (text "Ciphertext") (Approval.nip44_decrypt p)

-- The counters that the loop over the rows increments: live keys and archived ones.
unfoldable pub count_rows : List StoredKey → ℕ × ℕ
count_rows [] = (0, 0)
count_rows (k ∷ ks) =
    let rest = count_rows ks in if k.archived then (rest.0, rest.1 + 1) else (rest.0 + 1, rest.1)

abbrev ok_text : {E : Type 0} → Result Text E → Text → Text
ok_text (ok s) default = s
ok_text (err _) default = default

module _ (lib : Lib) (config : Config) (encode_npub : PublicKey → Result Text NostrError) where
  unfoldable pub key_row : Text × Text × Text × ℕ × Bool → StoredKey
  key_row (uuid, label, npub_hex, color, archived) = record {
    uuid = uuid;
    label = label;
    npub_short = short_hex npub_hex;
    npub_full =
        ok_text (public_from_hex lib.event.curve lib.event.hx npub_hex >>= encode_npub) npub_hex;
    color = color;
    archived = archived;
  }

  unfoldable pub key_rows : Device → List StoredKey
  unfolding key_row
  key_rows d = map key_row (key_list lib config d)

  unfoldable pub refresh_keys_ui : Device → Screen → Screen
  unfolding key_rows count_rows
  refresh_keys_ui d s =
      let rows = key_rows d in
      let counts = count_rows rows in
      record s { keys = rows; live_count = counts.0; archived_count = counts.1 }

module _ (lib : Lib) where
  unfoldable pub rule_row : ℕ → AutoSignRuleInfo → AutoSignRuleRow
  rule_row now rule = record {
    rule_id = lib.keystore.hx.encode rule.id;
    origin = rule.origin;
    kind = capped_i32 rule.kind;
    enabled = rule.enabled;
    expires_at_label = format_expiry lib.show rule.expires_at now;
    max_per_hour = capped_i32 rule.max_per_hour;
    used_in_window = capped_i32 rule.used_in_window;
    total_uses = capped_i32 rule.total_uses;
    last_used_label = format_last_used lib.show rule.last_used_at now;
  }

  unfoldable pub show_rules : Option Bytes → ℕ → Device → Screen → Screen
  unfolding rule_row
  show_rules none now d s = record s { auto_sign_rules = []; auto_sign_rule_count = pos 0 }
  show_rules (some uuid) now d s =
      let rows = map (rule_row now) (auto_sign_rules_for_key uuid d) in
      record s { auto_sign_rules = rows; auto_sign_rule_count = capped_i32 (length rows) }

  unfoldable pub refresh_auto_sign_ui : Text → ℕ → Device → Screen → Screen
  unfolding show_rules
  refresh_auto_sign_ui uuid_hex now d s =
      show_rules (parse_uuid_arg lib.keystore.hx uuid_hex) now d s
