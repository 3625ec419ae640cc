-- ===== src/Autosign/History.antt =====
-- The histories of a store: every call that changes it, in any order and at any time.
use passport_nostr_signer.Prelude.{ℕ, Bool, arith, Bytes, Text}
use passport_nostr_signer.Autosign.{
  AutoSignStore, empty_store, add_rule, remove_rule, remove_key_rules, set_rule_enabled,
  disable_key_rules, reserve_match, record_signed,
}
use passport_nostr_signer.Autosign.Invariant.{IsValid}
use passport_nostr_signer.Autosign.Preserve.{
  add_rule-IsValid, remove_rule-IsValid, remove_key_rules-IsValid, set_rule_enabled-IsValid,
  disable_key_rules-IsValid, reserve_match-IsValid, record_signed-IsValid,
}

pub data Step (s : AutoSignStore) : AutoSignStore → Type 0 where
  add :
      (key origin : Bytes) (kind expires_at max_per_hour now : ℕ) (id : Bytes)
      → Step s (add_rule key origin kind expires_at max_per_hour now id s).0
  remove : (id : Bytes) → Step s (remove_rule id s).0
  remove_key : (key : Bytes) → Step s (remove_key_rules key s).0
  enable : (id : Bytes) (enabled : Bool) → Step s (set_rule_enabled id enabled s).0
  disable_key : (key : Bytes) → Step s (disable_key_rules key s).0
  reserve : (key origin : Bytes) (kind now : ℕ) → Step s (reserve_match key origin kind now s).0
  sign :
      (id key origin : Bytes) (kind : ℕ) (event_id : Text) (now : ℕ)
      → Step s (record_signed id key origin kind event_id now s)

pub data Reach (s : AutoSignStore) : AutoSignStore → Type 0 where
  here : Reach s s
  next : {t u : AutoSignStore} → Reach s t → Step t u → Reach s u

Step-IsValid : {s t : AutoSignStore} → Step s t → IsValid s → IsValid t
Step-IsValid {s} (add key origin kind expires_at max_per_hour now id) v =
    add_rule-IsValid key origin kind expires_at max_per_hour now id s v
Step-IsValid {s} (remove id) v = remove_rule-IsValid id s v
Step-IsValid {s} (remove_key key) v = remove_key_rules-IsValid key s v
Step-IsValid {s} (enable id enabled) v = set_rule_enabled-IsValid id enabled s v
Step-IsValid {s} (disable_key key) v = disable_key_rules-IsValid key s v
Step-IsValid {s} (reserve key origin kind now) v = reserve_match-IsValid key origin kind now s v
Step-IsValid {s} (sign id key origin kind event_id now) v =
    record_signed-IsValid id key origin kind event_id now s v

pub Reach-keeps : {s t : AutoSignStore} → IsValid s → Reach s t → IsValid t
Reach-keeps v here = v
Reach-keeps v (next r st) = Step-IsValid st (Reach-keeps v r)

pub empty_store-IsValid : IsValid empty_store
empty_store-IsValid = record {
  each = tt;
  distinct = tt;
  few = λ key. omega arith;
  audit = omega arith;
}

-- After any calls on an empty store: each rule has a normalised origin, a cap of 1 to 1000 and at
-- most that many uses counted; no key has more than 24 rules; no two rules are for the same key,
-- origin and kind; and the audit log has at most 100 entries.
pub Reach-IsValid : {s : AutoSignStore} → Reach empty_store s → IsValid s
Reach-IsValid r = Reach-keeps empty_store-IsValid r
