-- ===== src/Autosign/Preserve.antt =====
-- Every operation of the store keeps its invariant, in whatever order they come.
use passport_nostr_signer.Prelude.{
  ℕ, ◌-◌, ◌≤◌, ◌<◌, ◌≡◌, refl, ◌∙◌, Bool, true, false, not, ◌&&◌, ◌||◌, inl, inr, List, [], ◌∷◌,
  ◌++◌, map, arith, Bytes, Text, length, drop, keep_if, any_of, find_first, update_first, All, eqb,
  eqb_iff, ltb, leb, ◌==◌, if◌then◌else◌, Bool-cases, Option-cases, length-drop, any_of-snoc,
  any_of-keep_if, length-keep_if-snoc, length-keep_if-keep_if, All-keep_if, All-snoc,
  All-update_first,
}
use passport_nostr_signer.Prelude.Result.{Result-cases}
use passport_nostr_signer.Origin.{normalize_origin}
use passport_nostr_signer.Origin.Normal.{IsSiteOrigin, normalize_origin-IsSiteOrigin}
use passport_nostr_signer.Autosign.{
  AutoSignRule, AutoSignStore, new_rule, is_for, is_key, add_normal, add_rule, remove_rule,
  remove_key_rules, set_rule_enabled, disable_key_rules, is_match, charge, reserve_normal,
  reserve_match, record_signed, limit_audit, AutoSignAuditEntry, max_rules_per_key, audit_limit,
}
use passport_nostr_signer.Autosign.Rule
use passport_nostr_signer.Autosign.Rule.{
  SameTarget, charge-SameTarget, charge-IsValid, is_for-SameTarget, is_for_comm,
}
use passport_nostr_signer.Autosign.Reserve.{reserve_normal_found, reserve_normal_missing}
use passport_nostr_signer.Autosign.Invariant.{
  IsValid, IsDistinct, SameTargets, update_first-SameTargets, map-SameTargets,
  IsDistinct-SameTargets, count-SameTargets,
}

IsDistinct-keep_if :
    (q : AutoSignRule → Bool) (rs : List AutoSignRule) → IsDistinct rs → IsDistinct (keep_if q rs)
IsDistinct-keep_if q [] d = tt
IsDistinct-keep_if q (r ∷ rs) d = elim (Bool-cases (q r)) [
  | inl keep ↦
      rw keep
        (any_of-keep_if (is_for r.key_uuid r.origin r.kind) q rs d.0, IsDistinct-keep_if q rs d.1)
  | inr drop ↦ rw drop (IsDistinct-keep_if q rs d.1)
]

IsDistinct-snoc :
    (rs : List AutoSignRule) (y : AutoSignRule)
    → IsDistinct rs
    → any_of (is_for y.key_uuid y.origin y.kind) rs ≡ false
    → IsDistinct (rs ++ y ∷ [])
IsDistinct-snoc [] y d h = (refl, tt)
IsDistinct-snoc (r ∷ rs) y d h = (
  any_of-snoc (is_for r.key_uuid r.origin r.kind) rs y ∙ (ground (arith, d.0, is_for_comm r y)),
  IsDistinct-snoc rs y d.1 (ground arith),
)

keep_if-IsValid :
    (q : AutoSignRule → Bool) (s : AutoSignStore)
    → IsValid s
    → IsValid (record s { rules = keep_if q s.rules })
keep_if-IsValid q s v = record {
  each = All-keep_if Rule.IsValid q s.rules v.each;
  distinct = IsDistinct-keep_if q s.rules v.distinct;
  few = λ key. omega (arith, length-keep_if-keep_if (is_key key) q s.rules, v.few key);
  audit = v.audit;
}

-- Rules that keep their targets and their own validity.
with_rules-IsValid :
    (s : AutoSignStore) (rs : List AutoSignRule)
    → SameTargets s.rules rs
    → All Rule.IsValid rs
    → IsValid s
    → IsValid (record s { rules = rs })
with_rules-IsValid s rs same each v = record {
  each = each;
  distinct = IsDistinct-SameTargets s.rules rs same v.distinct;
  few = λ key. omega (arith, count-SameTargets key s.rules rs same, v.few key);
  audit = v.audit;
}

pub remove_rule-IsValid :
    (id : Bytes) (s : AutoSignStore) → IsValid s → IsValid (remove_rule id s).0
unfolding remove_rule
remove_rule-IsValid id s v = keep_if-IsValid (λ r. not (eqb r.id id)) s v

pub remove_key_rules-IsValid :
    (key : Bytes) (s : AutoSignStore) → IsValid s → IsValid (remove_key_rules key s).0
unfolding remove_key_rules
remove_key_rules-IsValid key s v = keep_if-IsValid (λ r. not (is_key key r)) s v

abbrev with_enabled : Bool → AutoSignRule → AutoSignRule
with_enabled enabled r = record r { enabled = enabled }

with_enabled-IsValid :
    (enabled : Bool) (r : AutoSignRule) → Rule.IsValid r → Rule.IsValid (with_enabled enabled r)
with_enabled-IsValid enabled r v = record {
  origin = v.origin;
  cap_low = v.cap_low;
  cap_high = v.cap_high;
  used = v.used;
}

with_enabled-SameTarget :
    (enabled : Bool) (r : AutoSignRule) → SameTarget r (with_enabled enabled r)
with_enabled-SameTarget enabled r = record { key = refl; origin = refl; kind = refl }

pub set_rule_enabled-IsValid :
    (id : Bytes) (enabled : Bool) (s : AutoSignStore)
    → IsValid s
    → IsValid (set_rule_enabled id enabled s).0
unfolding set_rule_enabled
set_rule_enabled-IsValid id enabled s v =
    let has_id = λ (r : AutoSignRule). eqb r.id id in
    elim (Option-cases (find_first has_id s.rules)) [
      | inl missing ↦ rw (missing, set_rule_enabled) v
      | inr (r, found) ↦
          rw (found, set_rule_enabled)
            (with_rules-IsValid s (update_first has_id (with_enabled enabled) s.rules)
              (update_first-SameTargets has_id (with_enabled enabled) s.rules
                (with_enabled-SameTarget enabled))
              (All-update_first Rule.IsValid has_id (with_enabled enabled) s.rules
                (with_enabled-IsValid enabled) v.each)
              v)
    ]

abbrev disable_if : (AutoSignRule → Bool) → AutoSignRule → AutoSignRule
disable_if p r = if p r then with_enabled false r else r

disable_if-SameTarget : (p : AutoSignRule → Bool) (r : AutoSignRule) → SameTarget r (disable_if p r)
disable_if-SameTarget p r = ground arith

disable_if-All :
    (p : AutoSignRule → Bool) (rs : List AutoSignRule)
    → All Rule.IsValid rs
    → All Rule.IsValid (map (disable_if p) rs)
disable_if-All p [] h = tt
disable_if-All p (r ∷ rs) h = elim (Bool-cases (p r)) [
  | inl hit ↦ rw hit (with_enabled-IsValid false r h.0, disable_if-All p rs h.1)
  | inr miss ↦ rw miss (h.0, disable_if-All p rs h.1)
]

pub disable_key_rules-IsValid :
    (key : Bytes) (s : AutoSignStore) → IsValid s → IsValid (disable_key_rules key s).0
unfolding disable_key_rules
disable_key_rules-IsValid key s v =
    let p = λ (r : AutoSignRule). is_key key r && r.enabled in
    with_rules-IsValid s (map (disable_if p) s.rules)
      (map-SameTargets (disable_if p) s.rules (disable_if-SameTarget p))
      (disable_if-All p s.rules v.each) v

reserve_normal-IsValid :
    (key origin : Bytes) (kind now : ℕ) (s : AutoSignStore)
    → IsValid s
    → IsValid (reserve_normal key origin kind now s).0
reserve_normal-IsValid key origin kind now s v =
    let p = is_match key origin kind now in
    let f = λ (x : AutoSignRule). (charge now x).0 in
    elim (Option-cases (find_first p s.rules)) [
      | inl missing ↦ rw (reserve_normal_missing key origin kind now s missing) v
      | inr (r, found) ↦ rw (reserve_normal_found key origin kind now s r found) (
          with_rules-IsValid s (update_first p f s.rules)
            (update_first-SameTargets p f s.rules (charge-SameTarget now))
            (All-update_first Rule.IsValid p f s.rules (charge-IsValid now) v.each) v)
    ]

pub reserve_match-IsValid :
    (key origin : Bytes) (kind now : ℕ) (s : AutoSignStore)
    → IsValid s
    → IsValid (reserve_match key origin kind now s).0
unfolding reserve_match
reserve_match-IsValid key origin kind now s v = elim (Result-cases (normalize_origin origin)) [
  | inl (o, e) ↦ rw (e, reserve_match) (reserve_normal-IsValid key o kind now s v)
  | inr (x, e) ↦ rw (e, reserve_match) v
]

new_rule-IsValid :
    (id key origin : Bytes) (kind expires_at max_per_hour now : ℕ)
    → IsSiteOrigin origin
    → 1 ≤ max_per_hour
    → max_per_hour ≤ 1000
    → Rule.IsValid (new_rule id key origin kind expires_at max_per_hour now)
new_rule-IsValid id key origin kind expires_at max_per_hour now h low high = record {
  origin = h;
  cap_low = low;
  cap_high = high;
  used = omega arith;
}

add_new-IsValid :
    (id key origin : Bytes) (kind expires_at max_per_hour now : ℕ) (s : AutoSignStore)
    → IsSiteOrigin origin
    → length (keep_if (is_key key) s.rules) < max_rules_per_key
    → any_of (is_for key origin kind) s.rules ≡ false
    → 1 ≤ max_per_hour
    → max_per_hour ≤ 1000
    → IsValid s
    → IsValid (record s {
      rules = s.rules ++ new_rule id key origin kind expires_at max_per_hour now ∷ [];
    })
add_new-IsValid id key origin kind expires_at max_per_hour now s h room fresh low high v =
    let y = new_rule id key origin kind expires_at max_per_hour now in
    record {
      each =
          All-snoc Rule.IsValid s.rules y v.each
            (new_rule-IsValid id key origin kind expires_at max_per_hour now h low high);
      distinct = IsDistinct-snoc s.rules y v.distinct fresh;
      few = λ k.
          ground (arith, length-keep_if-snoc (is_key k) s.rules y, v.few k, eqb_iff key k, room);
      audit = v.audit;
    }

IsValid-if :
    {B : Type 0} (b : Bool) (x y : AutoSignStore × B)
    → (b ≡ true → IsValid x.0)
    → (b ≡ false → IsValid y.0)
    → IsValid (if b then x else y).0
IsValid-if true x y hx hy = hx refl
IsValid-if false x y hx hy = hy refl

add_normal-IsValid :
    (key origin : Bytes) (kind expires_at max_per_hour now : ℕ) (id : Bytes) (s : AutoSignStore)
    → IsSiteOrigin origin
    → IsValid s
    → IsValid (add_normal key origin kind expires_at max_per_hour now id s).0
unfolding add_normal
add_normal-IsValid key origin kind expires_at max_per_hour now id s h v =
    IsValid-if (leb max_rules_per_key (length (keep_if (is_key key) s.rules))) _ _ (λ _. v)
      λ room.
        IsValid-if (any_of (is_for key origin kind) s.rules) _ _ (λ _. v)
          λ fresh.
            IsValid-if ((max_per_hour == 0) || ltb 1000 max_per_hour) _ _ (λ _. v)
              λ capped.
                IsValid-if (not (expires_at == 0) && leb expires_at now) _ _ (λ _. v)
                  λ _.
                    add_new-IsValid id key origin kind expires_at max_per_hour now s h
                      (ground arith) fresh (ground arith) (ground arith) v

pub add_rule-IsValid :
    (key origin : Bytes) (kind expires_at max_per_hour now : ℕ) (id : Bytes) (s : AutoSignStore)
    → IsValid s
    → IsValid (add_rule key origin kind expires_at max_per_hour now id s).0
unfolding add_rule
add_rule-IsValid key origin kind expires_at max_per_hour now id s v =
    elim (Result-cases (normalize_origin origin)) [
      | inl (o, e) ↦
          rw (e, add_rule)
            (add_normal-IsValid key o kind expires_at max_per_hour now id s
              (normalize_origin-IsSiteOrigin origin o e) v)
      | inr (x, e) ↦ rw (e, add_rule) v
    ]

length-limit_audit : (xs : List AutoSignAuditEntry) → length (limit_audit xs) ≤ audit_limit
unfolding limit_audit
length-limit_audit xs = ground (arith, length-drop (length xs - audit_limit) xs)

pub record_signed-IsValid :
    (rule_id key origin : Bytes) (kind : ℕ) (event_id : Text) (now : ℕ) (s : AutoSignStore)
    → IsValid s
    → IsValid (record_signed rule_id key origin kind event_id now s)
unfolding record_signed
record_signed-IsValid rule_id key origin kind event_id now s v = record {
  each = v.each;
  distinct = v.distinct;
  few = v.few;
  audit = length-limit_audit _;
}
