-- ===== src/Autosign/Cap.antt =====
-- The hourly cap, for the store: what `reserve_match` grants over a row of requests.
use passport_nostr_signer.Prelude.{
  ℕ, ◌+◌, ◌*◌, ◌≤◌, ◌≡◌, refl, ◌∙◌, ap, subst, Bool, true, false, not, ◌&&◌, inl, inr, List, [],
  ◌∷◌, arith, Option, none, some, Bytes, if◌then◌else◌, find_first, update_first, any_of,
  find_first_both, find_first_both_none, find_first-update_first, any_of-none, Bool-cases,
  Option-cases, eqb_iff, is_some, All,
}
use passport_nostr_signer.Prelude.Result.{ok}
use passport_nostr_signer.Origin.{normalize_origin}
use passport_nostr_signer.Autosign.{
  AutoSignRule, AutoSignStore, charge, is_expired, is_for, is_match, reserve_normal, reserve_match,
  one_hour_secs,
}
use passport_nostr_signer.Autosign.Rule
use passport_nostr_signer.Autosign.Rule.{
  SameTarget, charge-SameTarget, charge-id, is_for-SameTarget,
}
use passport_nostr_signer.Autosign.Reserve.{reserve_normal_found, reserve_normal_missing}
use passport_nostr_signer.Autosign.Invariant.{
  IsValid, IsDistinct, update_first-SameTargets, IsDistinct-SameTargets,
}
use passport_nostr_signer.Autosign.Window.{
  try_rule, uses, one_if, Within, IsCounted, uses_in_hour, uses_inside,
}

is_some_if : (b : Bool) (x : Bytes) → is_some (if b then some x else none) ≡ b
is_some_if true x = refl
is_some_if false x = refl

is_for-eq :
    (key o : Bytes) (kind : ℕ) (x : AutoSignRule)
    → is_for key o kind x ≡ true
    → (x.key_uuid ≡ key) × (x.origin ≡ o) × (x.kind ≡ kind)
is_for-eq key o kind x h =
    (ground (arith, eqb_iff x.key_uuid key), ground (arith, eqb_iff x.origin o), ground arith)

abbrev is_live : ℕ → AutoSignRule → Bool
is_live now r = r.enabled && not (is_expired r now)

module _ (key o : Bytes) (kind now : ℕ) where
  is_match_parts :
      (r : AutoSignRule) → is_match key o kind now r ≡ (is_for key o kind r && is_live now r)
  unfolding is_match
  is_match_parts r = ground arith

  -- With distinct targets the first match is the rule with the target, if that is live.
  match_of_target :
      (rs : List AutoSignRule) (r : AutoSignRule)
      → IsDistinct rs
      → find_first (is_for key o kind) rs ≡ some r
      → find_first (is_match key o kind now) rs ≡ (if is_live now r then some r else none)
  match_of_target [] r d h = absurd (ground arith)
  match_of_target (x ∷ rs) r d h = elim (Bool-cases (is_for key o kind x)) [
    | inl here ↦
        let (k, og, kd) = is_for-eq key o kind x here in
        let others : any_of (is_for key o kind) rs ≡ false = cc (k, og, kd, d.0) in
        let found : x ≡ r = ground arith in
        find_first_both (is_for key o kind) (is_live now) (is_match key o kind now) is_match_parts x
          rs here others
        ∙ ap (λ (y : AutoSignRule). if is_live now y then some y else none) found
    | inr there ↦
        let miss : is_match key o kind now x ≡ false = ground (arith, is_match_parts x) in
        rw miss (match_of_target rs r d.1 (ground arith))
  ]

  -- One request, seen from the rule with its target.
  reserve_target :
      (s : AutoSignStore) (r : AutoSignRule)
      → IsDistinct s.rules
      → find_first (is_for key o kind) s.rules ≡ some r
      → let (s', id) = reserve_normal key o kind now s in
        IsDistinct s'.rules
        × (find_first (is_for key o kind) s'.rules ≡ some (try_rule now r).0)
        × (is_some id ≡ (try_rule now r).1)
  unfolding try_rule
  reserve_target s r d h = elim (Bool-cases (is_live now r)) [
    | inl live ↦
        let f = λ (x : AutoSignRule). (charge now x).0 in
        let found : find_first (is_match key o kind now) s.rules ≡ some r =
          match_of_target s.rules r d h ∙ (rw live) in
        rw (reserve_normal_found key o kind now s r found, live)
          (
            IsDistinct-SameTargets s.rules (update_first (is_match key o kind now) f s.rules)
                (update_first-SameTargets (is_match key o kind now) f s.rules
                  (charge-SameTarget now))
                d,
            find_first-update_first (is_for key o kind) (is_live now) (is_match key o kind now)
                is_match_parts f s.rules r
                (λ x. is_for-SameTarget key o kind x (f x) (charge-SameTarget now x)) h live,
            is_some_if (charge now r).1 (charge now r).0.id,
          )
    | inr dead ↦
        let missing : find_first (is_match key o kind now) s.rules ≡ none =
          match_of_target s.rules r d h ∙ (rw dead) in
        rw (reserve_normal_missing key o kind now s missing, dead) (d, h, refl)
  ]

  reserve_no_target :
      (s : AutoSignStore)
      → find_first (is_for key o kind) s.rules ≡ none
      → reserve_normal key o kind now s ≡ (s, none)
  reserve_no_target s h = reserve_normal_missing key o kind now s (
      find_first_both_none (is_for key o kind) (is_live now) (is_match key o kind now)
        is_match_parts s.rules (any_of-none (is_for key o kind) s.rules h))

-- How many of the requests at these times `reserve_match` grants, each on the store that the one
-- before it left.
unfoldable pub grants : Bytes → Bytes → ℕ → List ℕ → AutoSignStore → ℕ
grants key origin kind [] s = 0
grants key origin kind (t ∷ ts) s =
    let (s', id) = reserve_match key origin kind t s in
    one_if (is_some id) + grants key origin kind ts s'

module _ (key origin o : Bytes) (kind : ℕ) (normal : normalize_origin origin ≡ ok o) where
  reserve_match_normal :
      (now : ℕ) (s : AutoSignStore)
      → reserve_match key origin kind now s ≡ reserve_normal key o kind now s
  unfolding reserve_match
  reserve_match_normal now s = rw (normal, reserve_match)

  grants-eq-uses :
      (ts : List ℕ) (s : AutoSignStore) (r : AutoSignRule)
      → IsDistinct s.rules
      → find_first (is_for key o kind) s.rules ≡ some r
      → grants key origin kind ts s ≡ uses ts r
  unfolding grants uses
  grants-eq-uses [] s r d h = refl
  grants-eq-uses (t ∷ ts) s r d h =
      let (d', target, granted) = reserve_target key o kind t s r d h in
      let s' = (reserve_normal key o kind t s).0 in
      rw (reserve_match_normal t s, granted, grants-eq-uses ts s' (try_rule t r).0 d' target)

  grants_no_target :
      (ts : List ℕ) (s : AutoSignStore)
      → find_first (is_for key o kind) s.rules ≡ none
      → grants key origin kind ts s ≡ 0
  unfolding grants
  grants_no_target [] s h = refl
  grants_no_target (t ∷ ts) s h =
      rw (reserve_match_normal t s, reserve_no_target key o kind t s h)
        (ap (λ (n : ℕ). 0 + n) (grants_no_target ts s h))

find_first-IsCounted :
    (p : AutoSignRule → Bool) (rs : List AutoSignRule) (r : AutoSignRule)
    → All Rule.IsValid rs
    → find_first p rs ≡ some r
    → IsCounted r
find_first-IsCounted p [] r v h = absurd (ground arith)
find_first-IsCounted p (x ∷ rs) r v h = elim (Bool-cases (p x)) [
  | inl here ↦ let e : x ≡ r = ground arith in subst IsCounted e (v.0.cap_high, v.0.used)
  | inr there ↦ find_first-IsCounted p rs r v.1 (ground arith)
]

-- The cap that the owner has set for a key, an origin and a kind; 0 where there is no rule.
abbrev pub cap_of : Option AutoSignRule → ℕ
cap_of none = 0
cap_of (some r) = r.max_per_hour

-- Of a policy that meets its limits (as each one does that calls on an empty policy lead to), requests in
-- order within one hour, for one key, origin and kind, are granted at most twice the `max_per_hour` of
-- the rule for them, and none without such a rule. It is twice because the window is a fixed one, and
-- the hour may span two of them.
pub grants_in_hour :
    (key origin o : Bytes) (kind : ℕ) (ts : List ℕ) (s : AutoSignStore) (lo : ℕ)
    → normalize_origin origin ≡ ok o
    → IsValid s
    → Within lo (lo + one_hour_secs) ts
    → grants key origin kind ts s ≤ 2 * cap_of (find_first (is_for key o kind) s.rules)
grants_in_hour key origin o kind ts s lo normal v h =
    elim (Option-cases (find_first (is_for key o kind) s.rules)) [
      | inl missing ↦
          rw missing (omega (arith, grants_no_target key origin o kind normal ts s missing))
      | inr (r, found) ↦ rw found (
          omega (
            arith,
            grants-eq-uses key origin o kind normal ts s r v.distinct found,
            uses_in_hour ts r lo (lo + one_hour_secs)
                (find_first-IsCounted (is_for key o kind) s.rules r v.each found) (omega arith) h,
          ))
    ]

-- Requests within the rule's current window get at most what it has left of `max_per_hour`.
pub grants_in_window :
    (key origin o : Bytes) (kind : ℕ) (ts : List ℕ) (s : AutoSignStore) (r : AutoSignRule)
    → normalize_origin origin ≡ ok o
    → IsValid s
    → find_first (is_for key o kind) s.rules ≡ some r
    → Within r.window_started_at (r.window_started_at + one_hour_secs) ts
    → grants key origin kind ts s + r.used_in_window ≤ r.max_per_hour
grants_in_window key origin o kind ts s r normal v found h = omega (
  arith,
  grants-eq-uses key origin o kind normal ts s r v.distinct found,
  uses_inside ts r r.window_started_at (r.window_started_at + one_hour_secs)
      (find_first-IsCounted (is_for key o kind) s.rules r v.each found) (omega arith) (omega arith)
      h,
)
