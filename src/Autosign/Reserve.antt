-- ===== src/Autosign/Reserve.antt =====
-- `reserve_match`: what a grant needs.
use passport_nostr_signer.Prelude.{
  ℕ, ◌<◌, ◌≡◌, refl, sym, ◌∙◌, ap, Bool, true, false, ◌⊎◌, inl, inr, Option, none, some, arith,
  Bytes, find_first, update_first, find_first-some, Elem, eqb_iff, if◌then◌else◌, Option-cases,
  update_first-const,
}
use passport_nostr_signer.Prelude.Result.{ok, Result-cases}
use passport_nostr_signer.Origin.{normalize_origin}
use passport_nostr_signer.Autosign.{
  AutoSignRule, AutoSignStore, is_expired, is_match, charge, roll_window, reserve_normal,
  reserve_match,
}
use passport_nostr_signer.Autosign.Rule.{charge-id}

-- The writes of `reserve_match`, with the rule found again through the search.
pub reserve_normal_found :
    (key origin : Bytes) (kind now : ℕ) (s : AutoSignStore) (r : AutoSignRule)
    → find_first (is_match key origin kind now) s.rules ≡ some r
    → reserve_normal key origin kind now s ≡ (
      record s {
        rules = update_first (is_match key origin kind now) (λ x. (charge now x).0) s.rules;
      },
      if (charge now r).1 then some (charge now r).0.id else none,
    )
unfolding reserve_normal
reserve_normal_found key origin kind now s r found = rw (
  found,
  reserve_normal,
  update_first-const (is_match key origin kind now) (λ x. (charge now x).0) s.rules r found,
)

pub reserve_normal_missing :
    (key origin : Bytes) (kind now : ℕ) (s : AutoSignStore)
    → find_first (is_match key origin kind now) s.rules ≡ none
    → reserve_normal key origin kind now s ≡ (s, none)
unfolding reserve_normal
reserve_normal_missing key origin kind now s missing = rw (missing, reserve_normal)

-- What the owner has set up for a request that is signed without a tap: a rule of the store that is
-- switched on, for exactly this key, this origin once normalised and this kind, that has not
-- expired, and that has a use left in its window.
pub record IsAuthorised (key origin : Bytes) (kind now : ℕ) (s : AutoSignStore) (id : Bytes)
    : Type 0 where
  pub rule : AutoSignRule
  pub stored : Elem rule s.rules
  pub named : rule.id ≡ id
  pub switched_on : rule.enabled ≡ true
  pub same_key : rule.key_uuid ≡ key
  pub same_origin : normalize_origin origin ≡ ok rule.origin
  pub same_kind : rule.kind ≡ kind
  pub not_expired : (rule.expires_at ≡ 0) ⊎ (now < rule.expires_at)
  pub has_room : (roll_window now rule).used_in_window < rule.max_per_hour

charge_room :
    (now : ℕ) (r : AutoSignRule)
    → (charge now r).1 ≡ true
    → (roll_window now r).used_in_window < r.max_per_hour
unfolding charge roll_window
charge_room now r h = ground arith

grant_charges :
    (b : Bool) (x id : Bytes) → (if b then some x else none) ≡ some id → (b ≡ true) × (x ≡ id)
grant_charges true x id h = (refl, ground arith)
grant_charges false x id h = absurd (ground arith)

is_match_facts :
    (key origin : Bytes) (kind now : ℕ) (r : AutoSignRule)
    → is_match key origin kind now r ≡ true
    → (r.enabled ≡ true)
      × (r.key_uuid ≡ key)
      × (r.origin ≡ origin)
      × (r.kind ≡ kind)
      × ((r.expires_at ≡ 0) ⊎ (now < r.expires_at))
unfolding is_match is_expired
is_match_facts key origin kind now r h = (
  ground arith,
  ground (arith, eqb_iff r.key_uuid key),
  ground (arith, eqb_iff r.origin origin),
  ground arith,
  ground arith,
)

-- The rule that the search found, if it grants a use.
pub found_authorises :
    (key origin o : Bytes) (kind now : ℕ) (s : AutoSignStore) (id : Bytes) (r : AutoSignRule)
    → normalize_origin origin ≡ ok o
    → find_first (is_match key o kind now) s.rules ≡ some r
    → (reserve_normal key o kind now s).1 ≡ some id
    → (a : IsAuthorised key origin kind now s id) × (a.rule ≡ r) × ((charge now r).1 ≡ true)
found_authorises key origin o kind now s id r e found h =
    let shape =
      ap (λ (p : AutoSignStore × Option Bytes). p.1)
        (reserve_normal_found key o kind now s r found) in
    let (granted, named) = grant_charges (charge now r).1 (charge now r).0.id id (sym shape ∙ h) in
    let (passes, stored) = find_first-some (is_match key o kind now) s.rules r found in
    let (on, k, og, kd, live) = is_match_facts key o kind now r passes in
    (
      record {
        rule = r;
        stored = stored;
        named = sym (charge-id now r) ∙ named;
        switched_on = on;
        same_key = k;
        same_origin = e ∙ ap ok (sym og);
        same_kind = kd;
        not_expired = live;
        has_room = charge_room now r granted;
      },
      refl,
      granted,
    )

reserve_normal_granted :
    (key origin o : Bytes) (kind now : ℕ) (s : AutoSignStore) (id : Bytes)
    → normalize_origin origin ≡ ok o
    → (reserve_normal key o kind now s).1 ≡ some id
    → IsAuthorised key origin kind now s id
reserve_normal_granted key origin o kind now s id e h =
    elim (Option-cases (find_first (is_match key o kind now) s.rules)) [
      | inl missing ↦ absurd (
          cc (
            ap (λ (p : AutoSignStore × Option Bytes). p.1)
              (reserve_normal_missing key o kind now s missing)))
      | inr (r, found) ↦ (found_authorises key origin o kind now s id r e found h).0
    ]

-- A request is granted by a rule that authorises it.
pub reserve_match-IsAuthorised :
    (key origin : Bytes) (kind now : ℕ) (s : AutoSignStore) (id : Bytes)
    → (reserve_match key origin kind now s).1 ≡ some id
    → IsAuthorised key origin kind now s id
unfolding reserve_match
reserve_match-IsAuthorised key origin kind now s id h =
    elim (Result-cases (normalize_origin origin)) [
      | inl (o, e) ↦
          reserve_normal_granted key origin o kind now s id e (rw (e, reserve_match) at h)
      | inr (x, e) ↦ absurd (cc (rw (e, reserve_match) at h))
    ]
