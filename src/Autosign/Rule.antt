-- ===== src/Autosign/Rule.antt =====
-- One rule: what rolling its window and charging a use keep.
use passport_nostr_signer.Prelude.{
  ℕ, ◌+◌, ◌≤◌, ◌≡◌, subst, arith, Bytes, eqb, eqb_iff, if◌then◌else◌, ltb,
}
use passport_nostr_signer.Autosign.{AutoSignRule, charge, roll_window, is_for}
use passport_nostr_signer.Origin.Normal.{IsSiteOrigin}

-- The limits that `add_rule` sets on a rule, and its counter.
pub record IsValid (r : AutoSignRule) : Type 0 where
  pub origin : IsSiteOrigin r.origin
  pub cap_low : 1 ≤ r.max_per_hour
  pub cap_high : r.max_per_hour ≤ 1000
  pub used : r.used_in_window ≤ r.max_per_hour

-- Two rules are for the same key, origin and kind.
pub record SameTarget (r r' : AutoSignRule) : Type 0 where
  pub key : r.key_uuid ≡ r'.key_uuid
  pub origin : r.origin ≡ r'.origin
  pub kind : r.kind ≡ r'.kind

pub charge-SameTarget : (now : ℕ) (r : AutoSignRule) → SameTarget r (charge now r).0
unfolding charge roll_window
charge-SameTarget now r = ground arith

pub charge-id : (now : ℕ) (r : AutoSignRule) → (charge now r).0.id ≡ r.id
unfolding charge roll_window
charge-id now r = ground arith

pub charge-IsValid : (now : ℕ) (r : AutoSignRule) → IsValid r → IsValid (charge now r).0
unfolding charge roll_window
charge-IsValid now r v = record {
  origin = subst IsSiteOrigin (charge-SameTarget now r).origin v.origin;
  cap_low = ground arith;
  cap_high = ground arith;
  used = ground arith;
}

-- A use is granted exactly if the window, once rolled, has one left; it is then counted.
pub charge_lem :
    (now : ℕ) (r : AutoSignRule)
    → IsValid r
    → let (r', granted) = charge now r in
      let rolled = roll_window now r in
      (granted ≡ ltb rolled.used_in_window r.max_per_hour)
      × (r'.used_in_window ≡ rolled.used_in_window + (if granted then 1 else 0))
      × (r'.window_started_at ≡ rolled.window_started_at)
      × (r'.max_per_hour ≡ r.max_per_hour)
unfolding charge roll_window
charge_lem now r v = (ground arith, ground arith, ground arith, ground arith)

pub is_for-SameTarget :
    (key origin : Bytes) (kind : ℕ) (r r' : AutoSignRule)
    → SameTarget r r'
    → is_for key origin kind r ≡ is_for key origin kind r'
is_for-SameTarget key origin kind r r' h = cc (h.key, h.origin, h.kind)

eqb_comm : (xs ys : Bytes) → eqb xs ys ≡ eqb ys xs
eqb_comm xs ys = ground (arith, eqb_iff xs ys, eqb_iff ys xs)

-- Having the same target is symmetric, as a test.
pub is_for_comm :
    (r r' : AutoSignRule)
    → is_for r.key_uuid r.origin r.kind r' ≡ is_for r'.key_uuid r'.origin r'.kind r
is_for_comm r r' = ground (arith, eqb_comm r.key_uuid r'.key_uuid, eqb_comm r.origin r'.origin)
