-- ===== src/Autosign/Window.antt =====
-- The uses of one rule over a row of requests.
use passport_nostr_signer.Prelude.{
  ℕ, ◌+◌, ◌*◌, ◌≤◌, ◌<◌, ◌≡◌, Bool, false, not, ◌&&◌, ◌⊎◌, inl, inr, List, [], ◌∷◌, arith,
  if◌then◌else◌,
}
use passport_nostr_signer.Autosign.{AutoSignRule, charge, roll_window, is_expired, one_hour_secs}

-- A request for the rule's key, origin and kind.
unfoldable pub try_rule : ℕ → AutoSignRule → AutoSignRule × Bool
try_rule now r = if r.enabled && not (is_expired r now) then charge now r else (r, false)

abbrev pub one_if : Bool → ℕ
one_if b = if b then 1 else 0

-- How many of the requests at these times are granted.
unfoldable pub uses : List ℕ → AutoSignRule → ℕ
uses [] r = 0
uses (t ∷ ts) r = let (r', granted) = try_rule t r in one_if granted + uses ts r'

-- Times in order, from `lo` on and before `hi`.
abbrev pub Within : ℕ → ℕ → List ℕ → Type 0
Within lo hi [] = Unit
Within lo hi (t ∷ ts) = (lo ≤ t) × (t < hi) × Within t hi ts

abbrev pub IsCounted : AutoSignRule → Type 0
IsCounted r = (r.max_per_hour ≤ 1000) × (r.used_in_window ≤ r.max_per_hour)

module _ (t : ℕ) (r : AutoSignRule) (v : IsCounted r) where
  try_rule-IsCounted : IsCounted (try_rule t r).0 × ((try_rule t r).0.max_per_hour ≡ r.max_per_hour)
  unfolding try_rule charge roll_window
  try_rule-IsCounted = ground arith

  -- Inside the window a use is added to those before.
  try_rule_inside :
      r.window_started_at ≤ t
      → t < r.window_started_at + one_hour_secs
      → let (r', granted) = try_rule t r in
        (r'.window_started_at ≡ r.window_started_at)
        × (r'.used_in_window ≡ r.used_in_window + one_if granted)
  unfolding try_rule charge roll_window
  try_rule_inside lo hi = ground arith

  -- Elsewhere a new window may start.
  try_rule_any :
      let (r', granted) = try_rule t r in
      ((r'.window_started_at ≡ r.window_started_at)
        × (r'.used_in_window ≡ r.used_in_window + one_if granted))
      ⊎ ((r'.window_started_at ≡ t) × (r'.used_in_window ≡ one_if granted))
  unfolding try_rule charge roll_window
  try_rule_any = ground arith

-- Requests that stay inside the rule's window get what it has left, and no more.
pub uses_inside :
    (ts : List ℕ) (r : AutoSignRule) (lo hi : ℕ)
    → IsCounted r
    → r.window_started_at ≤ lo
    → hi ≤ r.window_started_at + one_hour_secs
    → Within lo hi ts
    → uses ts r + r.used_in_window ≤ r.max_per_hour
unfolding uses
uses_inside [] r lo hi v a b h = omega arith
uses_inside (t ∷ ts) r lo hi v a b h =
    let (v', same) = try_rule-IsCounted t r v in
    let (w, used) = try_rule_inside t r v (omega arith) (omega arith) in
    omega (arith, uses_inside ts (try_rule t r).0 t hi v' (omega arith) (omega arith) h.2)

-- Requests in order within one hour start a new window at most once.
pub uses_in_hour :
    (ts : List ℕ) (r : AutoSignRule) (lo hi : ℕ)
    → IsCounted r
    → hi ≤ lo + one_hour_secs
    → Within lo hi ts
    → uses ts r + r.used_in_window ≤ 2 * r.max_per_hour
unfolding uses
uses_in_hour [] r lo hi v b h = omega arith
uses_in_hour (t ∷ ts) r lo hi v b h =
    let (v', same) = try_rule-IsCounted t r v in
    elim (try_rule_any t r v) [
      | inl (w, used) ↦ omega (arith, uses_in_hour ts (try_rule t r).0 t hi v' (omega arith) h.2)
      | inr (w, used) ↦
          omega (arith, uses_inside ts (try_rule t r).0 t hi v' (omega arith) (omega arith) h.2)
    ]
