-- ===== src/Tests/Approver.antt =====
-- One request that is approved, and one that is approved on the prompt of another.
use passport_nostr_signer.Prelude.{ℕ, ◌+◌, ◌≡◌, refl, true, some, [], ◌∷◌, false, leb, arith}
use passport_nostr_signer.Approval.{approve}
use passport_nostr_signer.Approver.{
  approval_timeout, Desk, Channel, empty, sent, parks, schedules, shows, taps, polls, start, Reach,
  here, next, decided, park, park_at, schedule, drop_at, drop_pending, show_next, show_at, tap,
  tap_at, poll, poll_at, poll_result, give_up, set_at,
}
use passport_nostr_signer.Approver.Await.{await_decision, IsDecided, await_decision-IsDecided}
use passport_nostr_signer.Approver.Taps.{IsTapped, approved-IsTapped}
use passport_nostr_signer.Approver.Tickets.{is_open, pending-IsTicket}

-- Request 0 is asked, shown, and approved.
abbrev asked : Desk
asked = schedule 0 true (park 0 (start 5))

abbrev shown : Desk
shown = show_next asked

abbrev answered : Desk
answered = poll 0 (5 + approval_timeout) (tap approve shown)

asked_reached : Reach 5 asked
unfolding park park_at schedule set_at
asked_reached = next (next here (parks 0 refl)) (schedules 0 true refl)

answered_reached : Reach 5 answered
unfolding park park_at schedule set_at show_next show_at tap tap_at poll poll_at poll_result
answered_reached =
    next (next (next asked_reached shows) (taps approve)) (polls 0 (5 + approval_timeout) refl)

answered_approved : answered.task 0 ≡ decided approve
unfolding park park_at schedule set_at show_next show_at tap tap_at poll poll_at poll_result
answered_approved = refl

approved-IsTapped_example : IsTapped 0 answered.taps
approved-IsTapped_example = approved-IsTapped 5 answered 0 answered_reached answered_approved

asked_pending : asked.pending ≡ some 0
unfolding park park_at schedule set_at
asked_pending = refl

pending-IsTicket_example : (is_open (asked.task 0) ≡ true) × (asked.channel 0 ≡ empty)
pending-IsTicket_example = pending-IsTicket 5 asked 0 asked_reached asked_pending

-- A tap on Approve at 30 ms.
abbrev mailbox : ℕ → Channel
mailbox t = elim (leb 30 t) [ true ↦ sent approve | false ↦ empty ]

-- Each sleep ends 3 ms late.
abbrev late : ℕ → ℕ
late t = 3

await_decision-IsDecided_example :
    IsDecided mailbox 123 0 120 (await_decision 121 late mailbox 120 0)
await_decision-IsDecided_example =
    await_decision-IsDecided 121 3 late mailbox 120 0 (λ t. omega arith) (omega arith) (omega arith)

-- Request 0 times out with its prompt on the screen; request 1 has been parked and its prompt is not shown
-- yet. A tap on Approve, on the prompt of request 0, goes to request 1.
abbrev timed_out : Desk
timed_out = give_up 0 (poll 0 (5 + approval_timeout) (record shown { now = 5 + approval_timeout }))

abbrev stale_tap : Desk
stale_tap = tap approve (park 1 timed_out)

stale_prompt : stale_tap.taps ≡ record { decision = approve; pending = some 1; shown = some 0 } ∷ []
unfolding park park_at schedule set_at show_next show_at tap tap_at poll poll_at poll_result give_up
    drop_pending drop_at
stale_prompt = refl
