-- ===== src/Approver/Tickets.antt =====
-- The request that a tap goes to has not been answered yet.
use passport_nostr_signer.Prelude.{
  ℕ, ◌≡◌, refl, Bool, true, false, Option, none, some, List, [], ◌∷◌, arith, ==_iff,
}
use passport_nostr_signer.Approval.{ApprovalDecision, approve, reject}
use passport_nostr_signer.Approver.Await.{poll_sent}
use passport_nostr_signer.Approver.{
  empty, sent, Task, idle, parked, waiting, rejected, decided, Desk, set_at, drop_at, drop_pending,
  park_at, show_at, tap_at, poll_at, park, schedule, show_next, tap, poll_result, poll, give_up,
  Step, parks, schedules, shows, taps, polls, gives_up, passes, Reach, here, next,
}

-- A task that has begun and has not returned.
unfoldable pub is_open : Task → Bool
is_open idle = false
is_open parked = true
is_open (waiting d) = true
is_open rejected = true
is_open (decided v) = false

abbrev pub IsTicket : Desk → Type 0
IsTicket s = (i : ℕ) → s.pending ≡ some i → (is_open (s.task i) ≡ true) × (s.channel i ≡ empty)

drop_at-none : (o : Option ℕ) (s : Desk) → s.pending ≡ o → (drop_at o s).pending ≡ none
unfolding drop_at
drop_at-none none s e = e
drop_at-none (some j) s e = refl

drop_pending-none : (s : Desk) → (drop_pending s).pending ≡ none
unfolding drop_pending
drop_pending-none s = drop_at-none s.pending s refl

park_at-IsTicket :
    (o : Option ℕ) (i : ℕ) (s : Desk)
    → s.pending ≡ o
    → s.task i ≡ idle
    → IsTicket s
    → IsTicket (park_at o i s)
unfolding park_at set_at is_open
park_at-IsTicket none i s e fresh h j p = ground arith
park_at-IsTicket (some k) i s e fresh h j p = ground (arith, h j p, fresh, ==_iff j i)

show_at-IsTicket : (q : List ℕ) (s : Desk) → IsTicket s → IsTicket (show_at q s)
unfolding show_at
show_at-IsTicket [] s h = h
show_at-IsTicket (i ∷ rest) s h = h

tap_at-IsTicket :
    (o : Option ℕ) (v : ApprovalDecision) (s : Desk) → s.pending ≡ o → IsTicket (tap_at o v s)
unfolding tap_at
tap_at-IsTicket none v s e j p = absurd (cc (e, p))
tap_at-IsTicket (some k) v s e j p = absurd (cc p)

poll_at-IsTicket :
    (o : Option ApprovalDecision) (i : ℕ) (s : Desk)
    → (o ≡ some approve → s.channel i ≡ sent approve)
    → IsTicket s
    → IsTicket (poll_at o i s)
unfolding poll_at set_at is_open
poll_at-IsTicket none i s came h j p = h j p
poll_at-IsTicket (some approve) i s came h j p =
    let sent_it = came refl in ground (arith, h j p, sent_it, ==_iff j i)
poll_at-IsTicket (some reject) i s came h j p = ground (arith, h j p, ==_iff j i)

Step-IsTicket : {s u : Desk} → Step s u → IsTicket s → IsTicket u
unfolding schedule set_at is_open give_up
Step-IsTicket {s} (parks i e) h = unfold park in park_at-IsTicket s.pending i s refl e h
Step-IsTicket {s} (schedules i true e) h = λ j p. ground (arith, h j p, ==_iff j i)
Step-IsTicket {s} (schedules i false e) h = λ j p. absurd (cc (drop_pending-none s, p))
Step-IsTicket {s} shows h = unfold show_next in show_at-IsTicket s.queue s h
Step-IsTicket {s} (taps v) h = unfold tap in tap_at-IsTicket s.pending v s refl
Step-IsTicket {s} (polls i deadline e) h =
    unfold poll in
    poll_at-IsTicket (poll_result (s.channel i) deadline s.now) i s
      (poll_sent (s.channel i) deadline s.now) h
Step-IsTicket {s} (gives_up i e) h = λ j p. absurd (cc (drop_pending-none s, p))
Step-IsTicket {s} (passes ms) h = h

-- In every order of steps: the request that a tap would go to has begun, has not been answered, and
-- nothing has been sent to it.
pub pending-IsTicket :
    (t0 : ℕ) (s : Desk) (i : ℕ)
    → Reach t0 s
    → s.pending ≡ some i
    → (is_open (s.task i) ≡ true) × (s.channel i ≡ empty)
pending-IsTicket t0 s i r = go r i
  where
    go : {s : Desk} → Reach t0 s → IsTicket s
    go here = λ j p. absurd (cc p)
    go (next r st) = Step-IsTicket st (go r)
