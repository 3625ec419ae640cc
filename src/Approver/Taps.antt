-- ===== src/Approver/Taps.antt =====
-- An approval comes from a tap.
use passport_nostr_signer.Prelude.{
  ℕ, ◌≡◌, refl, sym, subst, Bool, true, false, ◌⊎◌, inl, inr, Option, none, some, List, [], ◌∷◌,
  ◌++◌, ◌==◌, ==_iff, Bool-cases,
}
use passport_nostr_signer.Approval.{ApprovalDecision, approve, reject}
use passport_nostr_signer.Approver.Await.{poll_sent}
use passport_nostr_signer.Approver.{
  empty, sent, disconnected, Task, parked, waiting, rejected, decided, Tap, Desk, set_at, put_task,
  drop_at, drop_pending, park_at, show_at, tap_at, poll_at, park, schedule, show_next, tap,
  poll_result, poll, give_up, Step, parks, schedules, shows, taps, polls, gives_up, passes, Reach,
  here, next,
}

-- Approve was tapped while this request was the pending one.
abbrev pub IsTapped : ℕ → List Tap → Type 0
IsTapped i [] = ⊥
IsTapped i (t ∷ ts) = ((t.decision ≡ approve) × (t.pending ≡ some i)) ⊎ IsTapped i ts

record IsHonest (s : Desk) : Type 0 where
  on_channel : (i : ℕ) → s.channel i ≡ sent approve → IsTapped i s.taps
  on_task : (i : ℕ) → s.task i ≡ decided approve → IsTapped i s.taps

-- A change at one place that puts no approval there.
set_at_keeps :
    {A : Type 0} (P : ℕ → Type 0) (i : ℕ) (a bad : A) (f : ℕ → A)
    → (a ≡ bad → P i)
    → ((j : ℕ) → f j ≡ bad → P j)
    → (j : ℕ) → set_at i a f j ≡ bad
    → P j
unfolding set_at
set_at_keeps P i a bad f ne h j e = elim (Bool-cases (j == i)) [
  | inl same ↦
      let at : j ≡ i = (==_iff j i).0 same in
      let e' : a ≡ bad = rw same at e in subst P (sym at) (ne e')
  | inr other ↦ h j (rw other at e)
]

drop_at-IsHonest : (o : Option ℕ) (s : Desk) → IsHonest s → IsHonest (drop_at o s)
unfolding drop_at
drop_at-IsHonest none s h = h
drop_at-IsHonest (some j) s h = record {
  on_channel =
      set_at_keeps (λ i. IsTapped i s.taps) j disconnected (sent approve) s.channel
        (λ x. absurd (cc x)) h.on_channel;
  on_task = h.on_task;
}

drop_pending-IsHonest : (s : Desk) → IsHonest s → IsHonest (drop_pending s)
unfolding drop_pending
drop_pending-IsHonest s h = drop_at-IsHonest s.pending s h

put_task-IsHonest :
    (i : ℕ) (t : Task) (s : Desk)
    → (t ≡ decided approve → IsTapped i s.taps)
    → IsHonest s
    → IsHonest (put_task i t s)
put_task-IsHonest i t s ne h = record {
  on_channel = h.on_channel;
  on_task = set_at_keeps (λ i. IsTapped i s.taps) i t (decided approve) s.task ne h.on_task;
}

park_at-IsHonest : (o : Option ℕ) (i : ℕ) (s : Desk) → IsHonest s → IsHonest (park_at o i s)
unfolding park_at
park_at-IsHonest none i s h =
    put_task-IsHonest i parked (record s { pending = some i; channel = set_at i empty s.channel })
      (λ x. absurd (cc x))
      (record {
        on_channel =
            set_at_keeps (λ i. IsTapped i s.taps) i empty (sent approve) s.channel
              (λ x. absurd (cc x)) h.on_channel;
        on_task = h.on_task;
      })
park_at-IsHonest (some j) i s h = put_task-IsHonest i (decided reject) s (λ x. absurd (cc x)) h

schedule-IsHonest : (i : ℕ) (b : Bool) (s : Desk) → IsHonest s → IsHonest (schedule i b s)
unfolding schedule
schedule-IsHonest i true s h =
    put_task-IsHonest i (waiting _) (record s { queue = s.queue ++ i ∷ [] }) (λ x. absurd (cc x))
      (record { on_channel = h.on_channel; on_task = h.on_task })
schedule-IsHonest i false s h =
    put_task-IsHonest i (decided reject) (drop_pending s) (λ x. absurd (cc x))
      (drop_pending-IsHonest s h)

show_at-IsHonest : (q : List ℕ) (s : Desk) → IsHonest s → IsHonest (show_at q s)
unfolding show_at
show_at-IsHonest [] s h = h
show_at-IsHonest (i ∷ rest) s h = record { on_channel = h.on_channel; on_task = h.on_task }

tap_at-IsHonest :
    (o : Option ℕ) (v : ApprovalDecision) (s : Desk)
    → IsHonest s
    → IsHonest (record (tap_at o v s) {
      taps = record { decision = v; pending = o; shown = s.shown } ∷ s.taps;
    })
unfolding tap_at
tap_at-IsHonest none v s h = record {
  on_channel = λ i x. inr (h.on_channel i x);
  on_task = λ i x. inr (h.on_task i x);
}
tap_at-IsHonest (some j) v s h = record {
  on_channel =
      set_at_keeps
        (λ i. IsTapped i (record { decision = v; pending = some j; shown = s.shown } ∷ s.taps)) j
        (sent v) (sent approve) s.channel (λ x. inl (cc x, refl)) (λ i x. inr (h.on_channel i x));
  on_task = λ i x. inr (h.on_task i x);
}

poll_at-IsHonest :
    (o : Option ApprovalDecision) (i : ℕ) (s : Desk)
    → (o ≡ some approve → s.channel i ≡ sent approve)
    → IsHonest s
    → IsHonest (poll_at o i s)
unfolding poll_at
poll_at-IsHonest none i s came h = h
poll_at-IsHonest (some approve) i s came h =
    put_task-IsHonest i (decided approve) s (λ x. h.on_channel i (came refl)) h
poll_at-IsHonest (some reject) i s came h = put_task-IsHonest i rejected s (λ x. absurd (cc x)) h

Step-IsHonest : {s u : Desk} → Step s u → IsHonest s → IsHonest u
Step-IsHonest {s} (parks i e) h = unfold park in park_at-IsHonest s.pending i s h
Step-IsHonest {s} (schedules i b e) h = schedule-IsHonest i b s h
Step-IsHonest {s} shows h = unfold show_next in show_at-IsHonest s.queue s h
Step-IsHonest {s} (taps v) h = unfold tap in tap_at-IsHonest s.pending v s h
Step-IsHonest {s} (polls i deadline e) h =
    unfold poll in
    poll_at-IsHonest (poll_result (s.channel i) deadline s.now) i s
      (poll_sent (s.channel i) deadline s.now) h
Step-IsHonest {s} (gives_up i e) h =
    unfold give_up in
    put_task-IsHonest i (decided reject) (drop_pending s) (λ x. absurd (cc x))
      (drop_pending-IsHonest s h)
Step-IsHonest {s} (passes ms) h = record { on_channel = h.on_channel; on_task = h.on_task }

Reach-IsHonest : {t0 : ℕ} {s : Desk} → Reach t0 s → IsHonest s
Reach-IsHonest here = record { on_channel = λ i x. absurd (cc x); on_task = λ i x. absurd (cc x) }
Reach-IsHonest (next r st) = Step-IsHonest st (Reach-IsHonest r)

-- In every order of the tasks, the event loop, the buttons and the clock: a request that is approved was
-- the pending one at some tap on Approve.
pub approved-IsTapped :
    (t0 : ℕ) (s : Desk) (i : ℕ) → Reach t0 s → s.task i ≡ decided approve → IsTapped i s.taps
approved-IsTapped t0 s i r h = (Reach-IsHonest r).on_task i h
