-- ===== src/Approver/Await.antt =====
-- `ApprovalFuture` awaited: it is polled, sleeps at least for what is left or for 50 ms, whichever is less,
-- and is polled again.
use passport_nostr_signer.Prelude.{
  ℕ, zero, suc, ◌+◌, ◌-◌, ◌≤◌, ◌<◌, ◌≡◌, refl, ap, min, ◌⊎◌, inl, inr, Option, none, some, arith,
  Option-cases,
}
use passport_nostr_signer.Approval.{ApprovalDecision, approve, reject}
use passport_nostr_signer.Approver.{Channel, empty, sent, disconnected, poll_result}

abbrev pub poll_interval : ℕ
poll_interval = 50

-- `mailbox t` is what the channel is at time t, and `late t` how much later than asked for a sleep begun
-- at t has ended and the next poll comes. The result is the decision and when it came.
unfoldable pub await_decision : ℕ → (ℕ → ℕ) → (ℕ → Channel) → ℕ → ℕ → Option (ℕ × ApprovalDecision)
await_decision zero late mailbox deadline now = none
await_decision (suc fuel) late mailbox deadline now =
    let later =
      await_decision fuel late mailbox deadline
        (now + min (deadline - now) poll_interval + late now) in
    elim (poll_result (mailbox now) deadline now) [ some v ↦ some (now, v) | none ↦ later ]

poll_none : (c : Channel) (deadline now : ℕ) → poll_result c deadline now ≡ none → now < deadline
unfolding poll_result
poll_none empty deadline now h = ground arith
poll_none (sent v) deadline now h = absurd (cc h)
poll_none disconnected deadline now h = absurd (cc h)

pub poll_sent :
    (c : Channel) (deadline now : ℕ) → poll_result c deadline now ≡ some approve → c ≡ sent approve
unfolding poll_result
poll_sent empty deadline now h = absurd (ground arith)
poll_sent (sent v) deadline now h = ap sent (cc h)
poll_sent disconnected deadline now h = absurd (cc h)

poll_reject :
    (c : Channel) (deadline now : ℕ)
    → poll_result c deadline now ≡ some reject
    → (c ≡ sent reject) ⊎ (c ≡ disconnected) ⊎ ((c ≡ empty) × (deadline ≤ now))
unfolding poll_result
poll_reject empty deadline now h = inr (inr (refl, ground arith))
poll_reject (sent v) deadline now h = inl (ap sent (cc h))
poll_reject disconnected deadline now h = inr (inl refl)

-- What came of an await: an approval was sent, and a rejection was sent, or its sender was dropped, or it
-- was for want of an answer by the deadline.
pub record IsDecided (mailbox : ℕ → Channel) (latest now deadline : ℕ)
    (r : Option (ℕ × ApprovalDecision)) : Type 0 where
  pub time : ℕ
  pub decision : ApprovalDecision
  pub result : r ≡ some (time, decision)
  pub no_earlier : now ≤ time
  pub in_time : time ≤ latest
  pub approved : decision ≡ approve → mailbox time ≡ sent approve
  pub rejected :
      decision ≡ reject
      → (mailbox time ≡ sent reject)
        ⊎ (mailbox time ≡ disconnected)
        ⊎ ((mailbox time ≡ empty) × (deadline ≤ time))

module _ (late : ℕ → ℕ) (slack : ℕ) (mailbox : ℕ → Channel) (deadline : ℕ)
    (prompt : (t : ℕ) → late t ≤ slack) where
  awaits :
      (fuel now : ℕ)
      → now ≤ deadline + slack
      → deadline - now < fuel
      → IsDecided mailbox
          (deadline + slack)
          now
          deadline
          (await_decision fuel late mailbox deadline now)
  unfolding await_decision
  awaits zero now due enough = absurd (omega arith)
  awaits (suc fuel) now due enough = elim (Option-cases (poll_result (mailbox now) deadline now)) [
    | inl waits ↦
        let left = poll_none (mailbox now) deadline now waits in
        let delay = prompt now in
        let t = now + min (deadline - now) poll_interval + late now in
        let rest = awaits fuel t (omega arith) (omega arith) in
        rw (waits, await_decision)
          (record {
            time = rest.time;
            decision = rest.decision;
            result = rest.result;
            no_earlier = omega (arith, rest.no_earlier);
            in_time = rest.in_time;
            approved = rest.approved;
            rejected = rest.rejected;
          })
    | inr (v, ready) ↦
        rw (ready, await_decision)
          (record {
            time = now;
            decision = v;
            result = refl;
            no_earlier = omega arith;
            in_time = due;
            approved = λ a. poll_sent (mailbox now) deadline now (rw a at ready);
            rejected = λ a. poll_reject (mailbox now) deadline now (rw a at ready);
          })
  ]

-- With as many polls as there are milliseconds left, and one more, an await that starts by its deadline
-- returns a decision, no later after the deadline than a sleep ends late; an approval was sent, and a
-- rejection was sent, or the sender was dropped, or nothing had been sent by the deadline.
pub await_decision-IsDecided :
    (fuel slack : ℕ) (late : ℕ → ℕ) (mailbox : ℕ → Channel) (deadline now : ℕ)
    → ((t : ℕ) → late t ≤ slack)
    → now ≤ deadline
    → deadline - now < fuel
    → IsDecided mailbox
        (deadline + slack)
        now
        deadline
        (await_decision fuel late mailbox deadline now)
await_decision-IsDecided fuel slack late mailbox deadline now prompt due enough =
    awaits late slack mailbox deadline prompt fuel now (omega arith) enough
