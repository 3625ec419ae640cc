-- ===== src/Approver.antt =====
-- src/main.rs: `SlintApprover`, `ApprovalFuture` and the two buttons. Requests are numbered; the tasks that
-- await a decision, the UI thread with its event queue, and the clock take turns in any order.
pub mod Await
pub mod Tickets
pub mod Taps
use passport_nostr_signer.Prelude.{
  ℕ, ◌+◌, ◌*◌, ◌≡◌, Bool, true, false, Option, none, some, List, [], ◌∷◌, ◌++◌, leb, ◌==◌,
  if◌then◌else◌,
}
use passport_nostr_signer.Approval.{ApprovalDecision, approve, reject}

-- `APPROVAL_TIMEOUT`, in milliseconds.
abbrev pub approval_timeout : ℕ
approval_timeout = 5 * 60 * 1000

-- The `oneshot` channel of a request, as its receiver sees it.
pub data Channel : Type 0 where
  empty : Channel
  sent : ApprovalDecision → Channel
  disconnected : Channel

-- Where the task of a request stands in `SlintApprover::request`.
pub data Task : Type 0 where
  idle : Task
  parked : Task
  waiting : (deadline : ℕ) → Task
  rejected : Task
  decided : ApprovalDecision → Task

-- A tap on a button: what it says, the request it goes to, and the one whose prompt is on the screen.
pub record Tap : Type 0 where
  pub decision : ApprovalDecision
  pub pending : Option ℕ
  pub shown : Option ℕ

-- `pending` is the request whose sender is in `pending_tx`, `queue` the closures that the event loop has
-- yet to run, `shown` and `active` the prompt on the screen. `taps` is the history of the buttons.
pub record Desk : Type 0 where
  pub pending : Option ℕ
  pub channel : ℕ → Channel
  pub task : ℕ → Task
  pub queue : List ℕ
  pub shown : Option ℕ
  pub active : Bool
  pub now : ℕ
  pub taps : List Tap

unfoldable pub set_at : {A : Type 0} → ℕ → A → (ℕ → A) → ℕ → A
set_at i a f j = if j == i then a else f j

abbrev pub put_task : ℕ → Task → Desk → Desk
put_task i t s = record s { task = set_at i t s.task }

-- `*pending_tx = None`, which drops the sender in it, whosever it is.
unfoldable pub drop_at : Option ℕ → Desk → Desk
drop_at none s = s
drop_at (some j) s = record s { pending = none; channel = set_at j disconnected s.channel }

unfoldable pub drop_pending : Desk → Desk
drop_pending s = drop_at s.pending s

-- The lock at the start of `request`: the sender is parked, unless another one is.
unfoldable pub park_at : Option ℕ → ℕ → Desk → Desk
park_at (some j) i s = put_task i (decided reject) s
park_at none i s =
    put_task i parked (record s { pending = some i; channel = set_at i empty s.channel })

unfoldable pub park : ℕ → Desk → Desk
park i s = park_at s.pending i s

-- `invoke_from_event_loop` and `ApprovalFuture::new`; it fails once the event loop is gone.
unfoldable pub schedule : ℕ → Bool → Desk → Desk
unfolding drop_pending
schedule i scheduled s =
    if scheduled
    then put_task i (waiting (s.now + approval_timeout)) (record s { queue = s.queue ++ i ∷ [] })
    else put_task i (decided reject) (drop_pending s)

-- The closure that shows a prompt: `populate_approval`.
unfoldable pub show_at : List ℕ → Desk → Desk
show_at [] s = s
show_at (i ∷ rest) s = record s { queue = rest; shown = some i; active = true }

unfoldable pub show_next : Desk → Desk
show_next s = show_at s.queue s

-- `on_approve` and `on_reject`: take the sender, send, and clear the prompt.
unfoldable pub tap_at : Option ℕ → ApprovalDecision → Desk → Desk
tap_at none v s = record s { active = false }
tap_at (some j) v s = record s {
  active = false;
  pending = none;
  channel = set_at j (sent v) s.channel;
}

unfoldable pub tap : ApprovalDecision → Desk → Desk
tap v s = record (tap_at s.pending v s) {
  taps = record { decision = v; pending = s.pending; shown = s.shown } ∷ s.taps;
}

-- What one `poll` makes of the channel and the clock.
unfoldable pub poll_result : Channel → ℕ → ℕ → Option ApprovalDecision
poll_result (sent v) deadline now = some v
poll_result disconnected deadline now = some reject
poll_result empty deadline now = if leb deadline now then some reject else none

-- `ApprovalFuture::poll` of a task that waits.
unfoldable pub poll_at : Option ApprovalDecision → ℕ → Desk → Desk
poll_at none i s = s
poll_at (some approve) i s = put_task i (decided approve) s
poll_at (some reject) i s = put_task i rejected s

unfoldable pub poll : ℕ → ℕ → Desk → Desk
unfolding poll_result
poll i deadline s = poll_at (poll_result (s.channel i) deadline s.now) i s

-- `if decision == Reject { *pending_tx = None }`, and the return.
unfoldable pub give_up : ℕ → Desk → Desk
unfolding drop_pending
give_up i s = put_task i (decided reject) (drop_pending s)

pub data Step (s : Desk) : Desk → Type 0 where
  parks : (i : ℕ) → s.task i ≡ idle → Step s (park i s)
  schedules : (i : ℕ) (scheduled : Bool) → s.task i ≡ parked → Step s (schedule i scheduled s)
  shows : Step s (show_next s)
  taps : (v : ApprovalDecision) → Step s (tap v s)
  polls : (i deadline : ℕ) → s.task i ≡ waiting deadline → Step s (poll i deadline s)
  gives_up : (i : ℕ) → s.task i ≡ rejected → Step s (give_up i s)
  passes : (ms : ℕ) → Step s (record s { now = s.now + ms })

-- The start: nothing asked, nothing shown.
abbrev pub start : ℕ → Desk
start now = record {
  pending = none;
  channel = λ i. empty;
  task = λ i. idle;
  queue = [];
  shown = none;
  active = false;
  now = now;
  taps = [];
}

pub data Reach (t0 : ℕ) : Desk → Type 0 where
  here : Reach t0 (start t0)
  next : {s u : Desk} → Reach t0 s → Step s u → Reach t0 u
