-- ===== src/Transport/Serve.antt =====
-- src/transport.rs, `serve` of src/transport/websocket.rs and `run_transport` of src/main.rs: the listening
-- socket and the status line. A client's own task is `handle_client`.
use passport_nostr_signer.Prelude.{
  ℕ, ◌+◌, ◌≡◌, ◌≢◌, Bool, ◌&&◌, Option, none, some, List, [], ◌∷◌, ◌++◌, Text, text, eqb, eqb_iff,
  if◌then◌else◌, arith,
}
use passport_nostr_signer.Prelude.Result.{Result, ok, err}

-- The shared status, what each `set_status` has put there, the newest first; and the clients taken on.
pub record Server : Type 0 where
  pub history : List Text
  pub clients : ℕ

-- `status` at its first use.
abbrev pub starting : Server
starting = record { history = text "starting..." ∷ []; clients = 0 }

abbrev pub set_status : Text → Server → Server
set_status msg s = record s { history = msg ∷ s.history }

-- The `loop`: each accepted stream is a client, and an error of `accept` ends it. The list of outcomes is
-- what the listener gives; the loop goes on for as long as it does.
unfoldable pub accept_loop :
    List (Result (Unit {0}) Text) → Server → Server × Option (Result (Unit {0}) Text)
accept_loop [] s = (s, none)
accept_loop (err e ∷ rest) s = (s, some (err e))
accept_loop (ok _ ∷ rest) s = accept_loop rest (record s { clients = s.clients + 1 })

abbrev pub bound_at :
    Text
    → Result (Unit {0}) Text
    → List (Result (Unit {0}) Text)
    → Server
    → Server × Option (Result (Unit {0}) Text)
bound_at bind (err e) accepts s =
    (set_status (text "ws://" ++ bind ++ text " bind failed: " ++ e) s, some (err e))
bound_at bind (ok _) accepts s =
    accept_loop accepts (set_status (text "ws://" ++ bind ++ text " ready") s)

-- `serve` of the WebSocket: what it returns, if it does, and the server it leaves. `bound` is what the bind
-- gives.
unfoldable pub serve :
    Text
    → Result (Unit {0}) Text
    → List (Result (Unit {0}) Text)
    → Server
    → Server × Option (Result (Unit {0}) Text)
unfolding accept_loop
serve bind bound accepts s =
    bound_at bind bound accepts (set_status (text "ws://" ++ bind ++ text " binding…") s)

-- `serve` of the device build.
unfoldable pub serve_offline : Server → Server × Result (Unit {0}) Text
serve_offline s = (set_status (text "Offline: host link requires public QuantumLink") s, ok tt)

-- The banner on the screens, and what the timer last put there.
pub record Banner : Type 0 where
  pub server_status : Text
  pub last_shown : Text

-- `run_transport`: the error that `serve` returned goes to the banner, if the event loop still runs.
unfoldable pub run_transport : Bool → Option (Result (Unit {0}) Text) → Bool → Banner → Banner
run_transport built (some (err e)) scheduled b =
    if built && scheduled then record b { server_status = text "ws error: " ++ e } else b
run_transport built _ scheduled b = b

abbrev current : List Text → Text
current [] = []
current (msg ∷ _) = msg

-- A tick of the status timer.
unfoldable pub tick : Server → Banner → Banner
tick s b =
    if eqb (current s.history) b.last_shown
    then b
    else record { server_status = current s.history; last_shown = current s.history }

accept_loop_err :
    (accepts : List (Result (Unit {0}) Text)) (s : Server)
    → (accept_loop accepts s).1 ≢ some (ok tt)
unfolding accept_loop
accept_loop_err [] s h = cc h
accept_loop_err (err e ∷ rest) s h = cc h
accept_loop_err (ok _ ∷ rest) s h = accept_loop_err rest (record s { clients = s.clients + 1 }) h

-- The WebSocket server never returns Ok, and after a tick the banner's last text is the current status.
pub serve_lem :
    (bind : Text) (bound : Result (Unit {0}) Text) (accepts : List (Result (Unit {0}) Text))
    (s : Server) (b : Banner)
    → ((serve bind bound accepts s).1 ≢ some (ok tt)) × ((tick s b).last_shown ≡ current s.history)
unfolding serve tick
serve_lem bind (err e) accepts s b =
    ((λ h. cc h), ground (arith, eqb_iff (current s.history) b.last_shown))
serve_lem bind (ok _) accepts s b = (
  accept_loop_err accepts (
      set_status (text "ws://" ++ bind ++ text " ready")
        (set_status (text "ws://" ++ bind ++ text " binding…") s)),
  ground (arith, eqb_iff (current s.history) b.last_shown),
)
