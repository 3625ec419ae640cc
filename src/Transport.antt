-- ===== src/Transport.antt =====
-- src/transport/websocket.rs: one client of the WebSocket. A text message is a request, and the next one is
-- read when it has been answered; other clients and the screens may change the device meanwhile.
pub mod Replies
pub mod Sessions
pub mod Serve
use passport_nostr_signer.Prelude.{
  ℕ, Bool, true, false, Option, none, some, List, [], ◌∷◌, ◌++◌, Bytes, Text, text,
}
use passport_nostr_signer.Prelude.Result.{Result, ok, err}
use passport_nostr_signer.Approval.{ApprovalDecision}
use passport_nostr_signer.Message
use passport_nostr_signer.Message.{Method, Request, Response, invalid_request, err_response}
use passport_nostr_signer.Engine
use passport_nostr_signer.Engine.{Config, Device}
use passport_nostr_signer.Engine.Requests.{World, Progress, done, ask, handle, finish}

-- `tungstenite::Message`; `control` is a ping, a pong or a raw frame.
pub data Frame : Type 0 where
  text_frame : Text → Frame
  binary : Frame
  close : Frame
  control : Frame

-- `serde_json`: a request, the `id` string of any JSON object, and the text of a response.
pub record Lib : Type 0 where
  pub parse : Text → Result Request Text
  pub id_of : Text → Option Text
  pub print : Response → Result Text Text

-- What happens around one message: the engine's inputs, the decision if it asks for one, what others do
-- to the device before the message and during the wait, and whether the reply can be sent.
pub record Turn : Type 0 where
  pub world : World
  pub decision : ApprovalDecision
  pub before : Device → Device
  pub meanwhile : Device → Device
  pub sent : Bool

unfoldable pub method_name : Method → Text
method_name Message.ping = text "ping"
method_name Message.list_keys = text "list_keys"
method_name (Message.select_key _) = text "select_key"
method_name Message.get_public_key = text "get_public_key"
method_name (Message.sign_event _) = text "sign_event"
method_name (Message.nip04_encrypt _) = text "nip04_encrypt"
method_name (Message.nip04_decrypt _) = text "nip04_decrypt"
method_name (Message.nip44_encrypt _) = text "nip44_encrypt"
method_name (Message.nip44_decrypt _) = text "nip44_decrypt"

abbrev pub id_or_0 : Option Text → Text
id_or_0 (some id) = id
id_or_0 none = text "0"

unfoldable pub binary_refused : Response
binary_refused =
    err_response (text "0") invalid_request (text "binary frames not supported; send JSON text")

abbrev pub put_out : Text → List Text → List Text
put_out t out = out ++ t ∷ []

-- `sink.send(Message::Text(serde_json::to_string(..)?)).await?`
abbrev pub send : Result Text Text → Bool → Result Text Text
send (err e) sent = err e
send (ok t) true = ok t
send (ok t) false = err (text "send")

module _ (engine : Engine.Lib) (config : Config) where
  unfoldable pub decided : Progress → Turn → Device × Response
  decided (done d r) turn = (d, r)
  decided (ask d prompt job) turn =
      finish engine config job turn.decision turn.world (turn.meanwhile d)

  -- `engine.handle(req).await`
  unfoldable pub handle_await : Request → Turn → Device → Device × Response
  unfolding decided
  handle_await req turn d = decided (handle engine config req turn.world d) turn

module _ (engine : Engine.Lib) (config : Config) (lib : Lib) where
  abbrev pub dispatch : Result Request Text → Text → Turn → Device → Device × Response
  dispatch (err e) t turn d =
      (d, err_response (id_or_0 (lib.id_of t)) invalid_request (text "bad json: " ++ e))
  dispatch (ok req) t turn d = handle_await engine config req turn d

  unfoldable pub dispatch_text : Text → Turn → Device → Device × Response
  dispatch_text t turn d = dispatch (lib.parse t) t turn d

  -- Where a client stands after a message: it goes on, or the loop has ended.
  pub data Next : Type 0 where
    goes_on : Device → List Text → Next
    ends : Device → List Text → Result (Unit {0}) Text → Next

  -- On what the send gives.
  abbrev pub reply_on : Result Text Text → Device → List Text → Next
  reply_on (ok t) d out = goes_on d (put_out t out)
  reply_on (err e) d out = ends d out (err e)

  abbrev pub reply : Device × Response → Turn → List Text → Next
  reply (d, r) turn out = reply_on (send (lib.print r) turn.sent) d out

  unfoldable pub handle_frame : Frame → Turn → Device → List Text → Next
  unfolding dispatch_text
  handle_frame (text_frame t) turn d out = reply (dispatch_text t turn (turn.before d)) turn out
  handle_frame binary turn d out = reply (turn.before d, binary_refused) turn out
  handle_frame close turn d out = ends (turn.before d) out (ok tt)
  handle_frame control turn d out = goes_on (turn.before d) out

  abbrev pub carry_on :
      Next
      → (Device → List Text → Device × List Text × Result (Unit {0}) Text)
      → Device × List Text × Result (Unit {0}) Text
  carry_on (goes_on d out) next = next d out
  carry_on (ends d out r) next = (d, out, r)

  -- `handle_client` once the handshake is done, over what the stream gives until it ends. The replies
  -- sent so far are `out`.
  unfoldable pub handle_client :
      List (Result Frame Text × Turn)
      → Device
      → List Text
      → Device × List Text × Result (Unit {0}) Text
  unfolding handle_frame
  handle_client [] d out = (d, out, ok tt)
  handle_client ((err e, turn) ∷ rest) d out = (turn.before d, out, err e)
  handle_client ((ok f, turn) ∷ rest) d out =
      carry_on (handle_frame f turn d out) (handle_client rest)
