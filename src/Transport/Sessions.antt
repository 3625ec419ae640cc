-- ===== src/Transport/Sessions.antt =====
-- src/transport/websocket.rs: the replies that a client gets over a whole session.
use passport_nostr_signer.Prelude.{
  ◌≡◌, refl, ap, ◌∙◌, Bool, true, false, List, [], ◌∷◌, ◌++◌, map, Text, text,
}
use passport_nostr_signer.Prelude.Result.{Result, ok, err}
use passport_nostr_signer.Message.{Response, err_response}
use passport_nostr_signer.Engine
use passport_nostr_signer.Engine.{Config, Device}
use passport_nostr_signer.Transport.{
  Lib, Frame, text_frame, binary, close, control, Turn, send, reply, reply_on, carry_on,
  binary_refused, dispatch_text, handle_frame, handle_client, put_out,
}
use passport_nostr_signer.Transport.Replies.{expected_id, dispatch_text-id}

-- The ids of the replies that the messages call for, up to the first close or failure.
unfoldable pub expected_ids :
    Engine.Lib → Config → Lib → List (Result Frame Text × Turn) → List Text
expected_ids engine config lib [] = []
expected_ids engine config lib ((err e, turn) ∷ rest) = []
expected_ids engine config lib ((ok (text_frame t), turn) ∷ rest) =
    expected_id engine config lib t ∷ expected_ids engine config lib rest
expected_ids engine config lib ((ok binary, turn) ∷ rest) =
    text "0" ∷ expected_ids engine config lib rest
expected_ids engine config lib ((ok close, turn) ∷ rest) = []
expected_ids engine config lib ((ok control, turn) ∷ rest) = expected_ids engine config lib rest

map-append : {A B : Type 0} (f : A → B) (xs ys : List A) → map f (xs ++ ys) ≡ map f xs ++ map f ys
map-append f [] ys = refl
map-append f (x ∷ xs) ys = ap (λ r. f x ∷ r) (map-append f xs ys)

append_assoc : {A : Type 0} (xs ys zs : List A) → (xs ++ ys) ++ zs ≡ xs ++ (ys ++ zs)
append_assoc [] ys zs = refl
append_assoc (x ∷ xs) ys zs = ap (λ r. x ∷ r) (append_assoc xs ys zs)

append_empty : {A : Type 0} (xs : List A) → xs ++ [] ≡ xs
append_empty [] = refl
append_empty (x ∷ xs) = ap (λ r. x ∷ r) (append_empty xs)

module _ (engine : Engine.Lib) (config : Config) (lib : Lib) (read_id : Text → Text)
    (reads : (r : Response) (t : Text) → lib.print r ≡ ok t → read_id t ≡ r.id) where
  -- The ids of the replies `out`, to which `ids` were still due when they were `before`.
  pub record IsOrderly (before ids : List Text)
      (result : Device × List Text × Result (Unit {0}) Text) : Type 0 where
    pub unsent : List Text
    pub in_order : map read_id result.1 ++ unsent ≡ map read_id before ++ ids
    pub complete : result.2 ≡ ok tt → unsent ≡ []

  stopped : (d : Device) (out ids : List Text) (e : Text) → IsOrderly out ids (d, out, err e)
  stopped d out ids e = record { unsent = ids; in_order = refl; complete = λ h. absurd (cc h) }

  finished : (d : Device) (out : List Text) → IsOrderly out [] (d, out, ok tt)
  finished d out = record { unsent = []; in_order = refl; complete = λ h. refl }

  -- One more reply.
  one_more :
      (out ids : List Text) (t id : Text) (result : Device × List Text × Result (Unit {0}) Text)
      → read_id t ≡ id
      → IsOrderly (put_out t out) ids result
      → IsOrderly out (id ∷ ids) result
  one_more out ids t id result e h = record {
    unsent = h.unsent;
    in_order =
        h.in_order
        ∙ ap (λ xs. xs ++ ids) (map-append read_id out (t ∷ []))
        ∙ append_assoc (map read_id out) (read_id t ∷ []) ids
        ∙ ap (λ i. map read_id out ++ i ∷ ids) e;
    complete = h.complete;
  }

  send_ok : (p : Result Text Text) (sent : Bool) (t : Text) → send p sent ≡ ok t → p ≡ ok t
  send_ok (ok t') true t h = h
  send_ok (ok t') false t h = absurd (cc h)
  send_ok (err e) sent t h = absurd (cc h)

  reply_on-IsOrderly :
      (s : Result Text Text) (d : Device) (id : Text) (out ids : List Text)
      (rest : List (Result Frame Text × Turn))
      → ((t : Text) → s ≡ ok t → read_id t ≡ id)
      → ((d : Device) (out' : List Text)
          → IsOrderly out' ids (handle_client engine config lib rest d out'))
      → IsOrderly out (id ∷ ids) (
          carry_on engine config lib
            (reply_on engine config lib s d out)
            (handle_client engine config lib rest))
  reply_on-IsOrderly (ok t) d id out ids rest e ih =
      one_more out ids t id (handle_client engine config lib rest d (put_out t out)) (e t refl)
        (ih d (put_out t out))
  reply_on-IsOrderly (err m) d id out ids rest e ih = stopped d out (id ∷ ids) m

  reply-IsOrderly :
      (x : Device × Response) (id : Text) (turn : Turn) (out ids : List Text)
      (rest : List (Result Frame Text × Turn))
      → x.1.id ≡ id
      → ((d : Device) (out' : List Text)
          → IsOrderly out' ids (handle_client engine config lib rest d out'))
      → IsOrderly out (id ∷ ids) (
          carry_on engine config lib
            (reply engine config lib x turn out)
            (handle_client engine config lib rest))
  reply-IsOrderly (d, r) id turn out ids rest e ih =
      reply_on-IsOrderly (send (lib.print r) turn.sent) d id out ids rest
        (λ t s. reads r t (send_ok (lib.print r) turn.sent t s) ∙ e) ih

  -- The replies sent to a client carry the ids that its messages call for, in the order of the messages,
  -- and none is missing if the session ends without an error: one reply for each text and each binary
  -- message before the first close. This needs that the text of a response shows its id.
  pub handle_client-IsOrderly :
      (items : List (Result Frame Text × Turn)) (d : Device) (out : List Text)
      → IsOrderly out
          (expected_ids engine config lib items)
          (handle_client engine config lib items d out)
  unfolding handle_client handle_frame expected_ids binary_refused err_response
  handle_client-IsOrderly [] d out = finished d out
  handle_client-IsOrderly ((err e, turn) ∷ rest) d out = stopped (turn.before d) out [] e
  handle_client-IsOrderly ((ok (text_frame t), turn) ∷ rest) d out =
      reply-IsOrderly (dispatch_text engine config lib t turn (turn.before d))
        (expected_id engine config lib t) turn out (expected_ids engine config lib rest) rest
        (dispatch_text-id engine config lib t turn (turn.before d)) (handle_client-IsOrderly rest)
  handle_client-IsOrderly ((ok binary, turn) ∷ rest) d out =
      reply-IsOrderly (turn.before d, binary_refused) (text "0") turn out
        (expected_ids engine config lib rest) rest refl (handle_client-IsOrderly rest)
  handle_client-IsOrderly ((ok close, turn) ∷ rest) d out = finished (turn.before d) out
  handle_client-IsOrderly ((ok control, turn) ∷ rest) d out =
      handle_client-IsOrderly rest (turn.before d) out
