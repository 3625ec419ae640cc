-- ===== src/Tests/Transport.antt =====
-- A session of one client: a request, a binary message, a text that is no request, and a close.
use passport_nostr_signer.Prelude.{◌≡◌, true, some, List, [], ◌∷◌, Text, text, ◌==◌, if◌then◌else◌}
use passport_nostr_signer.Prelude.Result.{Result, ok, err}
use passport_nostr_signer.Approval.{approve}
use passport_nostr_signer.Message
use passport_nostr_signer.Message.{Request, Response}
use passport_nostr_signer.Transport.{Lib, Frame, text_frame, binary, close, Turn, handle_client}
use passport_nostr_signer.Transport.Sessions.{expected_ids, IsOrderly, handle_client-IsOrderly}
use passport_nostr_signer.Tests.Samples.{config, device, world}
use passport_nostr_signer.Tests.Samples

-- A text that starts with 1 is a ping; a response is printed as its id.
abbrev parse : Text → Result Request Text
parse [] = err (text "eof")
parse (c ∷ id) = if c == 1 then ok (record { id = id; method = Message.ping }) else err (text "eof")

abbrev json : Lib
json = record { parse = parse; id_of = λ t. some t; print = λ r. ok r.id }

json_reads : (r : Response) (t : Text) → json.print r ≡ ok t → t ≡ r.id
json_reads r t h = cc h

abbrev turn : Turn
turn = record {
  world = world;
  decision = approve;
  before = λ d. d;
  meanwhile = λ d. d;
  sent = true;
}

abbrev items : List (Result Frame Text × Turn)
items =
    (ok (text_frame (1 ∷ 7 ∷ [])), turn)
    ∷ (ok binary, turn)
    ∷ (ok (text_frame (2 ∷ [])), turn)
    ∷ (ok close, turn)
    ∷ []

handle_client-IsOrderly_example :
    IsOrderly Samples.lib config json
      (λ t. t)
      json_reads
      []
      (expected_ids Samples.lib config json items)
      (handle_client Samples.lib config json items device [])
handle_client-IsOrderly_example =
    handle_client-IsOrderly Samples.lib config json (λ t. t) json_reads items device []
