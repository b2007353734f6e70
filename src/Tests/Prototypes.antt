-- ===== src/Tests/Prototypes.antt =====
-- Examples for the echo server and its client.
use mqttv.Base.{◌≡◌, refl, true, List, [], ◌∷◌, arith}
use mqttv.Int.{pos}
use mqttv.Result.{ok}
use mqttv.CString.{Bytes, codes, c_string, str_eq}
use mqttv.Prototypes.EchoServer.{echo_loop}
use mqttv.Prototypes.EchoServer.Replies.{reply, received_texts, Serves, done, more, echo_loop_lem}
use mqttv.Prototypes.EchoClient.{converse}
use mqttv.Prototypes.EchoClient.Session.{shown, Talks, answered, unanswered, quits, converse_lem}
use mqttv.Tests.Script.{differ, script, Wire, wire}

abbrev asked : List Bytes
asked = codes "hi" ∷ codes "help" ∷ []

abbrev replied : Wire
replied = record {
  waiting = [];
  sent = (pos 4, codes "hi\n") ∷ (pos 4, codes "NO HELP FOR YOU\n") ∷ [];
}

served : Serves script (pos 4) (pos 4) (wire (codes "hi\n" ∷ codes "help\n" ∷ [])) asked replied
unfolding reply str_eq c_string
served = more refl refl (more refl refl (done refl))

echo_loop_lem_example :
    echo_loop script 3
      (pos 4)
      (pos 4)
      (record { world = wire (codes "hi\n" ∷ codes "help\n" ∷ []); log = [] })
    ≡ ok (true, record { world = replied; log = received_texts asked })
echo_loop_lem_example =
    echo_loop_lem script (pos 4) served (omega arith, (omega arith, tt)) 3 [] (omega arith)

abbrev typed_lines : List Bytes
typed_lines = codes "hi\n" ∷ codes "more\n" ∷ codes "quit\n" ∷ codes "late\n" ∷ []

abbrev ended : Wire
ended = record { waiting = []; sent = (pos 3, codes "hi\n") ∷ (pos 3, codes "more\n") ∷ [] }

-- One line comes in answer, and then the stream ends.
talked :
    Talks script
      (pos 3)
      (pos 3)
      (wire (codes "hello\n" ∷ []))
      typed_lines
      (codes "hello\n" ∷ codes "more\n" ∷ [])
      ended
unfolding str_eq
talked =
    answered (differ (codes "hi\n") (codes "quit\n") refl) refl refl (λ e. cc)
      (unanswered (differ (codes "more\n") (codes "quit\n") refl) refl refl quits)

converse_lem_example :
    converse script
      (pos 3)
      (pos 3)
      typed_lines
      (record { world = wire (codes "hello\n" ∷ []); log = [] })
    ≡ ok (record { world = ended; log = shown (codes "hello\n" ∷ codes "more\n" ∷ []) })
converse_lem_example =
    converse_lem script (pos 3) talked
      (omega arith, (omega arith, (omega arith, (omega arith, tt))))
      (omega arith, (omega arith, tt)) []
