-- ===== src/Tests/Directory.antt =====
-- Examples for the directory of clients and the rounds that serve it.
use mqttv.Base.{◌≡◌, [], ◌∷◌, ◌++◌, arith}
use mqttv.Int.{pos}
use mqttv.Result.{◌>>=◌}
use mqttv.Result.Ensures.{Ensures}
use mqttv.CString.{codes}
use mqttv.Broker.Register.{register}
use mqttv.Broker.Directory.{Client, directory}
use mqttv.Broker.Directory.Growth.{register-directory}
use mqttv.Forward.{forward_round}
use mqttv.Forward.Service.{serve_all, round_end, forward_round-serves}
use mqttv.Tests.Script.{script, on_wire, clean_row, two_clients, two_clients-IsValid}

register-directory_example :
    Ensures
      (λ r. (c : Client) × (c.fd ≡ pos 6) × (directory r.0 ≡ directory two_clients ++ c ∷ []))
      (register script 2 clean_row
        (pos 6)
        two_clients
        (on_wire (codes "n2\n" ∷ codes "NONE\n" ∷ [])))
register-directory_example =
    register-directory script 2 clean_row (pos 6) two_clients
      (on_wire (codes "n2\n" ∷ codes "NONE\n" ∷ [])) two_clients-IsValid

forward_round-serves_example :
    forward_round script 3 two_clients 0 (on_wire (codes "1,2,3,4,5,6\n" ∷ [])) ≡ (
      serve_all script
        (directory two_clients)
        (directory two_clients)
        (on_wire (codes "1,2,3,4,5,6\n" ∷ []))
      >>= round_end script two_clients)
forward_round-serves_example =
    forward_round-serves script 3 two_clients (on_wire (codes "1,2,3,4,5,6\n" ∷ []))
      two_clients-IsValid (omega arith)
