-- ===== src/Tests/Connections.antt =====
-- Examples for the connections of the broker's process: the system gives what comes in pieces.
use mqttv.Base.{suc, ◌++◌, ◌≡◌, refl, List, [], ◌∷◌, arith}
use mqttv.Int.{ℤ, pos}
use mqttv.Result.{ok, ◌>>=◌}
use mqttv.Result.Ensures.{Ensures}
use mqttv.CString.{Bytes, codes, is_delim, str_eq}
use mqttv.Topics.Filters.{picked, wanted, and_each, all}
use mqttv.Net.{Io}
use mqttv.Broker.{Broker, init}
use mqttv.Broker.Tables.{init-IsValid}
use mqttv.Broker.Directory.{directory}
use mqttv.Broker.Register.{register}
use mqttv.Forward.{forward_message, forward_read}
use mqttv.Subscriber
use mqttv.Rio.{Answer, interrupted, got}
use mqttv.Rio.Connections.{Sockets, sockets, put_coming}
use mqttv.Journey.Connect.{subscriber_connects}
use mqttv.Journey.Lost.{forward_message-loses}
use mqttv.Tests.Script.{differ, clean_row}

abbrev now : Bytes
now = codes "01/01/2022 [00:00:00]: "

abbrev all_same : List Answer → Sockets
all_same answers = record { coming = λ fd. answers; sent = [] }

abbrev pieces : List Answer
pieces = got (codes "su") ∷ interrupted ∷ got (codes "b\nn1/") ∷ got (codes "#\nrest") ∷ []

subscriber_connects_example :
    (row' : List ℤ) × (s' : Broker) × (io' : Io (sockets now)) × (register
        (sockets now)
        2
        clean_row
        (pos 4)
        init
        (record { world = all_same pieces; log = [] })
      ≡ ok (s', io'))
    × (directory s'
        ≡ directory init
          ++ record { name = codes "sub"; fd = pos 4; sus = codes "n1"; row = row' } ∷ [])
    × (s'.fd_idx ≡ suc init.fd_idx)
    × (picked row' ≡ and_each (wanted (codes "#" ∷ [])) (picked clean_row))
unfolding is_delim str_eq Subscriber.greeting ◌>>=◌
subscriber_connects_example =
    subscriber_connects now 2 (pos 0) (pos 0) (pos 0) (pos 0) (pos 0) (pos 0) (pos 4) init
      (all_same pieces) [] (codes "sub") (codes "n1") (codes "#" ∷ []) (codes "sub\n")
      (codes "n1/#\n") (codes "rest") init-IsValid (omega arith) refl tt refl (omega arith)
      (omega arith) (refl, (refl, (refl, tt))) (refl, (refl, (refl, (refl, tt))))
      (((λ e. cc), (refl, (refl, tt))), (((λ e. cc), (refl, tt)), tt)) (omega arith)
      (differ (codes "n1/#") (codes "NONE") refl) (all []) (omega arith) (omega arith) (omega arith)

abbrev two_reports : List Answer
two_reports = got (codes "1,2,3,4,5,6\n7,8,9,") ∷ got (codes "1,2,3\n") ∷ []

abbrev behind : List Answer
behind = got (codes "1,2,3\n") ∷ []

forward_message-loses_example :
    (forward_message
        (sockets now)
        (pos 4)
        (pos 5)
        clean_row
        (codes "n1")
        (record { world = all_same two_reports; log = [] })
      ≡ forward_read
          (sockets now)
          (pos 5)
          clean_row
          (codes "n1")
          (codes "1,2,3,4,5,6\n")
          (record { world = put_coming (pos 4) behind (all_same two_reports); log = [] }))
    × Ensures
        (λ io'. io'.world.coming (pos 4) ≡ behind)
        (forward_message
          (sockets now)
          (pos 4)
          (pos 5)
          clean_row
          (codes "n1")
          (record { world = all_same two_reports; log = [] }))
forward_message-loses_example =
    forward_message-loses now (pos 4) behind (pos 5) clean_row (codes "n1") (codes "1,2,3,4,5,6")
      (codes "7,8,9,") (record { world = all_same two_reports; log = [] }) refl
      (refl, (refl, (refl, (refl, (refl, (refl, (refl, (refl, (refl, (refl, (refl, tt)))))))))))
      (omega arith)
