-- ===== src/Tests/Registry.antt =====
-- Examples for the broker's tables and registrations.
use mqttv.Base.{suc, ◌++◌, ◌≡◌, refl, List, [], ◌∷◌, arith}
use mqttv.Int.{ℤ, pos}
use mqttv.Result.{ok, fault, overrun, ◌>>=◌}
use mqttv.CString.{Bytes, codes, is_delim, str_eq}
use mqttv.Topics.Filters.{picked, wanted, and_each, all}
use mqttv.Net.{Io, write_log}
use mqttv.Broker.{Broker, init}
use mqttv.Broker.Tables.{init-IsValid}
use mqttv.Broker.Directory.{directory}
use mqttv.Broker.Register.{register, thread_log}
use mqttv.Broker.Register.Greeting.{greeting_overruns}
use mqttv.Broker.Directory.Subscriber.{subscriber_entered}
use mqttv.Broker.Register.Overrun.{register_overruns}
use mqttv.CString.Split.Tokens.{tokens}
use mqttv.Publisher
use mqttv.Subscriber
use mqttv.Tests.Script.{script, differ, wire, on_wire, clean_row}

abbrev sub_lines : List Bytes
sub_lines = codes "sub\n" ∷ codes "n1/#\n" ∷ []

subscriber_entered_example :
    (row' : List ℤ) × (s' : Broker) × (io' : Io script) × (register script 2 clean_row
        (pos 4)
        init
        (on_wire sub_lines)
      ≡ ok (s', io'))
    × (directory s'
        ≡ directory init
          ++ record { name = codes "sub"; fd = pos 4; sus = codes "n1"; row = row' } ∷ [])
    × (s'.fd_idx ≡ suc init.fd_idx)
    × (picked row' ≡ and_each (wanted (codes "#" ∷ [])) (picked clean_row))
    × (io'.world ≡ wire [])
unfolding is_delim str_eq
subscriber_entered_example =
    subscriber_entered script 2 (pos 0) (pos 0) (pos 0) (pos 0) (pos 0) (pos 0) (pos 4) init
      (on_wire sub_lines) (codes "sub") (codes "n1") (codes "#" ∷ []) (pos 4) (pos 4)
      (wire (codes "n1/#\n" ∷ [])) (wire []) init-IsValid (omega arith) refl refl (omega arith)
      (omega arith) (((λ e. cc), (refl, (refl, tt))), (((λ e. cc), (refl, tt)), tt)) (omega arith)
      (differ (codes "n1/#") (codes "NONE") refl) (all []) (omega arith) (omega arith) (omega arith)

greeting_overruns_example :
    (Publisher.greeting 2 (codes "a_rather_long_client_name") ≡ fault overrun)
    × (Subscriber.greeting 3 (codes "a_rather_long_client_name") (codes "n1/#") ≡ fault overrun)
greeting_overruns_example =
    greeting_overruns (codes "a_rather_long_client_name") (codes "n1/#") (omega arith)

abbrev deep_lines : List Bytes
deep_lines = codes "sub\n" ∷ codes "n1/cpu/gen\n" ∷ []

register_overruns_example :
    register script 2 clean_row (pos 4) init (on_wire deep_lines) ≡ fault overrun
unfolding str_eq tokens thread_log write_log ◌>>=◌ is_delim
register_overruns_example =
    register_overruns script 2 clean_row (pos 4) init (on_wire deep_lines)
      (record { world = wire []; log = codes "01/01/2022 [00:00:00]: Se ha conectado sub\n" ∷ [] })
      (codes "sub") (codes "n1/cpu/gen") (pos 4) (pos 4) (wire (codes "n1/cpu/gen\n" ∷ []))
      (wire []) (omega arith) refl refl (omega arith) (omega arith) refl
      (differ (codes "n1/cpu/gen") (codes "NONE") refl) (omega arith)
