-- ===== src/Tests/Mains.antt =====
-- Examples for the three programs as a whole, and for the end of the broker.
use mqttv.Base.{◌≡◌, refl, ◌⊎◌, true, false, List, [], ◌∷◌, ◌++◌, arith, map, if◌then◌else◌}
use mqttv.Int.{ℤ, pos, minus_one, is_negative}
use mqttv.Result.{Result, ok, exits, ◌>>=◌}
use mqttv.CString.{Bytes, codes, newline, c_string, is_delim, str_eq}
use mqttv.CString.Split.Tokens.{tokens}
use mqttv.CString.Split.RoundTrip.{join}
use mqttv.Net.{Io}
use mqttv.Broker.{sig_handler}
use mqttv.Broker.Directory.{directory}
use mqttv.Broker.Directory.Closing.{sig_handler-closes}
use mqttv.Threads.Setup.{setup}
use mqttv.Threads.Start.{listens, logged, setup_lem}
use mqttv.Sockets.Robust.{Candidate, IsAccepted}
use mqttv.Subscriber
use mqttv.Subscriber.Listen
use mqttv.Subscriber.Main.{write_lines, connected_to, main_prints}
use mqttv.Publisher
use mqttv.Publisher.{change_comma_for_period}
use mqttv.Publisher.Report.{update_send_info_fields}
use mqttv.Publisher.Rounds.{Files}
use mqttv.Publisher.Main.{Lines, sent_info, named_connection, main_sends}
use mqttv.Rio.Connections.{Sockets, sockets}
use mqttv.Tests.Script.{script, Wire, wire, on_wire, two_clients, two_clients-IsValid}
use mqttv.Tests.Clients.{roomy_block, quarter, report, info_txt}

sig_handler-closes_example :
    ((sig_handler two_clients).0 ≡ map (λ c. c.fd) (directory two_clients))
    × (directory (sig_handler two_clients).1 ≡ [])
sig_handler-closes_example = sig_handler-closes two_clients two_clients-IsValid

abbrev candidates : List Candidate
candidates =
    record { socket = minus_one; option_set = true; accepted = true; close_works = true }
    ∷ record { socket = pos 3; option_set = true; accepted = true; close_works = true }
    ∷ []

setup_lem_example :
    ((setup script true true (listens script candidates true) (on_wire []) ≡ exits (pos 0))
      ⊎ ((fd : ℤ) × (setup script true true (listens script candidates true) (on_wire [])
            ≡ ok (
              fd,
              record {
                world = wire [];
                log =
                    logged script (on_wire []) (codes "Esperando por conexiones")
                    ∷ logged script (on_wire []) (codes "Servidor escuchando en el puerto: 8090")
                    ∷ [];
              },
            ))
          × (is_negative fd ≡ false)
          × IsAccepted fd candidates))
    × (setup script false true (listens script candidates true) (on_wire []) ≡ exits (pos 1))
    × (setup script true false (listens script candidates true) (on_wire []) ≡ exits (pos 1))
setup_lem_example = setup_lem script candidates true (on_wire []) (omega arith)

abbrev greeting_lines : List Bytes
greeting_lines = codes "sub\n" ∷ codes "n1/#\n" ∷ []

-- Open_clientfd that succeeds.
abbrev connects {ℓ} : {A : Type ℓ} → A → Result (ℤ × A)
connects io = ok (pos 5, io)

abbrev coming : List Bytes
coming = codes "tasks/gen: 1\n" ∷ codes "cpu/gen: 2\n" ∷ []

abbrev written : List Bytes → Wire
written waiting = record {
  waiting = waiting;
  sent = (pos 5, codes "sub\n") ∷ (pos 5, codes "n1/#\n") ∷ [];
}

abbrev greeted : Io script
greeted = record { world = wire coming; log = greeting_lines }

main_prints_example :
    Subscriber.Main.main script 3 3 (codes "sub") (codes "n1/#") connects (on_wire coming)
    ≡ ok (
      true,
      record {
        world = written [];
        log = greeting_lines ++ connected_to (codes "sub") (codes "n1/#") ∷ map c_string coming;
      },
    )
unfolding Subscriber.greeting write_lines ◌>>=◌
main_prints_example =
    main_prints script 3 (codes "sub") (codes "n1/#") (pos 5) connects (on_wire coming) greeted refl
      refl refl
      (Subscriber.Listen.more refl (Subscriber.Listen.more refl (Subscriber.Listen.done refl)))
      (omega arith)

-- All that is looked for stands in the answer to the first of the three commands.
abbrev pub grep_once : Bytes → List Bytes → Bytes
grep_once text (program ∷ word ∷ rest) = if str_eq word (codes "Cpu") then info_txt else []
grep_once text args = []

abbrev pub report_line : Bytes
report_line =
    join b','
      (codes "200" ∷ codes "198" ∷ codes "7" ∷ codes "1.0" ∷ codes "3.0" ∷ codes "25.123" ∷ [])
    ++ newline

abbrev pub empty_files : Files
empty_files = record { top = []; info = [] }

abbrev pub one_round : Files
one_round = record { top = codes "top"; info = info_txt }

abbrev pub no_connections : Sockets
no_connections = record { coming = λ fd. []; sent = [] }

one_line :
    Lines
      (codes "now")
      quarter
      roomy_block
      grep_once
      empty_files
      (codes "top" ∷ [])
      (report_line ∷ [])
      one_round
unfolding change_comma_for_period tokens is_delim str_eq
one_line =
    Lines.more
      (update_send_info_fields quarter roomy_block info_txt (codes "25.123") b'4' report
        (codes "buff/cache\n" ∷ []) (omega arith) (omega arith) refl refl (omega arith) (λ n. refl)
        (λ n. omega arith) (omega arith))
      Lines.done

main_sends_example :
    Publisher.Main.main
      (sockets (codes "now"))
      quarter
      roomy_block
      grep_once
      2
      (codes "n1")
      connects
      (codes "top" ∷ [])
      empty_files
      (record { world = no_connections; log = [] })
    ≡ ok (
      one_round,
      record {
        world = record no_connections {
          sent = (pos 5, codes "n1\n") ∷ (pos 5, codes "NONE\n") ∷ (pos 5, report_line) ∷ [];
        };
        log = named_connection (codes "n1\n" ∷ []) ∷ sent_info report_line ∷ [];
      },
    )
main_sends_example =
    main_sends (codes "now") quarter roomy_block grep_once (codes "n1") (pos 5) connects
      (record { world = no_connections; log = [] }) no_connections [] (omega arith) refl one_line
