-- ===== src/Tests/Calls.antt =====
-- Runs of the broker's threads, call by call: the publisher n1 at descriptor 4 sends two reports in
-- two answers, and the subscriber at descriptor 5 wants the first topic.
use mqttv.Base.{ℕ, ◌≡◌, refl, List, [], ◌∷◌, ◌++◌, arith, replicate}
use mqttv.Int.{pos, minus_one}
use mqttv.Result.{ok, ◌>>=◌}
use mqttv.CString.{Bytes, codes, c_string, str_eq, chop, is_delim}
use mqttv.CString.Split.{split}
use mqttv.CString.Split.Tokens.{tokens}
use mqttv.Threads.Places.{total}
use mqttv.Topics.{level, string_topics}
use mqttv.Net.{Io, write_log}
use mqttv.Broker.{Broker, find_index_by_client_name, find_from, fd_at}
use mqttv.Forward.{cell_at, forward_line, send_from, topic_message}
use mqttv.Rio.{got}
use mqttv.Rio.Connections.{Sockets, sockets, put_coming, written}
use mqttv.Threads.Calls.{
  Route, at, elsewhere, reading, sending, Process, registers, accepts, joins, passes_over, chooses,
  reads, sends, Calls, here, next, at_start, choose, receive, send_one,
}
use mqttv.Threads.Calls.Conservation.{bag, sent-made}
use mqttv.Threads.Calls.Order.{unsent, sent_in_order}
use mqttv.Threads.Calls.Alone.{Calls-trans}
use mqttv.Threads.Calls.Overtaking.{overtaking}
use mqttv.Threads.Calls.Lines.{read_line-fresh}
use mqttv.Rio.Fresh.{IsLine}
use mqttv.Tests.Script.{two_clients}

abbrev pub now : Bytes
now = codes "01/01/2022 [00:00:00]: "

abbrev tables : Broker
tables = record two_clients {
  topic_list =
      replicate 10 (pos 0 ∷ minus_one ∷ minus_one ∷ minus_one ∷ minus_one ∷ minus_one ∷ []);
}

abbrev reports : Sockets
reports = record {
  coming = λ fd. got (codes "1,2,3,4,5,6\n") ∷ got (codes "7,8,9,1,2,3\n") ∷ [];
  sent = [];
}

abbrev io₀ : Io (sockets now)
io₀ = record { world = reports; log = [] }

abbrev route : Route
route = record {
  fd_pub = pos 4;
  fd_sus = pos 5;
  topic = pos 0 ∷ minus_one ∷ minus_one ∷ minus_one ∷ minus_one ∷ minus_one ∷ [];
  publisher = codes "n1";
}

abbrev choice : Bytes
choice = codes "01/01/2022 [00:00:00]: Se envia informacion desde [n1] -> [sub]\n"

chosen :
    choose (sockets now) tables 1 (codes "n1") io₀
    ≡ ok (route, record { world = reports; log = choice ∷ [] })
unfolding choose cell_at find_index_by_client_name find_from str_eq fd_at write_log ◌>>=◌
chosen = refl

first_forwarded :
    forward_line (sockets now) (pos 5) route.topic (codes "n1") (codes "1,2,3,4,5,6\n") io₀
    ≡ ok (record {
      world = written (pos 5) (codes "tasks/gen: 1\n" ∷ []) reports;
      log = codes "01/01/2022 [00:00:00]: Se ha recibido [1,2,3,4,5,6] de [n1]\n" ∷ [];
    })
unfolding forward_line send_from topic_message level cell_at split is_delim chop c_string write_log
    ◌>>=◌
first_forwarded = refl

second_forwarded :
    forward_line (sockets now) (pos 5) route.topic (codes "n1") (codes "7,8,9,1,2,3\n") io₀
    ≡ ok (record {
      world = written (pos 5) (codes "tasks/gen: 7\n" ∷ []) reports;
      log = codes "01/01/2022 [00:00:00]: Se ha recibido [7,8,9,1,2,3] de [n1]\n" ∷ [];
    })
unfolding forward_line send_from topic_message level cell_at split is_delim chop c_string write_log
    ◌>>=◌
second_forwarded = refl

abbrev pub one : Bytes
one = codes "1,2,3,4,5,6"

abbrev pub two : Bytes
two = codes "7,8,9,1,2,3"

pub one-IsLine : IsLine one
one-IsLine =
    (refl, (refl, (refl, (refl, (refl, (refl, (refl, (refl, (refl, (refl, (refl, tt)))))))))))

pub two-IsLine : IsLine two
two-IsLine =
    (refl, (refl, (refl, (refl, (refl, (refl, (refl, (refl, (refl, (refl, (refl, tt)))))))))))

abbrev two_lines : List (Route × Bytes)
two_lines = (route, codes "1,2,3,4,5,6\n") ∷ (route, codes "7,8,9,1,2,3\n") ∷ []

abbrev two_at : ℕ → Io (sockets now) → List (Route × Bytes) → Process (sockets now)
two_at i io taken = record { broker = tables; io = io; spots = at i ∷ at i ∷ []; taken = taken }

-- The two threads come to the second client.
two_come : Calls now (at_start now io₀) (two_at 1 io₀ [])
unfolding cell_at str_eq
two_come =
    let r₁ =
      next (next (next here (registers tables io₀ refl refl)) (accepts io₀ refl refl))
        (accepts io₀ refl refl) in
    let r₂ =
      next (next r₁ (joins tables (at 0 ∷ elsewhere ∷ []) ([], elsewhere ∷ [], refl, refl) refl))
        (joins tables (at 0 ∷ at 0 ∷ []) (at 0 ∷ [], [], refl, refl) refl) in
    next
      (next r₂ (
        passes_over 0 (codes "NONE") (at 1 ∷ at 0 ∷ []) refl refl ([], at 0 ∷ [], refl, refl) refl))
      (passes_over 0 (codes "NONE") (at 1 ∷ at 1 ∷ []) refl refl (at 1 ∷ [], [], refl, refl) refl)

overtaken :
    (io : Io (sockets now)) × Calls now (two_at 1 io₀ []) (two_at 2 io two_lines)
    × (io.world.sent ≡ (pos 5, codes "tasks/gen: 7\n") ∷ (pos 5, codes "tasks/gen: 1\n") ∷ [])
unfolding cell_at str_eq c_string is_delim tokens
overtaken =
    overtaking now tables 1 (codes "n1") route io₀ (record { world = reports; log = choice ∷ [] })
      [] [] one two [] _ _ refl refl chosen refl (one-IsLine, omega arith) (two-IsLine, omega arith)
      first_forwarded second_forwarded

overtaking_example :
    (io : Io (sockets now)) × Calls now (two_at 1 io₀ []) (two_at 2 io two_lines)
    × (io.world.sent ≡ (pos 5, codes "tasks/gen: 7\n") ∷ (pos 5, codes "tasks/gen: 1\n") ∷ [])
unfolding cell_at str_eq c_string is_delim tokens
overtaking_example =
    overtaking now tables 1 (codes "n1") route io₀ (record { world = reports; log = choice ∷ [] })
      [] [] one two [] _ _ refl refl chosen refl (one-IsLine, omega arith) (two-IsLine, omega arith)
      first_forwarded second_forwarded

sent-made_example :
    bag overtaken.0.world.sent
    ≡ bag ((pos 5, codes "tasks/gen: 1\n") ∷ (pos 5, codes "tasks/gen: 7\n") ∷ [])
unfolding c_string is_delim tokens
sent-made_example = sent-made now (Calls-trans now two_come overtaken.1) (refl, (refl, tt))

-- One thread alone, in the middle of the messages of the first line.
abbrev read_one : Io (sockets now)
read_one = record {
  world = put_coming (pos 4) (got (codes "7,8,9,1,2,3\n") ∷ []) reports;
  log = choice ∷ codes "01/01/2022 [00:00:00]: Se ha recibido [1,2,3,4,5,6] de [n1]\n" ∷ [];
}

abbrev pieces : List Bytes
pieces = codes "1" ∷ codes "2" ∷ codes "3" ∷ codes "4" ∷ codes "5" ∷ codes "6\n" ∷ []

abbrev one_sent : Io (sockets now)
one_sent = record read_one { world = written (pos 5) (codes "tasks/gen: 1\n" ∷ []) read_one.world }

abbrev others : List Bytes
others =
    codes "tasks/run: "
    ∷ codes "tasks/sleep: "
    ∷ codes "cpu/gen: "
    ∷ codes "cpu/sys: "
    ∷ codes "mem/gen: "
    ∷ []

abbrev midway : Process (sockets now)
midway = record {
  broker = tables;
  io = one_sent;
  spots = sending 1 route others 1 pieces ∷ [];
  taken = (route, codes "1,2,3,4,5,6\n") ∷ [];
}

received :
    receive
      (sockets now)
      (codes "n1")
      (codes "1,2,3,4,5,6\n")
      (record { world = read_one.world; log = choice ∷ [] })
    ≡ ok (pieces, read_one)
unfolding receive split is_delim chop c_string write_log ◌>>=◌
received = refl

sent_one :
    send_one (sockets now) (codes "tasks/gen: ") 0 route.topic pieces (pos 5) read_one.world
    ≡ ok one_sent.world
unfolding send_one topic_message level cell_at ◌>>=◌
sent_one = refl

one_run : Calls now (at_start now io₀) midway
unfolding cell_at str_eq
one_run =
    let r₁ =
      next (next (next here (registers tables io₀ refl refl)) (accepts io₀ refl refl))
        (joins tables (at 0 ∷ []) ([], [], refl, refl) refl) in
    let r₂ =
      next (next r₁ (passes_over 0 (codes "NONE") (at 1 ∷ []) refl refl ([], [], refl, refl) refl))
        (chooses 1 (codes "n1") route (record { world = reports; log = choice ∷ [] })
          (reading 1 route ∷ []) refl refl chosen ([], [], refl, refl) refl) in
    next
      (next r₂ (
        reads 1 route b'1' (codes ",2,3,4,5,6\n") (pos 4, []) read_one.world pieces read_one
          (sending 1 route string_topics 0 pieces ∷ [])
          (read_line-fresh now (pos 4) one (got (codes "7,8,9,1,2,3\n") ∷ []) reports refl
            one-IsLine (omega arith))
          received ([], [], refl, refl) refl))
      (sends 1 route (codes "tasks/gen: ") others 0 pieces one_sent.world
        (sending 1 route others 1 pieces ∷ []) sent_one ([], [], refl, refl) refl)

sent_in_order_example :
    one_sent.world.sent ++ unsent midway.spots ≡ (pos 5, codes "tasks/gen: 1\n") ∷ []
unfolding c_string is_delim total tokens
sent_in_order_example = sent_in_order now one_run (omega arith)
