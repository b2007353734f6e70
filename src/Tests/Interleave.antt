-- ===== src/Tests/Interleave.antt =====
-- A run of interleaved stores: a subscriber in the middle of its registration.
use mqttv.Base.{◌+◌, ◌<◌, ◌≤◌, ◌≡◌, refl, some, List, [], ◌∷◌, ◌++◌, arith, get_elem?}
use mqttv.Int.{pos}
use mqttv.Result.{ok, ◌>>=◌}
use mqttv.CString.{Bytes, codes, c_string, str_eq, chop, is_delim}
use mqttv.Decimal.{decimal}
use mqttv.Net.{write_log}
use mqttv.Broker.{Broker, init}
use mqttv.Broker.Register.{announce, thread_log, line_text, put_fd, put_name, put_sus}
use mqttv.CString.Split.{split}
use mqttv.Topics.{level}
use mqttv.Threads.{wait_mutex}
use mqttv.Threads.Places.{total}
use mqttv.Threads.Interleave.{
  opened, entered, reading, named, subscribed, State, accept, enter, fd_stored, name_stored,
  node_stored, Moves, here, next, at_start, store_fd, store_name, store_sus, store_text,
}
use mqttv.Threads.Interleave.Marks.{in_section}
use mqttv.Threads.Interleave.Tables.{seen_has_name, quiet-IsValid}
use mqttv.Broker.Tables.{IsValid}
use mqttv.Threads.Interleave.Embedding.{Reach-Moves}
use mqttv.Tests.Script.{script, wire, on_wire}
use mqttv.Tests.Runs.{left, run}

abbrev sub_lines : List Bytes
sub_lines = codes "sub\n" ∷ codes "n1/#\n" ∷ []

abbrev accepted : State script
accepted = record {
  broker = init;
  io = record {
    world = wire sub_lines;
    log = codes "01/01/2022 [00:00:00]: Se ha abierto un socket: 4\n" ∷ [];
  };
  threads = opened (pos 4) ∷ [];
}

abbrev with_fd : Broker
with_fd = put_fd (pos 4) (wait_mutex init)

abbrev after_name : State script
after_name = record {
  broker = put_name (codes "sub") with_fd;
  io = record {
    world = wire [];
    log = accepted.io.log ++ codes "01/01/2022 [00:00:00]: Se ha conectado sub\n" ∷ [];
  };
  threads = named (codes "sub") (codes "n1/#\n") ∷ [];
}

abbrev after_node : State script
after_node = record {
  broker = put_sus (codes "n1") after_name.broker;
  io = after_name.io;
  threads = subscribed (codes "sub") (codes "n1/#") (codes "n1" ∷ codes "#" ∷ []) ∷ [];
}

announced : announce script (pos 4) (on_wire sub_lines) ≡ ok accepted.io
unfolding announce thread_log write_log decimal ◌>>=◌
announced = refl

fd_ok : store_fd (pos 4) (wait_mutex init) ≡ ok with_fd
unfolding store_fd wait_mutex ◌>>=◌
fd_ok = refl

name_ok :
    store_name script (pos 4) with_fd accepted.io
    ≡ ok (codes "sub", codes "n1/#\n", after_name.broker, after_name.io)
unfolding store_name line_text thread_log write_log ◌>>=◌ c_string chop
name_ok = refl

node_ok :
    store_sus script 2 (codes "sub") (codes "n1/#\n") after_name.broker after_name.io
    ≡ ok (some (codes "n1/#", codes "n1" ∷ codes "#" ∷ []), after_node.broker, after_node.io)
unfolding store_sus store_text line_text ◌>>=◌ c_string chop str_eq split is_delim level
node_ok = refl

moves : Moves script 2 (at_start script (on_wire sub_lines)) after_node
moves =
    next
      (next
        (next
          (next (next here (accept (pos 4) accepted.io announced refl))
            (enter (pos 4) (entered (pos 4) ∷ []) (omega arith) ([], [], refl, refl) refl))
          (fd_stored (pos 4) with_fd (reading (pos 4) ∷ []) fd_ok ([], [], refl, refl) refl))
        (name_stored (pos 4) (codes "sub") (codes "n1/#\n") after_name.broker after_name.io
          after_name.threads name_ok ([], [], refl, refl) refl))
      (node_stored (codes "sub") (codes "n1/#\n") (codes "n1/#") (codes "n1" ∷ codes "#" ∷ [])
        after_node.broker after_node.io after_node.threads node_ok ([], [], refl, refl) refl)

seen_has_name_example :
    (total in_section after_node.threads ≤ 1)
    × (0 < after_node.broker.fd_idx + total in_section after_node.threads)
    × ((name : Bytes) × (get_elem? after_node.broker.client_name_list 0 ≡ some (some name)))
unfolding put_sus put_name put_fd wait_mutex
seen_has_name_example = seen_has_name script 0 (codes "n1") moves refl

-- The run of Runs, in which a publisher registers, store by store.
quiet-IsValid_example : IsValid left.broker
unfolding total
quiet-IsValid_example = quiet-IsValid script (Reach-Moves script run) refl
