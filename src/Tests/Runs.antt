-- ===== src/Tests/Runs.antt =====
-- A run of the broker's threads: a publisher connects and is registered.
use mqttv.Base.{◌+◌, ◌-◌, ◌<◌, ◌≤◌, ◌≡◌, refl, List, [], ◌∷◌, ◌++◌, arith}
use mqttv.Int.{pos}
use mqttv.Result.{ok, ◌>>=◌}
use mqttv.CString.{Bytes, codes, c_string, str_eq, chop}
use mqttv.Decimal.{decimal}
use mqttv.Net.{write_log}
use mqttv.Broker.{Broker, init}
use mqttv.Broker.Tables.{IsValid}
use mqttv.Broker.Register.{
  announce, register, subscribe, thread_log, line_text, put_fd, put_name, put_sus, count_client,
}
use mqttv.Threads.{
  opened, critical, gate, System, Step, accept, enter, leave, Reach, start, next, wait_mutex,
  post_mutex,
}
use mqttv.Threads.Growth.{here, more, directory_grows}
use mqttv.Broker.Directory.{Client, directory}
use mqttv.Threads.Places.{total}
use mqttv.Threads.Invariant.{
  in_critical, at_gate, in_loop, mutual_exclusion, one_waits, Reach-IsValid,
}
use mqttv.Tests.Script.{script, wire, on_wire, clean_row}

abbrev pub greeting_lines : List Bytes
greeting_lines = codes "n1\n" ∷ codes "NONE\n" ∷ []

abbrev at_start : System script
at_start = record { broker = init; io = on_wire greeting_lines; threads = [] }

abbrev accepted_log : List Bytes
accepted_log = codes "01/01/2022 [00:00:00]: Se ha abierto un socket: 4\n" ∷ []

abbrev accepted : System script
accepted = record {
  broker = init;
  io = record { world = wire greeting_lines; log = accepted_log };
  threads = opened (pos 4) ∷ [];
}

abbrev entered : System script
entered = record { broker = wait_mutex init; io = accepted.io; threads = critical (pos 4) ∷ [] }

abbrev registered_broker : Broker
registered_broker =
    count_client (put_sus (codes "NONE") (put_name (codes "n1") (put_fd (pos 4) (wait_mutex init))))

abbrev registered_log : List Bytes
registered_log =
    accepted_log
    ++ codes "01/01/2022 [00:00:00]: Se ha conectado n1\n"
      ∷ codes "01/01/2022 [00:00:00]: n1 no tiene ninguna suscripcion\n"
      ∷ []

abbrev pub left : System script
left = record {
  broker = post_mutex registered_broker;
  io = record { world = wire []; log = registered_log };
  threads = gate ∷ [];
}

announced : announce script (pos 4) at_start.io ≡ ok accepted.io
unfolding announce thread_log write_log decimal ◌>>=◌
announced = refl

registered :
    register script 2 clean_row (pos 4) entered.broker entered.io ≡ ok (registered_broker, left.io)
unfolding register subscribe line_text thread_log write_log ◌>>=◌ c_string str_eq chop wait_mutex
registered = refl

run_entered : Reach script 2 (on_wire greeting_lines) entered
run_entered =
    next (next (start at_start refl) (accept (pos 4) accepted.io announced refl))
      (enter (pos 4) (critical (pos 4) ∷ []) (omega arith) ([], [], refl, refl) refl)

leaves : Step script 2 entered left
leaves =
    leave (pos 4) clean_row registered_broker left.io (gate ∷ []) registered ([], [], refl, refl)
      refl

pub run : Reach script 2 (on_wire greeting_lines) left
run = next run_entered leaves

directory_grows_example :
    (cs : List Client) × (directory left.broker ≡ directory entered.broker ++ cs)
directory_grows_example = directory_grows script run_entered (more here leaves)

mutual_exclusion_example :
    (total in_critical entered.threads ≤ 1)
    × (total in_critical entered.threads ≡ 1 - entered.broker.sem_mutex)
mutual_exclusion_example = mutual_exclusion script run_entered

Reach-IsValid_example : IsValid left.broker
Reach-IsValid_example = Reach-IsValid script run

one_waits_example :
    (total at_gate left.threads + total in_loop left.threads ≡ left.broker.fd_idx)
    × (total at_gate left.threads ≡ left.broker.sem_control + 1)
    × (total in_loop left.threads < left.broker.fd_idx)
unfolding post_mutex count_client put_sus put_name put_fd wait_mutex
one_waits_example = one_waits script run (omega arith)
