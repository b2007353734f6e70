-- ===== src/Tests/Progress.antt =====
-- A run of the broker's threads up to two counted clients, of which none forwards yet.
use mqttv.Base.{◌≡◌, refl, ◌⊎◌, List, [], ◌∷◌, ◌++◌, arith}
use mqttv.Int.{pos}
use mqttv.Result.{ok, ◌>>=◌}
use mqttv.CString.{Bytes, codes, c_string, str_eq, chop}
use mqttv.Decimal.{decimal}
use mqttv.Net.{Io, write_log}
use mqttv.Broker.{Broker, init}
use mqttv.Broker.Register.{
  announce, register, subscribe, thread_log, line_text, put_fd, put_name, put_sus, count_client,
}
use mqttv.Threads.{
  opened, critical, gate, System, Step, accept, enter, leave, Reach, start, next, wait_mutex,
  post_mutex,
}
use mqttv.Threads.Progress.{Forwards, forwarding_goes_on}
use mqttv.Tests.Script.{script, wire, on_wire, clean_row}

abbrev lines : List Bytes
lines = codes "n1\n" ∷ codes "NONE\n" ∷ codes "n2\n" ∷ codes "NONE\n" ∷ []

abbrev after_lines : List Bytes → List Bytes → Io script
after_lines waiting log = record { world = wire waiting; log = log }

abbrev opened_log : List Bytes
opened_log =
    codes "01/01/2022 [00:00:00]: Se ha abierto un socket: 4\n"
    ∷ codes "01/01/2022 [00:00:00]: Se ha abierto un socket: 5\n"
    ∷ []

abbrev first_log : List Bytes
first_log =
    opened_log
    ++ codes "01/01/2022 [00:00:00]: Se ha conectado n1\n"
      ∷ codes "01/01/2022 [00:00:00]: n1 no tiene ninguna suscripcion\n"
      ∷ []

abbrev second_log : List Bytes
second_log =
    first_log
    ++ codes "01/01/2022 [00:00:00]: Se ha conectado n2\n"
      ∷ codes "01/01/2022 [00:00:00]: n2 no tiene ninguna suscripcion\n"
      ∷ []

abbrev one_open : Io script
one_open = after_lines lines (codes "01/01/2022 [00:00:00]: Se ha abierto un socket: 4\n" ∷ [])

abbrev both_open : Io script
both_open = after_lines lines opened_log

abbrev one_registered : Io script
one_registered = after_lines (codes "n2\n" ∷ codes "NONE\n" ∷ []) first_log

abbrev two_registered : Io script
two_registered = after_lines [] second_log

abbrev first_broker : Broker
first_broker =
    count_client (put_sus (codes "NONE") (put_name (codes "n1") (put_fd (pos 4) (wait_mutex init))))

abbrev second_broker : Broker
second_broker = count_client (
    put_sus (codes "NONE")
      (put_name (codes "n2") (put_fd (pos 5) (wait_mutex (post_mutex first_broker)))))

abbrev both_wait : System script
both_wait = record {
  broker = post_mutex second_broker;
  io = two_registered;
  threads = gate ∷ gate ∷ [];
}

first_opens : announce script (pos 4) (on_wire lines) ≡ ok one_open
unfolding announce thread_log write_log decimal ◌>>=◌
first_opens = refl

second_opens : announce script (pos 5) one_open ≡ ok both_open
unfolding announce thread_log write_log decimal ◌>>=◌
second_opens = refl

first_registers :
    register script 2 clean_row (pos 4) (wait_mutex init) both_open
    ≡ ok (first_broker, one_registered)
unfolding register subscribe line_text thread_log write_log ◌>>=◌ c_string str_eq chop wait_mutex
first_registers = refl

second_registers :
    register script 2 clean_row (pos 5) (wait_mutex (post_mutex first_broker)) one_registered
    ≡ ok (second_broker, two_registered)
unfolding register subscribe line_text thread_log write_log ◌>>=◌ c_string str_eq chop wait_mutex
    post_mutex count_client put_sus put_name put_fd
second_registers = refl

run : Reach script 2 (on_wire lines) both_wait
unfolding count_client put_sus put_name put_fd wait_mutex post_mutex
run =
    let r₁ =
      next (next (start _ refl) (accept (pos 4) one_open first_opens refl))
        (accept (pos 5) both_open second_opens refl) in
    let r₂ = next r₁ (
      enter (pos 4) (critical (pos 4) ∷ opened (pos 5) ∷ []) (omega arith)
        ([], (opened (pos 5) ∷ []), refl, refl) refl) in
    let r₃ = next r₂ (
      leave (pos 4) clean_row first_broker one_registered (gate ∷ opened (pos 5) ∷ [])
        first_registers ([], (opened (pos 5) ∷ []), refl, refl) refl) in
    let r₄ = next r₃ (
      enter (pos 5) (gate ∷ critical (pos 5) ∷ []) (omega arith) ((gate ∷ []), [], refl, refl)
        refl) in
    next r₄ (
      leave (pos 5) clean_row second_broker two_registered (gate ∷ gate ∷ []) second_registers
        ((gate ∷ []), [], refl, refl) refl)

forwarding_goes_on_example :
    Forwards script both_wait.threads
    ⊎ ((t : System script) × Step script 2 both_wait t × Forwards script t.threads)
unfolding count_client put_sus put_name put_fd wait_mutex post_mutex
forwarding_goes_on_example = forwarding_goes_on script run (omega arith)
