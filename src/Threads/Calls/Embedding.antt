-- ===== src/Threads/Calls/Embedding.antt =====
-- The steps of the threads, of which one serves an entry as a whole, among the runs call by call.
use mqttv.Base.{ℕ, ◌≡◌, refl, ap, ◌∙◌, List, [], ◌∷◌, ◌++◌}
use mqttv.Int.{ℤ}
use mqttv.Result.{ok}
use mqttv.Result.Ensures.{Ensures, Ensures-ok, Ensures-if, Ensures-bind}
use mqttv.CString.{Bytes, codes, str_eq}
use mqttv.Net.{Io, maxline}
use mqttv.Broker.{Broker}
use mqttv.Broker.Register.{thread_log, announce, subscribe, register}
use mqttv.Rio.Connections.{sockets}
use mqttv.Threads.{
  Pc, opened, critical, gate, forwarding, System, Step, accept, enter, leave, pass, turn, Reach,
  start, wait_mutex, post_mutex, wait_control,
}
use mqttv.Threads
use mqttv.Threads.Calls.{
  Route, Spot, elsewhere, at, Process, registers, accepts, joins, Calls, here, next, at_start,
}
use mqttv.Threads.Calls.Messages.{write_log-Ensures, read_line-Ensures}
use mqttv.Threads.Calls.Alone.{Calls-trans}
use mqttv.Threads.Calls.Entries.{entry-Calls}

-- A thread in front of its loop, and one at the test of its loop.
abbrev pub place : Pc → Spot
place (opened fd) = elsewhere
place (critical fd) = elsewhere
place gate = elsewhere
place (forwarding i) = at i

abbrev pub places : List Pc → List Spot
places [] = []
places (t ∷ ts) = place t ∷ places ts

places-append : (xs ys : List Pc) → places (xs ++ ys) ≡ places xs ++ places ys
places-append [] ys = refl
places-append (x ∷ xs) ys = ap (λ (zs : List Spot). place x ∷ zs) (places-append xs ys)

places_at :
    (ts xs ys : List Pc) (t : Pc) → ts ≡ xs ++ t ∷ ys → places ts ≡ places xs ++ place t ∷ places ys
places_at ts xs ys t e = rw e (places-append xs (t ∷ ys))

module _ (now : Bytes) where
  -- Registering a client, and accepting it, write to no connection.
  thread_log-Ensures :
      (text : Bytes) (io : Io (sockets now))
      → Ensures (λ io'. io'.world ≡ io.world) (thread_log (sockets now) text io)
  unfolding thread_log
  thread_log-Ensures text io = Ensures-bind _ _ λ msg _. write_log-Ensures now msg io

  announce-sent :
      (connfd : ℤ) (io io' : Io (sockets now))
      → announce (sockets now) connfd io ≡ ok io'
      → io'.world.sent ≡ io.world.sent
  unfolding announce
  announce-sent connfd io io' h = ap (λ w. w.sent) ((thread_log-Ensures _ io).at io' h)

  subscribe-Ensures :
      (slots : ℕ) (information : List ℤ) (name sus : Bytes) (b : Broker) (io : Io (sockets now))
      → Ensures
          (λ r. r.1.world ≡ io.world)
          (subscribe (sockets now) slots information name sus b io)
  unfolding subscribe
  subscribe-Ensures slots information name sus b io =
      Ensures-if (str_eq sus (codes "NONE")) _ _
        (λ _. Ensures-bind _ _ λ io' e. Ensures-ok _ ((thread_log-Ensures _ io).at io' e))
        (λ _. Ensures-bind _ _ λ levels _. Ensures-bind _ _ λ node _.
          Ensures-bind _ _
            λ io' e. Ensures-bind _ _ λ info _. Ensures-ok _ ((thread_log-Ensures _ io).at io' e))

  register-Ensures :
      (slots : ℕ) (information : List ℤ) (connfd : ℤ) (b : Broker) (io : Io (sockets now))
      → Ensures
          (λ r. r.1.world.sent ≡ io.world.sent)
          (register (sockets now) slots information connfd b io)
  unfolding register
  register-Ensures slots information connfd b io = Ensures-bind _ _ λ u _. Ensures-bind _ _ λ r₁ e₁.
      Ensures-bind _ _ λ r₂ e₂. Ensures-bind _ _ λ name _. Ensures-bind _ _ λ io₁ e₃.
        Ensures-bind _ _ λ sus _. Ensures-bind _ _ λ r₃ e₄. Ensures-ok _ (
          ap (λ w. w.sent) ((subscribe-Ensures slots information name sus _ io₁).at r₃ e₄)
          ∙ ap (λ w. w.sent) ((thread_log-Ensures _ _).at io₁ e₃)
          ∙ (read_line-Ensures now r₁.1 maxline r₁.2).at r₂ e₂
          ∙ (read_line-Ensures now (connfd, []) maxline io.world).at r₁ e₁)

  -- A state of the threads, with the lines that were read.
  abbrev pub in_calls : System (sockets now) → List (Route × Bytes) → Process (sockets now)
  in_calls s taken = record {
    broker = s.broker;
    io = s.io;
    spots = places s.threads;
    taken = taken;
  }

  Step-Calls :
      {slots : ℕ} {s t : System (sockets now)} (taken : List (Route × Bytes))
      → Step (sockets now) slots s t
      → (taken' : List (Route × Bytes)) × Calls now (in_calls s taken) (in_calls t taken')
  Step-Calls {s = s} taken (accept connfd io' h q) = (
    taken,
    rw q (
        next here (
          accepts io' (announce-sent connfd s.io io' h)
            (rw (places-append s.threads (opened connfd ∷ [])) refl))),
  )
  Step-Calls {s = s} taken (enter connfd us free (xs, ys, e, e') q) = (
    taken,
    rw q (
        next here (
          registers (wait_mutex s.broker) s.io refl (
            rw
              (places_at s.threads xs ys (opened connfd) e, places_at us xs ys (critical connfd) e')
              refl))),
  )
  Step-Calls {slots = slots} {s = s} taken
        (leave connfd information b' io' us h (xs, ys, e, e') q) =
      (
        taken,
        rw q (
            next here (
              registers (post_mutex b') io'
                ((register-Ensures slots information connfd s.broker s.io).at (b', io') h)
                (rw (places_at s.threads xs ys (critical connfd) e, places_at us xs ys gate e')
                  refl))),
      )
  Step-Calls {s = s} taken (pass us free (xs, ys, e, e') q) = (
    taken,
    rw q (
        next here (
          joins (wait_control s.broker) (places us)
            (
              places xs,
              places ys,
              places_at s.threads xs ys gate e,
              places_at us xs ys (forwarding 0) e',
            )
            refl)),
  )
  Step-Calls {s = s} taken (turn i j io' us h (xs, ys, e, e') q) =
      let (taken', run) =
        (entry-Calls now (places xs) (places ys) s.broker i s.io taken).at (j, io') h in
      (
        taken',
        rw (q, places_at s.threads xs ys (forwarding i) e, places_at us xs ys (forwarding j) e')
            run,
      )

  -- Every state that the threads reach with one entry as one step is reached call by call.
  pub Reach-Calls :
      {slots : ℕ} {io : Io (sockets now)} {s : System (sockets now)}
      → Reach (sockets now) slots io s
      → (taken : List (Route × Bytes)) × Calls now (at_start now io) (in_calls s taken)
  Reach-Calls (start s e) = ([], rw e here)
  Reach-Calls (Threads.next r c) =
      let (taken, run) = Reach-Calls r in
      let (taken', more) = Step-Calls taken c in (taken', Calls-trans now run more)
