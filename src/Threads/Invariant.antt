-- ===== src/Threads/Invariant.antt =====
-- What the two semaphores guarantee in every state that the threads can reach.
use mqttv.Base.{ℕ, ◌+◌, ◌-◌, ◌≤◌, ◌<◌, ◌≡◌, refl, List, [], arith}
use mqttv.Net.{Net, Io}
use mqttv.Broker.Tables.{IsValid, IsValid-sems, init-IsValid}
use mqttv.Broker.Register.Effect.{register-Registered, Registered-IsValid}
use mqttv.Threads.Places.{total, total-nil, total-append, total-Turns}
use mqttv.Threads.{
  Pc, opened, critical, gate, forwarding, System, Goes, Step, accept, enter, leave, pass, turn,
  Reach, start, next, wait_mutex, post_mutex, wait_control,
}

abbrev pub in_critical : Pc → ℕ
in_critical (critical fd) = 1
in_critical (opened fd) = 0
in_critical gate = 0
in_critical (forwarding i) = 0

abbrev pub at_gate : Pc → ℕ
at_gate (critical fd) = 0
at_gate (opened fd) = 0
at_gate gate = 1
at_gate (forwarding i) = 0

abbrev pub in_loop : Pc → ℕ
in_loop (critical fd) = 0
in_loop (opened fd) = 0
in_loop gate = 0
in_loop (forwarding i) = 1

pub record Inv (net : Net) (s : System net) : Type 0 where
  pub valid : IsValid s.broker
  pub mutex : total in_critical s.threads + s.broker.sem_mutex ≡ 1
  pub clients : total at_gate s.threads + total in_loop s.threads ≡ s.broker.fd_idx
  pub control : total in_loop s.threads + s.broker.sem_control ≡ s.broker.fd_idx - 1

module _ (net : Net) where
  -- What a step does to the places of one thread.
  abbrev Moves : System net → List Pc → Pc → Pc → Type 0
  Moves s us pc pc' =
      (total in_critical us + in_critical pc ≡ total in_critical s.threads + in_critical pc')
      × (total at_gate us + at_gate pc ≡ total at_gate s.threads + at_gate pc')
      × (total in_loop us + in_loop pc ≡ total in_loop s.threads + in_loop pc')

  moves :
      (s : System net) (us : List Pc) (pc pc' : Pc)
      → Goes net s.threads pc pc' us
      → Moves s us pc pc'
  moves s us pc pc' g = (
    total-Turns in_critical s.threads us pc pc' g,
    total-Turns at_gate s.threads us pc pc' g,
    total-Turns in_loop s.threads us pc pc' g,
  )

  Step-Inv : {slots : ℕ} {s t : System net} → Step net slots s t → Inv net s → Inv net t
  unfolding wait_mutex post_mutex wait_control
  Step-Inv {s = s} (accept connfd io' h e) v =
      let n = λ (w : Pc → ℕ). total-append w s.threads (opened connfd) [] in
      rw e (record {
        valid = v.valid;
        mutex = omega (arith, n in_critical, total-nil in_critical);
        clients = omega (arith, n at_gate, n in_loop, total-nil at_gate, total-nil in_loop);
        control = omega (arith, n in_loop, total-nil in_loop);
      })
  Step-Inv {s = s} (enter connfd us free g e) v =
      let m = moves s us (opened connfd) (critical connfd) g in
      rw e (record {
        valid = IsValid-sems s.broker s.broker.sem_control (s.broker.sem_mutex - 1) v.valid;
        mutex = omega arith;
        clients = omega arith;
        control = omega arith;
      })
  Step-Inv {s = s} (leave connfd information b' io' us h g e) v =
      let m = moves s us (critical connfd) gate g in
      let r = (register-Registered net _ information connfd s.broker s.io).at (b', io') h in
      rw e (record {
        valid =
            IsValid-sems b' b'.sem_control (b'.sem_mutex + 1)
              (Registered-IsValid connfd s.broker b' r v.valid);
        mutex = omega (arith, r.mutex);
        clients = omega (arith, r.count);
        control = ground (arith, r.count, r.control);
      })
  Step-Inv {s = s} (pass us free g e) v =
      let m = moves s us gate (forwarding 0) g in
      rw e (record {
        valid = IsValid-sems s.broker (s.broker.sem_control - 1) s.broker.sem_mutex v.valid;
        mutex = omega arith;
        clients = omega arith;
        control = omega arith;
      })
  Step-Inv {s = s} (turn i j io' us h g e) v =
      let m = moves s us (forwarding i) (forwarding j) g in
      rw e (record {
        valid = v.valid;
        mutex = omega arith;
        clients = omega arith;
        control = omega arith;
      })

  pub Reach-Inv : {slots : ℕ} {io : Io net} {s : System net} → Reach net slots io s → Inv net s
  unfolding total
  Reach-Inv (start s e) =
      rw e (record { valid = init-IsValid; mutex = refl; clients = refl; control = refl })
  Reach-Inv (next r st) = Step-Inv st (Reach-Inv r)

  -- In every state that the threads can reach, at most one of them is in the critical section, and
  -- one is exactly if `sem_mutex` is 0.
  pub mutual_exclusion :
      {slots : ℕ} {io : Io net} {s : System net}
      → Reach net slots io s
      → (total in_critical s.threads ≤ 1) × (total in_critical s.threads ≡ 1 - s.broker.sem_mutex)
  mutual_exclusion r = let v = Reach-Inv r in (omega (arith, v.mutex), omega (arith, v.mutex))

  -- In every state that the threads can reach, the tables are in order: ten cells each, and those
  -- of the counted clients are set and no others.
  pub Reach-IsValid :
      {slots : ℕ} {io : Io net} {s : System net} → Reach net slots io s → IsValid s.broker
  Reach-IsValid r = (Reach-Inv r).valid

  -- Each client that is counted has its thread, in the loop or in front of it; once there is one,
  -- there is always one thread in front of the loop more than `sem_control` lets in, so all but one
  -- can pass, and one client's thread waits for good.
  pub one_waits :
      {slots : ℕ} {io : Io net} {s : System net}
      → Reach net slots io s
      → 0 < s.broker.fd_idx
      → (total at_gate s.threads + total in_loop s.threads ≡ s.broker.fd_idx)
        × (total at_gate s.threads ≡ s.broker.sem_control + 1)
        × (total in_loop s.threads < s.broker.fd_idx)
  one_waits r some_client =
      let v = Reach-Inv r in
      (v.clients, omega (arith, v.clients, v.control), omega (arith, v.clients, v.control))
