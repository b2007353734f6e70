-- ===== src/Threads.antt =====
-- The threads of broker_server.c: `main` starts one for each connection, and the semaphores order
-- them. A step is one thread's way up to its next wait, or one entry of its loop: a registration is one
-- step, between whose stores no entry of a loop, which does not wait for `sem_mutex`, is served.
-- Threads/Interleave takes a registration store by store instead, Threads/Calls an entry call by call,
-- and Threads/Strtok a split call by call.
pub mod Setup
pub mod Start
pub mod Places
pub mod Invariant
pub mod Progress
pub mod Growth
pub mod Interleave
pub mod Calls
pub mod Strtok
use mqttv.Base.{ℕ, zero, suc, ◌+◌, ◌-◌, ◌<◌, ◌≡◌, List, [], ◌∷◌, ◌++◌}
use mqttv.Int.{ℤ}
use mqttv.Result.{Result, ok}
use mqttv.Net.{Net, Io}
use mqttv.Broker.{Broker, init}
use mqttv.Broker.Register.{announce, register}
use mqttv.Forward.{forward_entry}

-- Where a thread stands: before sem_wait(sem_mutex), in the critical section, before
-- sem_wait(sem_control), or in front of entry i of the loop of `forward_messages`.
pub data Pc : Type 0 where
  opened : ℤ → Pc
  critical : ℤ → Pc
  gate : Pc
  forwarding : ℕ → Pc

unfoldable pub wait_mutex : Broker → Broker
wait_mutex b = record b { sem_mutex = b.sem_mutex - 1 }

unfoldable pub post_mutex : Broker → Broker
post_mutex b = record b { sem_mutex = b.sem_mutex + 1 }

unfoldable pub wait_control : Broker → Broker
wait_control b = record b { sem_control = b.sem_control - 1 }

module _ (net : Net) where
  pub record System : Type 0 where
    pub broker : Broker
    pub io : Io net
    pub threads : List Pc

  -- A thread at `pc`, between the others, goes on to `pc'`.
  abbrev pub Goes : List Pc → Pc → Pc → List Pc → Type 0
  Goes ts pc pc' us =
      (xs : List Pc) × (ys : List Pc) × (ts ≡ xs ++ (pc ∷ ys)) × (us ≡ xs ++ (pc' ∷ ys))

  -- `slots` is the size of buf_suscription_info, two cells in the program. A thread that faults or
  -- leaves the process makes no step.
  pub data Step (slots : ℕ) (s t : System) : Type 0 where
    accept :
        (connfd : ℤ) (io' : Io net)
        → announce net connfd s.io ≡ ok io'
        → t ≡ record { broker = s.broker; io = io'; threads = s.threads ++ (opened connfd ∷ []) }
        → Step slots s t
    enter :
        (connfd : ℤ) (us : List Pc)
        → 0 < s.broker.sem_mutex
        → Goes s.threads (opened connfd) (critical connfd) us
        → t ≡ record { broker = wait_mutex s.broker; io = s.io; threads = us }
        → Step slots s t
    leave :
        (connfd : ℤ) (information : List ℤ) (b' : Broker) (io' : Io net) (us : List Pc)
        → register net slots information connfd s.broker s.io ≡ ok (b', io')
        → Goes s.threads (critical connfd) gate us
        → t ≡ record { broker = post_mutex b'; io = io'; threads = us }
        → Step slots s t
    pass :
        (us : List Pc)
        → 0 < s.broker.sem_control
        → Goes s.threads gate (forwarding 0) us
        → t ≡ record { broker = wait_control s.broker; io = s.io; threads = us }
        → Step slots s t
    turn :
        (i j : ℕ) (io' : Io net) (us : List Pc)
        → forward_entry net s.broker i s.io ≡ ok (j, io')
        → Goes s.threads (forwarding i) (forwarding j) us
        → t ≡ record { broker = s.broker; io = io'; threads = us }
        → Step slots s t

  pub data Reach (slots : ℕ) (io : Io net) : System → Type 0 where
    start : (s : System) → s ≡ record { broker = init; io = io; threads = [] } → Reach slots io s
    next : {s t : System} → Reach slots io s → Step slots s t → Reach slots io t
