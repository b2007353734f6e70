-- ===== src/Threads/Interleave.antt =====
-- `thread` of broker_server.c store by store: a registration takes several steps, between which the
-- threads in the loop of `forward_messages`, which do not wait for `sem_mutex`, read the tables. A
-- step goes up to the next store to the tables; the six cells of a row are one store, and a split is
-- part of one step (Threads/Strtok takes it call by call).
pub mod Stages
pub mod Marks
pub mod Tables
pub mod Atomic
pub mod Embedding
use mqttv.Base.{ℕ, ◌+◌, ◌-◌, ◌<◌, ◌≡◌, Option, none, some, List, [], ◌∷◌, ◌++◌, if◌then◌else◌, ltb}
use mqttv.Int.{ℤ}
use mqttv.Result.{Result, ok, overrun, ◌>>=◌, ◌>>◌, guard}
use mqttv.CString.{Bytes, codes, str_eq}
use mqttv.CString.Split.{split, cut_line}
use mqttv.Topics.{level, update_sus_info}
use mqttv.Net.{Net, Io, maxline}
use mqttv.Broker.{Broker, init, limit_conn_clients}
use mqttv.Broker.Register.{
  line_text, put_fd, put_name, put_sus, put_row, count_client, thread_log, announce,
}
use mqttv.Forward.{forward_entry}
use mqttv.Threads.{wait_mutex, post_mutex, wait_control}
use mqttv.Threads.Places.{Turns}

-- Where a thread stands; what it has read stands in its stack.
pub data Place : Type 0 where
  opened : ℤ → Place  -- before sem_wait(sem_mutex)
  entered : ℤ → Place  -- before the store of the descriptor
  reading : ℤ → Place  -- before the client's two lines are read
  named : (name : Bytes) (sus_line : Bytes) → Place  -- behind the store of the name
  subscribed : (name : Bytes) (sus : Bytes) (levels : List Bytes) → Place  -- before the row's store
  stored : Place  -- before fd_idx += 1
  counted : Place  -- before sem_post(sem_mutex)
  gate : Place  -- before sem_wait(sem_control)
  forwarding : ℕ → Place  -- in front of an entry of the loop

unfoldable pub store_fd : ℤ → Broker → Result Broker
store_fd connfd b = do guard (ltb b.fd_idx limit_conn_clients) overrun; ok (put_fd connfd b)

module _ (net : Net) where
  open net use {rio_readinitb, rio_readlineb}

  -- Both lines are read, and the name is stored.
  unfoldable pub store_name : ℤ → Broker → Io net → Result (Bytes × Bytes × Broker × Io net)
  store_name connfd b io = do
    (name_line, rio, world₁) ← rio_readlineb (rio_readinitb connfd) maxline io.world
    (sus_line, _, world₂) ← rio_readlineb rio maxline world₁
    name ← line_text name_line
    io' ← thread_log net (codes "Se ha conectado " ++ name) (record io { world = world₂ })
    ok (name, sus_line, put_name name b, io')

  -- The node, or NONE, is stored; `none` is the branch of NONE, which stores no row.
  unfoldable pub store_text :
      ℕ → Bytes → Bytes → Broker → Io net → Result (Option (Bytes × List Bytes) × Broker × Io net)
  store_text slots name sus b io =
      if str_eq sus (codes "NONE")
      then (do
        io' ← thread_log net (name ++ codes " no tiene ninguna suscripcion") io
        ok (none, put_sus sus b, io'))
      else do
        levels ← split slots sus (codes "/")
        node ← level levels 0
        ok (some (sus, levels), put_sus node b, io)

  unfoldable pub store_sus :
      ℕ → Bytes → Bytes → Broker → Io net → Result (Option (Bytes × List Bytes) × Broker × Io net)
  store_sus slots name sus_line b io = do sus ← line_text sus_line; store_text slots name sus b io

  unfoldable pub store_row :
      List ℤ → Bytes → Bytes → List Bytes → Broker → Io net → Result (Broker × Io net)
  store_row information name sus levels b io = do
    io' ←
        thread_log net (name ++ (codes " Se encuentra suscrito a: " ++ cut_line (codes "/") sus)) io
    info ← update_sus_info levels information
    ok (put_row info b, io')

  pub record State : Type 0 where
    pub broker : Broker
    pub io : Io net
    pub threads : List Place

  -- A thread that faults or leaves the process makes no step.
  pub data Move (slots : ℕ) (s t : State) : Type 0 where
    accept :
        (connfd : ℤ) (io' : Io net)
        → announce net connfd s.io ≡ ok io'
        → t ≡ record { broker = s.broker; io = io'; threads = s.threads ++ (opened connfd ∷ []) }
        → Move slots s t
    enter :
        (connfd : ℤ) (us : List Place)
        → 0 < s.broker.sem_mutex
        → Turns s.threads (opened connfd) (entered connfd) us
        → t ≡ record { broker = wait_mutex s.broker; io = s.io; threads = us }
        → Move slots s t
    fd_stored :
        (connfd : ℤ) (b' : Broker) (us : List Place)
        → store_fd connfd s.broker ≡ ok b'
        → Turns s.threads (entered connfd) (reading connfd) us
        → t ≡ record { broker = b'; io = s.io; threads = us }
        → Move slots s t
    name_stored :
        (connfd : ℤ) (name sus_line : Bytes) (b' : Broker) (io' : Io net) (us : List Place)
        → store_name connfd s.broker s.io ≡ ok (name, sus_line, b', io')
        → Turns s.threads (reading connfd) (named name sus_line) us
        → t ≡ record { broker = b'; io = io'; threads = us }
        → Move slots s t
    none_stored :
        (name sus_line : Bytes) (b' : Broker) (io' : Io net) (us : List Place)
        → store_sus slots name sus_line s.broker s.io ≡ ok (none, b', io')
        → Turns s.threads (named name sus_line) stored us
        → t ≡ record { broker = b'; io = io'; threads = us }
        → Move slots s t
    node_stored :
        (name sus_line sus : Bytes) (levels : List Bytes) (b' : Broker) (io' : Io net)
        (us : List Place)
        → store_sus slots name sus_line s.broker s.io ≡ ok (some (sus, levels), b', io')
        → Turns s.threads (named name sus_line) (subscribed name sus levels) us
        → t ≡ record { broker = b'; io = io'; threads = us }
        → Move slots s t
    row_stored :
        (information : List ℤ) (name sus : Bytes) (levels : List Bytes) (b' : Broker) (io' : Io net)
        (us : List Place)
        → store_row information name sus levels s.broker s.io ≡ ok (b', io')
        → Turns s.threads (subscribed name sus levels) stored us
        → t ≡ record { broker = b'; io = io'; threads = us }
        → Move slots s t
    count :
        (us : List Place)
        → Turns s.threads stored counted us
        → t ≡ record { broker = count_client s.broker; io = s.io; threads = us }
        → Move slots s t
    leave :
        (us : List Place)
        → Turns s.threads counted gate us
        → t ≡ record { broker = post_mutex s.broker; io = s.io; threads = us }
        → Move slots s t
    pass :
        (us : List Place)
        → 0 < s.broker.sem_control
        → Turns s.threads gate (forwarding 0) us
        → t ≡ record { broker = wait_control s.broker; io = s.io; threads = us }
        → Move slots s t
    turn :
        (i j : ℕ) (io' : Io net) (us : List Place)
        → forward_entry net s.broker i s.io ≡ ok (j, io')
        → Turns s.threads (forwarding i) (forwarding j) us
        → t ≡ record { broker = s.broker; io = io'; threads = us }
        → Move slots s t

  -- Runs of any length.
  pub data Moves (slots : ℕ) (s : State) : State → Type 0 where
    here : Moves slots s s
    next : {t u : State} → Moves slots s t → Move slots t u → Moves slots s u

  abbrev pub at_start : Io net → State
  at_start io = record { broker = init; io = io; threads = [] }
