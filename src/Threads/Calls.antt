-- ===== src/Threads/Calls.antt =====
-- The loops of `forward_messages` call by call: between any two calls of a thread on a connection, the
-- other threads run. A step goes up to the next call of Rio_readlineb or Rio_writen, or to the next
-- test of a loop. The network is that of Rio/Connections, in which a call of Rio_writen is one write.
-- The split of a line is part of the step that reads it: so the runs are those in which no other thread
-- calls strtok, whose pointer all threads share, while one is splitting (Threads/Strtok).
pub mod Messages
pub mod Conservation
pub mod Order
pub mod Alone
pub mod Entries
pub mod Embedding
pub mod Lines
pub mod Overtaking
use mqttv.Base.{
  ℕ, zero, suc, ◌*◌, ◌≡◌, Option, none, some, List, [], ◌∷◌, ◌++◌, if◌then◌else◌, true, false,
}
use mqttv.Int.{ℤ, is_minus_one}
use mqttv.Result.{Result, ok, ◌>>=◌, store}
use mqttv.CString.{Bytes, codes, c_string, chop, str_eq}
use mqttv.CString.Split.{split}
use mqttv.Topics.{string_topics, level}
use mqttv.Net.{Net, Io, write_log, maxline}
use mqttv.Broker.{Broker, init, find_index_by_client_name, fd_at}
use mqttv.Forward.{cell_at, not_null, topic_message}
use mqttv.Threads.Places.{Turns}
use mqttv.Rio.Connections.{Sockets, Reader, sockets}

-- The arguments of a call of forward_message, of which it uses all but the subscriber's name.
pub record Route : Type 0 where
  pub fd_pub : ℤ
  pub fd_sus : ℤ
  pub topic : List ℤ
  pub publisher : Bytes

-- Where a thread stands; the number is the index of the entry that it serves.
pub data Spot : Type 0 where
  elsewhere : Spot  -- in front of the loop
  at : ℕ → Spot  -- at the test of the loop over the entries
  reading : ℕ → Route → Spot  -- in front of Rio_readlineb
  -- at the test of the loop over the topics, with the prefixes that are left, and j
  sending : ℕ → Route → (prefixes : List Bytes) → (j : ℕ) → (info : List Bytes) → Spot

module _ (net : Net) where
  open net use {World, rio_readinitb, rio_readlineb, rio_writen}

  -- From the entry of a client with a subscription to the call of forward_message.
  unfoldable pub choose : Broker → ℕ → Bytes → Io net → Result (Route × Io net)
  choose b i publisher io = do
    name ← cell_at b.client_name_list i
    topics_number ← cell_at b.topic_list i
    pub_idx ← find_index_by_client_name publisher b
    fd_pub ← fd_at b.client_fd_list pub_idx
    suscriber ← not_null net name
    sus_idx ← find_index_by_client_name suscriber b
    fd_sus ← fd_at b.client_fd_list sus_idx
    msg ← store maxline (
        codes "Se envia informacion desde ["
        ++ (publisher ++ (codes "] -> [" ++ (suscriber ++ codes "]"))))
    io' ← write_log net msg io
    ok (
      record { fd_pub = fd_pub; fd_sus = fd_sus; topic = topics_number; publisher = publisher },
      io',
    )

  -- From the line that was read to the loop over the topics. The split stands for all its calls of
  -- strtok, with no call of another thread between them.
  unfoldable pub receive : Bytes → Bytes → Io net → Result (List Bytes × Io net)
  receive publisher line io = do
    copy ← store 100 (c_string line)
    tmp_buf ← chop copy
    msg ←
        store (maxline * 2)
          (codes "Se ha recibido [" ++ (tmp_buf ++ (codes "] de [" ++ (publisher ++ codes "]"))))
    io' ← write_log net msg io
    info ← split 10 (c_string line) (codes ",")
    ok (info, io')

  -- The body of the loop over the topics.
  unfoldable pub send_one : Bytes → ℕ → List ℤ → List Bytes → ℤ → World → Result World
  send_one prefix j topic info fd_suscriber world = do
    cell ← cell_at topic j
    if is_minus_one cell then ok world else do
      token ← level info j
      string ← topic_message j prefix token
      rio_writen fd_suscriber string world

  pub record Process : Type 0 where
    pub broker : Broker
    pub io : Io net
    pub spots : List Spot
    pub taken : List (Route × Bytes)

-- `taken` is no part of the program's state: it is the lines that were read, with their routes.
module _ (now : Bytes) where
  -- A thread that faults or leaves the process makes no step.
  pub data Call (s t : Process (sockets now)) : Type 0 where
    -- main and the threads in front of their loops, which write to no connection
    registers :
        (b' : Broker) (io' : Io (sockets now))
        → io'.world.sent ≡ s.io.world.sent
        → t ≡ record s { broker = b'; io = io' }
        → Call s t
    accepts :
        (io' : Io (sockets now))
        → io'.world.sent ≡ s.io.world.sent
        → t ≡ record s { io = io'; spots = s.spots ++ (elsewhere ∷ []) }
        → Call s t
    joins :
        (b' : Broker) (us : List Spot)
        → Turns s.spots elsewhere (at 0) us
        → t ≡ record s { broker = b'; spots = us }
        → Call s t
    starts_again :
        (i : ℕ) (us : List Spot)
        → cell_at s.broker.client_sus_list i ≡ ok none
        → Turns s.spots (at i) (at 0) us
        → t ≡ record s { spots = us }
        → Call s t
    passes_over :
        (i : ℕ) (publisher : Bytes) (us : List Spot)
        → cell_at s.broker.client_sus_list i ≡ ok (some publisher)
        → str_eq publisher (codes "NONE") ≡ true
        → Turns s.spots (at i) (at (suc i)) us
        → t ≡ record s { spots = us }
        → Call s t
    chooses :
        (i : ℕ) (publisher : Bytes) (route : Route) (io' : Io (sockets now)) (us : List Spot)
        → cell_at s.broker.client_sus_list i ≡ ok (some publisher)
        → str_eq publisher (codes "NONE") ≡ false
        → choose (sockets now) s.broker i publisher s.io ≡ ok (route, io')
        → Turns s.spots (at i) (reading i route) us
        → t ≡ record s { io = io'; spots = us }
        → Call s t
    reads_nothing :
        (i : ℕ) (route : Route) (rio' : Reader) (world : Sockets) (io' : Io (sockets now))
        (us : List Spot)
        → (sockets now).rio_readlineb ((sockets now).rio_readinitb route.fd_pub) maxline s.io.world
          ≡ ok ([], rio', world)
        → write_log
            (sockets now)
            (codes "No hay mensaje disponible para enviar...\n")
            (record s.io { world = world })
          ≡ ok io'
        → Turns s.spots (reading i route) (at (suc i)) us
        → t ≡ record s { io = io'; spots = us }
        → Call s t
    reads :
        (i : ℕ) (route : Route) (c : ℕ) (line : Bytes) (rio' : Reader) (world : Sockets)
        (info : List Bytes) (io' : Io (sockets now)) (us : List Spot)
        → (sockets now).rio_readlineb ((sockets now).rio_readinitb route.fd_pub) maxline s.io.world
          ≡ ok (c ∷ line, rio', world)
        → receive (sockets now) route.publisher (c ∷ line) (record s.io { world = world })
          ≡ ok (info, io')
        → Turns s.spots (reading i route) (sending i route string_topics 0 info) us
        → t ≡ record s { io = io'; spots = us; taken = s.taken ++ (route, c ∷ line) ∷ [] }
        → Call s t
    sends :
        (i : ℕ) (route : Route) (prefix : Bytes) (prefixes : List Bytes) (j : ℕ) (info : List Bytes)
        (world : Sockets) (us : List Spot)
        → send_one (sockets now) prefix j route.topic info route.fd_sus s.io.world ≡ ok world
        → Turns s.spots
            (sending i route (prefix ∷ prefixes) j info)
            (sending i route prefixes (suc j) info)
            us
        → t ≡ record s { io = record s.io { world = world }; spots = us }
        → Call s t
    finishes :
        (i : ℕ) (route : Route) (j : ℕ) (info : List Bytes) (us : List Spot)
        → Turns s.spots (sending i route [] j info) (at (suc i)) us
        → t ≡ record s { spots = us }
        → Call s t

  -- Runs of any length.
  pub data Calls (s : Process (sockets now)) : Process (sockets now) → Type 0 where
    here : Calls s s
    next : {t u : Process (sockets now)} → Calls s t → Call t u → Calls s u

  abbrev pub at_start : Io (sockets now) → Process (sockets now)
  at_start io = record { broker = init; io = io; spots = []; taken = [] }
