-- ===== src/Journey/Whole.antt =====
-- The three programs from their starts: a publisher and a subscriber connect to a broker that holds no
-- client yet.
pub mod Asked
pub mod Served
use mqttv.Base.{
  ℕ, zero, suc, ◌+◌, length-append, ◌<◌, ◌≤◌, ◌≡◌, refl, ◌≢◌, sym, subst, ap, ◌∙◌, Bool, true,
  false, not, List, [], ◌∷◌, ◌++◌, map, arith, length, All, Bool-cases, inl, inr, if◌then◌else◌,
}
use mqttv.Int.{ℤ, is_minus_one}
use mqttv.Topics.Filters.{IsSupported, picked, wanted, and_each}
use mqttv.Forward.Delivery.{topic_lines}
use mqttv.Topics.{string_topics}
use mqttv.Result.{Result, ok, ◌>>=◌}
use mqttv.CString.{Bytes, codes, newline, str_eq, str_eq_refl, HasNoNul}
use mqttv.CString.Split.RoundTrip.{join, IsWord}
use mqttv.Net.{Io, maxline}
use mqttv.Broker.{Broker, init, limit_conn_clients}
use mqttv.Broker.Directory.{Client, directory}
use mqttv.Broker.Tables.{IsValid, init-IsValid}
use mqttv.Broker.Register.{register}
use mqttv.Broker.Register.Effect.{register-IsValid}
use mqttv.Broker.Register.Greeting.{greeting_lines}
use mqttv.Forward.{forward_rounds}
use mqttv.Publisher.{Floats, Block}
use mqttv.Publisher.Rounds.{Files}
use mqttv.Publisher.Main.{Lines, main_sends}
use mqttv.Subscriber.Main.{connected_to, write_lines, main_prints}
use mqttv.Publisher
use mqttv.Subscriber
use mqttv.Rio.{Answer, got}
use mqttv.Rio.Fresh.{IsLine}
use mqttv.Rio.Connections.{Sockets, sockets, same_fd, put_coming, coming_put}
use mqttv.Threads.Calls.Messages.{made}
use mqttv.Journey.Shares.{announcement, arriving, Deals, rounds_deal}
use mqttv.Journey.Session.Shown.{IsShown, Carry, Carry-Reads, c_string-IsShown}
use mqttv.Journey.Session.Opening.{opening}
use mqttv.Journey.Delivery.{selected}
use mqttv.Journey.Session.{
  texts_on, texts_on-to_fd, sent_line, arriving_lines, shown, shown-IsShown, session_made,
  session-Deals, s, along,
}
use mqttv.Journey.Session.Reports.{Report, line_of, values, IsReport}
use mqttv.Journey.Whole.Asked.{asked}
use mqttv.Journey.Whole.Served.{AreFitting, Outcome, serves}

-- Open_clientfd that gives a connection on which these answers come.
abbrev pub connects :
    (now : Bytes) → ℤ → List Answer → Io (sockets now) → Result (ℤ × Io (sockets now))
connects now fd answers io = ok (fd, record io { world = put_coming fd answers io.world })

module _ (now : Bytes) (slots : ℕ) (u₀ u₁ u₂ u₃ u₄ u₅ : ℤ) (publisher name : Bytes)
    (filter : List Bytes) (fd_pub fd_sus : ℤ) where
  abbrev topic : Bytes
  topic = join b'/' (publisher ∷ filter)

  abbrev information : List ℤ
  information = u₀ ∷ u₁ ∷ u₂ ∷ u₃ ∷ u₄ ∷ u₅ ∷ []

  -- The connections of the broker, of which each text that was written to them is one answer.
  abbrev pub at_broker : List Bytes → List Bytes → Sockets
  at_broker from_publisher from_subscriber =
      put_coming fd_pub (map got from_publisher)
        (put_coming fd_sus (map got from_subscriber) (record { coming = λ fd. []; sent = [] }))

  from_publisher :
      (rs : List Report) (greeting : List Bytes)
      → (at_broker ((publisher ++ newline) ∷ codes "NONE\n" ∷ map sent_line rs) greeting).coming
          fd_pub
        ≡ got (publisher ++ newline) ∷ got (codes "NONE\n") ∷ arriving (map line_of rs) []
  from_publisher rs greeting =
      coming_put fd_pub _
        (put_coming fd_sus (map got greeting) (record { coming = λ fd. []; sent = [] }))
      ∙ ap (λ (answers : List Answer). got (publisher ++ newline) ∷ got (codes "NONE\n") ∷ answers)
          (arriving_lines rs)

  from_subscriber :
      AreFitting now slots u₀ u₁ u₂ u₃ u₄ u₅ publisher name filter fd_pub fd_sus
      → (lines : List Bytes)
      → (at_broker lines ((name ++ newline) ∷ (topic ++ newline) ∷ [])).coming fd_sus
        ≡ got (name ++ newline) ∷ got (topic ++ newline) ∷ []
  from_subscriber h lines = rw h.apart (
      coming_put fd_sus (got (name ++ newline) ∷ got (topic ++ newline) ∷ [])
        (record { coming = λ fd. []; sent = [] }))

  two_writes :
      (fd : ℤ) (first second : Bytes) (w : Sockets)
      → write_lines (sockets now) fd (first ∷ second ∷ []) w
        ≡ ok (record w { sent = (w.sent ++ (fd, first) ∷ []) ++ (fd, second) ∷ [] })
  unfolding write_lines ◌>>=◌
  two_writes fd first second w = refl

  subscriber_shows :
      (n : ℕ) (connfd : ℤ) (ms : List Bytes) (answers : List Answer) (w : Sockets)
      → AreFitting now slots u₀ u₁ u₂ u₃ u₄ u₅ publisher name filter fd_pub fd_sus
      → All IsShown ms
      → Carry answers ms
      → length ms < n
      → (w' : Sockets) × (Subscriber.Main.main
            (sockets now)
            n
            3
            name
            topic
            (connects now connfd answers)
            (record { world = w; log = [] })
          ≡ ok (
            true,
            record {
              world = w';
              log = (name ++ newline) ∷ (topic ++ newline) ∷ connected_to name topic ∷ ms;
            },
          ))
  subscriber_shows n connfd ms answers w h shown (alive, all) enough =
      let w₁ = put_coming connfd answers w in
      let w₂ : Sockets = record w₁ {
        sent = (w.sent ++ (connfd, name ++ newline) ∷ []) ++ (connfd, topic ++ newline) ∷ [];
      } in
      let arrived = coming_put connfd answers w in
      let (w', reads) = Carry-Reads now ms connfd [] w₂ shown (rw arrived alive) (rw arrived all) in
      (
        w',
        main_prints (sockets now) n name topic connfd (connects now connfd answers)
              (record { world = w; log = [] })
              (record { world = w₁; log = (name ++ newline) ∷ (topic ++ newline) ∷ [] })
              (greeting_lines name topic h.name_fits.2 h.topic_fits.2) refl
              (two_writes connfd (name ++ newline) (topic ++ newline) w₁) reads enough
            ∙ rw (c_string-IsShown ms shown) refl,
      )

  -- A publisher, the broker and a subscriber to the publisher, each from its start. The names and the
  -- subscription fit in the buffers, differ, are not NONE, hold no newlines or NULs, and use a filter
  -- that the broker reads as the README describes it (IsSupported); the two connections of the broker differ, and the text of the time is
  -- shorter than 100 bytes; the publisher makes of each report of top a line of six values that fit and
  -- hold no commas, newlines or NULs; each text that is written to the broker arrives in one answer, and
  -- what the broker writes arrives at the subscriber in any pieces, and then the stream ends. Then the
  -- publisher sends all of its lines, the broker registers first the publisher and then the subscriber
  -- and comes through as many rounds as there are reports, and the subscriber ends after it has printed
  -- its arguments, the control message and for each report, in their order, the lines of exactly the
  -- topics that its filter asks for (up to cells of the uninitialised array that were -1), and nothing
  -- else. Fuel for one round more than there are lines is enough for the subscriber, and for three
  -- entries for each round of the broker.
  pub whole :
      (floats : Floats) (malloc : ℕ → Block) (grep : Bytes → List Bytes → Bytes)
      {files files' : Files} {tops infos : List Bytes} (rs : List Report) (m n : ℕ)
      (clientfd connfd : ℤ) (cut : List Bytes → List Answer) (w_s : Sockets) (log : List Bytes)
      → AreFitting now slots u₀ u₁ u₂ u₃ u₄ u₅ publisher name filter fd_pub fd_sus
      → Lines now floats malloc grep files tops infos files'
      → infos ≡ map sent_line rs
      → All (IsReport now publisher) rs
      → 2 < m
      → ((ts : List Bytes) → All IsShown ts → Carry (cut ts) ts)
      → length (asked filter information rs) < n
      → (io_p : Io (sockets now)) × (io₁ : Io (sockets now)) × (io₂ : Io (sockets now)) × (io_b : Io
          (sockets now))
        × (b₁ : Broker) × (b₂ : Broker) × (w' : Sockets) × (Publisher.Main.main
              (sockets now)
              floats
              malloc
              grep
              2
              publisher
              (connects now clientfd [])
              tops
              files
              (record { world = record { coming = λ fd. []; sent = [] }; log = [] })
            ≡ ok (files', io_p))
        × (register (sockets now) slots information fd_pub init (record {
          world =
              at_broker
                (texts_on clientfd io_p.world.sent)
                ((name ++ newline) ∷ (topic ++ newline) ∷ []);
          log = log;
        })
            ≡ ok (b₁, io₁))
        × (register (sockets now) slots information fd_sus b₁ io₁ ≡ ok (b₂, io₂))
        × (forward_rounds (sockets now) m (length rs) b₂ io₂ ≡ ok io_b)
        × (Subscriber.Main.main
              (sockets now)
              n
              3
              name
              topic
              (connects now connfd (cut (texts_on fd_sus io_b.world.sent)))
              (record { world = w_s; log = [] })
            ≡ ok (
              true,
              record {
                world = w';
                log =
                    (name ++ newline)
                    ∷ (topic ++ newline)
                    ∷ connected_to name topic
                    ∷ asked filter information rs;
              },
            ))
  whole floats malloc grep {infos = infos} rs m n clientfd connfd cut w_s log h makes same good fuel
        carries enough =
      let lines = (publisher ++ newline) ∷ codes "NONE\n" ∷ infos in
      let published =
        main_sends now floats malloc grep publisher clientfd (connects now clientfd [])
          (record { world = record { coming = λ fd. []; sent = [] }; log = [] })
          (put_coming clientfd [] (record { coming = λ fd. []; sent = [] })) [] h.publisher_fits.2
          refl makes in
      let greeting = (name ++ newline) ∷ (topic ++ newline) ∷ [] in
      let start = at_broker ((publisher ++ newline) ∷ codes "NONE\n" ∷ map sent_line rs) greeting in
      let served : Outcome now slots u₀ u₁ u₂ u₃ u₄ u₅ publisher name filter fd_pub fd_sus rs m
          start log =
        serves now slots u₀ u₁ u₂ u₃ u₄ u₅ publisher name filter fd_pub fd_sus rs m start log [] h
          good fuel refl (from_publisher rs greeting)
          (from_subscriber h ((publisher ++ newline) ∷ codes "NONE\n" ∷ map sent_line rs)) in
      let (w', prints) =
        subscriber_shows n connfd (asked filter information rs) (cut (asked filter information rs))
          w_s h served.all_shown (carries (asked filter information rs) served.all_shown) enough in
      (
        _,
        served.io₁,
        served.io₂,
        served.io_b,
        served.b₁,
        served.b₂,
        w',
        published,
        rw (texts_on-to_fd clientfd lines) (rw same served.first),
        served.second,
        served.rounds,
        rw served.texts prints,
      )
