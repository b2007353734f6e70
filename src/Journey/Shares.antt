-- ===== src/Journey/Shares.antt =====
-- Which subscriber gets which line, where all subscriptions are to one node of broker_server.c.
use mqttv.Base.{
  ℕ, suc, ◌+◌, ◌<◌, ◌≡◌, refl, sym, ap, ◌∙◌, true, false, some, List, [], ◌∷◌, ◌++◌, arith,
  append-nil, append_assoc, length, lt→ltb, length-append,
}
use mqttv.Int.{ℤ}
use mqttv.Result.{ok, ◌>>=◌, store_fits}
use mqttv.CString.{Bytes, codes, newline, str_eq}
use mqttv.Topics.{string_topics}
use mqttv.Net.{Io, write_log, maxline}
use mqttv.Broker.{Broker, limit_conn_clients}
use mqttv.Broker.Tables.{IsValid}
use mqttv.Broker.Directory.{Client, directory, find_fd}
use mqttv.Forward.{forward_line, forward_message, forward_times, forward_rounds}
use mqttv.Forward.Service.{deliver, serve_client, serve_all, forward_round-serves}
use mqttv.Journey.Delivery.{forward_read-line}
use mqttv.Rio.{Answer, got}
use mqttv.Rio.Fresh.{IsLine}
use mqttv.Rio.Connections.{sockets, put_coming, coming_put, written}
use mqttv.Threads.Calls.{Route}
use mqttv.Threads.Calls.Messages.{messages, made_of, made}
use mqttv.Threads.Calls.Lines.{logged, read_line-fresh, Forwards, forwards, made_of-Forwards}

abbrev pub route_of : ℤ → ℤ → Client → Route
route_of fd_pub fd_sus c = record {
  fd_pub = fd_pub;
  fd_sus = fd_sus;
  topic = c.row;
  publisher = c.sus;
}

-- The text that is logged in front of a call of forward_message.
abbrev pub announcement : Client → Bytes
announcement c =
    codes "Se envia informacion desde [" ++ (c.sus ++ (codes "] -> [" ++ (c.name ++ codes "]")))

-- Lines that come in one answer each, and the answers behind them.
abbrev pub arriving : List Bytes → List Answer → List Answer
arriving [] rest = rest
arriving (l ∷ ls) rest = got (l ++ newline) ∷ arriving ls rest

arriving-append :
    (ls ls' : List Bytes) (rest : List Answer)
    → arriving (ls ++ ls') rest ≡ arriving ls (arriving ls' rest)
arriving-append [] ls' rest = refl
arriving-append (l ∷ ls) ls' rest = ap (◌∷◌ (got (l ++ newline))) (arriving-append ls ls' rest)

made_both : (rs rs' : List (Route × Bytes)) → made (rs ++ rs') ≡ made rs ++ made rs'
made_both [] rs' = refl
made_both (r ∷ rs) rs' =
    ap (λ (ws : List (ℤ × Bytes)). made_of r ++ ws) (made_both rs rs')
    ∙ sym (append_assoc (made_of r) (made rs) (made rs'))

module _ (now : Bytes) where
  -- A line that the broker can forward along a route.
  abbrev pub IsForwardable : Route → Bytes → Type 0
  IsForwardable r l =
      (io : Io (sockets now)) × (out : Io (sockets now)) × (forward_line (sockets now) r.fd_sus
          r.topic r.publisher (l ++ newline) io
        ≡ ok out)

  -- A round of the loop over `clients`: the clients that are left, the lines that come, and the
  -- lines with the routes along which they go.
  pub data Deal (clients : List Client) (fd_pub : ℤ)
      : List Client → List Bytes → List (Route × Bytes) → Type 0 where
    nobody : Deal clients fd_pub [] [] []
    passed_over :
        {c : Client} {cs : List Client} {ls : List Bytes} {rs : List (Route × Bytes)}
        → str_eq c.sus (codes "NONE") ≡ true
        → Deal clients fd_pub cs ls rs
        → Deal clients fd_pub (c ∷ cs) ls rs
    served :
        {c : Client} {cs : List Client} {l : Bytes} {ls : List Bytes} {rs : List (Route × Bytes)}
        (fd_sus : ℤ)
        → str_eq c.sus (codes "NONE") ≡ false
        → find_fd c.sus clients ≡ some fd_pub
        → find_fd c.name clients ≡ some fd_sus
        → length (announcement c) + length now < maxline
        → IsLine l
        → length l < 8191
        → IsForwardable (route_of fd_pub fd_sus c) l
        → Deal clients fd_pub cs ls rs
        → Deal clients fd_pub (c ∷ cs) (l ∷ ls) ((route_of fd_pub fd_sus c, l ++ newline) ∷ rs)

  -- Any number of rounds.
  pub data Deals (clients : List Client) (fd_pub : ℤ)
      : ℕ → List Bytes → List (Route × Bytes) → Type 0 where
    no_more : Deals clients fd_pub 0 [] []
    round :
        {n : ℕ} {ls ls' : List Bytes} {rs rs' : List (Route × Bytes)}
        → Deal clients fd_pub clients ls rs
        → Deals clients fd_pub n ls' rs'
        → Deals clients fd_pub (suc n) (ls ++ ls') (rs ++ rs')

  -- Code that returns, has written the messages of `rs`, and has left `rest` to come.
  abbrev Gives :
      ℤ → Io (sockets now) → List (Route × Bytes) → List Answer → Io (sockets now) → Type 0
  Gives fd_pub io rs rest io' =
      (io'.world.sent ≡ io.world.sent ++ made rs) × (io'.world.coming fd_pub ≡ rest)

  message-Gives :
      (r : Route) (l : Bytes) (rest : List Answer) (io : Io (sockets now))
      → IsForwardable r l
      → IsLine l
      → length l < 8191
      → io.world.coming r.fd_pub ≡ got (l ++ newline) ∷ rest
      → (io' : Io (sockets now)) × (forward_message
            (sockets now)
            r.fd_pub
            r.fd_sus
            r.topic
            r.publisher
            io
          ≡ ok io')
        × Gives r.fd_pub io ((r, l ++ newline) ∷ []) rest io'
  unfolding forward_message forward_times ◌>>=◌
  message-Gives r l rest io (io₀, out, h) line short e =
      let f : Forwards now r l = forwards now r l io₀ out h in
      let read : Io (sockets now) = record io { world = put_coming r.fd_pub rest io.world } in
      let ms = messages string_topics 0 r.topic f.info in
      (
        logged now f.text (record read { world = written r.fd_sus ms read.world }),
        rw (read_line-fresh now r.fd_pub l rest io.world e line short) (
            rw (forward_read-line (sockets now) r.fd_sus r.topic r.publisher l read)
              (rw (f.delivers read) refl)),
        (
          ap (λ (ws : List (ℤ × Bytes)). io.world.sent ++ ws)
              (made_of-Forwards now r l io f ∙ sym (append-nil (made_of (r, l ++ newline)))),
          coming_put r.fd_pub rest io.world,
        ),
      )

  deliver-Gives :
      (clients : List Client) (c : Client) (fd_pub fd_sus : ℤ) (l : Bytes) (rest : List Answer)
      (io : Io (sockets now))
      → find_fd c.sus clients ≡ some fd_pub
      → find_fd c.name clients ≡ some fd_sus
      → length (announcement c) + length now < maxline
      → IsForwardable (route_of fd_pub fd_sus c) l
      → IsLine l
      → length l < 8191
      → io.world.coming fd_pub ≡ got (l ++ newline) ∷ rest
      → (io' : Io (sockets now)) × (deliver (sockets now) clients c io ≡ ok io')
        × Gives fd_pub io ((route_of fd_pub fd_sus c, l ++ newline) ∷ []) rest io'
  unfolding deliver write_log ◌>>=◌
  deliver-Gives clients c fd_pub fd_sus l rest io p s room can line short e =
      let said = logged now ((now ++ announcement c) ++ newline) io in
      let (io', forwards', gives) =
        message-Gives (route_of fd_pub fd_sus c) l rest said can line short e in
      (
        io',
        rw (p, s)
            (rw (store_fits maxline (announcement c) (omega arith)) (
              rw
                (store_fits maxline (now ++ announcement c)
                  (omega (arith, length-append now (announcement c))))
                forwards')),
        gives,
      )

  Gives-both :
      (fd_pub : ℤ) (io io₁ io₂ : Io (sockets now)) (rs rs' : List (Route × Bytes))
      (answers rest : List Answer)
      → Gives fd_pub io rs answers io₁
      → Gives fd_pub io₁ rs' rest io₂
      → Gives fd_pub io (rs ++ rs') rest io₂
  Gives-both fd_pub io io₁ io₂ rs rs' answers rest (p, _) (q, left) = (
    q ∙ rw p (append_assoc io.world.sent (made rs) (made rs') ∙ rw (made_both rs rs') refl),
    left,
  )

  serve-Gives :
      {clients : List Client} {fd_pub : ℤ} {cs : List Client} {ls : List Bytes}
      {rs : List (Route × Bytes)}
      → Deal clients fd_pub cs ls rs
      → (rest : List Answer) (io : Io (sockets now)) → io.world.coming fd_pub ≡ arriving ls rest
      → (io' : Io (sockets now)) × (serve_all (sockets now) clients cs io ≡ ok io')
        × Gives fd_pub io rs rest io'
  unfolding serve_all serve_client ◌>>=◌
  serve-Gives nobody rest io e = (io, refl, (sym (append-nil io.world.sent), e))
  serve-Gives (passed_over none d) rest io e = rw none (serve-Gives d rest io e)
  serve-Gives {clients} {fd_pub}
        (served {c} {cs} {l} {ls} {rs} fd_sus some_node p s room line short can d) rest io e =
      let (io₁, first, gives) =
        deliver-Gives clients c fd_pub fd_sus l (arriving ls rest) io p s room can line short e in
      let (io₂, others, gives') = serve-Gives d rest io₁ gives.1 in
      (
        io₂,
        rw some_node (rw first others),
        Gives-both fd_pub io io₁ io₂ ((route_of fd_pub fd_sus c, l ++ newline) ∷ []) rs
            (arriving ls rest) rest gives gives',
      )

  -- From tables in order with a free cell, where each subscription is to a name whose first client has
  -- the descriptor fd_pub, the names of the subscribers are in the directory, and what is logged fits,
  -- and where on that descriptor a line of less than 8191 bytes comes in each answer, as many as there
  -- are turns of subscribers, each of which the broker can forward along the route of that turn: with
  -- fuel for one entry more than there are clients, the rounds return, and what they have written is
  -- the messages of each line along the route of its own turn, in the order of the turns. So a line
  -- goes to one subscriber only, and what comes behind the lines is still to come.
  pub rounds_deal :
      {b : Broker} {fd_pub : ℤ} {n : ℕ} {ls : List Bytes} {rs : List (Route × Bytes)} (m : ℕ)
      → IsValid b
      → b.fd_idx < limit_conn_clients
      → b.fd_idx < m
      → Deals (directory b) fd_pub n ls rs
      → (rest : List Answer) (io : Io (sockets now)) → io.world.coming fd_pub ≡ arriving ls rest
      → (io' : Io (sockets now)) × (forward_rounds (sockets now) m n b io ≡ ok io')
        × (io'.world.sent ≡ io.world.sent ++ made rs)
        × (io'.world.coming fd_pub ≡ rest)
  unfolding forward_rounds ◌>>=◌
  rounds_deal m v few lt no_more rest io e = (io, refl, sym (append-nil io.world.sent), e)
  rounds_deal {b} {fd_pub} m v few lt (round {n} {ls} {ls'} {rs} {rs'} d ds) rest io e =
      let (io₁, first, gives) =
        serve-Gives d (arriving ls' rest) io (e ∙ arriving-append ls ls' rest) in
      let (io₂, others, sent₂, left₂) = rounds_deal m v few lt ds rest io₁ gives.1 in
      let (sent, left) =
        Gives-both fd_pub io io₁ io₂ rs rs' (arriving ls' rest) rest gives (sent₂, left₂) in
      (
        io₂,
        rw (forward_round-serves (sockets now) m b io v lt)
            (rw first (rw (lt→ltb b.fd_idx limit_conn_clients few) others)),
        sent,
        left,
      )
