-- ===== src/Journey/Session/Opening.antt =====
-- How the broker comes to its tables: a publisher and a subscriber to it register one after the other.
use mqttv.Base.{
  ℕ, ◌≤◌, ◌<◌, ◌≡◌, refl, ◌≢◌, false, List, [], ◌∷◌, ◌++◌, arith, lt→ltb, length, length-append,
  All,
}
use mqttv.Int.{ℤ, pos}
use mqttv.Result.{ok, ◌>>=◌}
use mqttv.CString.{Bytes, codes, newline, str_eq, HasNoNul}
use mqttv.CString.Split.RoundTrip.{join, IsWord}
use mqttv.Topics.Filters.{IsSupported, picked, wanted, and_each}
use mqttv.Net.{Io}
use mqttv.Broker.{Broker, init, limit_conn_clients}
use mqttv.Broker.Directory.{Client, directory, view}
use mqttv.Broker.Register.{register, subscribe, put_fd, put_name, put_sus, put_row, count_client}
use mqttv.Broker.Register.Greeting.{line_text-newline}
use mqttv.Broker.Register.Subscription.{logged, with_line, register_subscriber}
use mqttv.Rio.{Answer, got}
use mqttv.Rio.Fresh.{IsLine}
use mqttv.Rio.Connections.{Sockets, sockets, same_fd, put_coming, coming_put}
use mqttv.Threads.Calls.Lines.{read_line-fresh}
use mqttv.Journey.Session.Reports.{plain_lem}

none_IsLine : IsLine (codes "NONE")
none_IsLine = (plain_lem (codes "NONE") refl).0

none_HasNoNul : HasNoNul (codes "NONE")
none_HasNoNul = (plain_lem (codes "NONE") refl).1

module _ (now : Bytes) (slots : ℕ) where
  -- What is left to come behind two answers of one line each.
  abbrev after_two : ℤ → Answer → List Answer → Sockets → Sockets
  after_two fd second rest w = put_coming fd rest (put_coming fd (second ∷ rest) w)

  publisher_registers :
      (information : List ℤ) (fd : ℤ) (b : Broker) (w : Sockets) (log : List Bytes) (name : Bytes)
      (rest : List Answer)
      → b.fd_idx < limit_conn_clients
      → w.coming fd ≡ got (name ++ newline) ∷ got (codes "NONE\n") ∷ rest
      → IsLine name
      → HasNoNul name
      → length name < 19
      → length now < 100
      → (io' : Io (sockets now)) × (register
            (sockets now)
            slots
            information
            fd
            b
            (record { world = w; log = log })
          ≡ ok (count_client (put_sus (codes "NONE") (put_name name (put_fd fd b))), io'))
        × (io'.world ≡ after_two fd (got (codes "NONE\n")) rest w)
  unfolding register subscribe ◌>>=◌ str_eq
  publisher_registers information fd b w log name rest free e line no_nul short time =
      let left = got (codes "NONE\n") ∷ rest in
      let w₁ = put_coming fd left w in
      let w₂ = put_coming fd rest w₁ in
      let io₁ =
        with_line (sockets now) (codes "Se ha conectado " ++ name)
          (record { world = w₂; log = log }) in
      (
        with_line (sockets now) (name ++ codes " no tiene ninguna suscripcion") io₁,
        rw (lt→ltb b.fd_idx limit_conn_clients free) (
            rw (read_line-fresh now fd name left w e line (omega arith)) (
              rw
                (read_line-fresh now fd (codes "NONE") rest w₁ (coming_put fd left w) none_IsLine
                  (omega arith))
                (rw (line_text-newline name no_nul) (
                  rw
                    (logged (sockets now) (codes "Se ha conectado " ++ name)
                      (record { world = w₂; log = log })
                      (omega (arith, length-append (codes "Se ha conectado ") name)) time)
                    (rw (line_text-newline (codes "NONE") none_HasNoNul) (
                      rw
                        (logged (sockets now) (name ++ codes " no tiene ninguna suscripcion") io₁
                          (omega
                            (arith, length-append name (codes " no tiene ninguna suscripcion")))
                          time)
                        refl)))))),
        refl,
      )

  -- The tables behind the two registrations.
  abbrev pub with_publisher : ℤ → Bytes → Broker
  with_publisher fd name = count_client (put_sus (codes "NONE") (put_name name (put_fd fd init)))

  abbrev pub with_both : ℤ → Bytes → ℤ → Bytes → List ℤ → Broker
  with_both fd_pub publisher fd_sus name row = count_client (
      put_row row
        (put_sus publisher (put_name name (put_fd fd_sus (with_publisher fd_pub publisher)))))

  -- The row that static storage holds is not read for a publisher.
  abbrev pub publisher_client : ℤ → Bytes → Client
  publisher_client fd name = record {
    name = name;
    fd = fd;
    sus = codes "NONE";
    row = pos 0 ∷ pos 0 ∷ pos 0 ∷ pos 0 ∷ pos 0 ∷ pos 0 ∷ [];
  }

  abbrev pub subscriber_client : ℤ → Bytes → Bytes → List ℤ → Client
  subscriber_client fd name publisher row = record {
    name = name;
    fd = fd;
    sus = publisher;
    row = row;
  }

  pub directory-with_both :
      (fd_pub : ℤ) (publisher : Bytes) (fd_sus : ℤ) (name : Bytes) (row : List ℤ)
      → directory (with_both fd_pub publisher fd_sus name row)
        ≡ publisher_client fd_pub publisher ∷ subscriber_client fd_sus name publisher row ∷ []
  unfolding directory view count_client put_row put_sus put_name put_fd
  directory-with_both fd_pub publisher fd_sus name row = refl

  pub count-with_both :
      (fd_pub : ℤ) (publisher : Bytes) (fd_sus : ℤ) (name : Bytes) (row : List ℤ)
      → (with_both fd_pub publisher fd_sus name row).fd_idx ≡ 2
  unfolding count_client put_row put_sus put_name put_fd
  count-with_both fd_pub publisher fd_sus name row = refl

  count-with_publisher : (fd : ℤ) (name : Bytes) → (with_publisher fd name).fd_idx ≡ 1
  unfolding count_client put_sus put_name put_fd
  count-with_publisher fd name = refl

  module _ (a b c d e f : ℤ) where
    abbrev information : List ℤ
    information = a ∷ b ∷ c ∷ d ∷ e ∷ f ∷ []

    pub opening :
        (fd_pub fd_sus : ℤ) (w : Sockets) (log : List Bytes) (publisher name : Bytes)
        (filter : List Bytes) (rest rest' : List Answer)
        → same_fd fd_pub fd_sus ≡ false
        → same_fd fd_sus fd_pub ≡ false
        → w.coming fd_pub ≡ got (publisher ++ newline) ∷ got (codes "NONE\n") ∷ rest
        → w.coming fd_sus
          ≡ got (name ++ newline) ∷ got (join b'/' (publisher ∷ filter) ++ newline) ∷ rest'
        → IsLine publisher × HasNoNul publisher × (length publisher < 19)
        → IsLine name × HasNoNul name × (length name < 19)
        → IsLine (join b'/' (publisher ∷ filter))
          × HasNoNul (join b'/' (publisher ∷ filter))
          × (length (join b'/' (publisher ∷ filter)) < 19)
        → All (IsWord (codes "/")) (publisher ∷ filter)
        → length (publisher ∷ filter) ≤ slots
        → join b'/' (publisher ∷ filter) ≢ codes "NONE"
        → IsSupported filter
        → length now < 100
        → (row : List ℤ) × (io₁ : Io (sockets now)) × (io₂ : Io (sockets now)) × (register
              (sockets now)
              slots
              information
              fd_pub
              init
              (record { world = w; log = log })
            ≡ ok (with_publisher fd_pub publisher, io₁))
          × (register (sockets now) slots information fd_sus (with_publisher fd_pub publisher) io₁
              ≡ ok (with_both fd_pub publisher fd_sus name row, io₂))
          × (picked row ≡ and_each (wanted filter) (picked information))
          × (io₂.world.sent ≡ w.sent)
          × (io₂.world.coming fd_pub ≡ rest)
    opening fd_pub fd_sus w log publisher name filter rest rest' ne ne' arrives arrives'
          (line₁, no_nul₁, short₁) (line₂, no_nul₂, short₂) (line₃, no_nul₃, short₃) words fits
          other supported time =
        let topic = join b'/' (publisher ∷ filter) in
        let (io₁, first, same) =
          publisher_registers information fd_pub init w log publisher rest (omega arith) arrives
            line₁ no_nul₁ short₁ time in
        let v = after_two fd_pub (got (codes "NONE\n")) rest w in
        let left = got (topic ++ newline) ∷ rest' in
        let comes : v.coming fd_sus ≡ got (name ++ newline) ∷ left = rw ne arrives' in
        let v₁ = put_coming fd_sus left v in
        let v₂ = put_coming fd_sus rest' v₁ in
        let (row, io₂, second, exact, same') =
          register_subscriber (sockets now) slots a b c d e f fd_sus
            (with_publisher fd_pub publisher) io₁ name publisher filter (fd_sus, []) (fd_sus, []) v₁
            v₂ (omega (arith, count-with_publisher fd_pub publisher))
            (rw same (read_line-fresh now fd_sus name left v comes line₂ (omega arith)))
            (read_line-fresh now fd_sus topic rest' v₁ (coming_put fd_sus left v) line₃
              (omega arith))
            no_nul₂ no_nul₃ words fits other supported (omega arith) (omega arith) time in
        (
          row,
          io₁,
          io₂,
          first,
          second,
          exact,
          rw same' refl,
          rw same'
              (rw ne' (coming_put fd_pub rest (put_coming fd_pub (got (codes "NONE\n") ∷ rest) w))),
        )
