-- ===== src/Journey/Connect.antt =====
-- From the two lines that sub_client.c sends to the broker's tables, over a connection that the
-- system cuts up as it likes.
use mqttv.Base.{
  ℕ, suc, ◌≤◌, ◌<◌, ◌≡◌, ◌∙◌, ◌≢◌, List, [], ◌∷◌, ◌++◌, arith, length, All, append_assoc,
}
use mqttv.Int.{ℤ}
use mqttv.Result.{ok}
use mqttv.CString.{Bytes, codes, newline, HasNoNul}
use mqttv.CString.Split.RoundTrip.{join, IsWord}
use mqttv.Topics.Filters.{IsSupported, picked, wanted, and_each}
use mqttv.Net.{Io}
use mqttv.Broker.{Broker, limit_conn_clients}
use mqttv.Broker.Register.{register}
use mqttv.Broker.Tables.{IsValid}
use mqttv.Broker.Directory.{directory}
use mqttv.Broker.Register.Greeting.{greeting_lines}
use mqttv.Broker.Directory.Subscriber.{subscriber_entered}
use mqttv.Subscriber
use mqttv.Rio.Lines.{IsAlive, all_bytes}
use mqttv.Rio.Fresh.{IsLine}
use mqttv.Rio.Connections.{Sockets, sockets, put_coming, read_line_lem, coming_put}

greeting_parts :
    (name topic first second : Bytes)
    → length name < 19
    → length topic < 19
    → Subscriber.greeting 3 name topic ≡ ok (first ∷ second ∷ [])
    → (first ≡ name ++ newline) × (second ≡ topic ++ newline)
greeting_parts name topic first second l m e =
    let p = greeting_lines name topic l m in (cc (e, p), cc (e, p))

module _ (now : Bytes) (slots : ℕ) (a b c d e f : ℤ) where
  abbrev row : List ℤ
  row = a ∷ b ∷ c ∷ d ∷ e ∷ f ∷ []

  -- With tables in order and room for a client: of a subscriber whose name and topic its own
  -- buffers have room for, that asks by a filter that the broker reads as the README describes it
  -- (IsSupported), with levels that fit into the array of split (`slots`, two cells in the program),
  -- the directory gets one more entry behind the others: with its name and node, the descriptor of
  -- its connection, and a row with exactly the topics asked for (but for those whose cell of the
  -- array on the stack was -1 by chance), however the two lines arrive: the system may give them in
  -- any pieces, with interruptions, and with more bytes behind them. One more client is
  -- counted. The texts hold no NUL and no newline, the levels are not empty and hold no `/`, the
  -- subscription is not NONE, and the time is shorter than 100 bytes.
  pub subscriber_connects :
      (connfd : ℤ) (s : Broker) (w : Sockets) (log : List Bytes) (name node : Bytes)
      (filter : List Bytes) (first second rest : Bytes)
      → IsValid s
      → s.fd_idx < limit_conn_clients
      → Subscriber.greeting 3 name (join b'/' (node ∷ filter)) ≡ ok (first ∷ second ∷ [])
      → IsAlive (w.coming connfd)
      → all_bytes (w.coming connfd) ≡ first ++ (second ++ rest)
      → HasNoNul name
      → HasNoNul (join b'/' (node ∷ filter))
      → IsLine name
      → IsLine (join b'/' (node ∷ filter))
      → All (IsWord (codes "/")) (node ∷ filter)
      → length (node ∷ filter) ≤ slots
      → join b'/' (node ∷ filter) ≢ codes "NONE"
      → IsSupported filter
      → length name < 19
      → length (join b'/' (node ∷ filter)) < 19
      → length now < 100
      → (row' : List ℤ) × (s' : Broker) × (io' : Io (sockets now)) × (register
            (sockets now)
            slots
            row
            connfd
            s
            (record { world = w; log = log })
          ≡ ok (s', io'))
        × (directory s'
            ≡ directory s ++ record { name = name; fd = connfd; sus = node; row = row' } ∷ [])
        × (s'.fd_idx ≡ suc s.fd_idx)
        × (picked row' ≡ and_each (wanted filter) (picked row))
  subscriber_connects connfd s w log name node filter first second rest v free greeted alive arrives
        n₁ n₂ line₁ line₂ words fits ne supported l m k =
      let topic = join b'/' (node ∷ filter) in
      let (p, q) = greeting_parts name topic first second l m greeted in
      let (unread₁, answers₁, r₁, alive₁, left₁) =
        read_line_lem connfd [] w name ((topic ++ newline) ++ rest) alive
          (arrives ∙ (rw (p, q) (append_assoc name newline ((topic ++ newline) ++ rest)))) line₁
          (omega (arith, l)) in
      let w₁ = put_coming connfd answers₁ w in
      let same = coming_put connfd answers₁ w in
      let (unread₂, answers₂, r₂, alive₂, left₂) =
        read_line_lem connfd unread₁ w₁ topic rest (rw same alive₁)
          (rw same (left₁ ∙ append_assoc topic newline rest)) line₂ (omega (arith, m)) in
      let (row', s', io', registered, entry, counted, exact, _) =
        subscriber_entered (sockets now) slots a b c d e f connfd s
          (record { world = w; log = log }) name node filter (connfd, unread₁) (connfd, unread₂) w₁
          (put_coming connfd answers₂ w₁) v free r₁ r₂ n₁ n₂ words fits ne supported
          (omega (arith, l)) (omega (arith, m)) k in
      (row', s', io', registered, entry, counted, exact)
