-- ===== src/Threads/Calls/Messages.antt =====
-- The messages that come of a line, and what one round of the loop over the topics writes.
use mqttv.Base.{
  ℕ, zero, suc, ◌≡◌, refl, sym, ap, ◌∙◌, Option, none, some, true, List, [], ◌∷◌, ◌++◌, map,
  append-nil, if◌then◌else◌, Bool-cases, inl, inr, ltb, length, get_elem?,
}
use mqttv.Int.{ℤ, is_minus_one}
use mqttv.Result.{ok, fault, overrun, unset, ◌>>=◌, store}
use mqttv.Result.Ensures.{
  Ensures, Ensures-ok, Ensures-fault, Ensures-if, Ensures-bind, ok_injective,
}
use mqttv.CString.{Bytes, codes, newline, c_string}
use mqttv.CString.Split.{split}
use mqttv.CString.Split.Tokens.{tokens}
use mqttv.CString.Split.Reference.{split_lem}
use mqttv.Topics.{string_topics, level}
use mqttv.Net.{Io, write_log, maxline}
use mqttv.Forward.{cell_at, topic_message}
use mqttv.Broker.{Broker}
use mqttv.Rio.Connections.{Sockets, Reader, sockets, put_coming, read_line, written}
use mqttv.Threads.Calls.{Route, choose, receive, send_one}

-- The text of topic j; the value of the last topic brings its newline along.
abbrev pub topic_text : ℕ → Bytes → Bytes → Bytes
topic_text j prefix token = if ltb j 5 then (prefix ++ token) ++ newline else prefix ++ token

abbrev pub message : ℕ → Bytes → Option ℤ → Option Bytes → List Bytes
message j prefix (some cell) (some token) =
    if is_minus_one cell then [] else topic_text j prefix token ∷ []
message j prefix cell token = []

message_skip :
    (j : ℕ) (prefix : Bytes) (cell : ℤ) (token : Option Bytes)
    → is_minus_one cell ≡ true
    → message j prefix (some cell) token ≡ []
message_skip j prefix cell none e = refl
message_skip j prefix cell (some token) e = rw e refl

-- The messages from topic j on, for the cells of the row that are not -1.
abbrev pub messages : List Bytes → ℕ → List ℤ → List Bytes → List Bytes
messages [] j topic info = []
messages (prefix ∷ prefixes) j topic info =
    message j prefix (get_elem? topic j) (get_elem? info j) ++ messages prefixes (suc j) topic info

abbrev pub to_fd : ℤ → List Bytes → List (ℤ × Bytes)
to_fd fd ms = map (λ m. (fd, m)) ms

-- What comes of a line that was read for a route.
abbrev pub made_of : Route × Bytes → List (ℤ × Bytes)
made_of (route, line) =
    to_fd route.fd_sus (messages string_topics 0 route.topic (tokens (codes ",") (c_string line)))

abbrev pub made : List (Route × Bytes) → List (ℤ × Bytes)
made [] = []
made (r ∷ rs) = made_of r ++ made rs

store-Ensures : (cap : ℕ) (s : Bytes) → Ensures (λ t. t ≡ s) (store cap s)
store-Ensures cap s =
    Ensures-if (ltb (length s) cap) (ok s) (fault overrun) (λ _. Ensures-ok s refl)
      (λ _. Ensures-fault overrun)

topic_message-Ensures :
    (j : ℕ) (prefix token : Bytes)
    → Ensures (λ m. m ≡ topic_text j prefix token) (topic_message j prefix token)
unfolding topic_message
topic_message-Ensures j prefix token = Ensures-bind _ _ λ s e. Ensures-bind _ _ λ s' e'.
    Ensures-bind _ _ λ u g.
      let p : s' ≡ prefix ++ token =
        (store-Ensures 50 (s ++ token)).at s' e'
        ∙ ap (λ t. t ++ token) ((store-Ensures 50 prefix).at s e) in
      rw p (last j)
  where
    last :
        (j : ℕ)
        → Ensures
            (λ m. m ≡ topic_text j prefix token)
            (if ltb j 5 then store 50 ((prefix ++ token) ++ newline) else ok (prefix ++ token))
    last j = elim (Bool-cases (ltb j 5)) [
      | inl e ↦ rw e (store-Ensures 50 ((prefix ++ token) ++ newline))
      | inr e ↦ rw e (Ensures-ok (prefix ++ token) refl)
    ]

cell_at-Ensures {ℓ} :
    {A : Type ℓ} (xs : List A) (i : ℕ) → Ensures (λ x. get_elem? xs i ≡ some x) (cell_at xs i)
unfolding cell_at
cell_at-Ensures [] i = Ensures-fault overrun
cell_at-Ensures (x ∷ xs) zero = Ensures-ok x refl
cell_at-Ensures (x ∷ xs) (suc i) = cell_at-Ensures xs i

level-Ensures : (xs : List Bytes) (i : ℕ) → Ensures (λ x. get_elem? xs i ≡ some x) (level xs i)
unfolding level
level-Ensures [] i = Ensures-fault unset
level-Ensures (x ∷ xs) zero = Ensures-ok x refl
level-Ensures (x ∷ xs) (suc i) = level-Ensures xs i

split-Ensures :
    (cap : ℕ) (linea delim : Bytes) → Ensures (λ r. r ≡ tokens delim linea) (split cap linea delim)
split-Ensures cap linea delim = rw (split_lem cap linea delim) (
    Ensures-if (ltb cap (length (tokens delim linea))) (fault overrun) (ok (tokens delim linea))
      (λ _. Ensures-fault overrun) (λ _. Ensures-ok (tokens delim linea) refl))

module _ (now : Bytes) where
  pub write_log-Ensures :
      (msg : Bytes) (io : Io (sockets now))
      → Ensures (λ io'. io'.world ≡ io.world) (write_log (sockets now) msg io)
  unfolding write_log
  write_log-Ensures msg io =
      Ensures-bind _ _
        λ message _. Ensures-ok (record io { log = io.log ++ (message ++ newline) ∷ [] }) refl

  pub read_line-Ensures :
      (rio : Reader) (n : ℕ) (w : Sockets) → Ensures (λ r. r.2.sent ≡ w.sent) (read_line rio n w)
  read_line-Ensures (fd, unread) n w =
      Ensures-bind _ _ λ r _. Ensures-ok (r.0, (fd, r.1.unread), put_coming fd r.1.coming w) refl

  choose-Ensures :
      (b : Broker) (i : ℕ) (publisher : Bytes) (io : Io (sockets now))
      → Ensures (λ r. r.1.world ≡ io.world) (choose (sockets now) b i publisher io)
  unfolding choose
  choose-Ensures b i publisher io = Ensures-bind _ _ λ name _. Ensures-bind _ _ λ topic _.
      Ensures-bind _ _ λ pub_idx _. Ensures-bind _ _ λ fd_pub _. Ensures-bind _ _ λ suscriber _.
        Ensures-bind _ _ λ sus_idx _. Ensures-bind _ _ λ fd_sus _. Ensures-bind _ _ λ msg _.
          Ensures-bind _ _ λ io' e.
            Ensures-ok (route fd_pub fd_sus topic publisher, io')
              ((write_log-Ensures msg io).at io' e)
    where
      route : ℤ → ℤ → List ℤ → Bytes → Route
      route fd_pub fd_sus topic publisher = record {
        fd_pub = fd_pub;
        fd_sus = fd_sus;
        topic = topic;
        publisher = publisher;
      }

  -- What the line holds between its commas.
  pub receive-Ensures :
      (publisher line : Bytes) (io : Io (sockets now))
      → Ensures
          (λ r. (r.0 ≡ tokens (codes ",") (c_string line)) × (r.1.world ≡ io.world))
          (receive (sockets now) publisher line io)
  unfolding receive
  receive-Ensures publisher line io = Ensures-bind _ _ λ copy _. Ensures-bind _ _ λ tmp_buf _.
      Ensures-bind _ _ λ msg _. Ensures-bind _ _ λ io' e. Ensures-bind _ _ λ info e'.
        Ensures-ok (info, io')
          (
            (split-Ensures 10 (c_string line) (codes ",")).at info e',
            (write_log-Ensures msg io).at io' e,
          )

  -- One round of the loop writes the message of its topic, if there is one, and nothing else; that
  -- it returns does not hang on what the connections hold.
  pub send_one-written :
      (prefix : Bytes) (j : ℕ) (topic : List ℤ) (info : List Bytes) (fd : ℤ) (w : Sockets)
      → Ensures
          (λ _.
            (v : Sockets)
            → send_one (sockets now) prefix j topic info fd v
              ≡ ok (written fd (message j prefix (get_elem? topic j) (get_elem? info j)) v))
          (send_one (sockets now) prefix j topic info fd w)
  unfolding send_one ◌>>=◌
  send_one-written prefix j topic info fd w = Ensures-bind _ _ λ cell e.
      let p = (cell_at-Ensures topic j).at cell e in
      elim (Bool-cases (is_minus_one cell)) [
        | inl m ↦ rw m (
            Ensures-ok w λ v.
              rw (e, p)
                (rw (m, message_skip j prefix cell (get_elem? info j) m)
                  (rw (append-nil v.sent) refl)))
        | inr m ↦ rw m (
            Ensures-bind _ _ λ token f. Ensures-bind _ _ λ string g. Ensures-ok _ λ v.
              rw (e, p)
                (rw (m, f, (level-Ensures info j).at token f)
                  (rw (m, g, (topic_message-Ensures j prefix token).at string g) refl)))
      ]

  pub send_one-Ensures :
      (prefix : Bytes) (j : ℕ) (topic : List ℤ) (info : List Bytes) (fd : ℤ) (w : Sockets)
      → Ensures
          (λ w'.
            w'.sent ≡ w.sent ++ to_fd fd (message j prefix (get_elem? topic j) (get_elem? info j)))
          (send_one (sockets now) prefix j topic info fd w)
  send_one-Ensures prefix j topic info fd w = record {
    at = λ w' h.
        ap (λ u. u.sent)
          (ok_injective w' (written fd (message j prefix (get_elem? topic j) (get_elem? info j)) w)
            (sym h ∙ (send_one-written prefix j topic info fd w).at w' h w));
  }

  -- What a thread does in front of its writes leaves alone what was written.
  pub choose-sent :
      (b : Broker) (i : ℕ) (publisher : Bytes) (io io' : Io (sockets now)) (route : Route)
      → choose (sockets now) b i publisher io ≡ ok (route, io')
      → io'.world.sent ≡ io.world.sent
  choose-sent b i publisher io io' route h =
      ap (λ w. w.sent) ((choose-Ensures b i publisher io).at (route, io') h)

  pub nothing-sent :
      (fd : ℤ) (msg : Bytes) (w world : Sockets) (log : List Bytes) (rio' : Reader)
      (io' : Io (sockets now))
      → read_line (fd, []) maxline w ≡ ok ([], rio', world)
      → write_log (sockets now) msg (record { world = world; log = log }) ≡ ok io'
      → io'.world.sent ≡ w.sent
  nothing-sent fd msg w world log rio' io' r l =
      ap (λ u. u.sent) ((write_log-Ensures msg (record { world = world; log = log })).at io' l)
      ∙ (read_line-Ensures (fd, []) maxline w).at ([], rio', world) r

  pub line-sent :
      (fd : ℤ) (publisher line : Bytes) (w world : Sockets) (log : List Bytes) (rio' : Reader)
      (info : List Bytes) (io' : Io (sockets now))
      → read_line (fd, []) maxline w ≡ ok (line, rio', world)
      → receive (sockets now) publisher line (record { world = world; log = log }) ≡ ok (info, io')
      → (info ≡ tokens (codes ",") (c_string line)) × (io'.world.sent ≡ w.sent)
  line-sent fd publisher line w world log rio' info io' r h =
      let (cut, same) =
        (receive-Ensures publisher line (record { world = world; log = log })).at (info, io') h in
      (cut, ap (λ u. u.sent) same ∙ (read_line-Ensures (fd, []) maxline w).at (line, rio', world) r)
