-- ===== src/Threads/Calls/Alone.antt =====
-- One thread's calls, one behind the other with nothing in between.
use mqttv.Base.{ℕ, suc, ◌*◌, ◌≡◌, refl, sym, ap, ◌∙◌, List, [], ◌∷◌, ◌++◌}
use mqttv.Int.{ℤ}
use mqttv.Result.{ok, ◌>>=◌, >>=-eq-ok, bind_assoc, store}
use mqttv.Result.Ensures.{Ensures, Ensures-ok, Ensures-bind, ok_injective}
use mqttv.CString.{Bytes, codes, c_string, chop}
use mqttv.CString.Split.{split}
use mqttv.Topics.{string_topics}
use mqttv.Net.{Net, Io, write_log, maxline}
use mqttv.Broker.{Broker}
use mqttv.Forward.{cell_at, send_from, forward_line, forward_read, forward_times, forward_message}
use mqttv.Rio.Connections.{Sockets, Reader, sockets, read_line}
use mqttv.Threads.Calls.{
  Route, Spot, at, reading, sending, Process, reads_nothing, reads, sends, finishes, Calls, here,
  next, receive, send_one,
}

-- The code behind a read, from its own parts.
module _ (net : Net) where
  pub receive_ok :
      (publisher line copy tmp_buf msg : Bytes) (io io' : Io net) (info : List Bytes)
      → store 100 (c_string line) ≡ ok copy
      → chop copy ≡ ok tmp_buf
      → store
          (maxline * 2)
          (codes "Se ha recibido [" ++ (tmp_buf ++ (codes "] de [" ++ (publisher ++ codes "]"))))
        ≡ ok msg
      → write_log net msg io ≡ ok io'
      → split 10 (c_string line) (codes ",") ≡ ok info
      → receive net publisher line io ≡ ok (info, io')
  unfolding receive ◌>>=◌
  receive_ok publisher line copy tmp_buf msg io io' info e₁ e₂ e₃ e₄ e₅ =
      rw e₁ (rw e₂ (rw e₃ (rw e₄ (rw e₅ refl))))

module _ (now : Bytes) where
  pub Calls-trans : {s t u : Process (sockets now)} → Calls now s t → Calls now t u → Calls now s u
  Calls-trans r here = r
  Calls-trans r (next r' c) = next (Calls-trans r r') c

  pub send_from-cons :
      (prefix : Bytes) (prefixes : List Bytes) (j : ℕ) (topic : List ℤ) (info : List Bytes) (fd : ℤ)
      (w : Sockets)
      → send_from (sockets now) (prefix ∷ prefixes) j topic info fd w ≡ (
          send_one (sockets now) prefix j topic info fd w
          >>= send_from (sockets now) prefixes (suc j) topic info fd)
  unfolding send_from send_one
  send_from-cons prefix prefixes j topic info fd w = sym (bind_assoc (cell_at topic j) _ _)

  -- The thread stands between xs and ys.
  module _ (xs ys : List Spot) (b : Broker) where
    abbrev pub with_spot : Io (sockets now) → List (Route × Bytes) → Spot → Process (sockets now)
    with_spot io taken t = record { broker = b; io = io; spots = xs ++ t ∷ ys; taken = taken }

    pub send_from-Calls :
        (i : ℕ) (route : Route) (prefixes : List Bytes) (j : ℕ) (info : List Bytes)
        (log : List Bytes) (taken : List (Route × Bytes)) (w w' : Sockets)
        → send_from (sockets now) prefixes j route.topic info route.fd_sus w ≡ ok w'
        → Calls now
            (with_spot (record { world = w; log = log }) taken (sending i route prefixes j info))
            (with_spot (record { world = w'; log = log }) taken (at (suc i)))
    unfolding send_from
    send_from-Calls i route [] j info log taken w w' e = next here (
        finishes i route j info (xs ++ at (suc i) ∷ ys) (xs, ys, refl, refl)
          (ap (λ u. with_spot (record { world = u; log = log }) taken (at (suc i)))
            (sym (ok_injective w w' e))))
    send_from-Calls i route (prefix ∷ prefixes) j info log taken w w' e =
        let (w₁, p, q) =
          >>=-eq-ok (send_one (sockets now) prefix j route.topic info route.fd_sus w)
            (send_from (sockets now) prefixes (suc j) route.topic info route.fd_sus)
            (sym (send_from-cons prefix prefixes j route.topic info route.fd_sus w) ∙ e) in
        Calls-trans
          (next here (
            sends i route prefix prefixes j info w₁
              (xs ++ sending i route prefixes (suc j) info ∷ ys) p (xs, ys, refl, refl) refl))
          (send_from-Calls i route prefixes (suc j) info log taken w₁ w' q)

    -- A line that was read.
    line-Calls :
        (i : ℕ) (route : Route) (c : ℕ) (line : Bytes) (rio' : Reader) (w world : Sockets)
        (log : List Bytes) (taken : List (Route × Bytes))
        → read_line (route.fd_pub, []) maxline w ≡ ok (c ∷ line, rio', world)
        → Ensures
            (λ io'.
              Calls now
                (with_spot (record { world = w; log = log }) taken (reading i route))
                (with_spot io' (taken ++ (route, c ∷ line) ∷ []) (at (suc i))))
            (forward_line
              (sockets now)
              route.fd_sus
              route.topic
              route.publisher
              (c ∷ line)
              (record { world = world; log = log }))
    unfolding forward_line
    line-Calls i route c line rio' w world log taken r = Ensures-bind _ _ λ copy e₁.
        Ensures-bind _ _ λ tmp_buf e₂. Ensures-bind _ _ λ msg e₃. Ensures-bind _ _ λ io₁ e₄.
          Ensures-bind _ _ λ info e₅. Ensures-bind _ _ λ world' e₆.
            Ensures-ok (record io₁ { world = world' })
              (Calls-trans
                (next here (
                  reads i route c line rio' world info io₁
                    (xs ++ sending i route string_topics 0 info ∷ ys) r
                    (receive_ok (sockets now) route.publisher (c ∷ line) copy tmp_buf msg
                      (record { world = world; log = log }) io₁ info e₁ e₂ e₃ e₄ e₅)
                    (xs, ys, refl, refl) refl))
                (send_from-Calls i route string_topics 0 info io₁.log
                  (taken ++ (route, c ∷ line) ∷ []) io₁.world world' e₆))

    pub message-Calls :
        (i : ℕ) (route : Route) (io : Io (sockets now)) (taken : List (Route × Bytes))
        → Ensures
            (λ io'.
              (taken' : List (Route × Bytes)) × Calls now
                (with_spot io taken (reading i route))
                (with_spot io' taken' (at (suc i))))
            (forward_message (sockets now) route.fd_pub route.fd_sus route.topic route.publisher io)
    unfolding forward_message forward_times forward_read
    message-Calls i route io taken =
        Ensures-bind _ _
          λ r e. Ensures-bind _ _ λ io₁ e'. Ensures-ok io₁ (by_line r.0 r.1 r.2 io₁ e e')
      where
        by_line :
            (line : Bytes) (rio' : Reader) (world : Sockets) (io₁ : Io (sockets now))
            → read_line (route.fd_pub, []) maxline io.world ≡ ok (line, rio', world)
            → forward_read
                (sockets now)
                route.fd_sus
                route.topic
                route.publisher
                line
                (record io { world = world })
              ≡ ok io₁
            → (taken' : List (Route × Bytes)) × Calls now
                (with_spot io taken (reading i route))
                (with_spot io₁ taken' (at (suc i)))
        by_line [] rio' world io₁ r l = (
          taken,
          next here (
              reads_nothing i route rio' world io₁ (xs ++ at (suc i) ∷ ys) r l (xs, ys, refl, refl)
                refl),
        )
        by_line (c ∷ line) rio' world io₁ r h = (
          taken ++ (route, c ∷ line) ∷ [],
          (line-Calls i route c line rio' io.world world io.log taken r).at io₁ h,
        )
