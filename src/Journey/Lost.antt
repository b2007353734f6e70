-- ===== src/Journey/Lost.antt =====
-- What becomes of messages that reach the broker together.
use mqttv.Base.{
  ℕ, suc, ◌+◌, ◌<◌, ◌≡◌, refl, inl, inr, List, [], ◌∷◌, ◌++◌, if◌then◌else◌, length, Bool-cases,
}
use mqttv.Int.{ℤ, is_minus_one}
use mqttv.Result.{Result, ok, fault, exits, ◌>>=◌}
use mqttv.Result.Ensures.{Ensures, Ensures-ok, Ensures-bind}
use mqttv.CString.{Bytes, newline}
use mqttv.Topics.{level, string_topics}
use mqttv.Net.{Io, write_log, maxline}
use mqttv.Forward.{
  topic_message, send_from, forward_line, forward_read, forward_times, forward_message,
}
use mqttv.Rio.{Answer, got, rio_readinitb}
use mqttv.Rio.Fresh.{IsLine, rio_readlineb-fresh}
use mqttv.Rio.Connections.{Sockets, sockets, put_coming, coming_put}

module _ (now : Bytes) (fd : ℤ) (answers : List Answer) where
  -- Nothing but `answers` is to come on the descriptor.
  abbrev Keeps : Sockets → Type 0
  Keeps w = w.coming fd ≡ answers

  send_from-Keeps :
      (prefixes : List Bytes) (j : ℕ) (topic : List ℤ) (info : List Bytes) (fd_sus : ℤ)
      (w : Sockets)
      → Keeps w
      → Ensures Keeps (send_from (sockets now) prefixes j topic info fd_sus w)
  unfolding send_from
  send_from-Keeps [] j topic info fd_sus w h = Ensures-ok w h
  send_from-Keeps (prefix ∷ prefixes) j topic info fd_sus w h = Ensures-bind _ _ λ cell _.
      Ensures-bind _ _
        λ w' e. send_from-Keeps prefixes (suc j) topic info fd_sus w' ((written cell).at w' e)
    where
      written :
          (cell : ℤ)
          → Ensures Keeps (
              if is_minus_one cell
              then ok w
              else (level info j >>= λ token. topic_message j prefix token >>= λ string.
                  (sockets now).rio_writen fd_sus string w))
      written cell = elim (Bool-cases (is_minus_one cell)) [
        | inl e ↦ rw e (Ensures-ok w h)
        | inr e ↦ rw e (
            Ensures-bind _ _ λ token _.
              Ensures-bind _ _
                λ string _. Ensures-ok (record w { sent = w.sent ++ (fd_sus, string) ∷ [] }) h)
      ]

  write_log-Keeps :
      (msg : Bytes) (io : Io (sockets now))
      → Keeps io.world
      → Ensures (λ io'. Keeps io'.world) (write_log (sockets now) msg io)
  unfolding write_log
  write_log-Keeps msg io h =
      Ensures-bind _ _
        λ message _. Ensures-ok (record io { log = io.log ++ (message ++ newline) ∷ [] }) h

  forward_line-Keeps :
      (fd_sus : ℤ) (topic : List ℤ) (publisher line : Bytes) (io : Io (sockets now))
      → Keeps io.world
      → Ensures (λ io'. Keeps io'.world) (forward_line (sockets now) fd_sus topic publisher line io)
  unfolding forward_line
  forward_line-Keeps fd_sus topic publisher line io h = Ensures-bind _ _ λ copy _.
      Ensures-bind _ _ λ tmp_buf _. Ensures-bind _ _ λ msg _. Ensures-bind _ _ λ io' e.
        Ensures-bind _ _ λ info _. Ensures-bind _ _ λ world e'.
          Ensures-ok (record io' { world = world })
            ((send_from-Keeps string_topics 0 topic info fd_sus io'.world
                ((write_log-Keeps msg io h).at io' e)).at
              world e')

  forward_read-Keeps :
      (fd_sus : ℤ) (topic : List ℤ) (publisher line : Bytes) (io : Io (sockets now))
      → Keeps io.world
      → Ensures (λ io'. Keeps io'.world) (forward_read (sockets now) fd_sus topic publisher line io)
  unfolding forward_read
  forward_read-Keeps fd_sus topic publisher [] io h = write_log-Keeps _ io h
  forward_read-Keeps fd_sus topic publisher (c ∷ line) io h =
      forward_line-Keeps fd_sus topic publisher (c ∷ line) io h

  bind_ok : (r : Result (Io (sockets now))) → (r >>= λ io. ok io) ≡ r
  unfolding ◌>>=◌
  bind_ok (ok io) = refl
  bind_ok (fault e) = refl
  bind_ok (exits c) = refl

  reading :
      (fd_sus : ℤ) (topic : List ℤ) (publisher s more : Bytes) (io : Io (sockets now))
      → io.world.coming fd ≡ got (s ++ (b'\n' ∷ more)) ∷ answers
      → IsLine s
      → length s + 1 < maxline
      → forward_message (sockets now) fd fd_sus topic publisher io
        ≡ forward_read
            (sockets now)
            fd_sus
            topic
            publisher
            (s ++ newline)
            (record io { world = put_coming fd answers io.world })
  unfolding forward_message forward_times rio_readinitb ◌>>=◌
  reading fd_sus topic publisher s more io e line lt = rw e (
      rw (rio_readlineb-fresh s more answers maxline line lt) (
        bind_ok (
          forward_read (sockets now) fd_sus topic publisher (s ++ newline)
            (record io { world = put_coming fd answers io.world }))))

  -- If a line of the publisher and more bytes come in one answer of `read`, a call of forward_message
  -- that returns has taken both from the connection, while it forwards the line only: the next call,
  -- which makes a reader of its own, reads from the next answer on, and what stood behind the line
  -- reaches nobody.
  pub forward_message-loses :
      (fd_sus : ℤ) (topic : List ℤ) (publisher s more : Bytes) (io : Io (sockets now))
      → io.world.coming fd ≡ got (s ++ (b'\n' ∷ more)) ∷ answers
      → IsLine s
      → length s + 1 < maxline
      → (forward_message (sockets now) fd fd_sus topic publisher io
          ≡ forward_read
              (sockets now)
              fd_sus
              topic
              publisher
              (s ++ newline)
              (record io { world = put_coming fd answers io.world }))
        × Ensures
            (λ io'. io'.world.coming fd ≡ answers)
            (forward_message (sockets now) fd fd_sus topic publisher io)
  forward_message-loses fd_sus topic publisher s more io e line lt =
      let reads = reading fd_sus topic publisher s more io e line lt in
      (
        reads,
        rw reads (
            forward_read-Keeps fd_sus topic publisher (s ++ newline)
              (record io { world = put_coming fd answers io.world })
              (coming_put fd answers io.world)),
      )
