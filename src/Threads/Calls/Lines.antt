-- ===== src/Threads/Calls/Lines.antt =====
-- A line that the broker can forward, over any connections and behind any log.
use mathlib.Core.List.{map-append}
use mqttv.Base.{
  ℕ, suc, ◌<◌, ◌≡◌, refl, sym, ap, ◌∙◌, List, [], ◌∷◌, ◌++◌, arith, append-nil, append_assoc,
  length, get_elem?,
}
use mqttv.Int.{ℤ}
use mqttv.Result.{ok, ◌>>=◌, >>=-eq-ok, store}
use mqttv.Result.Ensures.{Ensures, Ensures-ok, Ensures-bind}
use mqttv.CString.{Bytes, newline}
use mqttv.Topics.{string_topics}
use mqttv.Net.{Io, write_log, maxline}
use mqttv.Forward.{send_from, forward_line}
use mqttv.Rio.{Answer, got, rio_readinitb}
use mqttv.Rio.Fresh.{IsLine, rio_readlineb-fresh}
use mqttv.Rio.Connections.{Sockets, sockets, read_line, put_coming, written}
use mqttv.Threads.Calls.{Route, receive, send_one}
use mqttv.Threads.Calls.Messages.{
  message, messages, to_fd, made_of, send_one-written, receive-Ensures,
}
use mqttv.Threads.Calls.Alone.{receive_ok, send_from-cons}

module _ (now : Bytes) where
  abbrev pub logged : Bytes → Io (sockets now) → Io (sockets now)
  logged text io = record io { log = io.log ++ text ∷ [] }

  -- What the code does to the log and to the connections does not hang on what they hold.
  pub write_log-logged :
      (msg : Bytes) (io : Io (sockets now))
      → Ensures
          (λ _.
            (text : Bytes) × ((io₂ : Io (sockets now))
              → write_log (sockets now) msg io₂ ≡ ok (logged text io₂)))
          (write_log (sockets now) msg io)
  unfolding write_log ◌>>=◌
  write_log-logged msg io =
      Ensures-bind (store maxline (now ++ msg)) _
        λ m e. Ensures-ok _ (m ++ newline, λ io₂. rw e refl)

  pub send_from-written :
      (prefixes : List Bytes) (j : ℕ) (topic : List ℤ) (info : List Bytes) (fd : ℤ) (w w' : Sockets)
      → send_from (sockets now) prefixes j topic info fd w ≡ ok w'
      → (v : Sockets)
      → send_from (sockets now) prefixes j topic info fd v
        ≡ ok (written fd (messages prefixes j topic info) v)
  unfolding send_from ◌>>=◌
  send_from-written [] j topic info fd w w' e v =
      ap (λ s. ok (record v { sent = s })) (sym (append-nil v.sent))
  send_from-written (prefix ∷ prefixes) j topic info fd w w' e v =
      let (w₁, p, q) =
        >>=-eq-ok (send_one (sockets now) prefix j topic info fd w)
          (send_from (sockets now) prefixes (suc j) topic info fd)
          (sym (send_from-cons now prefix prefixes j topic info fd w) ∙ e) in
      let m = message j prefix (get_elem? topic j) (get_elem? info j) in
      send_from-cons now prefix prefixes j topic info fd v
      ∙ rw ((send_one-written now prefix j topic info fd w).at w₁ p v) (
          send_from-written prefixes (suc j) topic info fd w₁ w' q (written fd m v)
          ∙ ap (λ s. ok (record v { sent = s }))
              (append_assoc v.sent (to_fd fd m) _
                ∙ ap (λ (ws : List (ℤ × Bytes)). v.sent ++ ws) (sym (map-append _ _ _))))

  -- A line that the broker can forward, whatever the connections hold and whatever was logged.
  pub line-written :
      (fd : ℤ) (topic : List ℤ) (publisher line : Bytes) (io : Io (sockets now))
      → Ensures
          (λ _.
            (text : Bytes) × (info : List Bytes) × ((io₂ : Io (sockets now))
              → receive (sockets now) publisher line io₂ ≡ ok (info, logged text io₂))
            × ((v : Sockets)
                → send_from (sockets now) string_topics 0 topic info fd v
                  ≡ ok (written fd (messages string_topics 0 topic info) v))
            × ((io₂ : Io (sockets now))
                → forward_line (sockets now) fd topic publisher line io₂
                  ≡ ok (
                      logged text (record io₂ {
                        world = written fd (messages string_topics 0 topic info) io₂.world;
                      }))))
          (forward_line (sockets now) fd topic publisher line io)
  unfolding forward_line ◌>>=◌
  line-written fd topic publisher line io = Ensures-bind _ _ λ copy e₁.
      Ensures-bind _ _ λ tmp_buf e₂. Ensures-bind _ _ λ msg e₃. Ensures-bind _ _ λ io₁ e₄.
        Ensures-bind _ _ λ info e₅. Ensures-bind _ _ λ world e₆. Ensures-ok _ (
          let (text, any) = (write_log-logged msg io).at io₁ e₄ in
          (
            text,
            info,
            (λ io₂.
                receive_ok (sockets now) publisher line copy tmp_buf msg io₂ _ info e₁ e₂ e₃
                  (any io₂) e₅),
            send_from-written string_topics 0 topic info fd io₁.world world e₆,
            λ io₂. rw e₁ (
                rw e₂ (
                  rw e₃ (
                    rw (any io₂) (
                      rw e₅ (
                        rw
                          (send_from-written string_topics 0 topic info fd io₁.world world e₆
                            io₂.world)
                          refl))))),
          ))

  pub read_line-fresh :
      (fd : ℤ) (l : Bytes) (rest : List Answer) (w : Sockets)
      → w.coming fd ≡ got (l ++ newline) ∷ rest
      → IsLine l
      → length l < 8191
      → read_line (fd, []) maxline w ≡ ok (l ++ newline, (fd, []), put_coming fd rest w)
  unfolding ◌>>=◌ rio_readinitb
  read_line-fresh fd l rest w e line lt =
      rw e (rw (rio_readlineb-fresh l [] rest maxline line (omega arith)) refl)

  -- What the broker does with a line that it can forward: the text that it logs, and the pieces of
  -- the line.
  pub record Forwards (route : Route) (l : Bytes) : Type 0 where
    pub text : Bytes
    pub info : List Bytes
    pub received :
        (io : Io (sockets now))
        → receive (sockets now) route.publisher (l ++ newline) io ≡ ok (info, logged text io)
    pub sends :
        (v : Sockets)
        → send_from (sockets now) string_topics 0 route.topic info route.fd_sus v
          ≡ ok (written route.fd_sus (messages string_topics 0 route.topic info) v)
    pub delivers :
        (io : Io (sockets now))
        → forward_line (sockets now) route.fd_sus route.topic route.publisher (l ++ newline) io
          ≡ ok (
              logged text (record io {
                world = written route.fd_sus (messages string_topics 0 route.topic info) io.world;
              }))

  pub forwards :
      (route : Route) (l : Bytes) (io out : Io (sockets now))
      → forward_line (sockets now) route.fd_sus route.topic route.publisher (l ++ newline) io
        ≡ ok out
      → Forwards route l
  forwards route l io out h =
      let (text, info, received, sends, delivers) =
        (line-written route.fd_sus route.topic route.publisher (l ++ newline) io).at out h in
      record { text = text; info = info; received = received; sends = sends; delivers = delivers }

  pub made_of-Forwards :
      (route : Route) (l : Bytes) (io : Io (sockets now)) (f : Forwards route l)
      → to_fd route.fd_sus (messages string_topics 0 route.topic f.info)
        ≡ made_of (route, l ++ newline)
  made_of-Forwards route l io f =
      ap (λ t. to_fd route.fd_sus (messages string_topics 0 route.topic t))
        ((receive-Ensures now route.publisher (l ++ newline) io).at (f.info, logged f.text io)
          (f.received io)).0
