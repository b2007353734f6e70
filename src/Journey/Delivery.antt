-- ===== src/Journey/Delivery.antt =====
-- From a publisher's line on its way to what the broker has written to a subscriber, over connections
-- that the system cuts up as it likes.
use mqttv.Base.{
  ◌+◌, ◌<◌, ◌≡◌, refl, ◌∙◌, inl, inr, List, [], ◌∷◌, ◌++◌, arith, length, length-append, All, map,
  append_assoc, append-nil, if◌then◌else◌, Bool-cases,
}
use mqttv.Int.{ℤ, is_minus_one}
use mqttv.Result.{ok, ◌>>=◌}
use mqttv.CString.{Bytes, codes, newline}
use mqttv.CString.Split.RoundTrip.{join}
use mqttv.Topics.{string_topics}
use mqttv.Net.{Net, Io, maxline}
use mqttv.Forward.{forward_read, forward_line, forward_times, forward_message}
use mqttv.Forward.Delivery.{IsValue, topic_lines, send_all, forward_line-delivers}
use mqttv.Rio.{Answer}
use mqttv.Rio.Lines.{IsAlive, all_bytes}
use mqttv.Rio.Fresh.{IsLine}
use mqttv.Rio.Connections.{Sockets, sockets, put_coming, written, read_line_lem}

-- The lines whose cells in the row are not -1.
abbrev pub selected : List ℤ → List Bytes → List Bytes
selected [] ms = []
selected (c ∷ cs) [] = []
selected (c ∷ cs) (m ∷ ms) = if is_minus_one c then selected cs ms else m ∷ selected cs ms

pub send_all-sockets :
    (now : Bytes) (fd : ℤ) (cs : List ℤ) (ms : List Bytes) (w : Sockets)
    → send_all (sockets now) fd cs ms w ≡ ok (written fd (selected cs ms) w)
unfolding send_all ◌>>=◌
send_all-sockets now fd [] ms w = rw append-nil refl
send_all-sockets now fd (c ∷ cs) [] w = rw append-nil refl
send_all-sockets now fd (c ∷ cs) (m ∷ ms) w = elim (Bool-cases (is_minus_one c)) [
  | inl e ↦ rw e (send_all-sockets now fd cs ms w)
  | inr e ↦ rw e (
      send_all-sockets now fd cs ms (written fd (m ∷ []) w)
      ∙ rw (append_assoc w.sent ((fd, m) ∷ []) (map (λ s. (fd, s)) (selected cs ms))) refl)
]

pub forward_read-line :
    (net : Net) (fd : ℤ) (topic : List ℤ) (publisher s : Bytes) (io : Io net)
    → forward_read net fd topic publisher (s ++ newline) io
      ≡ forward_line net fd topic publisher (s ++ newline) io
unfolding forward_read
forward_read-line net fd topic publisher [] io = refl
forward_read-line net fd topic publisher (c ∷ s) io = refl

module _ (now : Bytes) (a b c d e f : ℤ) (v₀ v₁ v₂ v₃ v₄ v₅ : Bytes) (fd_pub fd_sus : ℤ) where
  abbrev row : List ℤ
  row = a ∷ b ∷ c ∷ d ∷ e ∷ f ∷ []

  abbrev values : List Bytes
  values = v₀ ∷ v₁ ∷ v₂ ∷ v₃ ∷ v₄ ∷ v₅ ∷ []

  abbrev log_text : Bytes → Bytes
  log_text publisher =
      codes "Se ha recibido [" ++ (join b',' values ++ (codes "] de [" ++ (publisher ++ codes "]")))

  -- If a line of six values, which the broker's buffers have room for (IsValue, a line of less than
  -- 100 bytes and an entry of the log of less than 8192) and which hold no comma, NUL or newline,
  -- arrives at the broker on the publisher's connection, in any pieces, with interruptions, and with
  -- more behind it, then forward_message returns, has written to the subscriber one line for each
  -- topic of its row and nothing else, and has logged the line; what is still to come on the
  -- publisher's connection is an end of what stood behind it.
  pub line_delivered :
      (publisher more : Bytes) (w : Sockets) (log : List Bytes)
      → All IsValue values
      → IsLine (join b',' values)
      → length (join b',' values ++ newline) < 100
      → length (log_text publisher) + length now < maxline
      → IsAlive (w.coming fd_pub)
      → all_bytes (w.coming fd_pub) ≡ join b',' values ++ (newline ++ more)
      → (answers : List Answer) × (forward_message
            (sockets now)
            fd_pub
            fd_sus
            row
            publisher
            (record { world = w; log = log })
          ≡ ok (record {
            world =
                written fd_sus
                  (selected row (topic_lines string_topics values))
                  (put_coming fd_pub answers w);
            log = log ++ ((now ++ log_text publisher) ++ newline) ∷ [];
          }))
        × IsAlive answers
        × ((lost : Bytes) × (lost ++ all_bytes answers ≡ more))
  unfolding forward_message forward_times ◌>>=◌
  line_delivered publisher more w log vs one_line fits log_fits alive arrives =
      let s = join b',' values in
      let (unread, answers, reads, alive', left) =
        read_line_lem fd_pub [] w s more alive arrives one_line
          (omega (arith, fits, length-append s newline)) in
      let w₁ = put_coming fd_pub answers w in
      let io : Io (sockets now) = record { world = w₁; log = log } in
      (
        answers,
        rw reads (
            rw (forward_read-line (sockets now) fd_sus row publisher s io) (
              rw
                (forward_line-delivers (sockets now) a b c d e f v₀ v₁ v₂ v₃ v₄ v₅ fd_sus publisher
                  io vs fits log_fits)
                (rw (send_all-sockets now fd_sus row (topic_lines string_topics values) w₁) refl))),
        alive',
        (unread, left),
      )
