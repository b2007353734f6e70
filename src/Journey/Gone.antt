-- ===== src/Journey/Gone.antt =====
-- What becomes of the broker when a subscriber has gone.
use mqttv.Base.{
  ◌+◌, ◌<◌, ◌≡◌, refl, ◌≢◌, arith, length-append, inl, inr, List, [], ◌∷◌, ◌++◌, length, All,
  Bool-cases,
}
use mqttv.Int.{ℤ, is_minus_one}
use mqttv.Result.{ok, exits, ◌>>=◌}
use mqttv.CString.{Bytes, codes, newline}
use mqttv.CString.Split.RoundTrip.{join}
use mqttv.Topics.{string_topics}
use mqttv.Net.{Net, Io, maxline}
use mqttv.Forward.{forward_times, forward_message}
use mqttv.Forward.Delivery.{IsValue, topic_lines, send_all, forward_line-delivers}
use mqttv.Journey.Delivery.{selected, forward_read-line}

log_room :
    (s publisher time : Bytes)
    → length (s ++ newline) < 100
    → length publisher + (length time + 200) < maxline
    → length (codes "Se ha recibido [" ++ (s ++ (codes "] de [" ++ (publisher ++ codes "]"))))
        + length time
      < maxline
log_room s publisher time fits room = omega (
  arith,
  length-append s newline,
  length-append s (codes "] de [" ++ (publisher ++ codes "]")),
  length-append publisher (codes "]"),
)

module _ (net : Net) where
  open net use {World, Reader, rio_readinitb, rio_readlineb, rio_writen, stamp}

  send_all_leaves :
      (fd code : ℤ) (cs : List ℤ) (ms : List Bytes) (w : World)
      → ((s : Bytes) (w : World) → rio_writen fd s w ≡ exits code)
      → selected cs ms ≢ []
      → send_all net fd cs ms w ≡ exits code
  unfolding send_all ◌>>=◌
  send_all_leaves fd code [] ms w gone some_line = absurd (some_line refl)
  send_all_leaves fd code (c ∷ cs) [] w gone some_line = absurd (some_line refl)
  send_all_leaves fd code (c ∷ cs) (m ∷ ms) w gone some_line = elim (Bool-cases (is_minus_one c)) [
    | inl e ↦
        let some_line' = rw e at some_line in rw e (send_all_leaves fd code cs ms w gone some_line')
    | inr e ↦ rw e (rw (gone m w) refl)
  ]

  -- If a line of six values comes from the publisher, the subscriber's row has a topic, and each write
  -- to the subscriber's connection leaves the process, then forward_message leaves it too: no client
  -- is taken out of the tables, and the broker ends with the first subscriber that has gone.
  pub forward_message_leaves :
      {rio' : Reader} {w : World} (a b c d e f : ℤ) (v₀ v₁ v₂ v₃ v₄ v₅ : Bytes)
      (fd_pub fd_sus code : ℤ) (publisher : Bytes) (io : Io net)
      → rio_readlineb (rio_readinitb fd_pub) maxline io.world
        ≡ ok (join b',' (v₀ ∷ v₁ ∷ v₂ ∷ v₃ ∷ v₄ ∷ v₅ ∷ []) ++ newline, rio', w)
      → All IsValue (v₀ ∷ v₁ ∷ v₂ ∷ v₃ ∷ v₄ ∷ v₅ ∷ [])
      → length (join b',' (v₀ ∷ v₁ ∷ v₂ ∷ v₃ ∷ v₄ ∷ v₅ ∷ []) ++ newline) < 100
      → length publisher + (length (stamp w) + 200) < maxline
      → selected
          (a ∷ b ∷ c ∷ d ∷ e ∷ f ∷ [])
          (topic_lines string_topics (v₀ ∷ v₁ ∷ v₂ ∷ v₃ ∷ v₄ ∷ v₅ ∷ []))
        ≢ []
      → ((s : Bytes) (w : World) → rio_writen fd_sus s w ≡ exits code)
      → forward_message net fd_pub fd_sus (a ∷ b ∷ c ∷ d ∷ e ∷ f ∷ []) publisher io ≡ exits code
  unfolding forward_message forward_times ◌>>=◌
  forward_message_leaves {rio'} {w} a b c d e f v₀ v₁ v₂ v₃ v₄ v₅ fd_pub fd_sus code publisher io
        reads vs fits log_fits wants gone =
      let s = join b',' (v₀ ∷ v₁ ∷ v₂ ∷ v₃ ∷ v₄ ∷ v₅ ∷ []) in
      let row = a ∷ b ∷ c ∷ d ∷ e ∷ f ∷ [] in
      let io₁ : Io net = record { world = w; log = io.log } in
      rw reads (
        rw (forward_read-line net fd_sus row publisher s io₁) (
          rw
            (forward_line-delivers net a b c d e f v₀ v₁ v₂ v₃ v₄ v₅ fd_sus publisher io₁ vs fits
              (log_room s publisher (stamp w) fits log_fits))
            (rw (send_all_leaves fd_sus code row _ w gone wants) refl)))
