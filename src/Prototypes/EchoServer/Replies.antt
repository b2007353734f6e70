-- ===== src/Prototypes/EchoServer/Replies.antt =====
-- What the echo server sends and prints for the lines of a connection.
use mqttv.Base.{
  ℕ, zero, suc, ◌<◌, ◌≡◌, refl, true, List, [], ◌∷◌, ◌++◌, arith, length, append_assoc, append-nil,
  All, if◌then◌else◌, Bool-cases, inl, inr,
}
use mqttv.Int.{ℤ, pos}
use mqttv.Result.{Result, ok, ◌>>=◌}
use mqttv.CString.{Bytes, codes, newline, c_string, c_string_id, chop-append, HasNoNul, str_eq}
use mqttv.CString.Values.{HasNoNul-append}
use mqttv.Decimal.{decimal}
use mqttv.Net.{Net, Io, maxline}
use mqttv.Prototypes.EchoServer.{print, echo_line, echo_read, echo_loop}

-- What is sent back for a line.
unfoldable pub reply : Bytes → Bytes
reply line = if str_eq (c_string line) (codes "help\n") then codes "NO HELP FOR YOU\n" else line

-- What is printed for a line without its newline.
abbrev pub received_text : Bytes → List Bytes
received_text s =
    if str_eq (c_string (s ++ newline)) (codes "help\n")
    then []
    else (codes "server received "
        ++ (decimal (pos (length (s ++ newline))) ++ (codes " bytes (" ++ (s ++ codes ")\n"))))
      ∷ []

abbrev pub received_texts : List Bytes → List Bytes
received_texts [] = []
received_texts (s ∷ lines) = received_text s ++ received_texts lines

module _ (net : Net) (connfd : ℤ) where
  open net use {World, Reader, rio_readlineb, rio_writen}

  -- A connection on which these lines come, each of which is answered before the next one is read,
  -- and then the end of the stream.
  pub data Serves : Reader → World → List Bytes → World → Type 0 where
    done :
        {rio rio' : Reader} {w w' : World}
        → rio_readlineb rio maxline w ≡ ok ([], rio', w')
        → Serves rio w [] w'
    more :
        {rio rio' : Reader} {w w₁ w₂ w' : World} {s : Bytes} {lines : List Bytes}
        → rio_readlineb rio maxline w ≡ ok (s ++ newline, rio', w₁)
        → rio_writen connfd (reply (s ++ newline)) w₁ ≡ ok w₂
        → Serves rio' w₂ lines w'
        → Serves rio w (s ∷ lines) w'

  echo_line_lem :
      (s : Bytes) (io : Io net) (w : World)
      → HasNoNul s
      → rio_writen connfd (reply (s ++ newline)) io.world ≡ ok w
      → echo_line net connfd (s ++ newline) io
        ≡ ok (record { world = w; log = io.log ++ received_text s })
  unfolding reply echo_line print ◌>>=◌
  echo_line_lem s io w h e = elim (Bool-cases (str_eq (c_string (s ++ newline)) (codes "help\n"))) [
    | inl help ↦ let e' = rw help at e in rw help (rw e' (rw append-nil refl))
    | inr other ↦
        let e' = rw other at e in
        rw other (
          rw e' (
            rw (c_string_id (s ++ newline) (HasNoNul-append s newline h ((omega arith), tt)))
              (rw (chop-append s b'\n') refl)))
  ]

  echo_read_line :
      (rest : Io net → Result _) (s : Bytes) (io : Io net)
      → echo_read net rest connfd (s ++ newline) io
        ≡ (echo_line net connfd (s ++ newline) io >>= rest)
  unfolding echo_read
  echo_read_line rest [] io = refl
  echo_read_line rest (c ∷ s) io = refl

  -- If lines without a NUL come, and the answers to them can be written, then the server answers each
  -- line before it reads the next one, prints all but the calls for help in their order, and ends
  -- with the stream; fuel for one round more than there are lines is enough.
  pub echo_loop_lem :
      {rio : Reader} {w w' : World} {lines : List Bytes}
      → Serves rio w lines w'
      → All HasNoNul lines
      → (n : ℕ) (log : List Bytes) → length lines < n
      → echo_loop net n rio connfd (record { world = w; log = log })
        ≡ ok (true, record { world = w'; log = log ++ received_texts lines })
  unfolding echo_loop echo_read ◌>>=◌
  echo_loop_lem (done e) h zero log lt = elim lt [ ]
  echo_loop_lem (done e) h (suc n) log lt = rw e (rw append-nil refl)
  echo_loop_lem (more e k r) h zero log lt = elim lt [ ]
  echo_loop_lem (more {rio' = rio'} {w₁ = w₁} {w₂ = w₂} {s = s} {lines = lines} e k r) h (suc n) log
        lt =
      rw e (
        rw (echo_read_line (echo_loop net n rio' connfd) s (record { world = w₁; log = log })) (
          rw (echo_line_lem s (record { world = w₁; log = log }) w₂ h.0 k) (
            rw (echo_loop_lem r h.1 n (log ++ received_text s) (omega arith))
              (rw (append_assoc log (received_text s) (received_texts lines)) refl))))
