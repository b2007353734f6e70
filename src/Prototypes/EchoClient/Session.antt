-- ===== src/Prototypes/EchoClient/Session.antt =====
-- A session of the echo client over a network that answers its lines, or does not.
use mqttv.Base.{◌≡◌, refl, ◌∙◌, ◌≢◌, List, [], ◌∷◌, ◌++◌, All, append_assoc, append-nil}
use mqttv.Int.{ℤ}
use mqttv.Result.{ok, ◌>>=◌}
use mqttv.CString.{Bytes, codes, c_string_id, HasNoNul, str_eq, str_eq_ne}
use mqttv.Net.{Net, maxline}
use mqttv.Prototypes.EchoClient.{read_into, exchange, converse}

-- What the client shows for each text: the text and the prompt for the next line.
abbrev pub shown : List Bytes → List Bytes
shown [] = []
shown (text ∷ texts) = text ∷ codes "Write something: " ∷ shown texts

read_into_lem : (buf line : Bytes) → line ≢ [] → read_into buf line ≡ line
unfolding read_into
read_into_lem buf [] h = absurd (h refl)
read_into_lem buf (c ∷ line) h = refl

module _ (net : Net) (clientfd : ℤ) where
  open net use {World, Reader, rio_readlineb, rio_writen}

  -- A connection over which the lines typed can be written up to a quit, with the texts that the
  -- client has for them: the line that comes in answer, or, where the stream has ended, the line typed.
  pub data Talks : Reader → World → List Bytes → List Bytes → World → Type 0 where
    silent : {rio : Reader} {w : World} → Talks rio w [] [] w
    quits :
        {rio : Reader} {w : World} {typed : List Bytes} → Talks rio w (codes "quit\n" ∷ typed) [] w
    answered :
        {rio rio' : Reader} {w w₁ w₂ w' : World} {line answer : Bytes} {typed texts : List Bytes}
        → line ≢ codes "quit\n"
        → rio_writen clientfd line w ≡ ok w₁
        → rio_readlineb rio maxline w₁ ≡ ok (answer, rio', w₂)
        → answer ≢ []
        → Talks rio' w₂ typed texts w'
        → Talks rio w (line ∷ typed) (answer ∷ texts) w'
    unanswered :
        {rio rio' : Reader} {w w₁ w₂ w' : World} {line : Bytes} {typed texts : List Bytes}
        → line ≢ codes "quit\n"
        → rio_writen clientfd line w ≡ ok w₁
        → rio_readlineb rio maxline w₁ ≡ ok ([], rio', w₂)
        → Talks rio' w₂ typed texts w'
        → Talks rio w (line ∷ typed) (line ∷ texts) w'

  -- If the lines typed up to a quit can be written, and neither they nor the answers hold a NUL, then
  -- the client writes them one by one, reads after each and before the next, and shows in their order
  -- the answer to each and the prompt; where the stream has ended it shows the line typed itself, as
  -- if it were the answer. What is typed behind a quit is not written.
  pub converse_lem :
      {rio : Reader} {w w' : World} {typed texts : List Bytes}
      → Talks rio w typed texts w'
      → All HasNoNul typed
      → All HasNoNul texts
      → (log : List Bytes)
      → converse net clientfd rio typed (record { world = w; log = log })
        ≡ ok (record { world = w'; log = log ++ shown texts })
  unfolding converse exchange ◌>>=◌ read_into
  converse_lem silent h k log = rw append-nil refl
  converse_lem (quits {typed = typed}) h k log =
      rw (c_string_id (codes "quit\n") h.0) (rw append-nil (unfold str_eq in refl))
  converse_lem
        (answered {rio' = rio'} {w₂ = w₂} {w' = w'} {line = line} {answer = answer} {typed = typed}
          {texts = texts} ne e r some_line t)
        h k log =
      rw (c_string_id line h.0) (
        rw (str_eq_ne line (codes "quit\n") ne) (
          rw e (
            rw r (
              rw (read_into_lem line answer some_line) (
                rw (c_string_id answer k.0) (
                  converse_lem t h.1 k.1 (log ++ answer ∷ codes "Write something: " ∷ [])
                  ∙ rw (append_assoc log (answer ∷ codes "Write something: " ∷ []) (shown texts))
                      refl))))))
  converse_lem
        (unanswered {rio' = rio'} {w₂ = w₂} {w' = w'} {line = line} {typed = typed} {texts = texts}
          ne e r t)
        h k log =
      rw (c_string_id line h.0) (
        rw (str_eq_ne line (codes "quit\n") ne) (
          rw e (
            rw r (
              rw (c_string_id line h.0) (
                converse_lem t h.1 k.1 (log ++ line ∷ codes "Write something: " ∷ [])
                ∙ rw (append_assoc log (line ∷ codes "Write something: " ∷ []) (shown texts))
                    refl)))))
