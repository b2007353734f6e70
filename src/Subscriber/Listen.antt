-- ===== src/Subscriber/Listen.antt =====
-- What the subscriber prints.
use mqttv.Base.{
  ℕ, zero, suc, ◌<◌, ◌≡◌, ◌∙◌, true, List, [], ◌∷◌, ◌++◌, map, arith, length, append_assoc,
  append-nil,
}
use mqttv.Result.{ok, ◌>>=◌}
use mqttv.CString.{Bytes, c_string}
use mqttv.Net.{Net, maxline}
use mqttv.Subscriber.{show_line, listen}

module _ (net : Net) where
  open net use {World, Reader, rio_readlineb}

  -- The lines that come from a reader, up to the end of the stream.
  pub data Reads : Reader → World → List Bytes → World → Type 0 where
    done :
        {rio rio' : Reader} {w w' : World}
        → rio_readlineb rio maxline w ≡ ok ([], rio', w')
        → Reads rio w [] w'
    more :
        {rio rio' : Reader} {w w' w'' : World} {c : ℕ} {line : Bytes} {lines : List Bytes}
        → rio_readlineb rio maxline w ≡ ok (c ∷ line, rio', w')
        → Reads rio' w' lines w''
        → Reads rio w ((c ∷ line) ∷ lines) w''

  -- If lines come and then the end of the stream, the loop prints exactly these lines in their
  -- order (each up to a NUL in it) and ends; fuel for one more round than there are lines is enough.
  pub listen_prints :
      {rio : Reader} {w w' : World} {lines : List Bytes}
      → Reads rio w lines w'
      → (n : ℕ) (log : List Bytes) → length lines < n
      → listen net n rio (record { world = w; log = log })
        ≡ ok (true, record { world = w'; log = log ++ map c_string lines })
  unfolding listen show_line ◌>>=◌
  listen_prints (done e) zero log h = elim h [ ]
  listen_prints (done e) (suc n) log h = rw e (rw append-nil)
  listen_prints (more e r) zero log h = elim h [ ]
  listen_prints (more {c = c} {line = line} {lines = lines} e r) (suc n) log h = rw e (
      listen_prints r n (log ++ c_string (c ∷ line) ∷ []) (omega arith)
      ∙ rw (append_assoc log (c_string (c ∷ line) ∷ []) (map c_string lines)))
