-- ===== src/Rio.antt =====
-- The buffered reader of csapp.c that the programs' lines come through, over one descriptor: the
-- answers that `read` is going to give are a list, and behind its end the stream has ended.
pub mod Lines
pub mod Fresh
pub mod Writen
pub mod Readnb
pub mod Readn
pub mod Connections
use mqttv.Base.{ℕ, zero, suc, ◌-◌, ◌==◌, List, [], ◌∷◌, ◌++◌, if◌then◌else◌, take, drop}
use mqttv.Int.{pos}
use mqttv.Result.{Result, ok, exits, ◌>>=◌}
use mqttv.CString.{Bytes}

-- -1 with EINTR, -1 with another error, or the bytes that were read, none at the end of the stream.
pub data Answer : Type 0 where
  interrupted failed : Answer
  got : Bytes → Answer

-- rio_t: the bytes behind rio_bufptr that were not handed out yet, and what is to come.
pub record Rio : Type 0 where
  pub unread : Bytes
  pub coming : List Answer

-- What a call of rio_read returns: 0, -1, or a number of bytes.
pub data Status : Type 0 where
  eof error : Status
  bytes : Bytes → Status

-- `while (rp->rio_cnt <= 0)`, entered with an empty buffer
unfoldable pub refill : List Answer → Status × List Answer
refill [] = (eof, [])
refill (interrupted ∷ coming) = refill coming
refill (failed ∷ coming) = (error, coming)
refill (got [] ∷ coming) = (eof, coming)
refill (got (c ∷ s) ∷ coming) = (bytes (c ∷ s), coming)

-- min(n, rio_cnt) bytes from the buffer
hand_out : ℕ → Status × List Answer → Status × Rio
hand_out n (eof, coming) = (eof, record { unread = []; coming = coming })
hand_out n (error, coming) = (error, record { unread = []; coming = coming })
hand_out n (bytes s, coming) = (bytes (take n s), record { unread = drop n s; coming = coming })

unfoldable pub rio_read : ℕ → Bytes → List Answer → Status × Rio
unfolding hand_out refill
rio_read n [] coming = hand_out n (refill coming)
rio_read n (c ∷ s) coming = hand_out n (bytes (c ∷ s), coming)

unfoldable pub rio_readinitb : List Answer → Rio
rio_readinitb coming = record { unread = []; coming = coming }

-- What a round does with the answer to its call of rio_read for one byte: the line ends at a
-- newline and at the end of the stream, and an error makes the wrapper leave the process.
unfoldable pub line_round : (Rio → Result (Bytes × Rio)) → Status → Rio → Result (Bytes × Rio)
line_round rest eof rio = ok ([], rio)
line_round rest error rio = exits (pos 0)
line_round rest (bytes []) rio = exits (pos 0)
line_round rest (bytes (c ∷ _)) rio =
    if c == b'\n' then ok (c ∷ [], rio) else do (line, rio') ← rest rio; ok (c ∷ line, rio')

-- `for (n = 1; n < maxlen; n++)` with the rounds that are left
unfoldable pub line_loop : ℕ → Rio → Result (Bytes × Rio)
line_loop zero rio = ok ([], rio)
line_loop (suc n) rio = let r = rio_read 1 rio.unread rio.coming in line_round (line_loop n) r.0 r.1

unfoldable pub rio_readlineb : Rio → ℕ → Result (Bytes × Rio)
rio_readlineb rio maxlen = line_loop (maxlen - 1) rio
