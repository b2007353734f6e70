-- ===== src/Net.antt =====
-- What the programs take from outside: the robust I/O package that csapp.c copies, and the clock.
use mqttv.Base.{ℕ, List, [], ◌∷◌, ◌++◌}
use mqttv.Int.{ℤ}
use mqttv.Result.{Result, ok, ◌>>=◌, store}
use mqttv.CString.{Bytes, newline}

abbrev pub maxline : ℕ
maxline = 8192

-- `World` is what the calls change: the connections with the bytes under way in both directions.
-- `Reader` is a rio_t, the descriptor with the bytes that were read ahead of the lines returned.
-- A line comes with its newline; the empty line is the end of the stream, at which
-- the caller's buffer stays as it was. An error in a wrapper leaves the process.
-- `stamp` is the text that strftime makes of the present time.
pub record Net : Type 1 where
  pub World : Type 0
  pub Reader : Type 0
  pub rio_readinitb : ℤ → Reader
  pub rio_readlineb : Reader → ℕ → World → Result (Bytes × Reader × World)
  pub rio_writen : ℤ → Bytes → World → Result World
  pub stamp : World → Bytes

module _ (net : Net) where
  open net use {World, stamp}

  -- The outside together with what the process has printed.
  pub record Io : Type 0 where
    pub world : World
    pub log : List Bytes

  -- The broker's `write_log`: the time and the message are put together in `message[MAXLINE]`.
  unfoldable pub write_log : Bytes → Io → Result Io
  write_log msg io = do
    message ← store maxline (stamp io.world ++ msg)
    ok (record io { log = io.log ++ (message ++ newline) ∷ [] })
