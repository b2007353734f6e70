-- ===== src/Broker/Register.antt =====
-- `thread` of broker_server.c up to its loop: what a connection does to the tables.
pub mod Effect
pub mod Greeting
pub mod Subscription
pub mod Overrun
use mqttv.Base.{
  ℕ, zero, suc, ◌+◌, ◌≡◌, refl, Bool, true, false, Option, none, some, List, [], ◌∷◌, ◌++◌,
  if◌then◌else◌, ltb, ◌*◌, set,
}
use mqttv.Int.{ℤ}
use mqttv.Result.{Result, ok, fault, overrun, unset, ◌>>=◌, ◌>>◌, guard, store}
use mqttv.CString.{Bytes, codes, c_string, chop, str_eq}
use mqttv.CString.Split.{split, cut_line}
use mqttv.Decimal.{decimal}
use mqttv.Topics.{level, update_sus_info}
use mqttv.Net.{Net, Io, write_log, maxline}
use mqttv.Broker.{Broker, limit_conn_clients}

-- The text of a line without its newline. A read at the end of the stream leaves the buffer as
-- it was, with nothing written to it yet.
unfoldable pub line_text : Bytes → Result Bytes
line_text [] = fault unset
line_text (c ∷ line) = chop (c_string (c ∷ line))

-- The four stores of the critical section, in its order.
unfoldable pub put_fd : ℤ → Broker → Broker
put_fd connfd b = record b { client_fd_list = set b.client_fd_list b.fd_idx connfd }

unfoldable pub put_name : Bytes → Broker → Broker
put_name name b = record b { client_name_list = set b.client_name_list b.fd_idx (some name) }

unfoldable pub put_sus : Bytes → Broker → Broker
put_sus sus b = record b { client_sus_list = set b.client_sus_list b.fd_idx (some sus) }

-- The loop over the six cells of the row.
unfoldable pub put_row : List ℤ → Broker → Broker
put_row info b = record b { topic_list = set b.topic_list b.fd_idx info }

-- fd_idx += 1; if(fd_idx >= 2) sem_post(sem_control);
unfoldable pub count_client : Broker → Broker
count_client b = record b {
  fd_idx = b.fd_idx + 1;
  sem_control = if ltb 1 (b.fd_idx + 1) then b.sem_control + 1 else b.sem_control;
}

module _ (net : Net) where
  open net use {World, Reader, rio_readinitb, rio_readlineb}

  unfoldable pub thread_log : Bytes → Io net → Result (Io net)
  thread_log text io = do msg ← store (maxline * 3) text; write_log net msg io

  -- The line in front of the critical section.
  unfoldable pub announce : ℤ → Io net → Result (Io net)
  announce connfd io = thread_log (codes "Se ha abierto un socket: " ++ decimal connfd) io

  -- `slots` is the size of buf_suscription_info (two cells in the program, so that of the filters only
  -- `#` and single levels fit in), and `information` what the array subscribed_info
  -- holds when it is declared.
  unfoldable pub subscribe : ℕ → List ℤ → Bytes → Bytes → Broker → Io net → Result (Broker × Io net)
  subscribe slots information name sus b io =
      if str_eq sus (codes "NONE")
      then (do
        io' ← thread_log (name ++ codes " no tiene ninguna suscripcion") io
        ok (put_sus sus b, io'))
      else do
        levels ← split slots sus (codes "/")
        node ← level levels 0
        io' ←
            thread_log (name ++ (codes " Se encuentra suscrito a: " ++ cut_line (codes "/") sus)) io
        info ← update_sus_info levels information
        ok (put_row info (put_sus node b), io')

  -- From sem_wait(sem_mutex) to sem_post(sem_mutex), both left out.
  unfoldable pub register : ℕ → List ℤ → ℤ → Broker → Io net → Result (Broker × Io net)
  register slots information connfd b io = do
    guard (ltb b.fd_idx limit_conn_clients) overrun
    let b₁ = put_fd connfd b
    (name_line, rio, world₁) ← rio_readlineb (rio_readinitb connfd) maxline io.world
    (sus_line, _, world₂) ← rio_readlineb rio maxline world₁
    name ← line_text name_line
    let b₂ = put_name name b₁
    io₁ ← thread_log (codes "Se ha conectado " ++ name) (record io { world = world₂ })
    sus ← line_text sus_line
    (b₃, io₂) ← subscribe slots information name sus b₂ io₁
    ok (count_client b₃, io₂)
