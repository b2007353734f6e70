-- ===== src/Subscriber.antt =====
-- sub_client.c: the subscriber's greeting, and the loop that prints what the broker sends.
pub mod Listen
pub mod Main
use mqttv.Base.{ℕ, zero, suc, ◌==◌, Bool, true, false, List, [], ◌∷◌, ◌++◌, if◌then◌else◌}
use mqttv.Int.{pos}
use mqttv.Result.{Result, ok, exits, ◌>>=◌, store}
use mqttv.CString.{Bytes, newline, c_string}
use mqttv.Net.{Net, Io, maxline}

-- main up to its loop: the two lines that it sends.
unfoldable pub greeting : ℕ → Bytes → Bytes → Result (List Bytes)
greeting argc node_name suscription_topic =
    if argc == 3
    then (do
      node_name_buf ← store 20 node_name
      suscription_topic_buf ← store 20 suscription_topic
      node_name_buf' ← store 20 (node_name_buf ++ newline)
      suscription_topic_buf' ← store 20 (suscription_topic_buf ++ newline)
      ok (node_name_buf' ∷ suscription_topic_buf' ∷ []))
    else exits (pos 0)

module _ (net : Net) where
  open net use {Reader, rio_readlineb}

  -- What one round does with its line; the empty line breaks the loop.
  unfoldable pub show_line :
      (Io net → Result (Bool × Io net)) → Bytes → Io net → Result (Bool × Io net)
  show_line rest [] io = ok (true, io)
  show_line rest (c ∷ line) io = rest (record io { log = io.log ++ c_string (c ∷ line) ∷ [] })

  -- `while (1)` with fuel; the flag says whether the loop has ended.
  unfoldable pub listen : ℕ → Reader → Io net → Result (Bool × Io net)
  listen zero rio io = ok (false, io)
  listen (suc n) rio io = do
    (line, rio', world) ← rio_readlineb rio maxline io.world
    show_line (listen n rio') line (record io { world = world })
