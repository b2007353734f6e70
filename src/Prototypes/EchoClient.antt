-- ===== src/Prototypes/EchoClient.antt =====
-- echoclient.c of prototypes/demo_tcpip: it sends the lines that are typed, and shows what comes back.
pub mod Session
use mqttv.Base.{ℕ, zero, suc, ◌==◌, Bool, true, false, List, [], ◌∷◌, ◌++◌, if◌then◌else◌}
use mqttv.Int.{ℤ, pos}
use mqttv.Result.{Result, ok, exits, ◌>>=◌}
use mqttv.CString.{Bytes, codes, newline, c_string, str_eq}
use mqttv.Net.{Net, Io, maxline}

-- The buffer after Rio_readlineb: at the end of the stream it is left as it was.
unfoldable pub read_into : Bytes → Bytes → Bytes
read_into buf [] = buf
read_into buf (c ∷ line) = c ∷ line

module _ (net : Net) where
  open net use {Reader, rio_readinitb, rio_readlineb, rio_writen}

  -- The body of the loop for a line that was typed.
  unfoldable pub exchange : ℤ → Reader → Bytes → Io net → Result (Reader × Io net)
  unfolding read_into
  exchange clientfd rio buf io = do
    world₁ ← rio_writen clientfd (c_string buf) io.world
    (line, rio', world₂) ← rio_readlineb rio maxline world₁
    ok (
      rio',
      record {
        world = world₂;
        log = io.log ++ c_string (read_into buf line) ∷ codes "Write something: " ∷ [];
      },
    )

  -- `while (Fgets(...) != NULL && strcmp(buf, "quit\n") != 0)` over the lines that Fgets returns; what
  -- stands behind a quit is not read.
  unfoldable pub converse : ℤ → Reader → List Bytes → Io net → Result (Io net)
  converse clientfd rio [] io = ok io
  converse clientfd rio (buf ∷ typed) io =
      let rest = λ (r : Reader × Io net). converse clientfd r.0 typed r.1 in
      if str_eq (c_string buf) (codes "quit\n")
      then ok io
      else exchange clientfd rio buf io >>= rest

  -- `main`, with Open_clientfd of csapp.c as an argument.
  unfoldable pub main :
      ℕ → Bytes → (Io net → Result (ℤ × Io net)) → List Bytes → Io net → Result (Io net)
  main argc host open_connection typed io =
      if argc == 3
      then (do
        (clientfd, io') ← open_connection io
        converse clientfd (rio_readinitb clientfd) typed (record io' {
          log =
              io'.log
              ++ (codes "Succesfully connected to " ++ (host ++ newline))
                ∷ codes "Write something: "
                ∷ [];
        }))
      else exits (pos 0)
