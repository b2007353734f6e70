-- ===== src/Prototypes/EchoServer.antt =====
-- echoserveri.c of prototypes/demo_tcpip: a server that sends each line back.
pub mod Replies
use mqttv.Base.{
  ℕ, zero, suc, ◌==◌, Bool, true, false, Option, none, some, List, [], ◌∷◌, ◌++◌, if◌then◌else◌,
  length,
}
use mqttv.Int.{ℤ, pos}
use mqttv.Result.{Result, ok, exits, ◌>>=◌, ◌>>◌}
use mqttv.CString.{Bytes, codes, c_string, chop, str_eq}
use mqttv.Decimal.{decimal}
use mqttv.Net.{Net, Io, maxline}

-- What the system says of a connection that it accepted: its descriptor, the name of the host, if
-- one is found, and the text of its address.
pub record Peer : Type 0 where
  pub connfd : ℤ
  pub host : Option Bytes
  pub haddrp : Bytes

-- It prints to stderr and leaves the process.
abbrev dns_error {ℓ} : {A : Type ℓ} → Result A
dns_error = exits (pos 0)

-- Gethostbyaddr leaves the process where no name is found.
unfoldable pub gethostbyaddr : Peer → Result Bytes
gethostbyaddr peer = elim peer.host [ none ↦ dns_error | some name ↦ ok name ]

module _ (net : Net) where
  open net use {Reader, rio_readinitb, rio_readlineb, rio_writen}

  -- printf
  unfoldable pub print : Bytes → Io net → Io net
  print text io = record io { log = io.log ++ text ∷ [] }

  -- The body of the loop in `echo` for a line of n bytes.
  unfoldable pub echo_line : ℤ → Bytes → Io net → Result (Io net)
  unfolding print
  echo_line connfd line io =
      if str_eq (c_string line) (codes "help\n")
      then (do
        world ← rio_writen connfd (codes "NO HELP FOR YOU\n") io.world
        ok (record io { world = world }))
      else do
        world ← rio_writen connfd line io.world
        buf ← chop (c_string line)
        ok (
            print
              (codes "server received "
                ++ (decimal (pos (length line)) ++ (codes " bytes (" ++ (buf ++ codes ")\n"))))
              (record io { world = world }))

  -- The loop goes on with a line that is not empty.
  unfoldable pub echo_read :
      (Io net → Result (Bool × Io net)) → ℤ → Bytes → Io net → Result (Bool × Io net)
  echo_read rest connfd [] io = ok (true, io)
  echo_read rest connfd (c ∷ line) io = do io' ← echo_line connfd (c ∷ line) io; rest io'

  -- `while((n = Rio_readlineb(...)))` with fuel; the flag says whether the loop has ended.
  unfoldable pub echo_loop : ℕ → Reader → ℤ → Io net → Result (Bool × Io net)
  echo_loop zero rio connfd io = ok (false, io)
  echo_loop (suc n) rio connfd io = do
    (line, rio', world) ← rio_readlineb rio maxline io.world
    echo_read (echo_loop n rio' connfd) connfd line (record io { world = world })

  unfoldable pub echo : ℕ → ℤ → Io net → Result (Bool × Io net)
  echo n connfd io = echo_loop n (rio_readinitb connfd) connfd io

  -- The rest of the body of the loop in `main`, once `echo` has ended; `closed` is the descriptors
  -- that were closed so far.
  unfoldable pub hang_up :
      (List ℤ → Io net → Result (List ℤ × Io net))
      → Peer
      → List ℤ
      → Bool × Io net
      → Result (List ℤ × Io net)
  unfolding print
  hang_up rest peer closed (false, io) = ok (closed, io)
  hang_up rest peer closed (true, io) =
      rest (closed ++ peer.connfd ∷ [])
        (print (codes "\nServer disconnected from " ++ (peer.haddrp ++ codes "\n\n")) io)

  -- `while (1)` of `main` over the connections that come; n is the fuel for each of them.
  unfoldable pub serve : ℕ → List Peer → List ℤ → Io net → Result (List ℤ × Io net)
  unfolding print
  serve n [] closed io = ok (closed, io)
  serve n (peer ∷ peers) closed io = do
    name ← gethostbyaddr peer
    ended ← echo n peer.connfd (
        print
          (codes "\n>> Server connected to "
            ++ (name ++ (codes " (" ++ (peer.haddrp ++ codes ")\n\n"))))
          io)
    hang_up (serve n peers) peer closed ended

  -- `main`, with Open_listenfd of csapp.c as an argument.
  unfoldable pub main :
      ℕ → (Io net → Result (ℤ × Io net)) → ℕ → List Peer → Io net → Result (List ℤ × Io net)
  unfolding print
  main argc open_listening n peers io =
      if argc == 2
      then (do
        (listenfd, io') ← open_listening (print (codes "Waiting for connections...\n") io)
        serve n peers [] io')
      else exits (pos 0)
