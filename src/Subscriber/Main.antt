-- ===== src/Subscriber/Main.antt =====
-- main of sub_client.c as a whole.
use mqttv.Base.{ℕ, ◌<◌, ◌≡◌, refl, ◌∙◌, Bool, true, List, [], ◌∷◌, ◌++◌, map, length, append_assoc}
use mqttv.Int.{ℤ}
use mqttv.Result.{Result, ok, ◌>>=◌}
use mqttv.CString.{Bytes, codes, c_string}
use mqttv.Net.{Net, Io}
use mqttv.Subscriber.{greeting, listen}
use mqttv.Subscriber.Listen.{Reads, listen_prints}

abbrev pub broker_host : Bytes
broker_host = codes "127.0.0.1"

-- The control message on the terminal.
abbrev pub connected_to : Bytes → Bytes → Bytes
connected_to node_name suscription_topic =
    codes "Name: "
    ++ (node_name
        ++ (codes " Suscription: "
            ++ (suscription_topic ++ (codes " Connected to: " ++ (broker_host ++ codes "\n\n\n")))))

module _ (net : Net) where
  open net use {World, rio_readinitb, rio_writen}

  -- Rio_writen for each of the texts
  unfoldable pub write_lines : ℤ → List Bytes → World → Result World
  write_lines clientfd [] w = ok w
  write_lines clientfd (line ∷ lines) w = rio_writen clientfd line w >>= write_lines clientfd lines

  -- `main`, with Open_clientfd as an argument and fuel for the loop; the flag says whether the loop
  -- has ended, after which the process leaves with 0.
  unfoldable pub main :
      ℕ → ℕ → Bytes → Bytes → (Io net → Result (ℤ × Io net)) → Io net → Result (Bool × Io net)
  main n argc node_name suscription_topic open_connection io = do
    lines ← greeting argc node_name suscription_topic
    (clientfd, io') ← open_connection (record io { log = io.log ++ lines })
    world ← write_lines clientfd lines io'.world
    listen net n (rio_readinitb clientfd)
        (record { world = world; log = io'.log ++ connected_to node_name suscription_topic ∷ [] })

  -- A subscriber whose arguments its buffers have room for, that gets a connection on which both its
  -- lines can be written, and to which then lines come and the end of the stream, prints its two
  -- arguments, the control message and exactly the lines that come, each up to a NUL in it, and its
  -- loop ends; fuel for one round more than there are lines is enough.
  pub main_prints :
      {w w' : World} {lines coming : List Bytes} (n : ℕ) (node_name suscription_topic : Bytes)
      (clientfd : ℤ) (open_connection : Io net → Result (ℤ × Io net)) (io io₁ : Io net)
      → greeting 3 node_name suscription_topic ≡ ok lines
      → open_connection (record io { log = io.log ++ lines }) ≡ ok (clientfd, io₁)
      → write_lines clientfd lines io₁.world ≡ ok w
      → Reads net (rio_readinitb clientfd) w coming w'
      → length coming < n
      → main n 3 node_name suscription_topic open_connection io
        ≡ ok (
          true,
          record {
            world = w';
            log = io₁.log ++ connected_to node_name suscription_topic ∷ map c_string coming;
          },
        )
  unfolding main ◌>>=◌
  main_prints {coming = coming} n node_name suscription_topic clientfd open_connection io io₁ greets
        opens writes reads lt =
      rw greets (
        rw opens (
          rw writes (
            listen_prints net reads n (io₁.log ++ connected_to node_name suscription_topic ∷ []) lt
            ∙ rw
                (append_assoc io₁.log (connected_to node_name suscription_topic ∷ [])
                  (map c_string coming))
                refl)))
