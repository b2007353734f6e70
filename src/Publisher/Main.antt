-- ===== src/Publisher/Main.antt =====
-- main of pub_client.c as a whole, for as many rounds as there are reports of top.
use mqttv.Base.{
  ℕ, ◌<◌, ◌≡◌, refl, arith, length, length-append, ◌∙◌, some, List, [], ◌∷◌, ◌++◌, map,
  append_assoc, append-nil,
}
use mqttv.Int.{ℤ}
use mqttv.Result.{Result, ok, ◌>>=◌, store_fits}
use mqttv.CString.{Bytes, codes, newline}
use mqttv.Net.{Net, Io}
use mqttv.Publisher.{Floats, Block, greeting, update_send_info}
use mqttv.Publisher.Rounds.{Files, publish_all, publish_lem, new_top, new_info}
use mqttv.Subscriber.Main.{broker_host, write_lines}
use mqttv.Rio.Connections.{Sockets, sockets}

-- The control message on the terminal, behind the two lines of the greeting.
abbrev pub named_connection : List Bytes → Bytes
named_connection [] = []
named_connection (name ∷ rest) =
    codes "Name: "
    ++ (name
        ++ (codes "Suscription: "
            ++ (codes "NONE\n" ++ (codes "Connected to: " ++ (broker_host ++ codes "\n\n\n")))))

-- What it prints of a line that it has sent.
abbrev pub sent_info : Bytes → Bytes
sent_info full_info = codes "Se ha enviado la informacion: " ++ full_info

module _ (net : Net) (floats : Floats) (malloc : ℕ → Block)
    (grep : Bytes → List Bytes → Bytes) where
  -- `main`, with Open_clientfd as an argument.
  unfoldable pub main :
      ℕ
      → Bytes
      → (Io net → Result (ℤ × Io net))
      → List Bytes
      → Files
      → Io net
      → Result (Files × Io net)
  main argc node_name open_connection reports files io = do
    lines ← greeting argc node_name
    (clientfd, io') ← open_connection io
    world ← write_lines net clientfd lines io'.world
    publish_all net floats malloc grep clientfd reports files
        (record { world = world; log = io'.log ++ named_connection lines ∷ [] })

module _ (now : Bytes) (floats : Floats) (malloc : ℕ → Block)
    (grep : Bytes → List Bytes → Bytes) where
  -- The lines that the publisher makes of the reports that top gives, and the files behind them.
  pub data Lines : Files → List Bytes → List Bytes → Files → Type 0 where
    done : {files : Files} → Lines files [] [] files
    more :
        {files files' : Files} {report full_info : Bytes} {reports infos : List Bytes}
        → update_send_info floats malloc
            (some (new_info (sockets now) floats malloc grep report files))
          ≡ ok full_info
        → Lines
            (record {
              top = new_top (sockets now) floats malloc grep report files;
              info = new_info (sockets now) floats malloc grep report files;
            })
            reports
            infos
            files'
        → Lines files (report ∷ reports) (full_info ∷ infos) files'

  pub rounds_send :
      {files files' : Files} {reports infos : List Bytes}
      → Lines files reports infos files'
      → (clientfd : ℤ) (w : Sockets) (log : List Bytes)
      → publish_all
          (sockets now)
          floats
          malloc
          grep
          clientfd
          reports
          files
          (record { world = w; log = log })
        ≡ ok (
          files',
          record {
            world = record w { sent = w.sent ++ map (λ s. (clientfd, s)) infos };
            log = log ++ map sent_info infos;
          },
        )
  unfolding publish_all ◌>>=◌
  rounds_send done clientfd w log = rw append-nil (rw append-nil refl)
  rounds_send (more {files} {files'} {report} {full_info} {reports} {infos} e r) clientfd w log =
      publish_lem (sockets now) floats malloc grep clientfd report reports files
        (record { world = w; log = log })
      ∙ rw e (
          rounds_send r clientfd (record w { sent = w.sent ++ (clientfd, full_info) ∷ [] })
            (log ++ sent_info full_info ∷ [])
          ∙ rw (append_assoc w.sent ((clientfd, full_info) ∷ []) (map (λ s. (clientfd, s)) infos))
              (rw (append_assoc log (sent_info full_info ∷ []) (map sent_info infos)) refl))

  greets :
      (node_name : Bytes)
      → length node_name < 19
      → greeting 2 node_name ≡ ok ((node_name ++ newline) ∷ codes "NONE\n" ∷ [])
  unfolding greeting ◌>>=◌
  greets node_name lt = rw (store_fits 20 node_name (omega arith)) (
      rw (store_fits 20 (node_name ++ newline) (omega (arith, length-append node_name newline)))
        refl)

  -- A publisher whose name its buffer has room for, and that gets a connection, sends over it its
  -- name, NONE, and then for each report of top, in their order, the line that it makes of it, if it
  -- can make one of each, and nothing else.
  pub main_sends :
      {files files' : Files} {reports infos : List Bytes} (node_name : Bytes) (clientfd : ℤ)
      (open_connection : Io (sockets now) → Result (ℤ × Io (sockets now))) (io : Io (sockets now))
      (w : Sockets) (log : List Bytes)
      → length node_name < 19
      → open_connection io ≡ ok (clientfd, record { world = w; log = log })
      → Lines files reports infos files'
      → main (sockets now) floats malloc grep 2 node_name open_connection reports files io
        ≡ ok (
          files',
          record {
            world = record w {
              sent =
                  w.sent
                  ++ (clientfd, node_name ++ newline)
                    ∷ (clientfd, codes "NONE\n")
                    ∷ map (λ s. (clientfd, s)) infos;
            };
            log = log ++ named_connection ((node_name ++ newline) ∷ []) ∷ map sent_info infos;
          },
        )
  unfolding main write_lines ◌>>=◌
  main_sends {infos = infos} node_name clientfd open_connection io w log lt opens r =
      let first : List (ℤ × Bytes) = (clientfd, node_name ++ newline) ∷ [] in
      let second : List (ℤ × Bytes) = (clientfd, codes "NONE\n") ∷ [] in
      let named : List Bytes = named_connection ((node_name ++ newline) ∷ []) ∷ [] in
      rw (greets node_name lt) (
        rw opens (
          rounds_send r clientfd (record w { sent = (w.sent ++ first) ++ second }) (log ++ named)
          ∙ rw (append_assoc (w.sent ++ first) second (map (λ s. (clientfd, s)) infos)) (
              rw (append_assoc w.sent first (second ++ map (λ s. (clientfd, s)) infos))
                (rw (append_assoc log named (map sent_info infos)) refl))))
