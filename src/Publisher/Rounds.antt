-- ===== src/Publisher/Rounds.antt =====
-- The loop of `main` of pub_client.c, with the two programs that it runs in each round.
use mqttv.Base.{ℕ, ◌≡◌, ◌∙◌, true, some, List, [], ◌∷◌, ◌++◌, length, drop}
use mqttv.Int.{ℤ}
use mqttv.Result.{Result, ok, fault, exits, ◌>>=◌, bind_assoc, bind_congr}
use mqttv.CString.{Bytes, codes}
use mqttv.Net.{Net, Io}
use mqttv.Processes.{exec_top, exec_grep}
use mqttv.Processes.Output.{exec_grep_lem, exec_top_lem, grep_output}
use mqttv.Publisher.{Floats, Block, update_send_info}

-- What top.txt and info.txt hold.
pub record Files : Type 0 where
  pub top : Bytes
  pub info : Bytes

-- The parent waits for the child and does not look at its exit code; a child that leaves before it
-- opens its file leaves the file as it was.
unfoldable pub after_child : Bytes → Result Bytes → Result Bytes
after_child old (ok new) = ok new
after_child old (fault e) = fault e
after_child old (exits code) = ok old

-- `report` is what top prints in this round.
unfoldable pub update_top_file : Bytes → Files → Result Files
update_top_file report files = do
  top ← after_child files.top (exec_top (λ args. report) true files.top)
  ok (record files { top = top })

-- `grep` is what the command prints of the text of top.txt.
unfoldable pub filter_top_file : (Bytes → List Bytes → Bytes) → Files → Result Files
filter_top_file grep files = do
  info ← after_child files.info (exec_grep (grep files.top) files.info)
  ok (record files { info = info })

module _ (net : Net) (floats : Floats) (malloc : ℕ → Block)
    (grep : Bytes → List Bytes → Bytes) where
  open net use {rio_writen}

  -- The body of `while (1)`.
  unfoldable pub publish : ℤ → Bytes → Files → Io net → Result (Files × Io net)
  publish clientfd report files io = do
    files₁ ← update_top_file report files
    files₂ ← filter_top_file grep files₁
    full_info ← update_send_info floats malloc (some files₂.info)
    world ← rio_writen clientfd full_info io.world
    ok (
      files₂,
      record {
        world = world;
        log = io.log ++ (codes "Se ha enviado la informacion: " ++ full_info) ∷ [];
      },
    )

  -- The rounds for the reports that are still to come.
  unfoldable pub publish_all : ℤ → List Bytes → Files → Io net → Result (Files × Io net)
  publish_all clientfd [] files io = ok (files, io)
  publish_all clientfd (report ∷ reports) files io = do
    (files', io') ← publish clientfd report files io
    publish_all clientfd reports files' io'

  -- The text of top.txt after a round, and that of info.txt.
  abbrev pub new_top : Bytes → Files → Bytes
  new_top report files = report ++ drop (length report) files.top

  abbrev pub new_info : Bytes → Files → Bytes
  new_info report files =
      let out = grep_output (grep (new_top report files)) in out ++ drop (length out) files.info

  -- A round sends the line that update_send_info makes of the three outputs of grep on the new
  -- top.txt, where both files still end as in the round before if the new text is shorter: the files
  -- carry over from one round to the next.
  pub publish_lem :
      (clientfd : ℤ) (report : Bytes) (reports : List Bytes) (files : Files) (io : Io net)
      → publish_all clientfd (report ∷ reports) files io ≡ (
          update_send_info floats malloc (some (new_info report files)) >>= λ full_info.
          rio_writen clientfd full_info io.world >>= λ world.
          publish_all clientfd reports
            (record { top = new_top report files; info = new_info report files })
            (record {
              world = world;
              log = io.log ++ (codes "Se ha enviado la informacion: " ++ full_info) ∷ [];
            }))
  unfolding publish_all publish update_top_file filter_top_file after_child ◌>>=◌
  publish_lem clientfd report reports files io = rw (exec_top_lem (λ args. report) files.top) (
      rw (exec_grep_lem (grep (new_top report files)) files.info) (
        bind_assoc (update_send_info floats malloc (some (new_info report files))) _ _
        ∙ bind_congr _ _ _ λ full_info. bind_assoc (rio_writen clientfd full_info io.world) _ _))
