-- ===== src/Processes/Forks.antt =====
-- exec_grep.c where a command cannot be run: the child whose execvp fails does not leave, but goes on
-- with the commands that are left, as its parent does after it.
use mqttv.Base.{
  ℕ, ◌+◌, ◌*◌, ◌∙◌, ◌++◌, arith, map, drop, length, append_assoc, append-nil, ◌≡◌, refl, Option,
  none, some, List, [], ◌∷◌,
}
use mqttv.Result.{Result, ok, ◌>>=◌, store}
use mqttv.CString.{Bytes, codes}
use mqttv.CString.Split.{separar_tokens}
use mqttv.Processes.{command_size, File, open_file, write}
use mqttv.Processes.Output.{After, write-After}

-- `run` is `none` for a command that execvp cannot run. The result is the file and how many processes
-- have gone on to the end of `main`.
module _ (run : List Bytes → Option Bytes) where
  -- What comes of a command: the parent waits for the child.
  unfoldable pub fork_program : (File → Result (File × ℕ)) → Option Bytes → File → Result (File × ℕ)
  fork_program rest (some output) f = rest (write output f)
  fork_program rest none f = do
    (f₁, children) ← rest f
    (f₂, parents) ← rest f₁
    ok (f₂, children + parents)

  unfoldable pub grep_all : List Bytes → File → Result (File × ℕ)
  grep_all [] f = ok (f, 1)
  grep_all (command ∷ commands) f = do
    command_buf ← store command_size command
    arglist ← separar_tokens command_size command_buf (codes " ")
    fork_program (grep_all commands) (run arglist) f

  unfoldable pub grep_main : Bytes → Result (Bytes × ℕ)
  grep_main old = do
    (f, processes) ←
        grep_all
          (codes "grep Cpu top.txt" ∷ codes "grep Tasks top.txt" ∷ codes "grep Mem top.txt" ∷ [])
          (open_file old)
    ok (f.bytes, processes)

-- What the commands have written when the last process comes to the end: a command that cannot be run
-- writes nothing, and those behind it are run twice.
abbrev pub written : List (Option Bytes) → Bytes
written [] = []
written (some output ∷ outcomes) = output ++ written outcomes
written (none ∷ outcomes) = written outcomes ++ written outcomes

-- Each command that cannot be run doubles the processes.
abbrev pub processes : List (Option Bytes) → ℕ
processes [] = 1
processes (some output ∷ outcomes) = processes outcomes
processes (none ∷ outcomes) = 2 * processes outcomes

abbrev Parses : List Bytes → List (List Bytes) → Type 0
Parses [] [] = Unit
Parses (command ∷ commands) (arglist ∷ arglists) =
    (store command_size command ≡ ok command)
    × (separar_tokens command_size command (codes " ") ≡ ok arglist)
    × Parses commands arglists
Parses _ _ = ⊥

module _ (run : List Bytes → Option Bytes) (old : Bytes) where
  -- The file behind what was written, of a command with this outcome.
  fork_program_lem :
      (rest : File → Result (File × ℕ)) (outcomes : List (Option Bytes))
      → ((t : Bytes)
          → rest (After t old) ≡ ok (After (t ++ written outcomes) old, processes outcomes))
      → (outcome : Option Bytes) (t : Bytes)
      → fork_program run rest outcome (After t old)
        ≡ ok (After (t ++ written (outcome ∷ outcomes)) old, processes (outcome ∷ outcomes))
  unfolding fork_program ◌>>=◌
  fork_program_lem rest outcomes h (some output) t =
      rw (write-After output t old)
        (h (t ++ output) ∙ rw (append_assoc t output (written outcomes)) refl)
  fork_program_lem rest outcomes h none t =
      let twice : processes outcomes + processes outcomes ≡ 2 * processes outcomes = omega arith in
      rw (h t) (
        rw (h (t ++ written outcomes))
          (rw (append_assoc t (written outcomes) (written outcomes)) (rw twice refl)))

  grep_all_lem :
      (commands : List Bytes) (arglists : List (List Bytes))
      → Parses commands arglists
      → (t : Bytes)
      → grep_all run commands (After t old)
        ≡ ok (After (t ++ written (map run arglists)) old, processes (map run arglists))
  unfolding grep_all ◌>>=◌
  grep_all_lem [] [] h t = rw append-nil refl
  grep_all_lem [] (a ∷ ls) h t = elim h [ ]
  grep_all_lem (c ∷ cs) [] h t = elim h [ ]
  grep_all_lem (c ∷ cs) (a ∷ ls) h t = rw (h.0) (
      rw (h.1) (fork_program_lem (grep_all run cs) (map run ls) (grep_all_lem cs ls h.2) (run a) t))

-- Whichever of its three commands can be run: a command that can be run writes its output to info.txt,
-- and a command that cannot be run writes nothing, but all that comes behind it is done twice, by the
-- child and then by the parent. So the processes that come to the end of main double with each of
-- these; info.txt holds what was written, and behind it the rest of what it held before.
pub grep_main_lem :
    (run : List Bytes → Option Bytes) (old : Bytes)
    → let outcomes =
        run (codes "grep" ∷ codes "Cpu" ∷ codes "top.txt" ∷ [])
        ∷ run (codes "grep" ∷ codes "Tasks" ∷ codes "top.txt" ∷ [])
        ∷ run (codes "grep" ∷ codes "Mem" ∷ codes "top.txt" ∷ [])
        ∷ [] in
      grep_main run old
      ≡ ok (written outcomes ++ drop (length (written outcomes)) old, processes outcomes)
unfolding grep_main open_file ◌>>=◌ separar_tokens
grep_main_lem run old =
    rw
      (grep_all_lem run old
        (codes "grep Cpu top.txt" ∷ codes "grep Tasks top.txt" ∷ codes "grep Mem top.txt" ∷ [])
        ((codes "grep" ∷ codes "Cpu" ∷ codes "top.txt" ∷ [])
          ∷ (codes "grep" ∷ codes "Tasks" ∷ codes "top.txt" ∷ [])
          ∷ (codes "grep" ∷ codes "Mem" ∷ codes "top.txt" ∷ [])
          ∷ [])
        (refl, refl, (refl, refl, (refl, refl, tt))) [])
      refl
