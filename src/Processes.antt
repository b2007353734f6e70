-- ===== src/Processes.antt =====
-- exec_top.c and exec_grep.c, which the publisher runs before each report: the commands that they
-- run, and the file that the commands' output goes to.
pub mod Output
pub mod Forks
use mqttv.Base.{ℕ, ◌+◌, Bool, true, false, List, [], ◌∷◌, ◌++◌, length, take, drop}
use mqttv.Int.{pos}
use mqttv.Result.{Result, ok, exits, ◌>>=◌, store}
use mqttv.CString.{Bytes, codes}
use mqttv.CString.Split.{separar_tokens}

abbrev pub command_size : ℕ
command_size = 20

-- A file that is open for writing: what it holds, and where the next write goes. The descriptors
-- that dup2 makes, and those of the children, share this offset.
pub record File : Type 0 where
  pub bytes : Bytes
  pub offset : ℕ

-- open with O_RDWR | O_CREAT and without O_TRUNC
unfoldable pub open_file : Bytes → File
open_file old = record { bytes = old; offset = 0 }

unfoldable pub write : Bytes → File → File
write s f = record {
  bytes = take f.offset f.bytes ++ (s ++ drop (f.offset + length s) f.bytes);
  offset = f.offset + length s;
}

-- `run` is what a command of these arguments prints, which is the system's to say.
module _ (run : List Bytes → Bytes) where
  -- separar_tokens and open_program of exec_grep.c
  unfoldable pub grep_program : Bytes → File → Result File
  grep_program command f = do
    command_buf ← store command_size command
    arglist ← separar_tokens command_size command_buf (codes " ")
    ok (write (run arglist) f)

  -- main of exec_grep.c on what info.txt held; the result is what it holds then.
  unfoldable pub exec_grep : Bytes → Result Bytes
  exec_grep old = do
    f₁ ← grep_program (codes "grep Cpu top.txt") (open_file old)
    f₂ ← grep_program (codes "grep Tasks top.txt") f₁
    f₃ ← grep_program (codes "grep Mem top.txt") f₂
    ok f₃.bytes

  -- main and open_program of exec_top.c on what top.txt held; the pipe that it makes is not used.
  unfoldable pub exec_top : Bool → Bytes → Result Bytes
  exec_top false old = exits (pos 1)
  exec_top true old = do
    command_buf ← store command_size (codes "top -b -n 1 -E m")
    arglist ← separar_tokens command_size command_buf (codes " ")
    ok (write (run arglist) (open_file old)).bytes
