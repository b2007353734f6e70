-- ===== src/Tests/Clients.antt =====
-- Examples for the two clients, the programs that the publisher runs, and the sockets.
use mqttv.Base.{
  ℕ, Option, if◌then◌else◌, ◌+◌, ◌≡◌, refl, true, false, none, some, List, [], ◌∷◌, ◌++◌, arith,
  length, drop,
}
use mqttv.Int.{ℤ, pos, minus_one}
use mqttv.Result.{ok, fault, overrun}
use mqttv.CString.{Bytes, codes, newline, is_delim, str_eq}
use mqttv.CString.Split.Tokens.{tokens}
use mqttv.CString.Split.RoundTrip.{join}
use mqttv.Publisher.{Floats, Block, join_full_info, update_send_info, change_comma_for_period}
use mqttv.Publisher.Report.{Top, join_full_info_overruns}
use mqttv.Publisher.Report.Line.{update_send_info_parses}
use mqttv.Processes.{exec_grep}
use mqttv.Processes.Forks.{grep_main, grep_main_lem}
use mqttv.Processes.Output.{exec_grep_lem}
use mqttv.Sockets.{Address, Opened, open_listenfd}
use mqttv.Sockets.Walk.{open_listenfd_lem}

-- A block as large as was asked for, which starts with its NUL.
abbrev exact_block : ℕ → Block
exact_block n = record { usable = n; held = [] }

abbrev pub roomy_block : ℕ → Block
roomy_block n = record { usable = n + 5; held = [] }

join_full_info_overruns_example :
    join_full_info exact_block
      (codes "200")
      (codes "1")
      (codes "2")
      (codes "0,1")
      (codes "0,2")
      (codes "25.1234")
    ≡ fault overrun
join_full_info_overruns_example =
    join_full_info_overruns exact_block (codes "200") (codes "1") (codes "2") (codes "0,1")
      (codes "0,2") (codes "25.1234") λ n. refl

-- Floats that print alike.
abbrev pub quarter : Floats
quarter = record {
  Float = ℤ;
  of_long = λ n. n;
  divide = λ a b. a;
  times_hundred = λ a. a;
  show = λ a. codes "25.1234";
}

abbrev pub report : Top
report = record {
  us = codes "1,0";
  sy = codes "2,0";
  ni = codes "3,0";
  id = codes "9";
  wa = codes "0";
  hi = codes "0";
  si = codes "0";
  st = codes "0";
  total = codes "200";
  running = codes "1";
  sleeping = codes "198";
  stopped = codes "7";
  zombie = codes "0";
  mem_total = codes "100";
  mem_free = codes "50";
  mem_used = codes "25";
  mem_cache = codes "24";
}

abbrev pub info_txt : Bytes
info_txt =
    codes
      "%Cpu(s): 1,0 us, 2,0 sy, 3,0 ni, 9 id, 0 wa, 0 hi, 0 si, 0 st\nTasks: 200 total, 1 running, "
    ++ codes
        "198 sleeping, 7 stopped, 0 zombie\nMiB Mem : 100 total, 50 free, 25 used, 24 buff/cache\n"

abbrev report_text : Bytes
report_text =
    join b','
      (codes "200" ∷ codes "198" ∷ codes "7" ∷ codes "1.0" ∷ codes "3.0" ∷ codes "25.1234" ∷ [])

update_send_info_parses_example :
    (front : Bytes) × (last : ℕ) × (report_text ≡ front ++ (last ∷ []))
    × (update_send_info quarter roomy_block (some info_txt) ≡ ok (front ++ newline))
unfolding change_comma_for_period tokens is_delim
update_send_info_parses_example =
    update_send_info_parses quarter roomy_block info_txt report (codes "buff/cache\n" ∷ [])
      (omega arith) (omega arith) refl (omega arith)

abbrev pub echo : List Bytes → Bytes
echo [] = []
echo (w ∷ ws) = w ++ echo ws

exec_grep_lem_example :
    (let out =
        (echo (codes "grep" ∷ codes "Cpu" ∷ codes "top.txt" ∷ [])
          ++ echo (codes "grep" ∷ codes "Tasks" ∷ codes "top.txt" ∷ []))
        ++ echo (codes "grep" ∷ codes "Mem" ∷ codes "top.txt" ∷ []) in
      exec_grep echo (codes "old") ≡ ok (out ++ drop (length out) (codes "old")))
exec_grep_lem_example = exec_grep_lem echo (codes "old")

-- The first grep cannot be run.
abbrev second_grep : List Bytes → Option Bytes
second_grep args = if str_eq (echo args) (codes "grepCputop.txt") then none else some (codes "x")

grep_main_lem_example : grep_main second_grep (codes "older text") ≡ ok (codes "xxxxr text", 2)
unfolding str_eq
grep_main_lem_example = grep_main_lem second_grep (codes "older text")

-- No socket, a socket that is refused, one that is taken.
abbrev addresses : List Address
addresses =
    record { socket = minus_one; accepted = true }
    ∷ record { socket = pos 3; accepted = false }
    ∷ record { socket = pos 4; accepted = true }
    ∷ []

open_listenfd_lem_example :
    (r : Opened) × (open_listenfd (some addresses) false ≡ ok r)
    × (r.result ≡ minus_one)
    × (r.opened ≡ r.closed ++ pos 4 ∷ [])
open_listenfd_lem_example = open_listenfd_lem addresses false
