-- ===== src/Publisher.antt =====
-- pub_client.c: the publisher's greeting, and the line that it makes of a report of `top`.
pub mod Strtol
pub mod Report
pub mod Rounds
pub mod Main
use mqttv.Base.{
  ℕ, zero, suc, ◌+◌, ◌==◌, Bool, true, false, Option, none, some, List, [], ◌∷◌, ◌++◌, map, ltb,
  if◌then◌else◌, get_elem?, length, set, take,
}
use mqttv.Int.{ℤ, pos}
use mqttv.Result.{Result, ok, fault, exits, overrun, null, ◌>>=◌, ◌>>◌, guard, store}
use mqttv.CString.{Bytes, codes, newline, c_string, chop}
use mqttv.CString.Split.{separar_tokens}
use mqttv.Net.{maxline}
use Strtol.{strtol}

-- The C type float, which the program divides with and prints by "%0.4f".
pub record Floats : Type 1 where
  pub Float : Type 0
  pub of_long : ℤ → Float
  pub divide : Float → Float → Float
  pub times_hundred : Float → Float
  pub show : Float → Bytes

-- A block that malloc returns: how many bytes may be written to it, and the text that it holds
-- already, up to its first NUL.
pub record Block : Type 0 where
  pub usable : ℕ
  pub held : Bytes

abbrev pub limit_read : ℕ
limit_read = 363

abbrev pub tasks_gen_pos : ℕ
tasks_gen_pos = 17

abbrev pub tasks_run_pos : ℕ
tasks_run_pos = 21

abbrev pub tasks_sleep_pos : ℕ
tasks_sleep_pos = 23

abbrev pub cpu_gen_pos : ℕ
cpu_gen_pos = 1

abbrev pub cpu_sys_pos : ℕ
cpu_sys_pos = 5

abbrev pub mem_avail_pos : ℕ
mem_avail_pos = 29

abbrev pub mem_used_pos : ℕ
mem_used_pos = 35

-- main up to its loop: the two lines that it sends.
unfoldable pub greeting : ℕ → Bytes → Result (List Bytes)
greeting argc node_name =
    if argc == 2
    then (do
      node_name_buf ← store 20 node_name
      node_name_buf' ← store 20 (node_name_buf ++ newline)
      ok (node_name_buf' ∷ codes "NONE\n" ∷ []))
    else exits (pos 0)

unfoldable pub change_comma_for_period : Bytes → Bytes
change_comma_for_period = map (λ c. if c == b',' then b'.' else c)

-- info_list[i] at a token of the report; the cells behind the tokens hold the null pointer, or
-- what an earlier report has left there.
unfoldable pub info_at : List Bytes → ℕ → Result Bytes
info_at info i = elim (get_elem? info i) [ none ↦ fault null | some s ↦ ok s ]

-- The size that join_full_info asks for.
abbrev pub requested : Bytes → Bytes → Bytes → Bytes → Bytes → Bytes → ℕ
requested tasks_gen tasks_run tasks_sleep cpu_gen cpu_sys memory =
    length tasks_gen
    + length tasks_run
    + length tasks_sleep
    + length cpu_gen
    + length cpu_sys
    + length memory
    + 1

-- The strcats, behind what the block holds already.
abbrev pub joined : Bytes → Bytes → Bytes → Bytes → Bytes → Bytes → Bytes
joined tasks_gen tasks_run tasks_sleep cpu_gen cpu_sys memory =
    tasks_gen
    ++ (b','
        ∷ (tasks_run
            ++ (b','
                ∷ (tasks_sleep ++ (b',' ∷ (cpu_gen ++ (b',' ∷ (cpu_sys ++ (b',' ∷ memory)))))))))

unfoldable pub join_full_info :
    (ℕ → Block) → Bytes → Bytes → Bytes → Bytes → Bytes → Bytes → Result Bytes
join_full_info malloc tasks_gen tasks_run tasks_sleep cpu_gen cpu_sys memory =
    let block = malloc (requested tasks_gen tasks_run tasks_sleep cpu_gen cpu_sys memory) in
    let sys = change_comma_for_period cpu_sys in
    do
      full_info ←
          store block.usable
            (block.held ++ joined tasks_gen tasks_run tasks_sleep cpu_gen sys memory)
      front ← chop full_info
      ok (front ++ newline)

module _ (floats : Floats) where
  open floats use {of_long, divide, times_hundred, show}

  -- Two tokens are changed in place; the result has the memory's percentage too, which snprintf
  -- cuts to nine bytes.
  unfoldable pub parse_info : List Bytes → Result (List Bytes × Bytes)
  parse_info info = do
    tasks ← info_at info tasks_gen_pos
    let info₁ = set info tasks_gen_pos (change_comma_for_period tasks)
    cpu ← info_at info₁ cpu_gen_pos
    let info₂ = set info₁ cpu_gen_pos (change_comma_for_period cpu)
    used ← info_at info₂ mem_used_pos
    total ← info_at info₂ mem_avail_pos
    let percentage = times_hundred (divide (of_long (strtol used)) (of_long (strtol total)))
    ok (info₂, take 9 (show percentage))

  -- `file` is what info.txt holds, `none` if it cannot be read: then read_number is -1.
  unfoldable pub update_send_info : (ℕ → Block) → Option Bytes → Result Bytes
  update_send_info malloc none = fault overrun
  update_send_info malloc (some file) = do
    let text = take limit_read file
    guard (ltb (length text) limit_read) overrun
    info_list ← separar_tokens maxline (c_string text) (codes " ")
    (info, memory) ← parse_info info_list
    tasks_gen ← info_at info tasks_gen_pos
    tasks_run ← info_at info tasks_run_pos
    tasks_sleep ← info_at info tasks_sleep_pos
    cpu_gen ← info_at info cpu_gen_pos
    cpu_sys ← info_at info cpu_sys_pos
    join_full_info malloc tasks_gen tasks_run tasks_sleep cpu_gen cpu_sys memory
