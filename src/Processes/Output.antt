-- ===== src/Processes/Output.antt =====
-- What info.txt and top.txt hold after a run.
use mqttv.Base.{
  ℕ, zero, suc, ◌+◌, ◌≡◌, refl, ap, sym, ◌∙◌, true, List, [], ◌∷◌, ◌++◌, arith, length, take, drop,
  append_assoc, length-append,
}
use mqttv.Result.{ok, ◌>>=◌}
use mqttv.CString.{Bytes, codes}
use mqttv.CString.Split.{separar_tokens}
use mqttv.Processes.{File, open_file, write, grep_program, exec_grep, exec_top}

abbrev grep_args : Bytes → List Bytes
grep_args word = codes "grep" ∷ word ∷ codes "top.txt" ∷ []

-- What was written since the file was opened, in front of what the file held before.
abbrev pub After : Bytes → Bytes → File
After s old = record { bytes = s ++ drop (length s) old; offset = length s }

take-append : (xs ys : Bytes) → take (length xs) (xs ++ ys) ≡ xs
take-append [] ys = refl
take-append (x ∷ xs) ys = ap (◌∷◌ x) (take-append xs ys)

drop-nil : (n : ℕ) → drop {A = ℕ} n [] ≡ []
drop-nil zero = refl
drop-nil (suc n) = refl

drop-suc : (m n x : ℕ) (xs : Bytes) → drop (suc m + n) (x ∷ xs) ≡ drop (m + n) xs
drop-suc m n x xs =
    let e : suc m + n ≡ suc (m + n) = omega arith in ap (λ (k : ℕ). drop k (x ∷ xs)) e

drop-append : (n : ℕ) (t rest : Bytes) → drop (length t + n) (t ++ rest) ≡ drop n rest
drop-append n [] rest = ap (λ (k : ℕ). drop k rest) (omega arith)
drop-append n (c ∷ t) rest = drop-suc (length t) n c (t ++ rest) ∙ drop-append n t rest

drop-drop : (m n : ℕ) (xs : Bytes) → drop n (drop m xs) ≡ drop (m + n) xs
drop-drop zero n xs = ap (λ (k : ℕ). drop k xs) (omega arith)
drop-drop (suc m) n [] = drop-nil n ∙ sym (drop-nil (suc m + n))
drop-drop (suc m) n (x ∷ xs) = drop-drop m n xs ∙ sym (drop-suc m n x xs)

pub write-After : (s t old : Bytes) → write s (After t old) ≡ After (t ++ s) old
unfolding write
write-After s t old =
    rw
      (
        length-append t s,
        take-append t (drop (length t) old),
        drop-append (length s) t (drop (length t) old),
        drop-drop (length t) (length s) old,
      )
      (rw (append_assoc t s (drop (length t + length s) old)))

write-open_file : (s old : Bytes) → write s (open_file old) ≡ After s old
unfolding write open_file
write-open_file s old =
    let e : 0 + length s ≡ length s = omega arith in
    λ i. record { bytes = s ++ drop (e i) old; offset = e i }

module _ (run : List Bytes → Bytes) where
  abbrev Runs : Bytes → List Bytes → Type 0
  Runs command args = (f : File) → grep_program run command f ≡ ok (write (run args) f)

  Runs-cpu : Runs (codes "grep Cpu top.txt") (grep_args (codes "Cpu"))
  unfolding grep_program separar_tokens ◌>>=◌
  Runs-cpu f = refl

  Runs-tasks : Runs (codes "grep Tasks top.txt") (grep_args (codes "Tasks"))
  unfolding grep_program separar_tokens ◌>>=◌
  Runs-tasks f = refl

  Runs-mem : Runs (codes "grep Mem top.txt") (grep_args (codes "Mem"))
  unfolding grep_program separar_tokens ◌>>=◌
  Runs-mem f = refl

  abbrev pub grep_output : Bytes
  grep_output =
      (run (grep_args (codes "Cpu")) ++ run (grep_args (codes "Tasks")))
      ++ run (grep_args (codes "Mem"))

  -- exec_grep leaves in info.txt the outputs of its three commands, one behind the other, and behind
  -- them what the file held there before: a shorter output leaves the end of the older one.
  pub exec_grep_lem :
      (old : Bytes) → exec_grep run old ≡ ok (grep_output ++ drop (length grep_output) old)
  unfolding exec_grep ◌>>=◌
  exec_grep_lem old = rw (Runs-cpu (open_file old)) (
      rw (write-open_file (run (grep_args (codes "Cpu"))) old)
        (rw Runs-tasks (rw write-After (rw Runs-mem (rw write-After)))))

  -- exec_top leaves in top.txt the output of `top`, and behind it what the file held there before.
  pub exec_top_lem :
      (old : Bytes)
      → (let out =
            run (codes "top" ∷ codes "-b" ∷ codes "-n" ∷ codes "1" ∷ codes "-E" ∷ codes "m" ∷ []) in
          exec_top run true old ≡ ok (out ++ drop (length out) old))
  unfolding exec_top separar_tokens ◌>>=◌
  exec_top_lem old = ap (λ (f : File). ok f.bytes) (write-open_file _ old)
