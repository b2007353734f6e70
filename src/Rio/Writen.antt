-- ===== src/Rio/Writen.antt =====
-- rio_writen of csapp.c and its wrapper: a text is written to the end, in as many calls of `write` as
-- the system makes of it.
use mqttv.Base.{
  ℕ, zero, suc, ◌-◌, ◌≤◌, ◌<◌, ◌≡◌, refl, ap, Option, none, some, List, [], ◌∷◌, ◌++◌, arith,
  length, take, drop,
}
use mqttv.Int.{pos}
use mqttv.Result.{Result, ok, exits, ◌>>=◌}
use mqttv.CString.{Bytes}

-- What a call of `write` answers: -1 with EINTR, another error, or a number of bytes, one at least
-- (the text of the call is not empty).
pub data Taken : Type 0 where
  interrupted refused : Taken
  wrote : ℕ → Taken

behind : Bytes → Option (Result (Bytes × List Taken)) → Option (Result (Bytes × List Taken))
behind s none = none
behind s (some r) = some (r >>= λ (t, answers). ok (s ++ t, answers))

-- `while (nleft > 0)`, with the answers that are to come. The result is the bytes that went out;
-- `none` is a call that waits for an answer which never comes.
unfoldable pub rio_writen : Bytes → List Taken → Option (Result (Bytes × List Taken))
unfolding behind
rio_writen [] answers = some (ok ([], answers))
rio_writen (c ∷ s) [] = none
rio_writen (c ∷ s) (interrupted ∷ answers) = rio_writen (c ∷ s) answers
rio_writen (c ∷ s) (refused ∷ answers) = some (exits (pos 0))
rio_writen (c ∷ s) (wrote n ∷ answers) =
    behind (take n (c ∷ s)) (rio_writen (drop n (c ∷ s)) answers)

-- No answer is an error, each call that is not interrupted takes a byte at least, and there are n
-- such calls or more.
abbrev pub IsPatient : ℕ → List Taken → Type 0
IsPatient n [] = n ≡ 0
IsPatient n (interrupted ∷ answers) = IsPatient n answers
IsPatient n (refused ∷ answers) = ⊥
IsPatient n (wrote k ∷ answers) = (0 < k) × IsPatient (n - 1) answers

IsPatient-le : (m n : ℕ) (answers : List Taken) → m ≤ n → IsPatient n answers → IsPatient m answers
IsPatient-le m n [] le h = omega arith
IsPatient-le m n (interrupted ∷ answers) le h = IsPatient-le m n answers le h
IsPatient-le m n (refused ∷ answers) le h = h
IsPatient-le m n (wrote k ∷ answers) le h =
    (h.0, IsPatient-le (m - 1) (n - 1) answers (omega arith) h.1)

pub take-drop : (n : ℕ) (s : Bytes) → take n s ++ drop n s ≡ s
take-drop zero s = refl
take-drop (suc n) [] = refl
take-drop (suc n) (c ∷ s) = ap (◌∷◌ c) (take-drop n s)

length-drop : (n : ℕ) (s : Bytes) → length (drop n s) ≡ length s - n
length-drop zero s = omega arith
length-drop (suc n) [] = omega arith
length-drop (suc n) (c ∷ s) = omega (arith, length-drop n s)

-- If no answer is an error and the system goes on taking bytes, one at least in each call that is
-- not interrupted, then all bytes of the text go out, in their order.
pub rio_writen_lem :
    (s : Bytes) (answers : List Taken)
    → IsPatient (length s) answers
    → (rest : List Taken) × (rio_writen s answers ≡ some (ok (s, rest)))
unfolding rio_writen behind ◌>>=◌
rio_writen_lem [] answers h = (answers, refl)
rio_writen_lem (c ∷ s) [] h = absurd (omega arith)
rio_writen_lem (c ∷ s) (interrupted ∷ answers) h = rio_writen_lem (c ∷ s) answers h
rio_writen_lem (c ∷ s) (refused ∷ answers) h = elim h [ ]
rio_writen_lem (c ∷ s) (wrote n ∷ answers) h =
    let (rest, e) = rio_writen_lem (drop n (c ∷ s)) answers (
      IsPatient-le (length (drop n (c ∷ s))) (length (c ∷ s) - 1) answers
        (omega (arith, length-drop n (c ∷ s), h.0)) h.1) in
    (rest, rw e (ap (λ (t : Bytes). some (ok (t, rest))) (take-drop n (c ∷ s))))
