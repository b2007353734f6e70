-- ===== src/CString/Split.antt =====
-- `split` of broker_server.c and the `separar_tokens` of the clients: one loop over strtok, which
-- keeps a pointer behind the last token between its calls.
pub mod Tokens
pub mod Reference
pub mod RoundTrip
use mathlib.Core.WellFounded.{Acc}
use mqttv.Base.{
  ℕ, zero, suc, ◌+◌, ◌<◌, ◌≤◌, ◌≡◌, refl, ap, Bool, true, false, Option, none, some, List, [], ◌∷◌,
  ◌++◌, arith, ltb, if◌then◌else◌, length,
}
use mqttv.Result.{Result, ok, fault, overrun, ◌>>=◌, ◌>>◌, guard}
use mqttv.CString.{Bytes, is_delim}

-- The text behind its leading delimiters.
unfoldable pub skip : Bytes → Bytes → Bytes
skip delim [] = []
skip delim (c ∷ s) = if is_delim delim c then skip delim s else c ∷ s

-- The text up to its first delimiter.
unfoldable pub span_token : Bytes → Bytes → Bytes
span_token delim [] = []
span_token delim (c ∷ s) = if is_delim delim c then [] else c ∷ span_token delim s

-- What stands behind the first delimiter, which strtok overwrites by a NUL.
unfoldable pub after_token : Bytes → Bytes → Bytes
after_token delim [] = []
after_token delim (c ∷ s) = if is_delim delim c then s else after_token delim s

-- One call: the token and the text that the next call starts from; `none` is the null pointer.
unfoldable pub strtok : Bytes → Bytes → Option (Bytes × Bytes)
unfolding skip span_token after_token
strtok delim s = elim (skip delim s) [
  | [] ↦ none
  | c ∷ t ↦ some (span_token delim (c ∷ t), after_token delim (c ∷ t))
]

-- What the C string at the start of the line is once strtok has cut the line up.
unfoldable pub cut_line : Bytes → Bytes → Bytes
unfolding span_token
cut_line delim [] = []
cut_line delim (c ∷ s) = if is_delim delim c then c ∷ cut_line delim s else span_token delim (c ∷ s)

length-skip : (delim s : Bytes) → length (skip delim s) ≤ length s
unfolding skip
length-skip delim [] = omega arith
length-skip delim (c ∷ s) = ground (arith, length-skip delim s)

length-after_token : (delim s : Bytes) → length (after_token delim s) ≤ length s
unfolding after_token
length-after_token delim [] = omega arith
length-after_token delim (c ∷ s) = ground (arith, length-after_token delim s)

abbrev Shorter : Bytes → Bytes → Type 0
Shorter s t = length s < length t

Shorter_acc : (k : ℕ) (s : Bytes) → length s < k → Acc Shorter s
Shorter_acc zero s h = elim h [ ]
Shorter_acc (suc k) s h = Acc.intro s (λ t lt. Shorter_acc k t (omega arith))

skip_head : (delim s : Bytes) {c : ℕ} {t : Bytes} → skip delim s ≡ c ∷ t → is_delim delim c ≡ false
unfolding skip
skip_head delim [] h = cc
skip_head delim (d ∷ s) {c} {t} h = ground (arith, skip_head delim s {c = c} {t = t})

strtok-some :
    (delim s x t r : Bytes)
    → skip delim s ≡ x
    → strtok delim s ≡ some (t, r)
    → (c : ℕ) × (u : Bytes) × (x ≡ c ∷ u) × (r ≡ after_token delim (c ∷ u))
unfolding strtok
strtok-some delim s [] t r e h = ground arith
strtok-some delim s (c ∷ u) t r e h = (c, u, refl, ground arith)

-- Every call that finds a token leaves less to read.
pub strtok_shorter : (delim s t r : Bytes) → strtok delim s ≡ some (t, r) → length r < length s
unfolding after_token
strtok_shorter delim s t r h =
    let (c, u, e, p) = strtok-some delim s (skip delim s) t r refl h in
    let q = skip_head delim s {c = c} {t = u} e in
    rw p (
      rw (q, after_token)
        (omega (arith, length-after_token delim u, length-skip delim s, ap length e)))

-- The loop body runs on a token, and the loop ends on the null pointer.
abbrev on_token {ℓ} :
    {A : Type ℓ} (o : Option (Bytes × Bytes)) → A → ((t r : Bytes) → o ≡ some (t, r) → A) → A
on_token none d f = d
on_token (some (t, r)) d f = f t r refl

-- `while (token != NULL) { argv[i] = token; i++; token = strtok(NULL, delim); }` over an array of
-- `cap` cells; the result is the cells that were written, from index i on.
split_loop : (cap i : ℕ) (delim s : Bytes) → Acc Shorter s → Result (List Bytes)
split_loop cap i delim s (Acc.intro _ smaller) = on_token (strtok delim s) (ok []) λ t r e. do
  guard (ltb i cap) overrun
  rest ← split_loop cap (i + 1) delim r (smaller r (strtok_shorter delim s t r e))
  ok (t ∷ rest)

line_acc : (s : Bytes) → Acc Shorter s
unfolding Shorter_acc
line_acc s = Shorter_acc (suc (length s)) s (omega arith)

unfoldable pub split : ℕ → Bytes → Bytes → Result (List Bytes)
unfolding split_loop line_acc strtok is_delim
split cap linea delim = split_loop cap 0 delim linea (line_acc linea)

-- The clients' variant also writes a null pointer behind the last token.
unfoldable pub separar_tokens : ℕ → Bytes → Bytes → Result (List Bytes)
unfolding split
separar_tokens cap linea delim = do
  argv ← split cap linea delim
  guard (ltb (length argv) cap) overrun
  ok argv
