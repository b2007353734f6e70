-- ===== src/CString/Split/RoundTrip.antt =====
-- Texts that are joined by a delimiter, and the line cut again.
use mqttv.Base.{ℕ, ◌≤◌, ◌≡◌, refl, ap, ◌∙◌, true, false, List, [], ◌∷◌, ◌++◌, ◌≢◌, All, length}
use mqttv.Result.{ok}
use mqttv.CString.{Bytes, is_delim}
use mqttv.CString.Split.{split}
use mqttv.CString.Split.Tokens.{tokens, pieces, non_empty}
use mqttv.CString.Split.Reference.{split-tokens}

-- No byte of the text is a delimiter.
abbrev pub Lacks : Bytes → Bytes → Type 0
Lacks delim = All (λ c. is_delim delim c ≡ false)

-- A text that can be a token.
abbrev pub IsWord : Bytes → Bytes → Type 0
IsWord delim p = (p ≢ []) × Lacks delim p

abbrev pub join : ℕ → List Bytes → Bytes
join d [] = []
join d (p ∷ []) = p
join d (p ∷ q ∷ ps) = p ++ (d ∷ join d (q ∷ ps))

pieces_word : (delim p : Bytes) → Lacks delim p → pieces delim p ≡ p ∷ []
unfolding pieces
pieces_word delim [] h = refl
pieces_word delim (c ∷ p) h = rw (h.0, pieces_word delim p h.1)

pieces_word-append :
    (delim p s : Bytes) (d : ℕ)
    → Lacks delim p
    → is_delim delim d ≡ true
    → pieces delim (p ++ (d ∷ s)) ≡ p ∷ pieces delim s
unfolding pieces
pieces_word-append delim [] s d h k = rw k
pieces_word-append delim (c ∷ p) s d h k = rw (h.0, pieces_word-append delim p s d h.1 k)

non_empty_word :
    (delim p : Bytes) (ps : List Bytes) → IsWord delim p → non_empty (p ∷ ps) ≡ p ∷ non_empty ps
unfolding non_empty
non_empty_word delim [] ps h = absurd (h.0 refl)
non_empty_word delim (c ∷ p) ps h = refl

pub tokens-join :
    (delim : Bytes) (d : ℕ) (ps : List Bytes)
    → is_delim delim d ≡ true
    → All (IsWord delim) ps
    → tokens delim (join d ps) ≡ ps
unfolding tokens
tokens-join delim d [] k h = refl
tokens-join delim d (p ∷ []) k h = rw (pieces_word delim p h.0.1) (non_empty_word delim p [] h.0)
tokens-join delim d (p ∷ q ∷ ps) k h =
    rw (pieces_word-append delim p (join d (q ∷ ps)) d h.0.1 k)
      (non_empty_word delim p _ h.0 ∙ ap (◌∷◌ p) (tokens-join delim d (q ∷ ps) k h.1))

-- Words that are joined by a delimiter are what `split` finds, if the array has room for them.
pub split-join :
    (cap : ℕ) (delim : Bytes) (d : ℕ) (ps : List Bytes)
    → is_delim delim d ≡ true
    → All (IsWord delim) ps
    → length ps ≤ cap
    → split cap (join d ps) delim ≡ ok ps
split-join cap delim d ps k h room =
    let e = tokens-join delim d ps k h in split-tokens cap (join d ps) delim (rw e room) ∙ ap ok e
