-- ===== src/CString/Split/Tokens.antt =====
-- The cutting of a text as mathematics: the parts between the delimiters, the empty ones dropped.
use mqttv.Base.{ℕ, ◌≡◌, refl, ap, false, List, [], ◌∷◌, arith, if◌then◌else◌, Bool-cases, inl, inr}
use mqttv.CString.{Bytes, is_delim}
use mqttv.CString.Split.{skip, span_token, after_token}

abbrev pub onto_head : ℕ → List Bytes → List Bytes
onto_head c [] = (c ∷ []) ∷ []
onto_head c (p ∷ ps) = (c ∷ p) ∷ ps

-- The parts, one more than there are delimiters.
unfoldable pub pieces : Bytes → Bytes → List Bytes
pieces delim [] = [] ∷ []
pieces delim (c ∷ s) =
    if is_delim delim c then [] ∷ pieces delim s else onto_head c (pieces delim s)

unfoldable pub non_empty : List Bytes → List Bytes
non_empty [] = []
non_empty ([] ∷ ps) = non_empty ps
non_empty ((c ∷ p) ∷ ps) = (c ∷ p) ∷ non_empty ps

unfoldable pub tokens : Bytes → Bytes → List Bytes
unfolding pieces non_empty
tokens delim s = non_empty (pieces delim s)

pub pieces_span :
    (delim s : Bytes)
    → (ps : List Bytes) × (pieces delim s ≡ span_token delim s ∷ ps)
      × (non_empty ps ≡ tokens delim (after_token delim s))
unfolding pieces span_token after_token tokens
pieces_span delim [] = ([], refl, refl)
pieces_span delim (c ∷ s) =
    let (ps, cut, rest) = pieces_span delim s in
    elim (Bool-cases (is_delim delim c)) [
      | inl e ↦ (pieces delim s, ground arith, ground arith)
      | inr e ↦ (ps, ground arith, ground arith)
    ]

-- Behind a first byte that is no delimiter, the first token is what strtok returns.
pub tokens_step :
    (delim : Bytes) (c : ℕ) (s : Bytes)
    → is_delim delim c ≡ false
    → tokens delim (c ∷ s) ≡ span_token delim (c ∷ s) ∷ tokens delim (after_token delim (c ∷ s))
unfolding tokens span_token
tokens_step delim c s e =
    let (ps, cut, rest) = pieces_span delim (c ∷ s) in
    rw cut (rw e (ap (◌∷◌ (c ∷ span_token delim s)) rest))

pub tokens-skip : (delim s : Bytes) → tokens delim (skip delim s) ≡ tokens delim s
unfolding tokens skip
tokens-skip delim [] = refl
tokens-skip delim (c ∷ s) = ground (arith, tokens-skip delim s)
