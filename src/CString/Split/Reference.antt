-- ===== src/CString/Split/Reference.antt =====
-- The loop over strtok against the parts of the text.
use mathlib.Core.WellFounded.{Acc}
use mqttv.Base.{
  ℕ, ◌+◌, ◌≤◌, ◌<◌, ◌≡◌, refl, ◌∙◌, sym, ap, Option, none, some, List, [], ◌∷◌, arith, ltb, lt→ltb,
  ltb→lt, Bool-cases, inl, inr, length, if◌then◌else◌,
}
use mqttv.Result.{Result, ok, fault, overrun, ◌>>=◌, ◌>>◌, guard}
use mqttv.CString.{Bytes}
use mqttv.CString.Split.{
  skip, strtok, skip_head, on_token, split_loop, split, separar_tokens, Shorter, strtok_shorter,
  line_acc,
}
use mqttv.CString.Split.Tokens.{tokens, tokens_step, tokens-skip}

-- Writing the texts into the cells from index i on.
fill : (cap i : ℕ) → List Bytes → Result (List Bytes)
fill cap i [] = ok []
fill cap i (t ∷ ts) = do guard (ltb i cap) overrun; rest ← fill cap (i + 1) ts; ok (t ∷ rest)

fill_fits : (cap i : ℕ) (ts : List Bytes) → i + length ts ≤ cap → fill cap i ts ≡ ok ts
unfolding fill ◌>>=◌
fill_fits cap i [] h = refl
fill_fits cap i (t ∷ ts) h =
    rw (lt→ltb i cap (omega arith)) (rw (fill_fits cap (i + 1) ts (omega arith)))

fill_overruns :
    (cap i : ℕ) (ts : List Bytes) → i ≤ cap → cap < i + length ts → fill cap i ts ≡ fault overrun
unfolding fill ◌>>=◌
fill_overruns cap i [] h k = absurd (omega arith)
fill_overruns cap i (t ∷ ts) h k = ground (arith, fill_overruns cap (i + 1) ts)

module _ {ℓ} {A : Type ℓ} where
  on_token_cases :
      (o : Option (Bytes × Bytes)) (d x : A) (f : (t r : Bytes) → o ≡ some (t, r) → A)
      → (o ≡ none → d ≡ x)
      → ((t r : Bytes) (e : o ≡ some (t, r)) → f t r e ≡ x)
      → on_token o d f ≡ x
  on_token_cases none d x f ends goes = ends refl
  on_token_cases (some (t, r)) d x f ends goes = goes t r refl

strtok-none_at :
    (delim s x : Bytes) → skip delim s ≡ x → strtok delim s ≡ none → tokens delim x ≡ []
unfolding strtok
strtok-none_at delim s [] e h = unfold tokens in refl
strtok-none_at delim s (c ∷ u) e h = ground arith

strtok-some_at :
    (delim s x t r : Bytes)
    → skip delim s ≡ x
    → strtok delim s ≡ some (t, r)
    → tokens delim x ≡ t ∷ tokens delim r
unfolding strtok
strtok-some_at delim s [] t r e h = ground arith
strtok-some_at delim s (c ∷ u) t r e h =
    ground (arith, tokens_step delim c u, skip_head delim s {c = c} {t = u} e)

-- A call of strtok takes the first token, and leaves the text of the others.
pub strtok-tokens :
    (delim s t r : Bytes) → strtok delim s ≡ some (t, r) → tokens delim s ≡ t ∷ tokens delim r
strtok-tokens delim s t r h = sym (tokens-skip delim s) ∙ strtok-some_at delim s _ t r refl h

pub strtok-none-tokens : (delim s : Bytes) → strtok delim s ≡ none → tokens delim s ≡ []
strtok-none-tokens delim s h = sym (tokens-skip delim s) ∙ strtok-none_at delim s _ refl h

pub tokens-strtok :
    (delim s t : Bytes) (ts : List Bytes)
    → tokens delim s ≡ t ∷ ts
    → (r : Bytes) × (strtok delim s ≡ some (t, r)) × (tokens delim r ≡ ts)
tokens-strtok delim s t ts e = of_call (strtok delim s) refl
  where
    of_call :
        (o : Option (Bytes × Bytes))
        → strtok delim s ≡ o
        → (r : Bytes) × (strtok delim s ≡ some (t, r)) × (tokens delim r ≡ ts)
    of_call none h = cc (strtok-none-tokens delim s h, e)
    of_call (some (t', r)) h =
        let p = strtok-tokens delim s t' r h in
        (r, h ∙ ap some (ap (λ x. (x, r)) (cc (p, e))), cc (p, e))

pub tokens-strtok-none : (delim s : Bytes) → tokens delim s ≡ [] → strtok delim s ≡ none
tokens-strtok-none delim s e = of_call (strtok delim s) refl
  where
    of_call : (o : Option (Bytes × Bytes)) → strtok delim s ≡ o → strtok delim s ≡ none
    of_call none h = h
    of_call (some (t, r)) h = cc (strtok-tokens delim s t r h, e)

split_loop-fill :
    (cap i : ℕ) (delim s : Bytes) (w : Acc Shorter s)
    → split_loop cap i delim s w ≡ fill cap i (tokens delim s)
unfolding split_loop
split_loop-fill cap i delim s (Acc.intro _ smaller) =
    on_token_cases (strtok delim s) _ _ _
      (λ e. rw (strtok-none-tokens delim s e) (unfold fill in refl))
      λ t r e. rw (strtok-tokens delim s t r e) (
        rw (split_loop-fill cap (i + 1) delim r (smaller r (strtok_shorter delim s t r e)))
          (unfold fill in refl))

pub split-tokens :
    (cap : ℕ) (linea delim : Bytes)
    → length (tokens delim linea) ≤ cap
    → split cap linea delim ≡ ok (tokens delim linea)
unfolding split
split-tokens cap linea delim h =
    split_loop-fill cap 0 delim linea (line_acc linea) ∙ fill_fits cap 0 _ (omega arith)

pub split_overruns :
    (cap : ℕ) (linea delim : Bytes)
    → cap < length (tokens delim linea)
    → split cap linea delim ≡ fault overrun
unfolding split
split_overruns cap linea delim h =
    split_loop-fill cap 0 delim linea (line_acc linea)
    ∙ fill_overruns cap 0 _ (omega arith) (omega arith)

-- For every line, set of delimiters and size of the array: `split` stores the non-empty parts
-- between the delimiters, in their order, if the array has a cell for each of them, and otherwise
-- writes behind the array.
pub split_lem :
    (cap : ℕ) (linea delim : Bytes)
    → split cap linea delim
      ≡ (if ltb cap (length (tokens delim linea)) then fault overrun else ok (tokens delim linea))
split_lem cap linea delim = elim (Bool-cases (ltb cap (length (tokens delim linea)))) [
  | inl e ↦ rw e (split_overruns cap linea delim (ltb→lt _ _ e))
  | inr e ↦ rw e (split-tokens cap linea delim (ground arith))
]

-- The clients' variant needs one more cell, for the null pointer.
pub separar_tokens-tokens :
    (cap : ℕ) (linea delim : Bytes)
    → length (tokens delim linea) < cap
    → separar_tokens cap linea delim ≡ ok (tokens delim linea)
unfolding separar_tokens ◌>>=◌
separar_tokens-tokens cap linea delim h =
    rw (split-tokens cap linea delim (omega arith)) (rw (lt→ltb _ _ h))
