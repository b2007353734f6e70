-- ===== src/Threads/Strtok/Apart.antt =====
-- AnyOrder of several threads of which no two are under way at once.
use mqttv.Base.{
  ℕ, ◌+◌, ◌≤◌, ◌≡◌, refl, sym, ap, ◌∙◌, List, [], ◌∷◌, ◌++◌, arith, All, append-nil, append_assoc,
  length, length-append,
}
use mqttv.Result.{ok}
use mqttv.CString.{Bytes}
use mqttv.CString.Split.{split}
use mqttv.CString.Split.Tokens.{tokens}
use mqttv.CString.Split.Reference.{split-tokens, strtok-tokens, strtok-none-tokens}
use mqttv.Threads.Places.{total, total-append}
use mqttv.Threads.Strtok.{
  Splitting, before, within, finished, Shared, Begin, finds_first, finds_none, Continue, finds_next,
  ends, cutting, OneByOne, nothing, begins_alone, goes_on,
}

abbrev Good : Bytes → Splitting → Type 0
Good saved (before cap linea delim) = Unit
Good saved (within cap linea delim argv) =
    (argv ++ tokens delim saved ≡ tokens delim linea) × (length argv ≤ cap)
Good saved (finished cap linea delim argv) = (argv ≡ tokens delim linea) × (length argv ≤ cap)

abbrev pub IsBefore : Splitting → Type 0
IsBefore x = (cap : ℕ) × (linea : Bytes) × (delim : Bytes) × (x ≡ before cap linea delim)

-- What a finished thread has stored.
abbrev pub IsRight : Splitting → Type 0
IsRight (before cap linea delim) = Unit
IsRight (within cap linea delim argv) = Unit
IsRight (finished cap linea delim argv) = split cap linea delim ≡ ok argv

Good-other : (saved saved' : Bytes) (x : Splitting) → cutting x ≡ 0 → Good saved x → Good saved' x
Good-other saved saved' (before cap linea delim) h g = tt
Good-other saved saved' (within cap linea delim argv) h g = absurd (omega (arith, h))
Good-other saved saved' (finished cap linea delim argv) h g = g

Good-others :
    (saved saved' : Bytes) (xs : List Splitting)
    → total cutting xs ≡ 0
    → All (Good saved) xs
    → All (Good saved') xs
unfolding total
Good-others saved saved' [] h g = tt
Good-others saved saved' (x ∷ xs) h g = (
  Good-other saved saved' x (omega (arith, h)) g.0,
  Good-others saved saved' xs (omega (arith, h)) g.1,
)

-- One thread's call, when no other thread is splitting.
Good-turn :
    (saved saved' : Bytes) (xs ys : List Splitting) (pc pc' : Splitting)
    → total cutting xs ≡ 0
    → total cutting ys ≡ 0
    → (Good saved pc → Good saved' pc')
    → All (Good saved) (xs ++ (pc ∷ ys))
    → All (Good saved') (xs ++ (pc' ∷ ys))
unfolding total
Good-turn saved saved' [] ys pc pc' h k f g = (f g.0, Good-others saved saved' ys k g.1)
Good-turn saved saved' (x ∷ xs) ys pc pc' h k f g = (
  Good-other saved saved' x (omega (arith, h)) g.0,
  Good-turn saved saved' xs ys pc pc' (omega (arith, h)) k f g.1,
)

record Kept (s : Shared) : Type 0 where
  one : total cutting s.spots ≤ 1
  good : All (Good s.saved) s.spots

-- The thread between xs and ys has made its call.
turned :
    (s : Shared) (saved' : Bytes) (pc pc' : Splitting) (xs ys : List Splitting)
    → Kept s
    → s.spots ≡ xs ++ (pc ∷ ys)
    → total cutting xs + total cutting ys ≡ 0
    → cutting pc' ≤ 1
    → (Good s.saved pc → Good saved' pc')
    → Kept (record { saved = saved'; spots = xs ++ (pc' ∷ ys) })
turned s saved' pc pc' xs ys v e none_else few f = record {
  one = omega (arith, none_else, few, total-append cutting xs pc' ys);
  good =
      Good-turn s.saved saved' xs ys pc pc' (omega (arith, none_else)) (omega (arith, none_else)) f
        (rw e at v.good);
}

Begin-Kept : {s t : Shared} → total cutting s.spots ≡ 0 → Begin s t → Kept s → Kept t
Begin-Kept {s} z (finds_first cap linea delim token rest us h room (xs, ys, e, e') p) v =
    rw (p, e')
      (turned s rest (before cap linea delim) (within cap linea delim (token ∷ [])) xs ys v e
        (omega (arith, rw e at z, total-append cutting xs (before cap linea delim) ys))
        (omega arith) λ g. (sym (strtok-tokens delim linea token rest h), omega (arith, room)))
Begin-Kept {s} z (finds_none cap linea delim us h (xs, ys, e, e') p) v =
    rw (p, e')
      (turned s [] (before cap linea delim) (finished cap linea delim []) xs ys v e
        (omega (arith, rw e at z, total-append cutting xs (before cap linea delim) ys))
        (omega arith) λ g. (sym (strtok-none-tokens delim linea h), omega arith))

Continue-Kept : {s t : Shared} → Continue s t → Kept s → Kept t
Continue-Kept {s} (finds_next cap linea delim token rest argv us h room (xs, ys, e, e') p) v =
    rw (p, e')
      (turned s rest (within cap linea delim argv) (within cap linea delim (argv ++ token ∷ [])) xs
        ys v e
        (omega (arith, rw e at v.one, total-append cutting xs (within cap linea delim argv) ys))
        (omega arith)
        λ g. (
          append_assoc argv (token ∷ []) (tokens delim rest)
              ∙ ap (λ ts. argv ++ ts) (sym (strtok-tokens delim s.saved token rest h))
              ∙ g.0,
          omega (arith, room, length-append argv (token ∷ [])),
        ))
Continue-Kept {s} (ends cap linea delim argv us h (xs, ys, e, e') p) v =
    rw (p, e')
      (turned s [] (within cap linea delim argv) (finished cap linea delim argv) xs ys v e
        (omega (arith, rw e at v.one, total-append cutting xs (within cap linea delim argv) ys))
        (omega arith)
        λ g. (
          sym (append-nil argv)
              ∙ ap (λ ts. argv ++ ts) (sym (strtok-none-tokens delim s.saved h))
              ∙ g.0,
          g.1,
        ))

OneByOne-Kept : {s t : Shared} → Kept s → OneByOne s t → Kept t
OneByOne-Kept v nothing = v
OneByOne-Kept v (begins_alone r z b) = Begin-Kept z b (OneByOne-Kept v r)
OneByOne-Kept v (goes_on r c) = Continue-Kept c (OneByOne-Kept v r)

start-Kept :
    (saved : Bytes) (xs : List Splitting)
    → All IsBefore xs
    → (total cutting xs ≡ 0) × All (Good saved) xs
unfolding total
start-Kept saved [] h = (refl, tt)
start-Kept saved (x ∷ xs) ((cap, linea, delim, e), h) =
    let (z, g) = start-Kept saved xs h in (rw e (omega (arith, z)), (rw e tt, g))

right : (saved : Bytes) (xs : List Splitting) → All (Good saved) xs → All IsRight xs
right saved [] g = tt
right saved (before cap linea delim ∷ xs) g = (tt, right saved xs g.1)
right saved (within cap linea delim argv ∷ xs) g = (tt, right saved xs g.1)
right saved (finished cap linea delim argv ∷ xs) ((e, fits), g) = (
  split-tokens cap linea delim (omega (arith, fits, ap length e)) ∙ ap ok (sym e),
  right saved xs g,
)

-- If all threads are in front of their splits, and each begins only when no other is splitting, then
-- every thread that is through has stored what `split`, taken as one step, makes of its line.
pub splits_apart : {s t : Shared} → All IsBefore s.spots → OneByOne s t → All IsRight t.spots
splits_apart {s} {t} h r =
    let (z, g) = start-Kept s.saved s.spots h in
    right t.saved t.spots (OneByOne-Kept (record { one = omega (arith, z); good = g }) r).good
