-- ===== src/Threads/Places.antt =====
-- How many threads stand at a place, and the move of one thread between the others. `A` is the places.
use mqttv.Base.{ℕ, ◌+◌, ◌≤◌, ◌<◌, ◌≡◌, refl, ap, List, [], ◌∷◌, ◌++◌, arith}
use native.Mathlib.Decide.{dec_lt}

module _ {ℓ} {A : Type ℓ} where
  -- A thread at `pc`, between the others, goes on to `pc'`.
  abbrev pub Turns : List A → A → A → List A → Type ℓ
  Turns ts pc pc' us =
      (xs : List A) × (ys : List A) × (ts ≡ xs ++ (pc ∷ ys)) × (us ≡ xs ++ (pc' ∷ ys))

  -- The weights of all threads together.
  unfoldable pub total : (A → ℕ) → List A → ℕ
  total w [] = 0
  total w (t ∷ ts) = w t + total w ts

  pub total-nil : (w : A → ℕ) → total w [] ≡ 0
  unfolding total
  total-nil w = refl

  pub total-append :
      (w : A → ℕ) (xs : List A) (x : A) (ys : List A)
      → total w (xs ++ (x ∷ ys)) ≡ total w xs + w x + total w ys
  unfolding total
  total-append w [] x ys = omega arith
  total-append w (t ∷ xs) x ys = omega (arith, total-append w xs x ys)

  -- One thread's move exchanges its weight.
  pub total-Turns :
      (w : A → ℕ) (ts us : List A) (pc pc' : A)
      → Turns ts pc pc' us
      → total w us + w pc ≡ total w ts + w pc'
  total-Turns w ts us pc pc' (xs, ys, e, e') =
      rw (e, e') (omega (arith, total-append w xs pc ys, total-append w xs pc' ys))

  -- Where the weight is not 0, a thread has a part of it.
  pub total_pos :
      (w : A → ℕ) (ts : List A)
      → 0 < total w ts
      → (xs : List A) × (x : A) × (ys : List A) × (ts ≡ xs ++ (x ∷ ys)) × (0 < w x)
  unfolding total
  total_pos w [] h = absurd (omega arith)
  total_pos w (t ∷ ts) h = elim (dec_lt 0 (w t)) [
    | yes p ↦ ([], t, ts, refl, p)
    | no p ↦
        let (xs, x, ys, e, q) = total_pos w ts (omega arith) in (t ∷ xs, x, ys, ap (◌∷◌ t) e, q)
  ]

  pub total_mono : (w v : A → ℕ) (ts : List A) → ((x : A) → w x ≤ v x) → total w ts ≤ total v ts
  unfolding total
  total_mono w v [] h = omega arith
  total_mono w v (t ∷ ts) h = omega (arith, h t, total_mono w v ts h)

  -- Where one thread has all of a weight, it has all of each smaller weight too.
  pub total_alone :
      (w v : A → ℕ) (ts us : List A) (pc pc' : A)
      → ((x : A) → w x ≤ v x)
      → Turns ts pc pc' us
      → total v ts ≤ 1
      → v pc ≡ 1
      → (total w ts ≡ w pc) × (total w us ≡ w pc')
  total_alone w v ts us pc pc' le (xs, ys, e, e') one all =
      let one' = rw e at one in
      rw (e, e')
        (omega (
          arith,
          one',
          total-append v xs pc ys,
          total-append w xs pc ys,
          total-append w xs pc' ys,
          total_mono w v xs le,
          total_mono w v ys le,
        ))
