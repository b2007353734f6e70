-- ===== src/Threads/Strtok/Mixed.antt =====
-- AnyOrder of two threads that are under way at once.
use mqttv.Base.{
  ℕ, suc, ◌+◌, ◌≤◌, ◌<◌, ◌≡◌, refl, List, [], ◌∷◌, ◌++◌, arith, append-nil, append_assoc, length,
  length-append,
}
use mqttv.CString.{Bytes}
use mqttv.CString.Split.Tokens.{tokens}
use mqttv.CString.Split.Reference.{tokens-strtok, tokens-strtok-none}
use mqttv.Threads.Strtok.{
  Splitting, before, within, finished, Shared, finds_first, finds_next, ends, AnyOrder, here,
  begins, continues,
}

-- The first thread takes all tokens of the text that strtok has kept.
takes_rest :
    (s₀ : Shared) (cap : ℕ) (linea delim saved : Bytes) (argv ts : List Bytes)
    (others : List Splitting)
    → tokens delim saved ≡ ts
    → length argv + length ts ≤ cap
    → AnyOrder s₀ (record { saved = saved; spots = within cap linea delim argv ∷ others })
    → AnyOrder s₀ (record { saved = []; spots = finished cap linea delim (argv ++ ts) ∷ others })
takes_rest s₀ cap linea delim saved argv [] others e fits r = rw append-nil (
    continues r (
      ends cap linea delim argv (finished cap linea delim argv ∷ others)
        (tokens-strtok-none delim saved e) ([], others, refl, refl) refl))
takes_rest s₀ cap linea delim saved argv (t ∷ ts) others e fits r =
    let (rest, found, left) = tokens-strtok delim saved t ts e in
    rw (← append_assoc argv (t ∷ []) ts) (
      takes_rest s₀ cap linea delim rest (argv ++ t ∷ []) ts others left
        (omega (arith, fits, length-append argv (t ∷ [])))
        (continues r (
          finds_next cap linea delim t rest argv (within cap linea delim (argv ++ t ∷ []) ∷ others)
            found (omega (arith, fits)) ([], others, refl, refl) refl)))

-- Two threads split a line each, at the same delimiters, into arrays with room for what they get:
-- if the second one begins between the first one's first two calls, there is an order of their calls
-- in which the first one gets its own first token and then all later tokens of the other's line, and
-- the second one gets its own first token and no other.
pub splits_mix :
    (cap₁ cap₂ : ℕ) (line₁ line₂ delim saved t₁ t₂ : Bytes) (ts₁ ts₂ : List Bytes)
    → tokens delim line₁ ≡ t₁ ∷ ts₁
    → tokens delim line₂ ≡ t₂ ∷ ts₂
    → suc (length ts₂) ≤ cap₁
    → 0 < cap₂
    → AnyOrder
        (record { saved = saved; spots = before cap₁ line₁ delim ∷ before cap₂ line₂ delim ∷ [] })
        (record {
          saved = [];
          spots = finished cap₁ line₁ delim (t₁ ∷ ts₂) ∷ finished cap₂ line₂ delim (t₂ ∷ []) ∷ [];
        })
splits_mix cap₁ cap₂ line₁ line₂ delim saved t₁ t₂ ts₁ ts₂ e₁ e₂ fits room =
    let (r₁, found₁, left₁) = tokens-strtok delim line₁ t₁ ts₁ e₁ in
    let (r₂, found₂, left₂) = tokens-strtok delim line₂ t₂ ts₂ e₂ in
    let b = before cap₂ line₂ delim in
    let a = within cap₁ line₁ delim (t₁ ∷ []) in
    let b' = within cap₂ line₂ delim (t₂ ∷ []) in
    let first = begins here (
      finds_first cap₁ line₁ delim t₁ r₁ (a ∷ b ∷ []) found₁ (omega (arith, fits))
        ([], b ∷ [], refl, refl) refl) in
    let second = begins first (
      finds_first cap₂ line₂ delim t₂ r₂ (a ∷ b' ∷ []) found₂ room (a ∷ [], [], refl, refl) refl) in
    let mixed =
      takes_rest _ cap₁ line₁ delim r₂ (t₁ ∷ []) ts₂ (b' ∷ []) left₂ (omega (arith, fits)) second in
    let f = finished cap₁ line₁ delim (t₁ ∷ ts₂) in
    continues mixed (
      ends cap₂ line₂ delim (t₂ ∷ []) (f ∷ finished cap₂ line₂ delim (t₂ ∷ []) ∷ [])
        (tokens-strtok-none delim [] (unfold tokens in refl)) (f ∷ [], [], refl, refl) refl)
