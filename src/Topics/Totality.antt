-- ===== src/Topics/Totality.antt =====
-- When `update_sus_info` returns, and what it returns then.
use mqttv.Base.{◌≤◌, ◌≡◌, refl, ap, ◌≢◌, ◌⊎◌, inl, inr, List, [], ◌∷◌, arith, length, Bool-cases}
use mqttv.Int.{ℤ}
use mqttv.Result.{ok, fault, unset, ◌>>=◌}
use mqttv.CString.{Bytes, codes, str_eq, str_eq_refl, str_eq_sound}
use mqttv.Topics.{update_sus_info, update_levels}

-- The subscription stops at its node, or at a second level that is not `#`.
abbrev pub IsShort : List Bytes → Type 0
IsShort suscription =
    (length suscription ≤ 1)
    ⊎ ((node : Bytes) × (s : Bytes) × (suscription ≡ node ∷ s ∷ []) × (s ≢ codes "#"))

-- The subscription's second level is `#`, or it has a third one.
abbrev pub IsLong : List Bytes → Type 0
IsLong suscription =
    ((node : Bytes) × (rest : List Bytes) × (suscription ≡ node ∷ codes "#" ∷ rest))
    ⊎ ((node : Bytes) × (s : Bytes) × (t : Bytes) × (rest : List Bytes) × (suscription
          ≡ node ∷ s ∷ t ∷ rest))

module _ (a b c d e f : ℤ) where
  abbrev row : List ℤ
  row = a ∷ b ∷ c ∷ d ∷ e ∷ f ∷ []

  length-update_levels : (s t : Bytes) → length (update_levels s t row) ≡ 6
  unfolding update_levels
  length-update_levels s t = ground arith

  -- A subscription that stops at its node, or at a second level that is not `#`, makes the function
  -- compare through a pointer that `split` has not written. On every other one it returns, with a row
  -- of six cells.
  pub update_sus_info_total :
      (suscription : List Bytes)
      → (IsShort suscription × (update_sus_info suscription row ≡ fault unset))
        ⊎ (IsLong suscription
            × ((r : List ℤ) × (update_sus_info suscription row ≡ ok r) × (length r ≡ 6)))
  unfolding update_sus_info ◌>>=◌
  update_sus_info_total [] = inl (inl (omega arith), refl)
  update_sus_info_total (node ∷ []) = inl (inl (omega arith), refl)
  update_sus_info_total (node ∷ s ∷ []) = elim (Bool-cases (str_eq s (codes "#"))) [
    | inl h ↦
        inr (
          inl (node, [], ap (λ x. node ∷ x ∷ []) (str_eq_sound s (codes "#") h)),
          (row, rw h, refl),
        )
    | inr h ↦ inl (inr (node, s, refl, λ p. cc (h, str_eq_refl s, p)), rw h)
  ]
  update_sus_info_total (node ∷ s ∷ t ∷ rest) = elim (Bool-cases (str_eq s (codes "#"))) [
    | inl h ↦ inr (inr (node, s, t, rest, refl), (row, rw h, refl))
    | inr h ↦
        inr (inr (node, s, t, rest, refl), (update_levels s t row, rw h, length-update_levels s t))
  ]
