-- ===== src/Topics/Selection.antt =====
-- Which topics `update_sus_info` leaves a client with.
use mqttv.Base.{◌≡◌, refl, ◌≢◌, true, false, List, [], ◌∷◌, arith, replicate}
use mqttv.Int.{ℤ}
use mqttv.Result.{ok, ◌>>=◌}
use mqttv.CString.{Bytes, codes, str_eq_ne}
use mqttv.Topics.{update_sus_info}
use mqttv.Topics.Filters.{wanted, picked, and_each, IsSupported, all}

module _ (a b c d e f : ℤ) where
  abbrev row : List ℤ
  row = a ∷ b ∷ c ∷ d ∷ e ∷ f ∷ []

  -- For every filter of IsSupported, and whatever the caller's array holds, the
  -- client gets exactly the topics that the filter asks for and whose cell was not -1 before.
  pub update_sus_info-wanted :
      (node : Bytes) (filter : List Bytes)
      → IsSupported filter
      → (update_sus_info (node ∷ filter) row >>= λ r. ok (picked r))
        ≡ ok (and_each (wanted filter) (picked row))
  unfolding update_sus_info wanted ◌>>=◌
  update_sus_info-wanted node _ (all rest) = refl
  update_sus_info-wanted node _ _ = refl

  -- A filter whose first level names no group of topics asks for nothing, and still the client
  -- gets mem/gen (if the cell was not -1 before), whatever its second level is.
  pub update_sus_info_unknown :
      (node s t : Bytes)
      → s ≢ codes "#"
      → s ≢ codes "+"
      → s ≢ codes "tasks"
      → s ≢ codes "cpu"
      → s ≢ codes "mem"
      → ((update_sus_info (node ∷ s ∷ t ∷ []) row >>= λ r. ok (picked r))
          ≡ ok (and_each (false ∷ false ∷ false ∷ false ∷ false ∷ true ∷ []) (picked row)))
        × (wanted (s ∷ t ∷ []) ≡ replicate 6 false)
  unfolding update_sus_info wanted ◌>>=◌
  update_sus_info_unknown node s t h₁ h₂ h₃ h₄ h₅ = ground (
    arith,
    str_eq_ne s (codes "#") h₁,
    str_eq_ne s (codes "+") h₂,
    str_eq_ne s (codes "tasks") h₃,
    str_eq_ne s (codes "cpu") h₄,
    str_eq_ne s (codes "mem") h₅,
  )

  -- `+` in the second level is no wildcard: below tasks and cpu it leaves one topic, the last of
  -- the group, where the filter asks for the whole group.
  update_sus_info_second_plus :
      (node : Bytes)
      → ((update_sus_info (node ∷ codes "tasks" ∷ codes "+" ∷ []) row >>= λ r. ok (picked r))
          ≡ ok (and_each (wanted (codes "tasks" ∷ codes "sleep" ∷ [])) (picked row)))
        × ((update_sus_info (node ∷ codes "cpu" ∷ codes "+" ∷ []) row >>= λ r. ok (picked r))
            ≡ ok (and_each (wanted (codes "cpu" ∷ codes "sys" ∷ [])) (picked row)))
        × (wanted (codes "tasks" ∷ codes "+" ∷ []) ≡ wanted (codes "tasks" ∷ codes "#" ∷ []))
        × (wanted (codes "cpu" ∷ codes "+" ∷ []) ≡ wanted (codes "cpu" ∷ codes "#" ∷ []))
  unfolding update_sus_info wanted ◌>>=◌
  update_sus_info_second_plus node = (refl, refl, refl, refl)
