-- ===== src/Journey/Whole/Asked.antt =====
-- Which topics of the reports a subscriber asks for.
use mqttv.Base.{◌≡◌, refl, ap, Bool, List, [], ◌∷◌, ◌++◌, Bool-cases, inl, inr, if◌then◌else◌}
use mqttv.Int.{ℤ, is_minus_one}
use mqttv.Topics.Filters.{picked, wanted, and_each}
use mqttv.Forward.Delivery.{topic_lines}
use mqttv.Topics.{string_topics}
use mqttv.CString.{Bytes}
use mqttv.Journey.Delivery.{selected}
use mqttv.Journey.Session.Reports.{Report, values}

-- The texts whose flags are set.
abbrev pub chosen : List Bool → List Bytes → List Bytes
chosen [] ms = []
chosen (b ∷ bs) [] = []
chosen (b ∷ bs) (m ∷ ms) = if b then m ∷ chosen bs ms else chosen bs ms

pub selected-picked : (cs : List ℤ) (ms : List Bytes) → selected cs ms ≡ chosen (picked cs) ms
selected-picked [] ms = refl
selected-picked (c ∷ cs) [] = refl
selected-picked (c ∷ cs) (m ∷ ms) = elim (Bool-cases (is_minus_one c)) [
  | inl e ↦ rw e (selected-picked cs ms)
  | inr e ↦ rw e (ap (◌∷◌ m) (selected-picked cs ms))
]

-- A row with as many cells as there are topics.
pub six_cells :
    (row : List ℤ) (x₀ x₁ x₂ x₃ x₄ x₅ : Bool)
    → picked row ≡ x₀ ∷ x₁ ∷ x₂ ∷ x₃ ∷ x₄ ∷ x₅ ∷ []
    → (a : ℤ) × (b : ℤ) × (c : ℤ) × (d : ℤ) × (e : ℤ) × (f : ℤ) × (row ≡ a ∷ b ∷ c ∷ d ∷ e ∷ f ∷ [])
six_cells (a ∷ b ∷ c ∷ d ∷ e ∷ f ∷ []) x₀ x₁ x₂ x₃ x₄ x₅ h = (a, b, c, d, e, f, refl)
six_cells [] x₀ x₁ x₂ x₃ x₄ x₅ h = cc
six_cells (a ∷ []) x₀ x₁ x₂ x₃ x₄ x₅ h = cc
six_cells (a ∷ b ∷ []) x₀ x₁ x₂ x₃ x₄ x₅ h = cc
six_cells (a ∷ b ∷ c ∷ []) x₀ x₁ x₂ x₃ x₄ x₅ h = cc
six_cells (a ∷ b ∷ c ∷ d ∷ []) x₀ x₁ x₂ x₃ x₄ x₅ h = cc
six_cells (a ∷ b ∷ c ∷ d ∷ e ∷ []) x₀ x₁ x₂ x₃ x₄ x₅ h = cc
six_cells (a ∷ b ∷ c ∷ d ∷ e ∷ f ∷ g ∷ row) x₀ x₁ x₂ x₃ x₄ x₅ h = cc

-- What a subscriber asks for of each report: the topics of its filter, read as the README describes it,
-- but for those whose cell of the array on the stack was -1.
abbrev pub asked : List Bytes → List ℤ → List Report → List Bytes
asked filter information [] = []
asked filter information (r ∷ rs) =
    chosen (and_each (wanted filter) (picked information)) (topic_lines string_topics (values r))
    ++ asked filter information rs
