-- ===== src/Topics/Filters.antt =====
-- Topic filters as the README describes them: `+` stands for one level, `#` for all that follow.
use mqttv.Base.{Bool, true, false, not, ◌&&◌, ◌||◌, List, [], ◌∷◌, map}
use mqttv.Int.{ℤ, is_minus_one}
use mqttv.CString.{Bytes, codes, str_eq}

-- The levels of the six topics.
abbrev pub topic_paths : List (List Bytes)
topic_paths =
    (codes "tasks" ∷ codes "gen" ∷ [])
    ∷ (codes "tasks" ∷ codes "run" ∷ [])
    ∷ (codes "tasks" ∷ codes "sleep" ∷ [])
    ∷ (codes "cpu" ∷ codes "gen" ∷ [])
    ∷ (codes "cpu" ∷ codes "sys" ∷ [])
    ∷ (codes "mem" ∷ codes "gen" ∷ [])
    ∷ []

unfoldable pub filter_matches : List Bytes → List Bytes → Bool
unfolding str_eq
filter_matches [] [] = true
filter_matches [] (t ∷ ts) = false
filter_matches (f ∷ fs) [] = str_eq f (codes "#")
filter_matches (f ∷ fs) (t ∷ ts) =
    str_eq f (codes "#") || (str_eq f (codes "+") || str_eq f t) && filter_matches fs ts

-- Which of the topics a filter asks for.
unfoldable pub wanted : List Bytes → List Bool
unfolding filter_matches
wanted filter = map (filter_matches filter) topic_paths

-- Which topics a client's row has.
abbrev pub picked : List ℤ → List Bool
picked = map (λ c. not (is_minus_one c))

abbrev pub and_each : List Bool → List Bool → List Bool
and_each [] ys = []
and_each (x ∷ xs) [] = []
and_each (x ∷ xs) (y ∷ ys) = (x && y) ∷ and_each xs ys

-- The filters below a node's name that the broker reads as the README describes them; Topics/Levels
-- is about those of two levels.
pub data IsSupported : List Bytes → Type 0 where
  all : (rest : List Bytes) → IsSupported (codes "#" ∷ rest)
  each_gen : IsSupported (codes "+" ∷ codes "gen" ∷ [])
  each_all : IsSupported (codes "+" ∷ codes "#" ∷ [])
  each_each : IsSupported (codes "+" ∷ codes "+" ∷ [])
  tasks_all : IsSupported (codes "tasks" ∷ codes "#" ∷ [])
  tasks_gen : IsSupported (codes "tasks" ∷ codes "gen" ∷ [])
  tasks_run : IsSupported (codes "tasks" ∷ codes "run" ∷ [])
  tasks_sleep : IsSupported (codes "tasks" ∷ codes "sleep" ∷ [])
  cpu_all : IsSupported (codes "cpu" ∷ codes "#" ∷ [])
  cpu_gen : IsSupported (codes "cpu" ∷ codes "gen" ∷ [])
  cpu_sys : IsSupported (codes "cpu" ∷ codes "sys" ∷ [])
  mem_all : IsSupported (codes "mem" ∷ codes "#" ∷ [])
  mem_gen : IsSupported (codes "mem" ∷ codes "gen" ∷ [])
  mem_each : IsSupported (codes "mem" ∷ codes "+" ∷ [])
