-- ===== src/Topics/Levels.antt =====
-- `update_sus_info` on every filter of two levels that the words of the README make.
use mqttv.Base.{◌≡◌, Bool, true, List, [], ◌∷◌, replicate}
use mqttv.Int.{ℤ}
use mqttv.Result.{ok, ◌>>=◌}
use mqttv.CString.{Bytes, codes}
use mqttv.Topics.{update_sus_info}
use mqttv.Topics.Filters.{wanted, picked, and_each, IsSupported}

-- The words of the README for a first level, but for `#`.
pub data Group : Type 0 where
  each : Group
  tasks : Group
  cpu : Group
  mem : Group

-- The words of the README for a second level.
pub data Word : Type 0 where
  each : Word
  all : Word
  gen : Word
  run : Word
  sleep : Word
  sys : Word

abbrev pub group_text : Group → Bytes
group_text each = codes "+"
group_text tasks = codes "tasks"
group_text cpu = codes "cpu"
group_text mem = codes "mem"

abbrev pub word_text : Word → Bytes
word_text each = codes "+"
word_text all = codes "#"
word_text gen = codes "gen"
word_text run = codes "run"
word_text sleep = codes "sleep"
word_text sys = codes "sys"

abbrev pub filter_of : Group → Word → List Bytes
filter_of x y = group_text x ∷ word_text y ∷ []

-- All six topics below `+`, and the last topic of the group below its name.
abbrev pub last_of : Group → List Bool
last_of each = replicate 6 true
last_of tasks = wanted (codes "tasks" ∷ codes "sleep" ∷ [])
last_of cpu = wanted (codes "cpu" ∷ codes "sys" ∷ [])
last_of mem = wanted (codes "mem" ∷ codes "gen" ∷ [])

module _ (a b c d e f : ℤ) where
  abbrev row : List ℤ
  row = a ∷ b ∷ c ∷ d ∷ e ∷ f ∷ []

  abbrev Right : Bytes → List Bytes → Type 0
  Right node filter =
      IsSupported filter
      × ((update_sus_info (node ∷ filter) row >>= λ r. ok (picked r))
          ≡ ok (and_each (wanted filter) (picked row)))
