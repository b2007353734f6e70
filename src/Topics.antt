-- ===== src/Topics.antt =====
-- The topics of broker_server.c: `string_topics`, `update_sus_info` and `find_topic_by_name`.
pub mod Filters
pub mod Selection
pub mod Levels
pub mod Totality
use mqttv.Base.{
  ℕ, zero, suc, ◌+◌, ◌≡◌, refl, Bool, Option, none, some, List, [], ◌∷◌, if◌then◌else◌, ◌==◌,
  get_elem?, set, length, replicate,
}
use mqttv.Int.{ℤ, pos, minus_one}
use mqttv.Result.{Result, ok, fault, unset, ◌>>=◌}
use mqttv.CString.{Bytes, codes, str_eq}

abbrev pub topics_number : ℕ
topics_number = 6

-- The prefix of each topic's messages, in the order of a client's row of `topic_list`.
abbrev pub string_topics : List Bytes
string_topics =
    codes "tasks/gen: "
    ∷ codes "tasks/run: "
    ∷ codes "tasks/sleep: "
    ∷ codes "cpu/gen: "
    ∷ codes "cpu/sys: "
    ∷ codes "mem/gen: "
    ∷ []

-- suscription[i]; only the cells that `split` wrote hold a pointer.
unfoldable pub level : List Bytes → ℕ → Result Bytes
level suscription i = elim (get_elem? suscription i) [ none ↦ fault unset | some s ↦ ok s ]

pub level-some :
    (suscription : List Bytes) (i : ℕ) (s : Bytes)
    → get_elem? suscription i ≡ some s
    → level suscription i ≡ ok s
unfolding level
level-some suscription i s h = rw (h, level)

-- information[i] = -1 for each index of the list
unfoldable pub clear : List ℕ → List ℤ → List ℤ
clear [] information = information
clear (i ∷ is) information = clear is (set information i minus_one)

-- for(int i = 0; i < 6; i++) if(i != k) information[i] = -1; with the rounds that are left
unfoldable pub clear_others : ℕ → ℕ → ℕ → List ℤ → List ℤ
clear_others k zero i information = information
clear_others k (suc rounds) i information =
    clear_others k rounds (i + 1) (if i == k then information else set information i minus_one)

abbrev only : ℕ → List ℤ → List ℤ
only k information = clear_others k 6 0 information

unfoldable pub update_tasks : Bytes → List ℤ → List ℤ
unfolding clear clear_others str_eq
update_tasks s information =
    if str_eq s (codes "#")
    then clear (3 ∷ 4 ∷ 5 ∷ []) information
    else if str_eq s (codes "gen")
    then only 0 information
    else if str_eq s (codes "run")
    then only 1 information
    else only 2 information

unfoldable pub update_cpu : Bytes → List ℤ → List ℤ
unfolding clear clear_others str_eq
update_cpu s information =
    if str_eq s (codes "#")
    then clear (0 ∷ 1 ∷ 2 ∷ 5 ∷ []) information
    else if str_eq s (codes "gen")
    then only 3 information
    else only 4 information

unfoldable pub update_other : Bytes → List ℤ → List ℤ
unfolding clear clear_others str_eq
update_other s information =
    if str_eq s (codes "#") then clear (0 ∷ 1 ∷ 2 ∷ 3 ∷ 4 ∷ []) information else only 5 information

-- The branches that also read suscription[2].
unfoldable pub update_levels : Bytes → Bytes → List ℤ → List ℤ
unfolding clear update_tasks update_cpu update_other str_eq
update_levels s t information =
    if str_eq s (codes "+")
    then (if str_eq t (codes "gen") then clear (1 ∷ 2 ∷ 4 ∷ []) information else information)
    else if str_eq s (codes "tasks")
    then update_tasks t information
    else if str_eq s (codes "cpu")
    then update_cpu t information
    else update_other t information

-- The `while(1)` ends in its first round on every branch. `information` comes in with whatever
-- the caller's array holds, and -1 marks the topics that the client does not get.
unfoldable pub update_sus_info : List Bytes → List ℤ → Result (List ℤ)
unfolding level update_levels str_eq
update_sus_info suscription information = do
  s ← level suscription 1
  if str_eq s (codes "#")
      then ok information
      else do t ← level suscription 2; ok (update_levels s t information)

-- Nothing calls this one.
unfoldable pub find_topic_by_name : Bytes → ℤ
unfolding str_eq
find_topic_by_name topic =
    if str_eq topic (codes "cpu")
    then pos 0
    else if str_eq topic (codes "tasks")
    then pos 1
    else if str_eq topic (codes "ram")
    then pos 2
    else minus_one
