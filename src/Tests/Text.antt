-- ===== src/Tests/Text.antt =====
-- Examples for the texts and the topics.
use mqttv.Base.{◌≡◌, refl, List, [], ◌∷◌, arith, ◌⊎◌, length, ltb, if◌then◌else◌}
use mqttv.Int.{ℤ, pos}
use mqttv.Result.{ok, fault, overrun, unset, ◌>>=◌}
use mqttv.CString.{codes, is_delim}
use mqttv.CString.Split.{split}
use mqttv.CString.Split.Tokens.{tokens}
use mqttv.CString.Split.Reference.{split_lem}
use mqttv.CString.Split.RoundTrip.{join, split-join}
use mqttv.Topics.{update_sus_info}
use mqttv.Topics.Totality.{update_sus_info_total, IsShort, IsLong}
use mqttv.Tests.Script.{clean_row}

three_levels :
    split 10 (codes "node1/tasks//gen") (codes "/")
    ≡ ok (codes "node1" ∷ codes "tasks" ∷ codes "gen" ∷ [])
unfolding split ◌>>=◌
three_levels = refl

split_lem_example : split 2 (codes "node1/cpu/gen") (codes "/") ≡ (
    if ltb 2 (length (tokens (codes "/") (codes "node1/cpu/gen")))
    then fault overrun
    else ok (tokens (codes "/") (codes "node1/cpu/gen")))
split_lem_example = split_lem 2 (codes "node1/cpu/gen") (codes "/")

split-join_example :
    split 3 (join b'/' (codes "a" ∷ codes "bc" ∷ [])) (codes "/") ≡ ok (codes "a" ∷ codes "bc" ∷ [])
unfolding is_delim
split-join_example =
    split-join 3 (codes "/") b'/' (codes "a" ∷ codes "bc" ∷ []) refl
      (((λ e. cc), (refl, tt)), (((λ e. cc), (refl, (refl, tt))), tt)) (omega arith)

update_sus_info_total_example :
    (IsShort (codes "node1" ∷ codes "cpu" ∷ [])
      × (update_sus_info (codes "node1" ∷ codes "cpu" ∷ []) clean_row ≡ fault unset))
    ⊎ (IsLong (codes "node1" ∷ codes "cpu" ∷ [])
        × ((r : List ℤ) × (update_sus_info (codes "node1" ∷ codes "cpu" ∷ []) clean_row ≡ ok r)
            × (length r ≡ 6)))
update_sus_info_total_example =
    update_sus_info_total (pos 0) (pos 0) (pos 0) (pos 0) (pos 0) (pos 0)
      (codes "node1" ∷ codes "cpu" ∷ [])
