-- ===== src/Tests/Splits.antt =====
-- Examples for splits call by call: a registration's and the loop's.
use mqttv.Base.{refl, List, [], ◌∷◌, arith, All}
use mqttv.CString.{Bytes, codes, is_delim}
use mqttv.CString.Split.{strtok, skip, span_token, after_token}
use mqttv.CString.Split.Tokens.{tokens}
use mqttv.Threads.Places.{total}
use mqttv.Threads.Strtok.{
  Splitting, before, within, finished, Shared, finds_first, finds_next, ends, AnyOrder, OneByOne,
  nothing, begins_alone, goes_on,
}
use mqttv.Threads.Strtok.Apart.{IsRight, splits_apart}
use mqttv.Threads.Strtok.Mixed.{splits_mix}

abbrev sus_line : Bytes
sus_line = codes "n1/#"

abbrev report_line : Bytes
report_line = codes "1"

abbrev second : Splitting
second = before 10 report_line (codes ",")

abbrev sus_text : List Splitting → Shared
sus_text us = record { saved = []; spots = us }

begun : Shared
begun = record {
  saved = codes "#";
  spots = within 2 sus_line (codes "/") (codes "n1" ∷ []) ∷ second ∷ [];
}

abbrev sus_done : Splitting
sus_done = finished 2 sus_line (codes "/") (codes "n1" ∷ codes "#" ∷ [])

apart :
    OneByOne
      (sus_text (before 2 sus_line (codes "/") ∷ second ∷ []))
      (sus_text (sus_done ∷ finished 10 report_line (codes ",") (codes "1" ∷ []) ∷ []))
unfolding begun strtok skip span_token after_token is_delim total
apart =
    goes_on
      (begins_alone
        (goes_on
          (goes_on
            (begins_alone nothing refl (
              finds_first 2 sus_line (codes "/") (codes "n1") (codes "#") begun.spots refl
                (omega arith) ([], second ∷ [], refl, refl) refl))
            (finds_next 2 sus_line (codes "/") (codes "#") [] (codes "n1" ∷ [])
              (within 2 sus_line (codes "/") (codes "n1" ∷ codes "#" ∷ []) ∷ second ∷ []) refl
              (omega arith) ([], second ∷ [], refl, refl) refl))
          (ends 2 sus_line (codes "/") (codes "n1" ∷ codes "#" ∷ []) (sus_done ∷ second ∷ []) refl
            ([], second ∷ [], refl, refl) refl))
        refl
        (finds_first 10 report_line (codes ",") (codes "1") []
          (sus_done ∷ within 10 report_line (codes ",") (codes "1" ∷ []) ∷ []) refl (omega arith)
          (sus_done ∷ [], [], refl, refl) refl))
      (ends 10 report_line (codes ",") (codes "1" ∷ [])
        (sus_done ∷ finished 10 report_line (codes ",") (codes "1" ∷ []) ∷ []) refl
        (sus_done ∷ [], [], refl, refl) refl)

splits_apart_example :
    All IsRight (sus_done ∷ finished 10 report_line (codes ",") (codes "1" ∷ []) ∷ [])
splits_apart_example =
    splits_apart ((2, sus_line, codes "/", refl), ((10, report_line, codes ",", refl), tt)) apart

splits_mix_example :
    AnyOrder
      (sus_text
        (before 10 (codes "1,2,3") (codes ",") ∷ before 10 (codes "7,8,9") (codes ",") ∷ []))
      (sus_text (
        finished 10 (codes "1,2,3") (codes ",") (codes "1" ∷ codes "8" ∷ codes "9" ∷ [])
        ∷ finished 10 (codes "7,8,9") (codes ",") (codes "7" ∷ [])
        ∷ []))
unfolding tokens is_delim
splits_mix_example =
    splits_mix 10 10 (codes "1,2,3") (codes "7,8,9") (codes ",") [] (codes "1") (codes "7")
      (codes "2" ∷ codes "3" ∷ []) (codes "8" ∷ codes "9" ∷ []) refl refl (omega arith)
      (omega arith)
