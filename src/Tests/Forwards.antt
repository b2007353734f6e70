-- ===== src/Tests/Forwards.antt =====
-- Examples for the forwarding of messages.
use mqttv.Base.{ℕ, zero, suc, ◌<◌, ◌≡◌, refl, ◌≢◌, false, some, [], ◌∷◌, arith, get_elem?}
use mqttv.Int.{pos, minus_one}
use mqttv.Result.{ok, ◌>>=◌}
use mqttv.Result.Ensures.{Ensures}
use mqttv.CString.{codes, is_delim, str_eq}
use mqttv.Topics.{string_topics}
use mqttv.Net.{write_log}
use mqttv.Forward.{forward_line, forward_message, forward_entry, forward_round}
use mqttv.Forward.Delivery.{forward_line-delivers, send_all, topic_lines, IsValue}
use mqttv.Forward.Rounds.{forward_round_ends}
use mqttv.Forward.Midway.{midway, forward_entry-midway}
use mqttv.Broker.Register.{put_fd, put_name, put_sus}
use mqttv.Tests.Script.{
  script, differ, differ_some, wire, on_wire, clean_row, two_clients, two_publishers,
  two_publishers-IsValid,
}

pub digit_IsValue : (c : ℕ) → (is_delim (codes ",") c ≡ false) → c ≢ 0 → IsValue (c ∷ [])
digit_IsValue c h k = (((λ e. cc), (h, tt)), (k, tt), omega arith)

forward_line-delivers_example :
    forward_line script
      (pos 5)
      (pos 0 ∷ minus_one ∷ pos 0 ∷ pos 0 ∷ minus_one ∷ pos 0 ∷ [])
      (codes "n1")
      (codes "1,2,3,4,5,6\n")
      (on_wire [])
    ≡ (send_all script
          (pos 5)
          (pos 0 ∷ minus_one ∷ pos 0 ∷ pos 0 ∷ minus_one ∷ pos 0 ∷ [])
          (topic_lines string_topics
            (codes "1" ∷ codes "2" ∷ codes "3" ∷ codes "4" ∷ codes "5" ∷ codes "6" ∷ []))
          (wire [])
        >>= λ world. ok (record {
          world = world;
          log = (codes "01/01/2022 [00:00:00]: Se ha recibido [1,2,3,4,5,6] de [n1]\n") ∷ [];
        }))
unfolding is_delim
forward_line-delivers_example =
    forward_line-delivers script (pos 0) minus_one (pos 0) (pos 0) minus_one (pos 0) (codes "1")
      (codes "2") (codes "3") (codes "4") (codes "5") (codes "6") (pos 5) (codes "n1") (on_wire [])
      (
        digit_IsValue b'1' refl (omega arith),
        (
          digit_IsValue b'2' refl (omega arith),
          (
            digit_IsValue b'3' refl (omega arith),
            (
              digit_IsValue b'4' refl (omega arith),
              (digit_IsValue b'5' refl (omega arith), (digit_IsValue b'6' refl (omega arith), tt)),
            ),
          ),
        ),
      )
      (omega arith) (omega arith)

forward_round_ends_example :
    Ensures (λ r. r.0 ≡ 0) (forward_round script 11 two_clients 0 (on_wire []))
forward_round_ends_example =
    forward_round_ends script 11 two_clients 0 (on_wire []) (omega arith) (omega arith)

publishers_only :
    (j : ℕ) → j < 2 → get_elem? two_publishers.client_sus_list j ≡ some (some (codes "NONE"))
publishers_only zero h = refl
publishers_only (suc zero) h = refl
publishers_only (suc (suc j)) h = absurd (omega arith)

forward_entry-midway_example :
    forward_entry script
      (midway (pos 6) (codes "new") (codes "n1") two_publishers)
      2
      (on_wire (codes "1,2,3,4,5,6\n" ∷ []))
    ≡ (write_log script
          (codes "Se envia informacion desde [n1] -> [new]")
          (on_wire (codes "1,2,3,4,5,6\n" ∷ []))
        >>= λ io₁. forward_message script (pos 4) (pos 6) clean_row (codes "n1") io₁ >>= λ io₂.
            ok (3, io₂))
unfolding str_eq put_fd put_name put_sus
forward_entry-midway_example =
    forward_entry-midway script two_publishers (pos 6) (codes "new") (codes "n1") 0 2 clean_row
      (pos 4) (pos 6) (on_wire (codes "1,2,3,4,5,6\n" ∷ [])) two_publishers-IsValid (omega arith)
      (differ (codes "n1") (codes "NONE") refl) refl refl
      (
        differ_some (codes "n1") (codes "new") refl,
        (differ_some (codes "sub") (codes "new") refl, refl),
      )
      refl refl (omega arith)
