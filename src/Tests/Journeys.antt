-- ===== src/Tests/Journeys.antt =====
-- Examples for a report's whole way, and for a subscriber that has gone.
use mqttv.Base.{◌≡◌, refl, List, [], ◌∷◌, ◌++◌, arith}
use mqttv.Int.{ℤ, pos, minus_one}
use mqttv.Result.{ok, exits}
use mqttv.CString.{Bytes, codes, newline, is_delim}
use mqttv.Topics.{string_topics}
use mqttv.Net.{Net}
use mqttv.Forward.{forward_message}
use mqttv.Forward.Delivery.{topic_lines}
use mqttv.Journey.Delivery.{selected, line_delivered}
use mqttv.Journey.Gone.{forward_message_leaves}
use mqttv.Rio.{Answer, got, interrupted}
use mqttv.Rio.Lines.{IsAlive, all_bytes}
use mqttv.Rio.Connections.{written, Sockets, sockets, put_coming}
use mqttv.Tests.Forwards.{digit_IsValue}

abbrev row : List ℤ
row = pos 0 ∷ minus_one ∷ pos 0 ∷ pos 0 ∷ minus_one ∷ pos 0 ∷ []

abbrev now : Bytes
now = codes "01/01/2022 [00:00:00]: "

abbrev numbers : List Bytes
numbers = codes "200" ∷ codes "198" ∷ codes "7" ∷ codes "1.0" ∷ codes "3.0" ∷ codes "25.123" ∷ []

abbrev arriving : Sockets
arriving = record {
  coming = λ fd.
      got (codes "200,198,7,")
      ∷ interrupted
      ∷ got (codes "1.0,3.0,25.123\n201,")
      ∷ got (codes "1")
      ∷ [];
  sent = [];
}

line_delivered_example :
    (answers : List Answer) × (forward_message
        (sockets now)
        (pos 4)
        (pos 5)
        row
        (codes "n1")
        (record { world = arriving; log = [] })
      ≡ ok (record {
        world =
            written
              (pos 5)
              (selected row (topic_lines string_topics numbers))
              (put_coming (pos 4) answers arriving);
        log = ((now ++ codes "Se ha recibido [200,198,7,1.0,3.0,25.123] de [n1]") ++ newline) ∷ [];
      }))
    × IsAlive answers
    × ((lost : Bytes) × (lost ++ all_bytes answers ≡ codes "201,1"))
unfolding is_delim
line_delivered_example =
    line_delivered now (pos 0) minus_one (pos 0) (pos 0) minus_one (pos 0) (codes "200")
      (codes "198") (codes "7") (codes "1.0") (codes "3.0") (codes "25.123") (pos 4) (pos 5)
      (codes "n1") (codes "201,1") arriving []
      (
        (((λ e. cc), (refl, (refl, (refl, tt)))), omega arith, omega arith),
        (
          (((λ e. cc), (refl, (refl, (refl, tt)))), omega arith, omega arith),
          (
            (((λ e. cc), (refl, tt)), omega arith, omega arith),
            (
              (((λ e. cc), (refl, (refl, (refl, tt)))), omega arith, omega arith),
              (
                (((λ e. cc), (refl, (refl, (refl, tt)))), omega arith, omega arith),
                (
                  (
                    ((λ e. cc), (refl, (refl, (refl, (refl, (refl, (refl, tt))))))),
                    omega arith,
                    omega arith,
                  ),
                  tt,
                ),
              ),
            ),
          ),
        ),
      )
      (
        refl,
        (
          refl,
          (
            refl,
            (
              refl,
              (
                refl,
                (
                  refl,
                  (
                    refl,
                    (
                      refl,
                      (
                        refl,
                        (
                          refl,
                          (
                            refl,
                            (
                              refl,
                              (
                                refl,
                                (
                                  refl,
                                  (
                                    refl,
                                    (
                                      refl,
                                      (
                                        refl,
                                        (refl, (refl, (refl, (refl, (refl, (refl, (refl, tt))))))),
                                      ),
                                    ),
                                  ),
                                ),
                              ),
                            ),
                          ),
                        ),
                      ),
                    ),
                  ),
                ),
              ),
            ),
          ),
        ),
      )
      (omega arith) (omega arith) tt refl

-- One line comes, and nobody listens.
abbrev deaf : Net
deaf = record {
  World = Unit {0};
  Reader = ℤ;
  rio_readinitb = λ fd. fd;
  rio_readlineb = λ rio n w. ok (codes "1,2,3,4,5,6\n", rio, w);
  rio_writen = λ fd s w. exits (pos 0);
  stamp = λ w. now;
}

forward_message_leaves_example :
    forward_message deaf (pos 4) (pos 5) row (codes "n1") (record { world = tt; log = [] })
    ≡ exits (pos 0)
unfolding is_delim
forward_message_leaves_example =
    forward_message_leaves deaf (pos 0) minus_one (pos 0) (pos 0) minus_one (pos 0) (codes "1")
      (codes "2") (codes "3") (codes "4") (codes "5") (codes "6") (pos 4) (pos 5) (pos 0)
      (codes "n1") (record { world = tt; log = [] }) refl
      (
        digit_IsValue b'1' refl (omega arith),
        (
          digit_IsValue b'2' refl (omega arith),
          (
            digit_IsValue b'3' refl (omega arith),
            (
              digit_IsValue b'4' refl (omega arith),
              (digit_IsValue b'5' refl (omega arith), (digit_IsValue b'6' refl (omega arith), tt)),
            ),
          ),
        ),
      )
      (omega arith) (omega arith) (λ e. cc) (λ s w. refl)
