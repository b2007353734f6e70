-- ===== src/Tests/Whole.antt =====
-- The three programs from their starts, with two reports and the filter #.
use mqttv.Base.{◌≡◌, refl, true, List, [], ◌∷◌, ◌++◌, arith, map}
use mqttv.Int.{pos}
use mqttv.Result.{ok}
use mqttv.CString.{Bytes, codes, is_delim, str_eq}
use mqttv.Net.{Io}
use mqttv.Topics.Filters.{all, wanted, filter_matches}
use mqttv.Broker.{Broker, init}
use mqttv.Broker.Register.{register}
use mqttv.Forward.{forward_rounds}
use mqttv.Subscriber.Main.{connected_to}
use mqttv.Publisher
use mqttv.Subscriber
use mqttv.Rio.{got}
use mqttv.Rio.Connections.{Sockets, sockets}
use mqttv.Journey.Session.{texts_on}
use mqttv.Journey.Session.Reports.{plain_lem}
use mqttv.Journey.Whole.{connects, at_broker, whole}
use mqttv.Journey.Whole.Served.{AreFitting}
use mqttv.Tests.Script.{differ, clean_row}
use mqttv.Tests.Clients.{roomy_block, quarter}
use mqttv.Tests.Mains.{grep_once, empty_files, one_round, no_connections}
use mqttv.Tests.Session.{six, two_tops, two_lines, shown_lines, six-IsReport, one_by_one}

abbrev now : Bytes
now = codes "now"

abbrev filter : List Bytes
filter = codes "#" ∷ []

names :
    AreFitting now 2
      (pos 0)
      (pos 0)
      (pos 0)
      (pos 0)
      (pos 0)
      (pos 0)
      (codes "n1")
      (codes "sub")
      filter
      (pos 4)
      (pos 5)
unfolding str_eq is_delim
names = record {
  apart = refl;
  apart' = refl;
  publisher_fits = ((plain_lem (codes "n1") refl).0, (plain_lem (codes "n1") refl).1, omega arith);
  name_fits = ((plain_lem (codes "sub") refl).0, (plain_lem (codes "sub") refl).1, omega arith);
  topic_fits = ((plain_lem (codes "n1/#") refl).0, (plain_lem (codes "n1/#") refl).1, omega arith);
  words = (((λ e. cc), (refl, (refl, tt))), (((λ e. cc), (refl, tt)), tt));
  levels = omega arith;
  subscribes = differ (codes "n1/#") (codes "NONE") refl;
  node = refl;
  other = refl;
  supported = all [];
  time = omega arith;
}

whole_example :
    (io_p : Io (sockets now)) × (io₁ : Io (sockets now)) × (io₂ : Io (sockets now)) × (io_b : Io
      (sockets now))
    × (b₁ : Broker) × (b₂ : Broker) × (w' : Sockets) × (Publisher.Main.main
          (sockets now)
          quarter
          roomy_block
          grep_once
          2
          (codes "n1")
          (connects now (pos 3) [])
          two_tops
          empty_files
          (record { world = no_connections; log = [] })
        ≡ ok (one_round, io_p))
    × (register (sockets now) 2 clean_row (pos 4) init (record {
      world =
          at_broker now 2
            (pos 0)
            (pos 0)
            (pos 0)
            (pos 0)
            (pos 0)
            (pos 0)
            (codes "n1")
            (codes "sub")
            filter
            (pos 4)
            (pos 5)
            (texts_on (pos 3) io_p.world.sent)
            (codes "sub\n" ∷ codes "n1/#\n" ∷ []);
      log = [];
    })
        ≡ ok (b₁, io₁))
    × (register (sockets now) 2 clean_row (pos 5) b₁ io₁ ≡ ok (b₂, io₂))
    × (forward_rounds (sockets now) 11 2 b₂ io₂ ≡ ok io_b)
    × (Subscriber.Main.main
          (sockets now)
          13
          3
          (codes "sub")
          (codes "n1/#")
          (connects now (pos 3) (map got (texts_on (pos 5) io_b.world.sent)))
          (record { world = no_connections; log = [] })
        ≡ ok (
          true,
          record {
            world = w';
            log =
                codes "sub\n"
                  ∷ codes "n1/#\n"
                  ∷ connected_to (codes "sub") (codes "n1/#")
                  ∷ shown_lines
                ++ shown_lines;
          },
        ))
unfolding wanted filter_matches str_eq
whole_example =
    whole now 2 (pos 0) (pos 0) (pos 0) (pos 0) (pos 0) (pos 0) (codes "n1") (codes "sub") filter
      (pos 4) (pos 5) quarter roomy_block grep_once (six ∷ six ∷ []) 11 13 (pos 3) (pos 3) (map got)
      no_connections [] names two_lines refl (six-IsReport, (six-IsReport, tt)) (omega arith)
      one_by_one (omega arith)
