-- ===== src/Tests/Shares.antt =====
-- Two rounds over one publisher and two subscribers to its first topic.
use mqttv.Base.{◌≡◌, refl, some, none, List, [], ◌∷◌, arith, replicate}
use mqttv.Int.{ℤ, pos, minus_one}
use mqttv.Result.{ok, ◌>>=◌}
use mqttv.CString.{Bytes, codes, c_string, str_eq, chop, is_delim}
use mqttv.CString.Split.{split}
use mqttv.CString.Split.Tokens.{tokens}
use mqttv.Topics.{level}
use mqttv.Net.{Io, write_log}
use mqttv.Broker.{Broker}
use mqttv.Broker.Tables.{IsValid}
use mqttv.Broker.Directory.{Client, directory, view, find_fd}
use mqttv.Forward.{cell_at, forward_line, send_from, topic_message, forward_rounds}
use mqttv.Rio.Connections.{Sockets, sockets}
use mqttv.Threads.Calls.{Route}
use mqttv.Journey.Shares.{
  route_of, arriving, IsForwardable, Deal, nobody, passed_over, served, no_more, round, rounds_deal,
}
use mqttv.Tests.Calls.{now, one, two, one-IsLine, two-IsLine}

abbrev tasks_row : List ℤ
tasks_row = pos 0 ∷ minus_one ∷ minus_one ∷ minus_one ∷ minus_one ∷ minus_one ∷ []

abbrev three_clients : Broker
three_clients = record {
  client_name_list = some (codes "n1") ∷ some (codes "a") ∷ some (codes "b") ∷ replicate 7 none;
  client_fd_list = pos 4 ∷ pos 5 ∷ pos 6 ∷ replicate 7 (pos 0);
  fd_idx = 3;
  client_sus_list = some (codes "NONE") ∷ some (codes "n1") ∷ some (codes "n1") ∷ replicate 7 none;
  topic_list = replicate 10 tasks_row;
  sem_control = 2;
  sem_mutex = 1;
}

three_clients-IsValid : IsValid three_clients
three_clients-IsValid = record {
  names_size = refl;
  fds_size = refl;
  sus_size = refl;
  topics_size = refl;
  count = omega arith;
  names = (
    (codes "n1", refl),
    (
      (codes "a", refl),
      ((codes "b", refl), (refl, (refl, (refl, (refl, (refl, (refl, (refl, refl)))))))),
    ),
  );
  sus = (
    (codes "NONE", refl),
    (
      (codes "n1", refl),
      ((codes "n1", refl), (refl, (refl, (refl, (refl, (refl, (refl, (refl, refl)))))))),
    ),
  );
}

abbrev client : Bytes → ℤ → Client
client name fd = record { name = name; fd = fd; sus = codes "n1"; row = tasks_row }

abbrev route_to : ℤ → Route
route_to fd = route_of (pos 4) fd (client (codes "a") fd)

abbrev four_lines : Sockets
four_lines = record { coming = λ fd. arriving (one ∷ two ∷ two ∷ one ∷ []) []; sent = [] }

one-IsForwardable : (fd : ℤ) → IsForwardable now (route_to fd) one
unfolding forward_line send_from topic_message level cell_at split is_delim chop c_string write_log
    ◌>>=◌
one-IsForwardable fd = (record { world = four_lines; log = [] }, _, refl)

two-IsForwardable : (fd : ℤ) → IsForwardable now (route_to fd) two
unfolding forward_line send_from topic_message level cell_at split is_delim chop c_string write_log
    ◌>>=◌
two-IsForwardable fd = (record { world = four_lines; log = [] }, _, refl)

first-Deal :
    Deal now
      (directory three_clients)
      (pos 4)
      (directory three_clients)
      (one ∷ two ∷ [])
      ((route_to (pos 5), codes "1,2,3,4,5,6\n") ∷ (route_to (pos 6), codes "7,8,9,1,2,3\n") ∷ [])
unfolding directory view find_fd str_eq
first-Deal = passed_over refl (
    served (pos 5) refl refl refl (omega arith) one-IsLine (omega arith) (one-IsForwardable (pos 5))
      (served (pos 6) refl refl refl (omega arith) two-IsLine (omega arith)
        (two-IsForwardable (pos 6)) nobody))

second-Deal :
    Deal now
      (directory three_clients)
      (pos 4)
      (directory three_clients)
      (two ∷ one ∷ [])
      ((route_to (pos 5), codes "7,8,9,1,2,3\n") ∷ (route_to (pos 6), codes "1,2,3,4,5,6\n") ∷ [])
unfolding directory view find_fd str_eq
second-Deal = passed_over refl (
    served (pos 5) refl refl refl (omega arith) two-IsLine (omega arith) (two-IsForwardable (pos 5))
      (served (pos 6) refl refl refl (omega arith) one-IsLine (omega arith)
        (one-IsForwardable (pos 6)) nobody))

rounds_deal_example :
    (io' : Io (sockets now)) × (forward_rounds
        (sockets now)
        11
        2
        three_clients
        (record { world = four_lines; log = [] })
      ≡ ok io')
    × (io'.world.sent
        ≡ (pos 5, codes "tasks/gen: 1\n")
          ∷ (pos 6, codes "tasks/gen: 7\n")
          ∷ (pos 5, codes "tasks/gen: 7\n")
          ∷ (pos 6, codes "tasks/gen: 1\n")
          ∷ [])
    × (io'.world.coming (pos 4) ≡ [])
unfolding c_string is_delim tokens
rounds_deal_example =
    rounds_deal now 11 three_clients-IsValid (omega arith) (omega arith)
      (round first-Deal (round second-Deal no_more)) [] (record { world = four_lines; log = [] })
      refl
