-- ===== src/Threads/Calls/Order.antt =====
-- The order of what is written while one thread alone is in the loop.
use mathlib.Core.List.{map-append}
use mqttv.Base.{
  ℕ, suc, ◌≤◌, ◌≡◌, refl, sym, ap, ◌∙◌, List, [], ◌∷◌, ◌++◌, arith, append-nil, append_assoc,
  get_elem?,
}
use mqttv.CString.{Bytes}
use mqttv.Topics.{string_topics}
use mqttv.Net.{Io}
use mqttv.Threads.Places.{Turns, total, total-append}
use mqttv.Rio.Connections.{sockets}
use mqttv.Threads.Calls.{
  Spot, elsewhere, at, reading, sending, Process, Call, registers, accepts, joins, starts_again,
  passes_over, chooses, reads_nothing, reads, sends, finishes, Calls, here, next, at_start,
}
use mqttv.Threads.Calls.Messages.{
  message, messages, to_fd, made_of, made, send_one-Ensures, choose-sent, nothing-sent, line-sent,
}
use mqttv.Threads.Calls.Conservation.{Write, pending, made-append}

abbrev pub looping : Spot → ℕ
looping elsewhere = 0
looping (at i) = 1
looping (reading i route) = 1
looping (sending i route prefixes j info) = 1

-- What the threads have still to write, one thread behind the other.
unfoldable pub unsent : List Spot → List Write
unsent [] = []
unsent (t ∷ ts) = pending t ++ unsent ts

unsent-append : (xs ys : List Spot) → unsent (xs ++ ys) ≡ unsent xs ++ unsent ys
unfolding unsent
unsent-append [] ys = refl
unsent-append (x ∷ xs) ys =
    ap (λ (zs : List Write). pending x ++ zs) (unsent-append xs ys)
    ∙ sym (append_assoc (pending x) (unsent xs) (unsent ys))

unsent_none : (ts : List Spot) → total looping ts ≡ 0 → unsent ts ≡ []
unfolding unsent total
unsent_none [] h = refl
unsent_none (elsewhere ∷ ts) h = unsent_none ts (omega arith)
unsent_none (at i ∷ ts) h = absurd (omega arith)
unsent_none (reading i route ∷ ts) h = absurd (omega arith)
unsent_none (sending i route prefixes j info ∷ ts) h = absurd (omega arith)

unsent_new : unsent (elsewhere ∷ []) ≡ []
unfolding unsent
unsent_new = refl

unsent_one :
    (xs ys : List Spot) (t : Spot)
    → total looping (xs ++ t ∷ ys) ≤ 1
    → looping t ≡ 1
    → unsent (xs ++ t ∷ ys) ≡ pending t
unfolding unsent
unsent_one xs ys t le one =
    unsent-append xs (t ∷ ys)
    ∙ rw
        (
          unsent_none xs (omega (arith, total-append looping xs t ys)),
          unsent_none ys (omega (arith, total-append looping xs t ys)),
        )
        (append-nil (pending t))

-- The move of the one thread in the loop.
alone :
    (ts us : List Spot) (t t' : Spot)
    → Turns ts t t' us
    → looping t ≡ 1
    → looping t' ≡ 1
    → total looping us ≤ 1
    → (unsent ts ≡ pending t) × (unsent us ≡ pending t') × (total looping ts ≤ 1)
alone ts us t t' (xs, ys, e, e') h h' le =
    let le' = rw e' at le in
    let same : total looping (xs ++ t ∷ ys) ≤ 1 =
      omega (arith, total-append looping xs t ys, total-append looping xs t' ys) in
    (rw e (unsent_one xs ys t same h), rw e' (unsent_one xs ys t' le' h'), rw e same)

module _ (now : Bytes) where
  InOrder : List Write → Process (sockets now) → Type 0
  InOrder sent s =
      total looping s.spots ≤ 1 → s.io.world.sent ++ unsent s.spots ≡ sent ++ made s.taken

  quiet :
      (sent : List Write) (s : Process (sockets now)) (io' : Io (sockets now)) (b' : _)
      (us : List Spot) (t t' : Spot)
      → InOrder sent s
      → io'.world.sent ≡ s.io.world.sent
      → Turns s.spots t t' us
      → looping t ≡ 1
      → looping t' ≡ 1
      → pending t ≡ pending t'
      → InOrder sent (record { broker = b'; io = io'; spots = us; taken = s.taken })
  unfolding InOrder
  quiet sent s io' b' us t t' k e g h h' same le =
      let (before, after, le') = alone s.spots us t t' g h h' le in
      rw (e, after) (rw (← same) (rw (← before) (k le')))

  -- A thread that comes to the loop, or to the process, has nothing to write.
  join_unsent :
      (ts us : List Spot)
      → Turns ts elsewhere (at 0) us
      → total looping us ≤ 1
      → (unsent ts ≡ []) × (unsent us ≡ []) × (total looping ts ≤ 1)
  unfolding unsent
  join_unsent ts us (xs, ys, e, e') le =
      let le' = rw e' at le in
      let none_xs = unsent_none xs (omega (arith, total-append looping xs (at 0) ys)) in
      let none_ys = unsent_none ys (omega (arith, total-append looping xs (at 0) ys)) in
      (
        rw e (unsent-append xs (elsewhere ∷ ys) ∙ rw (none_xs, none_ys) refl),
        rw e' (unsent-append xs (at 0 ∷ ys) ∙ rw (none_xs, none_ys) refl),
        rw e (
            omega (arith, total-append looping xs elsewhere ys, total-append looping xs (at 0) ys)),
      )

  Call-InOrder :
      (sent : List Write) {s t : Process (sockets now)}
      → Call now s t
      → InOrder sent s
      → InOrder sent t
  unfolding InOrder
  Call-InOrder sent (registers b' io' e q) k = rw q λ le. rw e (k le)
  Call-InOrder sent {s} (accepts io' e q) k = rw q λ le.
      rw (e, unsent-append s.spots (elsewhere ∷ []), unsent_new)
        (rw (append-nil (unsent s.spots))
          (k (omega (arith, total-append looping s.spots elsewhere []))))
  Call-InOrder sent {s} (joins b' us g q) k = rw q λ le.
      let (before, after, le') = join_unsent s.spots us g le in rw after (rw (← before) (k le'))
  Call-InOrder sent {s} (starts_again i us c g q) k =
      rw q (quiet sent s s.io s.broker us (at i) (at 0) k refl g refl refl refl)
  Call-InOrder sent {s} (passes_over i publisher us c n g q) k =
      rw q (quiet sent s s.io s.broker us (at i) (at (suc i)) k refl g refl refl refl)
  Call-InOrder sent {s} (chooses i publisher route io' us c n h g q) k = rw q (
      quiet sent s io' s.broker us (at i) (reading i route) k
        (choose-sent now s.broker i publisher s.io io' route h) g refl refl refl)
  Call-InOrder sent {s} (reads_nothing i route rio' world io' us r l g q) k = rw q (
      quiet sent s io' s.broker us (reading i route) (at (suc i)) k
        (nothing-sent now route.fd_pub _ s.io.world world s.io.log rio' io' r l) g refl refl refl)
  Call-InOrder sent {s} (finishes i route j info us g q) k = rw q (
      quiet sent s s.io s.broker us (sending i route [] j info) (at (suc i)) k refl g refl refl
        refl)
  Call-InOrder sent {s} (reads i route c line rio' world info io' us r h g q) k =
      let (cut, not_sent) =
        line-sent now route.fd_pub route.publisher (c ∷ line) s.io.world world s.io.log rio' info
          io' r h in
      rw q λ le.
        let (before, after, le') =
          alone s.spots us (reading i route) (sending i route string_topics 0 info) g refl refl
            le in
        let before_k = rw before at (k le') in
        rw (not_sent, after, cut)
          (ap (λ (ws : List Write). ws ++ made_of (route, c ∷ line))
              (sym (append-nil s.io.world.sent) ∙ before_k)
            ∙ append_assoc sent (made s.taken) (made_of (route, c ∷ line))
            ∙ ap (λ (ws : List Write). sent ++ ws) (sym (made-append s.taken (route, c ∷ line))))
  Call-InOrder sent {s} (sends i route prefix prefixes j info world us h g q) k =
      let now_sent =
        (send_one-Ensures now prefix j route.topic info route.fd_sus s.io.world).at world h in
      let first =
        to_fd route.fd_sus (message j prefix (get_elem? route.topic j) (get_elem? info j)) in
      let rest = to_fd route.fd_sus (messages prefixes (suc j) route.topic info) in
      rw q λ le.
        let (before, after, le') =
          alone s.spots us (sending i route (prefix ∷ prefixes) j info)
            (sending i route prefixes (suc j) info) g refl refl le in
        let before_k = rw before at (k le') in
        rw (now_sent, after)
          (append_assoc s.io.world.sent first rest
            ∙ ap (λ (ws : List Write). s.io.world.sent ++ ws) (sym (map-append _ _ _))
            ∙ before_k)

  Calls-InOrder :
      (sent : List Write) {s t : Process (sockets now)}
      → InOrder sent s
      → Calls now s t
      → InOrder sent t
  Calls-InOrder sent k here = k
  Calls-InOrder sent k (next r c) = Call-InOrder sent c (Calls-InOrder sent k r)

  -- In every run, call by call, in which no other thread, a registering one included, calls strtok
  -- while one is splitting a line (so that a split is one step): as long as only one thread is in the
  -- loop, what was written to the connections, with what this
  -- thread has still to write of the line that it is at, is what stood there at the start and then
  -- the messages of the lines that were read, in the order in which they were read.
  pub sent_in_order :
      {io : Io (sockets now)} {s : Process (sockets now)}
      → Calls now (at_start now io) s
      → total looping s.spots ≤ 1
      → s.io.world.sent ++ unsent s.spots ≡ io.world.sent ++ made s.taken
  unfolding InOrder unsent
  sent_in_order {io} r le = Calls-InOrder io.world.sent (λ _. refl) r le
