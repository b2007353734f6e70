-- ===== src/Threads/Calls/Conservation.antt =====
-- What was written to the connections, against the lines that were read.
use mathlib.Core.List.{map-append}
use mathlib.Core.Quot
use mathlib.Core.Quot.{Quot}
use mqttv.Base.{
  ℕ, suc, ◌+◌, ◌≡◌, refl, sym, ap, ◌∙◌, Bool, List, [], ◌∷◌, ◌++◌, arith, if◌then◌else◌, All,
  append-nil, append_assoc, get_elem?,
}
use mqttv.Int.{ℤ}
use mqttv.CString.{Bytes}
use mqttv.Topics.{string_topics}
use mqttv.Net.{Io}
use mqttv.Threads.Places.{Turns, total, total-nil, total-append, total-Turns}
use mqttv.Rio.Connections.{sockets}
use mqttv.Threads.Calls.{
  Route, Spot, elsewhere, at, reading, sending, Process, Call, registers, accepts, joins,
  starts_again, passes_over, chooses, reads_nothing, reads, sends, finishes, Calls, here, next,
  at_start,
}
use mqttv.Threads.Calls.Messages.{
  message, messages, to_fd, made_of, made, send_one-Ensures, choose-sent, nothing-sent, line-sent,
}

abbrev pub Write : Type 0
Write = ℤ × Bytes

-- How many of the writes a test picks.
unfoldable pub count : (Write → Bool) → List Write → ℕ
count p [] = 0
count p (x ∷ xs) = (if p x then 1 else 0) + count p xs

count-append :
    (p : Write → Bool) (xs ys : List Write) → count p (xs ++ ys) ≡ count p xs + count p ys
unfolding count
count-append p [] ys = omega arith
count-append p (x ∷ xs) ys = omega (arith, count-append p xs ys)

-- The same writes, as often.
abbrev pub SameWrites : List Write → List Write → Type 0
SameWrites xs ys = (p : Write → Bool) → count p xs ≡ count p ys

-- Writes up to their order.
abbrev pub bag : List Write → Quot SameWrites
bag = Quot.mk

-- What a thread has still to write.
abbrev pub pending : Spot → List Write
pending elsewhere = []
pending (at i) = []
pending (reading i route) = []
pending (sending i route prefixes j info) =
    to_fd route.fd_sus (messages prefixes j route.topic info)

pub record Kept (now : Bytes) (sent : List Write) (s : Process (sockets now)) : Type 0 where
  pub balance :
      (p : Write → Bool)
      → count p s.io.world.sent + total (λ t. count p (pending t)) s.spots
        ≡ count p sent + count p (made s.taken)

pub made-append :
    (rs : List (Route × Bytes)) (r : Route × Bytes) → made (rs ++ r ∷ []) ≡ made rs ++ made_of r
made-append [] r = append-nil (made_of r)
made-append (q ∷ rs) r =
    ap (λ (xs : List Write). made_of q ++ xs) (made-append rs r)
    ∙ sym (append_assoc (made_of q) (made rs) (made_of r))

module _ (now : Bytes) where
  -- A step that writes nothing and takes nothing, of a thread that has as much to write as before.
  quiet :
      (sent : List Write) (s : Process (sockets now)) (io' : Io (sockets now)) (b' : _)
      (us : List Spot) (t t' : Spot)
      → Kept now sent s
      → io'.world.sent ≡ s.io.world.sent
      → Turns s.spots t t' us
      → ((p : Write → Bool) → count p (pending t) ≡ count p (pending t'))
      → Kept now sent (record { broker = b'; io = io'; spots = us; taken = s.taken })
  quiet sent s io' b' us t t' k e g same = record {
    balance = λ p. rw e (
        omega
          (arith, k.balance p, same p, total-Turns (λ u. count p (pending u)) s.spots us t t' g));
  }

  Call-Kept :
      {sent : List Write} {s t : Process (sockets now)}
      → Call now s t
      → Kept now sent s
      → Kept now sent t
  unfolding count
  Call-Kept (registers b' io' e q) k = rw q (record { balance = λ p. rw e (k.balance p) })
  Call-Kept {s = s} (accepts io' e q) k = rw q (record {
    balance = λ p. rw e (
        omega (
          arith,
          k.balance p,
          total-append (λ u. count p (pending u)) s.spots elsewhere [],
          total-nil (λ (u : Spot). count p (pending u)),
        ));
  })
  Call-Kept {sent} {s} (joins b' us g q) k =
      rw q (quiet sent s s.io b' us elsewhere (at 0) k refl g (λ p. refl))
  Call-Kept {sent} {s} (starts_again i us c g q) k =
      rw q (quiet sent s s.io s.broker us (at i) (at 0) k refl g (λ p. refl))
  Call-Kept {sent} {s} (passes_over i publisher us c n g q) k =
      rw q (quiet sent s s.io s.broker us (at i) (at (suc i)) k refl g (λ p. refl))
  Call-Kept {sent} {s} (chooses i publisher route io' us c n h g q) k = rw q (
      quiet sent s io' s.broker us (at i) (reading i route) k
        (choose-sent now s.broker i publisher s.io io' route h) g (λ p. refl))
  Call-Kept {sent} {s} (reads_nothing i route rio' world io' us r l g q) k = rw q (
      quiet sent s io' s.broker us (reading i route) (at (suc i)) k
        (nothing-sent now route.fd_pub _ s.io.world world s.io.log rio' io' r l) g (λ p. refl))
  Call-Kept {sent} {s} (finishes i route j info us g q) k =
      rw q (
        quiet sent s s.io s.broker us (sending i route [] j info) (at (suc i)) k refl g (λ p. refl))
  Call-Kept {sent} {s} (reads i route c line rio' world info io' us r h g q) k =
      let (cut, same_sent) =
        line-sent now route.fd_pub route.publisher (c ∷ line) s.io.world world s.io.log rio' info
          io' r h in
      rw q (record {
        balance = λ p.
            rw (same_sent, made-append s.taken (route, c ∷ line))
              (omega (
                arith,
                k.balance p,
                count-append p (made s.taken) (made_of (route, c ∷ line)),
                ap (λ t. count p (pending (sending i route string_topics 0 t))) cut,
                total-Turns (λ u. count p (pending u)) s.spots us (reading i route)
                    (sending i route string_topics 0 info) g,
              ));
      })
  Call-Kept {sent} {s} (sends i route prefix prefixes j info world us h g q) k =
      let now_sent =
        (send_one-Ensures now prefix j route.topic info route.fd_sus s.io.world).at world h in
      let first =
        to_fd route.fd_sus (message j prefix (get_elem? route.topic j) (get_elem? info j)) in
      let rest = to_fd route.fd_sus (messages prefixes (suc j) route.topic info) in
      let cut : pending (sending i route (prefix ∷ prefixes) j info) ≡ first ++ rest =
        map-append _ _ _ in
      rw q (record {
        balance = λ p. rw now_sent (
            omega (
              arith,
              k.balance p,
              count-append p s.io.world.sent first,
              count-append p first rest,
              ap (count p) cut,
              total-Turns (λ u. count p (pending u)) s.spots us
                  (sending i route (prefix ∷ prefixes) j info)
                  (sending i route prefixes (suc j) info) g,
            ));
      })

  Calls-Kept :
      {sent : List Write} {s t : Process (sockets now)}
      → Kept now sent s
      → Calls now s t
      → Kept now sent t
  Calls-Kept k here = k
  Calls-Kept k (next r c) = Call-Kept c (Calls-Kept k r)

  -- No thread is in the middle of its messages.
  abbrev pub IsQuiet : List Spot → Type 0
  IsQuiet ts = All (λ t. pending t ≡ []) ts

  quiet_total :
      (p : Write → Bool) (ts : List Spot) → IsQuiet ts → total (λ t. count p (pending t)) ts ≡ 0
  unfolding total count
  quiet_total p [] h = refl
  quiet_total p (t ∷ ts) h = rw h.0 (omega (arith, quiet_total p ts h.1))

  -- In every run, call by call, in which no other thread calls strtok while one is splitting a line
  -- (so that a split is one step): whenever no thread is in the middle of its messages,
  -- what was written to the connections is, up to the order, what stood there at the start and the
  -- messages of the lines that were read, those of each line once, for the topics of the row of the
  -- subscriber that it was read for.
  pub sent-made :
      {io : Io (sockets now)} {s : Process (sockets now)}
      → Calls now (at_start now io) s
      → IsQuiet s.spots
      → bag s.io.world.sent ≡ bag (io.world.sent ++ made s.taken)
  unfolding total count
  sent-made {io} {s} r h =
      let k = Calls-Kept {sent = io.world.sent} (record { balance = λ p. refl }) r in
      Quot.sound λ p.
        omega
          (arith, k.balance p, quiet_total p s.spots h, count-append p io.world.sent (made s.taken))
