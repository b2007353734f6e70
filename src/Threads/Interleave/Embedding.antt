-- ===== src/Threads/Interleave/Embedding.antt =====
-- The states of Threads, in which a registration is one step, as states of the interleaved threads.
use mathlib.Core.List.{map-append}
use mqttv.Base.{ℕ, refl, ap, subst, ◌∙◌, sym, inl, inr, List, [], ◌∷◌, ◌++◌, map}
use mqttv.Int.{ℤ}
use mqttv.CString.{Bytes}
use mqttv.Net.{Net, Io}
use mqttv.Broker.{Broker}
use mqttv.Threads.{System, Pc, Goes, Step, Reach, post_mutex}
use mqttv.Threads.Places.{Turns}
use mqttv.Threads.Interleave.{
  Place, entered, reading, named, subscribed, stored, counted, gate, State, Move, fd_stored,
  name_stored, none_stored, node_stored, row_stored, count, Moves, here, next, at_start,
}
use mqttv.Threads.Interleave.Atomic.{SusStored, Staged, register_stages}

abbrev embed : Pc → Place
embed (Pc.opened fd) = Place.opened fd
embed (Pc.critical fd) = Place.entered fd
embed Pc.gate = Place.gate
embed (Pc.forwarding i) = Place.forwarding i

module _ (net : Net) where
  abbrev pub lift : System net → State net
  lift s = record { broker = s.broker; io = s.io; threads = map embed s.threads }

  Goes-embed :
      (ts us : List Pc) (pc pc' : Pc)
      → Goes net ts pc pc' us
      → Turns (map embed ts) (embed pc) (embed pc') (map embed us)
  Goes-embed ts us pc pc' (xs, ys, e, e') = (
    map embed xs,
    map embed ys,
    ap (map embed) e ∙ map-append embed xs (pc ∷ ys),
    ap (map embed) e' ∙ map-append embed xs (pc' ∷ ys),
  )

  -- The stages behind the store of the name, of the thread between xs and ys.
  after_name :
      (slots : ℕ) (information : List ℤ) (s₀ : State net) (name sus_line : Bytes) (b b' : Broker)
      (io io' : Io net) (xs ys : List Place)
      → SusStored net slots information name sus_line b io b' io'
      → Moves net slots s₀
          (record { broker = b; io = io; threads = xs ++ (named name sus_line ∷ ys) })
      → Moves net slots s₀ (record { broker = b'; io = io'; threads = xs ++ (stored ∷ ys) })
  after_name slots information s₀ name sus_line b b' io io' xs ys (inl e) r =
      next r (none_stored name sus_line b' io' (xs ++ (stored ∷ ys)) e (xs, ys, refl, refl) refl)
  after_name slots information s₀ name sus_line b b' io io' xs ys
        (inr (sus, levels, b₁, io₁, e, e')) r =
      next
        (next r (
          node_stored name sus_line sus levels b₁ io₁ (xs ++ (subscribed name sus levels ∷ ys)) e
            (xs, ys, refl, refl) refl))
        (row_stored information name sus levels b' io' (xs ++ (stored ∷ ys)) e' (xs, ys, refl, refl)
          refl)

  registration :
      (slots : ℕ) (information : List ℤ) (s₀ s : State net) (connfd : ℤ) (r : Broker × Io net)
      (us : List Place)
      → Staged net slots information connfd s.broker s.io r
      → Turns s.threads (entered connfd) gate us
      → Moves net slots s₀ s
      → Moves net slots s₀ (record { broker = post_mutex r.0; io = r.1; threads = us })
  registration slots information s₀ s connfd r us g (xs, ys, e, e') run =
      let first : Moves net slots s₀
          (record { broker = g.b₁; io = s.io; threads = xs ++ (reading connfd ∷ ys) }) =
        next run
          (fd_stored connfd g.b₁ (xs ++ (reading connfd ∷ ys)) g.fd_done (xs, ys, e, refl) refl) in
      let second : Moves net slots s₀
          (record { broker = g.b₂; io = g.io₂; threads = xs ++ (named g.name g.sus_line ∷ ys) }) =
        next first (
          name_stored connfd g.name g.sus_line g.b₂ g.io₂ (xs ++ (named g.name g.sus_line ∷ ys))
            g.name_done (xs, ys, refl, refl) refl) in
      let third =
        after_name slots information s₀ g.name g.sus_line g.b₂ g.b₃ g.io₂ r.1 xs ys g.sus_done
          second in
      let fourth : Moves net slots s₀
          (record { broker = r.0; io = r.1; threads = xs ++ (counted ∷ ys) }) =
        next third (
          count (xs ++ (counted ∷ ys)) (xs, ys, refl, refl)
            (λ i. record {
              broker = g.counted_done i;
              io = r.1;
              threads = xs ++ (counted ∷ ys);
            })) in
      next fourth (Move.leave us (xs, ys, refl, e') refl)

  Step-Moves :
      {slots : ℕ} {s t : System net} (s₀ : State net)
      → Step net slots s t
      → Moves net slots s₀ (lift s)
      → Moves net slots s₀ (lift t)
  Step-Moves {s = s} s₀ (Step.accept connfd io' h e) r = next r (
      Move.accept connfd io' h (
        ap lift e ∙ (λ i. record {
          broker = s.broker;
          io = io';
          threads = map-append embed s.threads (Pc.opened connfd ∷ []) i;
        })))
  Step-Moves {s = s} s₀ (Step.enter connfd us free g e) r = next r (
      Move.enter connfd (map embed us) free
        (Goes-embed s.threads us (Pc.opened connfd) (Pc.critical connfd) g) (ap lift e))
  Step-Moves {slots} {s} {t} s₀ (Step.leave connfd information b' io' us h g e) r =
      subst (Moves net slots s₀) (sym (ap lift e)) (
        registration slots information s₀ (lift s) connfd (b', io') (map embed us)
          ((register_stages net slots information connfd s.broker s.io).at (b', io') h)
          (Goes-embed s.threads us (Pc.critical connfd) Pc.gate g) r)
  Step-Moves {s = s} s₀ (Step.pass us free g e) r = next r (
      Move.pass (map embed us) free (Goes-embed s.threads us Pc.gate (Pc.forwarding 0) g)
        (ap lift e))
  Step-Moves {s = s} s₀ (Step.turn i j io' us h g e) r = next r (
      Move.turn i j io' (map embed us) h
        (Goes-embed s.threads us (Pc.forwarding i) (Pc.forwarding j) g) (ap lift e))

  -- Each state that the threads reach with registrations in one step, they reach with their stores one
  -- by one too: the stores of a registration, one behind the other with nothing in between, do what
  -- the registration does.
  pub Reach-Moves :
      {slots : ℕ} {io : Io net} {s : System net}
      → Reach net slots io s
      → Moves net slots (at_start net io) (lift s)
  Reach-Moves {slots} {io} (Reach.start s e) =
      subst (Moves net slots (at_start net io)) (sym (ap lift e)) here
  Reach-Moves {io = io} (Reach.next r st) = Step-Moves (at_start net io) st (Reach-Moves r)
