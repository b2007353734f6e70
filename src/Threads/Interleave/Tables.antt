-- ===== src/Threads/Interleave/Tables.antt =====
-- What holds of the tables in every state that the interleaved threads can reach.
use mqttv.Base.{
  ℕ, zero, suc, ◌+◌, ◌-◌, ◌≤◌, ◌<◌, ◌≡◌, refl, sym, Option, none, some, List, [], ◌∷◌, ◌++◌, arith,
  get_elem?,
}
use mqttv.CString.{Bytes}
use mqttv.Net.{Net, Io}
use mqttv.Broker.{Broker}
use mqttv.Broker.Tables.{Filled, get_elem?-Filled, IsValid}
use mqttv.Broker.Register.{put_fd, put_name, put_sus, put_row, count_client}
use mqttv.Threads.{wait_mutex, post_mutex, wait_control}
use mqttv.Threads.Places.{Turns, total, total-nil, total-append, total-Turns, total_mono}
use mqttv.Threads.Interleave.{
  Place, opened, entered, reading, named, subscribed, stored, counted, gate, forwarding, State,
  Move, accept, enter, fd_stored, name_stored, none_stored, node_stored, row_stored, count, leave,
  pass, turn, Moves, here, next, at_start,
}
use mqttv.Threads.Interleave.Marks.{
  in_section, has_fd, has_name, has_sus, fd_in_section, name_with_fd, sus_with_name, section_moves,
}
use mqttv.Threads.Interleave.Stages.{
  store_fd_lem, store_name_lem, store_sus_lem, store_row_lem, Shape, Shape-eq, Shape-IsValid,
  Shape-sems, Shape-init, Shape-put_fd, Shape-put_name, Shape-put_sus, Shape-put_row,
  Shape-count_client,
}

pub record Inv (net : Net) (s : State net) : Type 0 where
  pub mutex : total in_section s.threads + s.broker.sem_mutex ≡ 1
  pub shape :
      Shape (total has_fd s.threads) (total has_name s.threads) (total has_sus s.threads) s.broker

Filled_bound :
    (n i : ℕ) (xs : List (Option Bytes)) (s : Bytes)
    → Filled n xs
    → get_elem? xs i ≡ some (some s)
    → i < n
Filled_bound n i [] s h e = cc
Filled_bound zero zero (x ∷ xs) s h e = cc (h.0, e)
Filled_bound zero (suc i) (x ∷ xs) s h e = absurd (omega (arith, Filled_bound zero i xs s h.1 e))
Filled_bound (suc n) zero (x ∷ xs) s h e = omega arith
Filled_bound (suc n) (suc i) (x ∷ xs) s h e = omega (arith, Filled_bound n i xs s h.1 e)

module _ (net : Net) where
  -- A step of the thread in the section.
  inside :
      (s : State net) (b' : Broker) (io' : Io net) (us : List Place) (pc pc' : Place)
      → Inv net s
      → in_section pc ≡ 1
      → Turns s.threads pc pc' us
      → (s.broker.sem_mutex ≡ 0 → in_section pc' + b'.sem_mutex ≡ 1)
      → (Shape (has_fd pc) (has_name pc) (has_sus pc) s.broker
          → Shape (has_fd pc') (has_name pc') (has_sus pc') b')
      → Inv net (record { broker = b'; io = io'; threads = us })
  inside s b' io' us pc pc' v e g mutex shape =
      let (f, n, m, k, z) = section_moves s.threads us pc pc' s.broker.sem_mutex v.mutex e g in
      record {
        mutex = omega (arith, k, mutex z);
        shape =
            Shape-eq b' (sym f.1) (sym n.1) (sym m.1)
              (shape (Shape-eq s.broker f.0 n.0 m.0 v.shape));
      }

  -- A step of a thread that stores nothing, with another semaphore's value afterwards.
  outside :
      (s : State net) (b' : Broker) (io' : Io net) (us : List Place)
      → Inv net s
      → (total has_fd us ≡ total has_fd s.threads)
        × (total has_name us ≡ total has_name s.threads)
        × (total has_sus us ≡ total has_sus s.threads)
      → total in_section us + b'.sem_mutex ≡ total in_section s.threads + s.broker.sem_mutex
      → (Shape
            (total has_fd s.threads)
            (total has_name s.threads)
            (total has_sus s.threads)
            s.broker
          → Shape (total has_fd s.threads) (total has_name s.threads) (total has_sus s.threads) b')
      → Inv net (record { broker = b'; io = io'; threads = us })
  outside s b' io' us v (f, n, m) mutex shape = record {
    mutex = omega (arith, mutex, v.mutex);
    shape = Shape-eq b' (sym f) (sym n) (sym m) (shape v.shape);
  }

  -- The weights of a thread that moves outside of the section.
  stores_nothing :
      (ts us : List Place) (pc pc' : Place)
      → Turns ts pc pc' us
      → (has_fd pc ≡ has_fd pc') × (has_name pc ≡ has_name pc') × (has_sus pc ≡ has_sus pc')
      → (total has_fd us ≡ total has_fd ts)
        × (total has_name us ≡ total has_name ts)
        × (total has_sus us ≡ total has_sus ts)
  stores_nothing ts us pc pc' g (p, q, r) = (
    omega (arith, p, total-Turns has_fd ts us pc pc' g),
    omega (arith, q, total-Turns has_name ts us pc pc' g),
    omega (arith, r, total-Turns has_sus ts us pc pc' g),
  )

  Move-Inv : {slots : ℕ} {s t : State net} → Move net slots s t → Inv net s → Inv net t
  unfolding wait_mutex post_mutex wait_control put_fd put_name put_sus put_row count_client
  Move-Inv {s = s} (accept connfd io' h e) v =
      let n = λ (w : Place → ℕ). total-append w s.threads (opened connfd) [] in
      let z = λ (w : Place → ℕ). total-nil w in
      rw e (
        outside s s.broker io' (s.threads ++ (opened connfd ∷ [])) v
          (
            omega (arith, n has_fd, z has_fd),
            omega (arith, n has_name, z has_name),
            omega (arith, n has_sus, z has_sus),
          )
          (omega (arith, n in_section, z in_section)) λ h. h)
  Move-Inv {s = s} (enter connfd us free g e) v = rw e (
      outside s (wait_mutex s.broker) s.io us v
        (stores_nothing s.threads us (opened connfd) (entered connfd) g (refl, refl, refl))
        (omega
          (arith, free, total-Turns in_section s.threads us (opened connfd) (entered connfd) g))
        (Shape-sems s.broker s.broker.sem_control (s.broker.sem_mutex - 1)))
  Move-Inv {s = s} (fd_stored connfd b' us h g e) v =
      let (free, p) = (store_fd_lem connfd s.broker).at b' h in
      rw (e, p)
        (inside s (put_fd connfd s.broker) s.io us (entered connfd) (reading connfd) v refl g
          (λ z. omega (arith, z)) (Shape-put_fd connfd s.broker free))
  Move-Inv {s = s} (name_stored connfd name sus_line b' io' us h g e) v =
      let p = (store_name_lem net connfd s.broker s.io).at (name, sus_line, b', io') h in
      rw (e, p)
        (inside s (put_name name s.broker) io' us (reading connfd) (named name sus_line) v refl g
          (λ z. omega (arith, z)) (Shape-put_name name s.broker))
  Move-Inv {s = s} (none_stored name sus_line b' io' us h g e) v =
      let (node, p) = (store_sus_lem net _ name sus_line s.broker s.io).at (none, b', io') h in
      rw (e, p)
        (inside s (put_sus node s.broker) io' us (named name sus_line) stored v refl g
          (λ z. omega (arith, z)) (Shape-put_sus node s.broker))
  Move-Inv {s = s} (node_stored name sus_line sus levels b' io' us h g e) v =
      let (node, p) =
        (store_sus_lem net _ name sus_line s.broker s.io).at (some (sus, levels), b', io') h in
      rw (e, p)
        (inside s (put_sus node s.broker) io' us (named name sus_line) (subscribed name sus levels)
          v refl g (λ z. omega (arith, z)) (Shape-put_sus node s.broker))
  Move-Inv {s = s} (row_stored information name sus levels b' io' us h g e) v =
      let (row, p) = (store_row_lem net information name sus levels s.broker s.io).at (b', io') h in
      rw (e, p)
        (inside s (put_row row s.broker) io' us (subscribed name sus levels) stored v refl g
          (λ z. omega (arith, z)) (Shape-put_row row s.broker))
  Move-Inv {s = s} (count us g e) v = rw e (
      inside s (count_client s.broker) s.io us stored counted v refl g (λ z. omega (arith, z))
        (Shape-count_client s.broker))
  Move-Inv {s = s} (leave us g e) v = rw e (
      inside s (post_mutex s.broker) s.io us counted gate v refl g (λ z. omega (arith, z))
        (Shape-sems s.broker s.broker.sem_control (s.broker.sem_mutex + 1)))
  Move-Inv {s = s} (pass us free g e) v = rw e (
      outside s (wait_control s.broker) s.io us v
        (stores_nothing s.threads us gate (forwarding 0) g (refl, refl, refl))
        (omega (arith, total-Turns in_section s.threads us gate (forwarding 0) g))
        (Shape-sems s.broker (s.broker.sem_control - 1) s.broker.sem_mutex))
  Move-Inv {s = s} (turn i j io' us h g e) v = rw e (
      outside s s.broker io' us v
        (stores_nothing s.threads us (forwarding i) (forwarding j) g (refl, refl, refl))
        (omega (arith, total-Turns in_section s.threads us (forwarding i) (forwarding j) g)) λ h. h)

  Moves-Inv : {slots : ℕ} {s t : State net} → Inv net s → Moves net slots s t → Inv net t
  Moves-Inv v here = v
  Moves-Inv v (next r m) = Move-Inv m (Moves-Inv v r)

  at_start-Inv : (io : Io net) → Inv net (at_start net io)
  unfolding total
  at_start-Inv io = record { mutex = refl; shape = Shape-init }

  -- However the stores of registrations and the entries of the loop interleave, at most one thread
  -- is in the section, and a cell of client_sus_list that is set belongs to a counted client or to
  -- the one that is being registered: a thread that has seen it finds a name at the same index, not
  -- the null pointer.
  pub seen_has_name :
      {slots : ℕ} {io : Io net} {s : State net} (i : ℕ) (node : Bytes)
      → Moves net slots (at_start net io) s
      → get_elem? s.broker.client_sus_list i ≡ some (some node)
      → (total in_section s.threads ≤ 1)
        × (i < s.broker.fd_idx + total in_section s.threads)
        × ((name : Bytes) × (get_elem? s.broker.client_name_list i ≡ some (some name)))
  seen_has_name {s = s} i node r e =
      let v = Moves-Inv (at_start-Inv _) r in
      let few = total_mono has_sus has_name s.threads sus_with_name in
      let some_fd = total_mono has_name has_fd s.threads name_with_fd in
      let most = total_mono has_fd in_section s.threads fd_in_section in
      let lt =
        Filled_bound (s.broker.fd_idx + total has_sus s.threads) i s.broker.client_sus_list node
          v.shape.sus e in
      (
        omega (arith, v.mutex),
        omega (arith, lt, few, some_fd, most),
        get_elem?-Filled (s.broker.fd_idx + total has_name s.threads) i s.broker.client_name_list
            v.shape.names (omega (arith, lt, few)),
      )

  -- However the stores of registrations and the entries of the loop interleave, in every state in
  -- which no thread is between its wait for sem_mutex and its post, the tables are in order: each has
  -- ten cells, at most ten clients are counted, and exactly the cells of the counted clients hold a
  -- name and a subscription, none of them null.
  pub quiet-IsValid :
      {slots : ℕ} {io : Io net} {s : State net}
      → Moves net slots (at_start net io) s
      → total in_section s.threads ≡ 0
      → IsValid s.broker
  quiet-IsValid {s = s} r quiet =
      let v = Moves-Inv (at_start-Inv _) r in
      let few = total_mono has_sus has_name s.threads sus_with_name in
      let some_fd = total_mono has_name has_fd s.threads name_with_fd in
      let most = total_mono has_fd in_section s.threads fd_in_section in
      let no_fd : total has_fd s.threads ≡ 0 = omega (arith, quiet, most) in
      let no_name : total has_name s.threads ≡ 0 = omega (arith, no_fd, some_fd) in
      let no_sus : total has_sus s.threads ≡ 0 = omega (arith, no_name, few) in
      Shape-IsValid s.broker (Shape-eq s.broker no_fd no_name no_sus v.shape)
