-- ===== src/Threads/Progress.antt =====
-- Which steps are always possible.
use mqttv.Base.{ℕ, ◌≤◌, ◌<◌, ◌≡◌, refl, ◌⊎◌, inl, inr, List, ◌∷◌, ◌++◌, arith}
use native.Mathlib.Decide.{dec_lt}
use mqttv.Int.{ℤ}
use mqttv.Net.{Net, Io}
use mqttv.Threads.{
  Pc, opened, critical, gate, forwarding, System, Goes, Step, enter, pass, Reach, wait_mutex,
  wait_control,
}
use mqttv.Threads.Places.{total, total_pos}
use mqttv.Threads.Invariant.{in_critical, at_gate, in_loop, Reach-Inv}

module _ (net : Net) where
  -- A thread stands in front of an entry of the loop.
  abbrev pub Forwards : List Pc → Type 0
  Forwards ts = (xs : List Pc) × (i : ℕ) × (ys : List Pc) × (ts ≡ xs ++ (forwarding i ∷ ys))

  in_loop_thread : (ts : List Pc) → 0 < total in_loop ts → Forwards ts
  in_loop_thread ts h = place (total_pos in_loop ts h)
    where
      place :
          (xs : List Pc) × (x : Pc) × (ys : List Pc) × (ts ≡ xs ++ (x ∷ ys)) × (0 < in_loop x)
          → Forwards ts
      place (xs, opened fd, ys, e, q) = elim q [ ]
      place (xs, critical fd, ys, e, q) = elim q [ ]
      place (xs, gate, ys, e, q) = elim q [ ]
      place (xs, forwarding i, ys, e, q) = (xs, i, ys, e)

  gate_passes :
      {slots : ℕ} (s : System net)
      → 0 < total at_gate s.threads
      → 0 < s.broker.sem_control
      → (t : System net) × Step net slots s t × Forwards t.threads
  gate_passes {slots} s h open_gate = place (total_pos at_gate s.threads h)
    where
      place :
          (xs : List Pc) × (x : Pc) × (ys : List Pc) × (s.threads ≡ xs ++ (x ∷ ys))
            × (0 < at_gate x)
          → (t : System net) × Step net slots s t × Forwards t.threads
      place (xs, opened fd, ys, e, q) = elim q [ ]
      place (xs, critical fd, ys, e, q) = elim q [ ]
      place (xs, forwarding i, ys, e, q) = elim q [ ]
      place (xs, gate, ys, e, q) = (
        record { broker = wait_control s.broker; io = s.io; threads = xs ++ (forwarding 0 ∷ ys) },
        pass (xs ++ (forwarding 0 ∷ ys)) open_gate (xs, ys, e, refl) refl,
        (xs, 0, ys, refl),
      )

  -- In every state that the threads can reach with two clients counted or more, a thread is in the
  -- loop that forwards, or the step of one that waits for `sem_control` takes it there.
  pub forwarding_goes_on :
      {slots : ℕ} {io : Io net} {s : System net}
      → Reach net slots io s
      → 2 ≤ s.broker.fd_idx
      → Forwards s.threads ⊎ ((t : System net) × Step net slots s t × Forwards t.threads)
  forwarding_goes_on {s = s} r two = elim (dec_lt 0 (total in_loop s.threads)) [
    | yes h ↦ inl (in_loop_thread s.threads h)
    | no h ↦
        let v = Reach-Inv net r in
        inr (gate_passes s (omega (arith, v.clients, v.control)) (omega (arith, v.control)))
  ]

  -- In every state that the threads can reach, a thread that waits for `sem_mutex` can enter the
  -- critical section, unless another one is in it.
  pub opened_enters :
      {slots : ℕ} {io : Io net} {s : System net} {connfd : ℤ} {us : List Pc}
      → Reach net slots io s
      → Goes net s.threads (opened connfd) (critical connfd) us
      → (total in_critical s.threads ≡ 1)
        ⊎ Step net slots s (record { broker = wait_mutex s.broker; io = s.io; threads = us })
  opened_enters {s = s} {connfd} {us} r g = elim (dec_lt 0 s.broker.sem_mutex) [
    | yes h ↦ inr (enter connfd us h g refl)
    | no h ↦ let v = Reach-Inv net r in inl (omega (arith, v.mutex))
  ]
