-- ===== src/Forward/Rounds.antt =====
-- How the rounds of the loop of `forward_messages` of broker_server.c end.
use mqttv.Base.{
  ℕ, zero, suc, ◌+◌, ◌≤◌, ◌<◌, ◌≡◌, refl, ◌⊎◌, inl, inr, Option, none, some, List, [], ◌∷◌, arith,
  get_elem?, length, Bool-cases,
}
use native.Mathlib.Decide.{dec_lt}
use mqttv.Result.{Result, ok, ◌>>=◌}
use mqttv.Result.Ensures.{Ensures, Ensures-ok, Ensures-bind}
use mqttv.CString.{Bytes, codes, str_eq, str_eq_refl}
use mqttv.Net.{Net, Io}
use mqttv.Broker.{Broker, limit_conn_clients}
use mqttv.Broker.Tables.{IsValid, get_elem?_null}
use mqttv.Forward.{cell_at, cell_at-some, forward_cell, forward_entry, go_on, forward_round}

cell_at_bound {ℓ} : {A : Type ℓ} (xs : List A) (i : ℕ) (x : A) → cell_at xs i ≡ ok x → i < length xs
unfolding cell_at
cell_at_bound [] i x h = cc
cell_at_bound (y ∷ xs) zero x h = omega arith
cell_at_bound (y ∷ xs) (suc i) x h = omega (arith, cell_at_bound xs i x h)

module _ (net : Net) where
  abbrev IsNext : Broker → ℕ → ℕ × Io net → Type 0
  IsNext b i r = (r.0 ≡ 0) ⊎ ((r.0 ≡ suc i) × (i < length b.client_sus_list))

  forward_cell-IsNext :
      (b : Broker) (i : ℕ) (io : Io net) (cell : Option Bytes)
      → i < length b.client_sus_list
      → Ensures (IsNext b i) (forward_cell net b i io cell)
  unfolding forward_cell
  forward_cell-IsNext b i io none lt = Ensures-ok _ (inl refl)
  forward_cell-IsNext b i io (some publisher) lt =
      elim (Bool-cases (str_eq publisher (codes "NONE"))) [
        | inl e ↦ rw e (Ensures-ok _ (inr (refl, lt)))
        | inr e ↦ rw e (Ensures-bind _ _ λ io' _. Ensures-ok _ (inr (refl, lt)))
      ]

  forward_entry-IsNext :
      (b : Broker) (i : ℕ) (io : Io net) → Ensures (IsNext b i) (forward_entry net b i io)
  unfolding forward_entry
  forward_entry-IsNext b i io =
      Ensures-bind _ _
        λ cell e. forward_cell-IsNext b i io cell (cell_at_bound b.client_sus_list i cell e)

  go_on_ends :
      (rest : ℕ → Io net → Result (ℕ × Io net)) (i : ℕ) (io : Io net)
      → ((k : ℕ) → i ≡ suc k → Ensures (λ r. r.0 ≡ 0) (rest (suc k) io))
      → Ensures (λ r. r.0 ≡ 0) (go_on net rest i io)
  unfolding go_on
  go_on_ends rest zero io h = Ensures-ok _ refl
  go_on_ends rest (suc k) io h = h k refl

  -- From any index inside of the table, fuel for one entry more than there are cells left is enough:
  -- the round never stops for want of fuel, but comes back to index 0 unless an entry faults or
  -- leaves the process.
  pub forward_round_ends :
      (n : ℕ) (b : Broker) (i : ℕ) (io : Io net)
      → i ≤ length b.client_sus_list
      → length b.client_sus_list < i + n
      → Ensures (λ r. r.0 ≡ 0) (forward_round net n b i io)
  unfolding forward_round
  forward_round_ends zero b i io le h = absurd (omega arith)
  forward_round_ends (suc n) b i io le h = Ensures-bind _ _ λ r e.
      go_on_ends (forward_round net n b) r.0 r.1 λ k p.
        forward_round_ends n b (suc k) r.1 (omega (arith, (forward_entry-IsNext b i io).at r e))
          (omega (arith, (forward_entry-IsNext b i io).at r e))

  -- Where no connected client has a subscription and the table is not full, a round comes back to
  -- index 0 having read, written and logged nothing.
  pub forward_round_quiet :
      (n : ℕ) (b : Broker) (i : ℕ) (io : Io net)
      → IsValid b
      → b.fd_idx < limit_conn_clients
      → ((j : ℕ) → j < b.fd_idx → get_elem? b.client_sus_list j ≡ some (some (codes "NONE")))
      → i ≤ b.fd_idx
      → b.fd_idx < i + n
      → forward_round net n b i io ≡ ok (0, io)
  unfolding forward_round forward_entry forward_cell go_on ◌>>=◌
  forward_round_quiet zero b i io v free none_wanted le h = absurd (omega arith)
  forward_round_quiet (suc n) b i io v free none_wanted le h = elim (dec_lt i b.fd_idx) [
    | yes lt ↦ rw (cell_at-some b.client_sus_list i _ (none_wanted i lt)) (
        rw (str_eq_refl (codes "NONE"))
          (forward_round_quiet n b (suc i) io v free none_wanted (omega arith) (omega arith)))
    | no ge ↦
        let e : i ≡ b.fd_idx = omega arith in
        rw (
          e,
          cell_at-some b.client_sus_list b.fd_idx _
              (get_elem?_null b.fd_idx b.client_sus_list v.sus (omega (arith, v.sus_size))),
        )
  ]
