-- ===== src/Broker/Lookup.antt =====
-- What a search in the table of names finds.
use mqttv.Base.{
  ℕ, zero, suc, ◌+◌, ◌<◌, ◌≡◌, refl, ◌≢◌, ◌⊎◌, inl, inr, Option, none, some, List, [], ◌∷◌, arith,
  length, Bool-cases, ap, sym, ◌∙◌,
}
use mqttv.Int.{ℤ, pos, minus_one}
use mqttv.Result.{Result, ok, fault, overrun}
use mqttv.CString.{Bytes, str_eq, str_eq_refl, str_eq_sound}
use mqttv.Broker.{Broker, limit_conn_clients, find_from, find_index_by_client_name}
use mqttv.Broker.Tables.{Filled, IsValid}

-- The name stands in no cell.
abbrev pub IsAbsent : Bytes → List (Option Bytes) → Type 0
IsAbsent name [] = Unit
IsAbsent name (x ∷ xs) = (x ≢ some name) × IsAbsent name xs

-- The first cell that holds the name is the one at k.
abbrev pub IsFirst : Bytes → ℕ → List (Option Bytes) → Type 0
IsFirst name k [] = ⊥
IsFirst name zero (x ∷ xs) = x ≡ some name
IsFirst name (suc k) (x ∷ xs) = (x ≢ some name) × IsFirst name k xs

pub IsFirst-none :
    (name : Bytes) (k : ℕ) (xs : List (Option Bytes)) → Filled 0 xs → ¬ IsFirst name k xs
IsFirst-none name k [] h f = f
IsFirst-none name zero (x ∷ xs) h f = cc (h.0)
IsFirst-none name (suc k) (x ∷ xs) h f = IsFirst-none name k xs h.1 f.1

-- What a search that starts at index i ends with, where n of the cells are set.
abbrev pub Outcome : Bytes → ℕ → List (Option Bytes) → ℕ → Result ℤ → Type 0
Outcome name n xs i r =
    ((k : ℕ) × (r ≡ ok (pos (i + k))) × IsFirst name k xs)
    ⊎ ((r ≡ ok minus_one) × IsAbsent name xs × (n < length xs))
    ⊎ ((r ≡ fault overrun) × IsAbsent name xs × (n ≡ length xs))

IsAbsent-null : (name : Bytes) (xs : List (Option Bytes)) → Filled 0 xs → IsAbsent name xs
IsAbsent-null name [] h = tt
IsAbsent-null name (x ∷ xs) h = (λ e. cc (h.0), IsAbsent-null name xs h.1)

-- One more cell in front, which does not hold the name.
shift :
    (name s : Bytes) (n : ℕ) (xs : List (Option Bytes)) (i : ℕ) (r : Result ℤ)
    → (◌≡◌ {A = Option Bytes} (some s) (some name) → ⊥)
    → Outcome name n xs (i + 1) r
    → Outcome name (suc n) (some s ∷ xs) i r
shift name s n xs i r ne (inl (k, e, first)) = inl (suc k, ground (arith, e), (ne, first))
shift name s n xs i r ne (inr (inl (e, absent, lt))) = inr (inl (e, (ne, absent), omega arith))
shift name s n xs i r ne (inr (inr (e, absent, full))) = inr (inr (e, (ne, absent), omega arith))

pub find_from_lem :
    (name : Bytes) (n : ℕ) (xs : List (Option Bytes)) (i : ℕ)
    → Filled n xs
    → Outcome name n xs i (find_from name xs i)
unfolding find_from
find_from_lem name n [] i h = inr (inr (refl, tt, h))
find_from_lem name zero (none ∷ xs) i h =
    inr (inl (refl, IsAbsent-null name (none ∷ xs) h, omega arith))
find_from_lem name (suc n) (none ∷ xs) i h = cc (h.0.1)
find_from_lem name zero (some s ∷ xs) i h = cc (h.0)
find_from_lem name (suc n) (some s ∷ xs) i h = elim (Bool-cases (str_eq name s)) [
  | inl e ↦
      inl
        (0, rw e (ap (λ (t : ℕ). ok (pos t)) (omega arith)), ap some (sym (str_eq_sound name s e)))
  | inr e ↦
      rw e (
        shift name s n xs i _ (λ p. cc (e, str_eq_refl s, p)) (find_from_lem name n xs (i + 1) h.1))
]

-- In valid tables a search for a name ends in one of three ways: with the index of the first
-- client of that name; with -1, if no client has it and there is a free cell; or past the end of
-- the table, if no client has it and the table is full.
pub find_index_by_client_name_lem :
    (name : Bytes) (b : Broker)
    → IsValid b
    → ((k : ℕ) × (find_index_by_client_name name b ≡ ok (pos k))
        × IsFirst name k b.client_name_list)
      ⊎ ((find_index_by_client_name name b ≡ ok minus_one)
          × IsAbsent name b.client_name_list
          × (b.fd_idx < limit_conn_clients))
      ⊎ ((find_index_by_client_name name b ≡ fault overrun)
          × IsAbsent name b.client_name_list
          × (b.fd_idx ≡ limit_conn_clients))
unfolding find_index_by_client_name
find_index_by_client_name_lem name b v =
    elim (find_from_lem name b.fd_idx b.client_name_list 0 v.names) [
      | inl (k, e, first) ↦ inl (k, ground (arith, e), first)
      | inr (inl (e, absent, lt)) ↦ inr (inl (e, absent, rw v.names_size at lt))
      | inr (inr (e, absent, full)) ↦ inr (inr (e, absent, full ∙ v.names_size))
    ]
