-- ===== src/Broker/Tables.antt =====
-- What it means for the broker's tables to be in order.
use mqttv.Base.{
  ℕ, zero, suc, ◌+◌, ◌≤◌, ◌<◌, ◌≡◌, refl, ap, Option, none, some, List, [], ◌∷◌, arith, get_elem?,
  set, length, replicate,
}
use mqttv.CString.{Bytes}
use mqttv.Broker.{Broker, init, limit_conn_clients}

-- The first n cells hold texts and all others are null.
abbrev pub Filled : ℕ → List (Option Bytes) → Type 0
Filled n [] = n ≡ 0
Filled zero (x ∷ xs) = (x ≡ none) × Filled zero xs
Filled (suc n) (x ∷ xs) = ((s : Bytes) × (x ≡ some s)) × Filled n xs

-- Every table has its ten cells, and those of the clients that are counted, and no others, are set.
pub record IsValid (b : Broker) : Type 0 where
  pub names_size : length b.client_name_list ≡ limit_conn_clients
  pub fds_size : length b.client_fd_list ≡ limit_conn_clients
  pub sus_size : length b.client_sus_list ≡ limit_conn_clients
  pub topics_size : length b.topic_list ≡ limit_conn_clients
  pub count : b.fd_idx ≤ limit_conn_clients
  pub names : Filled b.fd_idx b.client_name_list
  pub sus : Filled b.fd_idx b.client_sus_list

Filled-replicate : (n : ℕ) → Filled 0 (replicate n none)
Filled-replicate zero = refl
Filled-replicate (suc n) = (refl, Filled-replicate n)

pub init-IsValid : IsValid init
init-IsValid = record {
  names_size = refl;
  fds_size = refl;
  sus_size = refl;
  topics_size = refl;
  count = omega arith;
  names = Filled-replicate limit_conn_clients;
  sus = Filled-replicate limit_conn_clients;
}

pub Filled-set :
    (n : ℕ) (xs : List (Option Bytes)) (s : Bytes)
    → Filled n xs
    → n < length xs
    → Filled (suc n) (set xs n (some s))
Filled-set zero [] s h lt = elim lt [ ]
Filled-set (suc n) [] s h lt = elim lt [ ]
Filled-set zero (x ∷ xs) s h lt = ((s, refl), h.1)
Filled-set (suc n) (x ∷ xs) s h lt = (h.0, Filled-set n xs s h.1 (omega arith))

pub get_elem?-Filled :
    (n i : ℕ) (xs : List (Option Bytes))
    → Filled n xs
    → i < n
    → (s : Bytes) × (get_elem? xs i ≡ some (some s))
get_elem?-Filled n i [] h lt = absurd (omega arith)
get_elem?-Filled zero i (x ∷ xs) h lt = elim lt [ ]
get_elem?-Filled (suc n) zero (x ∷ xs) h lt = let (s, e) = h.0 in (s, rw e)
get_elem?-Filled (suc n) (suc i) (x ∷ xs) h lt = get_elem?-Filled n i xs h.1 (omega arith)

-- The cell behind the filled ones has been written.
pub Filled-step :
    (n n' : ℕ) (xs ys : List (Option Bytes)) (s : Bytes)
    → n' ≡ n + 1
    → ys ≡ set xs n (some s)
    → n < length xs
    → Filled n xs
    → Filled n' ys
Filled-step n n' xs ys s e p lt h =
    let e' : n' ≡ suc n = omega arith in rw (e', p) (Filled-set n xs s h lt)

-- The cell behind the filled ones is null.
pub get_elem?_null :
    (n : ℕ) (xs : List (Option Bytes)) → Filled n xs → n < length xs → get_elem? xs n ≡ some none
get_elem?_null n [] h lt = elim lt [ ]
get_elem?_null zero (x ∷ xs) h lt = ap some h.0
get_elem?_null (suc n) (x ∷ xs) h lt = get_elem?_null n xs h.1 (omega arith)

-- The semaphores do not matter to the tables.
pub IsValid-sems :
    (b : Broker) (c m : ℕ) → IsValid b → IsValid (record b { sem_control = c; sem_mutex = m })
IsValid-sems b c m v = record {
  names_size = v.names_size;
  fds_size = v.fds_size;
  sus_size = v.sus_size;
  topics_size = v.topics_size;
  count = v.count;
  names = v.names;
  sus = v.sus;
}
