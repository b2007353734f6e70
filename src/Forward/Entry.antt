-- ===== src/Forward/Entry.antt =====
-- Which descriptors the loop of `forward_messages` uses for an entry.
use mqttv.Base.{
  ℕ, zero, suc, ◌+◌, ◌≤◌, ◌<◌, ◌≡◌, refl, ap, sym, ◌∙◌, ◌≢◌, ◌⊎◌, inl, inr, Option, none, some,
  List, [], ◌∷◌, ◌++◌, arith, get_elem?, length, length-append,
}
use mqttv.Int.{ℤ, pos, minus_one}
use mqttv.Result.{Result, ok, fault, overrun, ◌>>=◌, store_fits, bind_assoc}
use mqttv.CString.{Bytes, codes, str_eq_ne, str_eq_refl}
use mqttv.Net.{Net, Io, write_log, maxline}
use mqttv.Broker.{
  Broker, limit_conn_clients, find_from, find_index_by_client_name, fd_at, fd_at-some,
}
use mqttv.Broker.Tables.{Filled, IsValid}
use mqttv.Broker.Lookup.{IsAbsent, IsFirst, IsFirst-none, find_index_by_client_name_lem}
use mqttv.Forward.{
  cell_at-some, cell_at_end, forward_message, forward_subscription, forward_cell, forward_entry,
}

pub get_elem?-some {ℓ} :
    {A : Type ℓ} (xs : List A) (i : ℕ) → i < length xs → (x : A) × (get_elem? xs i ≡ some x)
get_elem?-some [] i h = elim h [ ]
get_elem?-some (x ∷ xs) zero h = (x, refl)
get_elem?-some (x ∷ xs) (suc i) h = get_elem?-some xs i (omega arith)

get_elem?_bound {ℓ} :
    {A : Type ℓ} (xs : List A) (i : ℕ) (x : A) → get_elem? xs i ≡ some x → i < length xs
get_elem?_bound [] i x h = cc
get_elem?_bound (y ∷ xs) zero x h = omega arith
get_elem?_bound (y ∷ xs) (suc i) x h = omega (arith, get_elem?_bound xs i x h)

pub get_elem?_end {ℓ} : {A : Type ℓ} (xs : List A) (i : ℕ) → length xs ≤ i → get_elem? xs i ≡ none
get_elem?_end [] i h = refl
get_elem?_end (x ∷ xs) zero h = absurd (omega arith)
get_elem?_end (x ∷ xs) (suc i) h = get_elem?_end xs i (omega arith)

IsFirst-IsAbsent :
    (name : Bytes) (k : ℕ) (xs : List (Option Bytes)) → IsAbsent name xs → ¬ IsFirst name k xs
IsFirst-IsAbsent name k [] h f = f
IsFirst-IsAbsent name zero (x ∷ xs) h f = h.0 f
IsFirst-IsAbsent name (suc k) (x ∷ xs) h f = IsFirst-IsAbsent name k xs h.1 f.1

-- A search for a name ends at the first cell that holds it.
pub find_from_first :
    (name : Bytes) (k i : ℕ) (xs : List (Option Bytes)) (n : ℕ)
    → Filled n xs
    → IsFirst name k xs
    → find_from name xs i ≡ ok (pos (i + k))
unfolding find_from
find_from_first name k i [] n h f = elim f [ ]
find_from_first name zero i (none ∷ xs) n h f = cc
find_from_first name zero i (some s ∷ xs) n h f = ground (arith, str_eq_refl s)
find_from_first name (suc k) i (none ∷ xs) zero h f = absurd (IsFirst-none name k xs h.1 f.1)
find_from_first name (suc k) i (none ∷ xs) (suc n) h f = cc (h.0.1)
find_from_first name (suc k) i (some s ∷ xs) zero h f = cc (h.0)
find_from_first name (suc k) i (some s ∷ xs) (suc n) h f =
    rw (str_eq_ne name s (λ e. f.0 (ap some (sym e))))
      (find_from_first name k (i + 1) xs n h.1 f.1 ∙ ap (λ (t : ℕ). ok (pos t)) (omega arith))

abbrev IsLost : Result ℤ → Type 0
IsLost r = (r ≡ ok minus_one) ⊎ (r ≡ fault overrun)

IsAbsent-IsLost :
    (name : Bytes) (b : Broker)
    → IsValid b
    → IsAbsent name b.client_name_list
    → IsLost (find_index_by_client_name name b)
IsAbsent-IsLost name b v absent = elim (find_index_by_client_name_lem name b v) [
  | inl (k, e, first) ↦ absurd (IsFirst-IsAbsent name k b.client_name_list absent first)
  | inr (inl (e, _, _)) ↦ inl e
  | inr (inr (e, _, _)) ↦ inr e
]

module _ (net : Net) where
  subscription_lost :
      (b : Broker) (i : ℕ) (publisher : Bytes) (io : Io net)
      → IsValid b
      → i < limit_conn_clients
      → IsLost (find_index_by_client_name publisher b)
      → forward_subscription net b i publisher io ≡ fault overrun
  unfolding forward_subscription ◌>>=◌ fd_at
  subscription_lost b i publisher io v lt lost =
      let (name, p) = get_elem?-some b.client_name_list i (omega (arith, v.names_size)) in
      let (row, q) = get_elem?-some b.topic_list i (omega (arith, v.topics_size)) in
      rw (cell_at-some _ i name p)
        (rw (cell_at-some _ i row q) (elim lost [ inl e ↦ rw e | inr e ↦ rw e ]))

  -- A subscription to a node that is not connected makes the loop read client_fd_list[-1], or, once
  -- ten clients are connected, search behind the end of the table of names.
  forward_entry_absent :
      (b : Broker) (i : ℕ) (publisher : Bytes) (io : Io net)
      → IsValid b
      → get_elem? b.client_sus_list i ≡ some (some publisher)
      → publisher ≢ codes "NONE"
      → IsAbsent publisher b.client_name_list
      → forward_entry net b i io ≡ fault overrun
  unfolding forward_entry forward_cell ◌>>=◌
  forward_entry_absent b i publisher io v h ne absent = rw (cell_at-some _ i _ h) (
      rw (str_eq_ne publisher (codes "NONE") ne) (
        rw (
          subscription_lost b i publisher io v
            (omega (arith, v.sus_size, get_elem?_bound b.client_sus_list i _ h))
            (IsAbsent-IsLost publisher b v absent))))

  -- Once ten clients are connected, every round reads client_sus_list[10].
  pub forward_entry_full :
      (b : Broker) (i : ℕ) (io : Io net)
      → IsValid b
      → limit_conn_clients ≤ i
      → forward_entry net b i io ≡ fault overrun
  unfolding forward_entry forward_cell ◌>>=◌
  forward_entry_full b i io v h = rw (
      cell_at_end b.client_sus_list i
        (get_elem?_end b.client_sus_list i (omega (arith, v.sus_size))))

  abbrev pub route_text : Bytes → Bytes → Bytes
  route_text publisher name =
      codes "Se envia informacion desde [" ++ (publisher ++ (codes "] -> [" ++ (name ++ codes "]")))

  route_text_short :
      (publisher name : Bytes)
      → length publisher + length name + 50 < maxline
      → length (route_text publisher name) < maxline
  route_text_short publisher name h = omega (
    arith,
    h,
    length-append publisher (codes "] -> [" ++ (name ++ codes "]")),
    length-append name (codes "]"),
  )

  pub entry_subscribed :
      (b : Broker) (i : ℕ) (publisher : Bytes) (io : Io net)
      → get_elem? b.client_sus_list i ≡ some (some publisher)
      → publisher ≢ codes "NONE"
      → forward_entry net b i io
        ≡ (forward_subscription net b i publisher io >>= λ io'. ok (suc i, io'))
  unfolding forward_entry forward_cell ◌>>=◌
  entry_subscribed b i publisher io h ne =
      rw (cell_at-some _ i _ h) (rw (str_eq_ne publisher (codes "NONE") ne))

  pub subscription_routes :
      (b : Broker) (i k m : ℕ) (publisher name : Bytes) (row : List ℤ) (fd_pub fd_sus : ℤ)
      (io : Io net)
      → get_elem? b.client_name_list i ≡ some (some name)
      → get_elem? b.topic_list i ≡ some row
      → find_index_by_client_name publisher b ≡ ok (pos k)
      → find_index_by_client_name name b ≡ ok (pos m)
      → get_elem? b.client_fd_list k ≡ some fd_pub
      → get_elem? b.client_fd_list m ≡ some fd_sus
      → length publisher + length name + 50 < maxline
      → forward_subscription net b i publisher io ≡ (
          write_log net (route_text publisher name) io >>= λ io₁.
          forward_message net fd_pub fd_sus row publisher io₁)
  unfolding forward_subscription ◌>>=◌
  subscription_routes b i k m publisher name row fd_pub fd_sus io hn hr fp fn dp dn short =
      rw (cell_at-some _ i _ hn) (
        rw (cell_at-some _ i _ hr) (
          rw fp (
            rw (fd_at-some _ k _ dp) (
              rw fn (
                rw (fd_at-some _ m _ dn) (
                  rw (
                    store_fits maxline (route_text publisher name)
                      (route_text_short publisher name short))))))))

  -- The entry of client i, with a subscription to a connected node, forwards from the first client
  -- that has the node's name to the first client that has the name of client i, by the row of
  -- client i.
  forward_entry_routes :
      (b : Broker) (i k m : ℕ) (publisher name : Bytes) (row : List ℤ) (fd_pub fd_sus : ℤ)
      (io : Io net)
      → IsValid b
      → get_elem? b.client_sus_list i ≡ some (some publisher)
      → publisher ≢ codes "NONE"
      → get_elem? b.client_name_list i ≡ some (some name)
      → get_elem? b.topic_list i ≡ some row
      → IsFirst publisher k b.client_name_list
      → IsFirst name m b.client_name_list
      → get_elem? b.client_fd_list k ≡ some fd_pub
      → get_elem? b.client_fd_list m ≡ some fd_sus
      → length publisher + length name + 50 < maxline
      → forward_entry net b i io ≡ (
          write_log net (route_text publisher name) io >>= λ io₁.
          forward_message net fd_pub fd_sus row publisher io₁ >>= λ io₂. ok (suc i, io₂))
  unfolding find_index_by_client_name
  forward_entry_routes b i k m publisher name row fd_pub fd_sus io v hs ne hn hr fp fn dp dn short =
      entry_subscribed b i publisher io hs ne
      ∙ ap (λ r. r >>= λ io'. ok (suc i, io'))
          (subscription_routes b i k m publisher name row fd_pub fd_sus io hn hr
            (find_from_first publisher k 0 b.client_name_list b.fd_idx v.names fp
              ∙ ap (λ (t : ℕ). ok (pos t)) (omega arith))
            (find_from_first name m 0 b.client_name_list b.fd_idx v.names fn
              ∙ ap (λ (t : ℕ). ok (pos t)) (omega arith))
            dp dn short)
      ∙ bind_assoc _ _ _
