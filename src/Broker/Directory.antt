-- ===== src/Broker/Directory.antt =====
-- The four parallel tables of broker_server.c as what they stand for: a directory of clients, in the
-- order in which they have connected.
pub mod Growth
pub mod Closing
pub mod Subscriber
use mqttv.Base.{
  ℕ, zero, suc, ◌+◌, ◌-◌, ◌≤◌, ◌<◌, ◌≡◌, refl, sym, ap, ◌∙◌, ◌≢◌, inl, inr, true, false, Option,
  none, some, List, [], ◌∷◌, arith, if◌then◌else◌, get_elem?, length, Bool-cases,
}
use mqttv.Int.{ℤ, pos, minus_one}
use mqttv.Result.{Result, ok, fault, overrun, ◌>>=◌}
use mqttv.CString.{Bytes, str_eq, str_eq_ne, str_eq_refl}
use mqttv.Broker.{Broker, limit_conn_clients, find_index_by_client_name, fd_at, fd_at-some}
use mqttv.Broker.Tables.{Filled, IsValid}
use mqttv.Broker.Lookup.{IsAbsent, IsFirst, IsFirst-none, find_index_by_client_name_lem}

-- `sus` is the node that the client is subscribed to, or NONE; `row` has -1 for each topic that it
-- does not get.
pub record Client : Type 0 where
  pub name : Bytes
  pub fd : ℤ
  pub sus : Bytes
  pub row : List ℤ

-- The text that a cell points to; a null pointer stands in no cell that is read.
abbrev pub text_of : Option Bytes → Bytes
text_of none = []
text_of (some s) = s

-- The clients in the first n cells.
unfoldable pub view :
    ℕ → List (Option Bytes) → List ℤ → List (Option Bytes) → List (List ℤ) → List Client
view (suc n) (x ∷ xs) (fd ∷ fds) (s ∷ ss) (r ∷ rs) =
    record { name = text_of x; fd = fd; sus = text_of s; row = r } ∷ view n xs fds ss rs
view n xs fds ss rs = []

unfoldable pub directory : Broker → List Client
directory b = view b.fd_idx b.client_name_list b.client_fd_list b.client_sus_list b.topic_list

-- The descriptor of the first client of that name.
unfoldable pub find_fd : Bytes → List Client → Option ℤ
find_fd name [] = none
find_fd name (c ∷ clients) = if str_eq name c.name then some c.fd else find_fd name clients

abbrev pub or_overrun {ℓ} : {A : Type ℓ} → Option A → Result A
or_overrun none = fault overrun
or_overrun (some a) = ok a

-- The cells of index i hold the client c.
abbrev pub Holds :
    List (Option Bytes) → List ℤ → List (Option Bytes) → List (List ℤ) → ℕ → Client → Type 0
Holds xs fds ss rs i c =
    (get_elem? xs i ≡ some (some c.name))
    × (get_elem? fds i ≡ some c.fd)
    × (get_elem? ss i ≡ some (some c.sus))
    × (get_elem? rs i ≡ some c.row)

some_text : (x : Option Bytes) → (s : Bytes) × (x ≡ some s) → x ≡ some (text_of x)
some_text none (s, e) = cc
some_text (some t) (s, e) = refl

get_elem?-view :
    (n i : ℕ) (xs : List (Option Bytes)) (fds : List ℤ) (ss : List (Option Bytes))
    (rs : List (List ℤ))
    → Filled n xs
    → Filled n ss
    → n ≤ length xs
    → n ≤ length fds
    → n ≤ length ss
    → n ≤ length rs
    → i < n
    → (c : Client) × (get_elem? (view n xs fds ss rs) i ≡ some c) × Holds xs fds ss rs i c
unfolding view
get_elem?-view zero i xs fds ss rs hx hs lx lf ls lr lt = elim lt [ ]
get_elem?-view (suc n) i [] fds ss rs hx hs lx lf ls lr lt = elim lx [ ]
get_elem?-view (suc n) i (x ∷ xs) [] ss rs hx hs lx lf ls lr lt = elim lf [ ]
get_elem?-view (suc n) i (x ∷ xs) (fd ∷ fds) [] rs hx hs lx lf ls lr lt = elim ls [ ]
get_elem?-view (suc n) i (x ∷ xs) (fd ∷ fds) (s ∷ ss) [] hx hs lx lf ls lr lt = elim lr [ ]
get_elem?-view (suc n) zero (x ∷ xs) (fd ∷ fds) (s ∷ ss) (r ∷ rs) hx hs lx lf ls lr lt = (
  record { name = text_of x; fd = fd; sus = text_of s; row = r },
  refl,
  (ap some (some_text x hx.0), refl, ap some (some_text s hs.0), refl),
)
get_elem?-view (suc n) (suc i) (x ∷ xs) (fd ∷ fds) (s ∷ ss) (r ∷ rs) hx hs lx lf ls lr lt =
    get_elem?-view n i xs fds ss rs hx.1 hs.1 (omega arith) (omega arith) (omega arith)
      (omega arith) (omega arith)

find_fd-IsFirst :
    (name : Bytes) (n k : ℕ) (xs : List (Option Bytes)) (fds : List ℤ) (ss : List (Option Bytes))
    (rs : List (List ℤ))
    → Filled n xs
    → n ≤ length fds
    → n ≤ length ss
    → n ≤ length rs
    → IsFirst name k xs
    → (fd : ℤ) × (get_elem? fds k ≡ some fd) × (find_fd name (view n xs fds ss rs) ≡ some fd)
unfolding view find_fd
find_fd-IsFirst name n k [] fds ss rs h lf ls lr f = elim f [ ]
find_fd-IsFirst name zero k (x ∷ xs) fds ss rs h lf ls lr f =
    absurd (IsFirst-none name k (x ∷ xs) h f)
find_fd-IsFirst name (suc n) k (x ∷ xs) [] ss rs h lf ls lr f = elim lf [ ]
find_fd-IsFirst name (suc n) k (x ∷ xs) (fd ∷ fds) [] rs h lf ls lr f = elim ls [ ]
find_fd-IsFirst name (suc n) k (x ∷ xs) (fd ∷ fds) (s ∷ ss) [] h lf ls lr f = elim lr [ ]
find_fd-IsFirst name (suc n) zero (x ∷ xs) (fd ∷ fds) (s ∷ ss) (r ∷ rs) h lf ls lr f =
    (fd, refl, rw f (rw (str_eq_refl name) refl))
find_fd-IsFirst name (suc n) (suc k) (none ∷ xs) (fd ∷ fds) (s ∷ ss) (r ∷ rs) h lf ls lr f =
    cc (h.0.1)
find_fd-IsFirst name (suc n) (suc k) (some t ∷ xs) (fd ∷ fds) (s ∷ ss) (r ∷ rs) h lf ls lr f =
    rw (str_eq_ne name t (λ e. f.0 (ap some (sym e))))
      (find_fd-IsFirst name n k xs fds ss rs h.1 (omega arith) (omega arith) (omega arith) f.1)

find_fd-IsAbsent :
    (name : Bytes) (n : ℕ) (xs : List (Option Bytes)) (fds : List ℤ) (ss : List (Option Bytes))
    (rs : List (List ℤ))
    → Filled n xs
    → IsAbsent name xs
    → find_fd name (view n xs fds ss rs) ≡ none
unfolding view find_fd
find_fd-IsAbsent name zero xs fds ss rs h a = refl
find_fd-IsAbsent name (suc n) [] fds ss rs h a = refl
find_fd-IsAbsent name (suc n) (x ∷ xs) [] ss rs h a = refl
find_fd-IsAbsent name (suc n) (x ∷ xs) (fd ∷ fds) [] rs h a = refl
find_fd-IsAbsent name (suc n) (x ∷ xs) (fd ∷ fds) (s ∷ ss) [] h a = refl
find_fd-IsAbsent name (suc n) (none ∷ xs) (fd ∷ fds) (s ∷ ss) (r ∷ rs) h a = cc (h.0.1)
find_fd-IsAbsent name (suc n) (some t ∷ xs) (fd ∷ fds) (s ∷ ss) (r ∷ rs) h a =
    rw (str_eq_ne name t (λ e. a.0 (ap some (sym e))))
      (find_fd-IsAbsent name n xs fds ss rs h.1 a.1)

-- A search in the table of names, and the descriptor at the index found.
pub fd_of_name :
    (name : Bytes) (b : Broker)
    → IsValid b
    → (find_index_by_client_name name b >>= λ i. fd_at b.client_fd_list i)
      ≡ or_overrun (find_fd name (directory b))
unfolding directory ◌>>=◌ fd_at
fd_of_name name b v = elim (find_index_by_client_name_lem name b v) [
  | inl (k, e, first) ↦
      let (fd, p, q) =
        find_fd-IsFirst name b.fd_idx k b.client_name_list b.client_fd_list b.client_sus_list
          b.topic_list v.names (omega (arith, v.count, v.fds_size))
          (omega (arith, v.count, v.sus_size)) (omega (arith, v.count, v.topics_size)) first in
      rw e (rw q (fd_at-some b.client_fd_list k fd p))
  | inr (inl (e, absent, lt)) ↦ rw e (
      rw
        (find_fd-IsAbsent name b.fd_idx b.client_name_list b.client_fd_list b.client_sus_list
          b.topic_list v.names absent)
        refl)
  | inr (inr (e, absent, full)) ↦ rw e (
      rw
        (find_fd-IsAbsent name b.fd_idx b.client_name_list b.client_fd_list b.client_sus_list
          b.topic_list v.names absent)
        refl)
]

-- The cells of a counted client are an entry of the directory.
pub get_elem?-directory :
    (b : Broker) (i : ℕ)
    → IsValid b
    → i < b.fd_idx
    → (c : Client) × (get_elem? (directory b) i ≡ some c)
      × Holds b.client_name_list b.client_fd_list b.client_sus_list b.topic_list i c
unfolding directory
get_elem?-directory b i v lt =
    get_elem?-view b.fd_idx i b.client_name_list b.client_fd_list b.client_sus_list b.topic_list
      v.names v.sus (omega (arith, v.count, v.names_size)) (omega (arith, v.count, v.fds_size))
      (omega (arith, v.count, v.sus_size)) (omega (arith, v.count, v.topics_size)) lt

length-view :
    (n : ℕ) (xs : List (Option Bytes)) (fds : List ℤ) (ss : List (Option Bytes))
    (rs : List (List ℤ))
    → length (view n xs fds ss rs) ≤ n
unfolding view
length-view zero xs fds ss rs = omega arith
length-view (suc n) [] fds ss rs = omega arith
length-view (suc n) (x ∷ xs) [] ss rs = omega arith
length-view (suc n) (x ∷ xs) (f ∷ fds) [] rs = omega arith
length-view (suc n) (x ∷ xs) (f ∷ fds) (s ∷ ss) [] = omega arith
length-view (suc n) (x ∷ xs) (f ∷ fds) (s ∷ ss) (r ∷ rs) = omega (arith, length-view n xs fds ss rs)

pub length-directory : (b : Broker) → length (directory b) ≤ b.fd_idx
unfolding directory
length-directory b =
    length-view b.fd_idx b.client_name_list b.client_fd_list b.client_sus_list b.topic_list
