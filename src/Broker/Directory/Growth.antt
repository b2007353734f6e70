-- ===== src/Broker/Directory/Growth.antt =====
-- What a registration does to the directory.
use mqttv.Base.{
  ℕ, zero, suc, ◌<◌, ◌≡◌, refl, ◌⊎◌, inl, inr, Option, some, List, [], ◌∷◌, ◌++◌, arith, set,
  length,
}
use mqttv.Int.{ℤ}
use mqttv.Result.Ensures.{Ensures}
use mqttv.CString.{Bytes}
use mqttv.Net.{Net, Io}
use mqttv.Broker.{Broker}
use mqttv.Broker.Tables.{IsValid}
use mqttv.Broker.Register.{register}
use mqttv.Broker.Register.Effect.{register-Registered}
use mqttv.Broker.Directory.{Client, view, directory}

-- The row in a cell of the matrix.
abbrev row_at : List (List ℤ) → ℕ → List ℤ
row_at [] i = []
row_at (r ∷ rs) zero = r
row_at (r ∷ rs) (suc i) = row_at rs i

view-set :
    (n : ℕ) (xs : List (Option Bytes)) (fds : List ℤ) (ss : List (Option Bytes))
    (rs rs' : List (List ℤ)) (name sus : Bytes) (fd : ℤ)
    → n < length xs
    → n < length fds
    → n < length ss
    → n < length rs
    → (rs' ≡ rs) ⊎ ((row : List ℤ) × (rs' ≡ set rs n row))
    → (row : List ℤ) × (view (suc n) (set xs n (some name)) (set fds n fd) (set ss n (some sus)) rs'
        ≡ view n xs fds ss rs ++ record { name = name; fd = fd; sus = sus; row = row } ∷ [])
unfolding view
view-set n [] fds ss rs rs' name sus fd lx lf ls lr h = elim lx [ ]
view-set n (x ∷ xs) [] ss rs rs' name sus fd lx lf ls lr h = elim lf [ ]
view-set n (x ∷ xs) (f ∷ fds) [] rs rs' name sus fd lx lf ls lr h = elim ls [ ]
view-set n (x ∷ xs) (f ∷ fds) (s ∷ ss) [] rs' name sus fd lx lf ls lr h = elim lr [ ]
view-set zero (x ∷ xs) (f ∷ fds) (s ∷ ss) (r ∷ rs) rs' name sus fd lx lf ls lr (inl e) =
    (r, rw e refl)
view-set zero (x ∷ xs) (f ∷ fds) (s ∷ ss) (r ∷ rs) rs' name sus fd lx lf ls lr (inr (row, e)) =
    (row, rw e refl)
view-set (suc n) (x ∷ xs) (f ∷ fds) (s ∷ ss) (r ∷ rs) rs' name sus fd lx lf ls lr (inl e) =
    let (row, p) =
      view-set n xs fds ss rs rs name sus fd (omega arith) (omega arith) (omega arith) (omega arith)
        (inl refl) in
    (row, rw e (rw p refl))
view-set (suc n) (x ∷ xs) (f ∷ fds) (s ∷ ss) (r ∷ rs) rs' name sus fd lx lf ls lr (inr (row, e)) =
    let (row', p) =
      view-set n xs fds ss rs (set rs n row) name sus fd (omega arith) (omega arith) (omega arith)
        (omega arith) (inr (row, refl)) in
    (row', rw e (rw p refl))

-- A registration from tables in order that returns has put one client behind the others in the
-- directory, with the descriptor of its connection, and has changed no other entry.
pub register-directory :
    (net : Net) (slots : ℕ) (information : List ℤ) (connfd : ℤ) (b : Broker) (io : Io net)
    → IsValid b
    → Ensures
        (λ r. (c : Client) × (c.fd ≡ connfd) × (directory r.0 ≡ directory b ++ c ∷ []))
        (register net slots information connfd b io)
unfolding directory
register-directory net slots information connfd b io v = record {
  at = λ r e.
      let g = (register-Registered net slots information connfd b io).at r e in
      let (row, p) =
        view-set b.fd_idx b.client_name_list b.client_fd_list b.client_sus_list b.topic_list
          r.0.topic_list g.name g.sus connfd (omega (arith, g.room, v.names_size))
          (omega (arith, g.room, v.fds_size)) (omega (arith, g.room, v.sus_size))
          (omega (arith, g.room, v.topics_size)) g.rows in
      let count : r.0.fd_idx ≡ suc b.fd_idx = omega (arith, g.count) in
      (
        record { name = g.name; fd = connfd; sus = g.sus; row = row },
        refl,
        rw (count, g.names, g.fds, g.suss) p,
      );
}
