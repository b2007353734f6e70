-- ===== src/Broker/Register/Effect.antt =====
-- What a registration leaves in the tables, whatever the client sends.
use mqttv.Base.{
  ℕ, ◌+◌, ◌≤◌, ◌<◌, ◌≡◌, refl, ap, ◌∙◌, ◌⊎◌, inl, inr, false, some, List, arith, if◌then◌else◌, ltb,
  ltb→lt, set, length, length-set, Bool-cases,
}
use mqttv.Int.{ℤ}
use mqttv.Result.{fault, overrun, ◌>>=◌, guard_passed}
use mqttv.Result.Ensures.{Ensures, Ensures-ok, Ensures-bind}
use mqttv.CString.{Bytes, codes, str_eq}
use mqttv.Net.{Net, Io}
use mqttv.Broker.{Broker, limit_conn_clients}
use mqttv.Broker.Tables.{IsValid, Filled-step}
use mqttv.Broker.Register.{register, subscribe, count_client, put_fd, put_name, put_sus, put_row}

-- A client was added behind the others: its cells are written and no others.
pub record Registered (connfd : ℤ) (b b' : Broker) : Type 0 where
  pub room : b.fd_idx < limit_conn_clients
  pub name : Bytes
  pub sus : Bytes
  pub names : b'.client_name_list ≡ set b.client_name_list b.fd_idx (some name)
  pub fds : b'.client_fd_list ≡ set b.client_fd_list b.fd_idx connfd
  pub suss : b'.client_sus_list ≡ set b.client_sus_list b.fd_idx (some sus)
  pub rows :
      (b'.topic_list ≡ b.topic_list)
      ⊎ ((row : List ℤ) × (b'.topic_list ≡ set b.topic_list b.fd_idx row))
  pub count : b'.fd_idx ≡ b.fd_idx + 1
  pub control : b'.sem_control ≡ (if ltb 1 (b.fd_idx + 1) then b.sem_control + 1 else b.sem_control)
  pub mutex : b'.sem_mutex ≡ b.sem_mutex

abbrev OfSus : Broker → Broker → Type 0
OfSus b b' =
    ((s : Bytes) × (b' ≡ put_sus s b))
    ⊎ ((s : Bytes) × (row : List ℤ) × (b' ≡ put_row row (put_sus s b)))

module _ (net : Net) where
  subscribe_lem :
      (slots : ℕ) (information : List ℤ) (name sus : Bytes) (b : Broker) (io : Io net)
      → Ensures (λ r. OfSus b r.0) (subscribe net slots information name sus b io)
  unfolding subscribe
  subscribe_lem slots information name sus b io = elim (Bool-cases (str_eq sus (codes "NONE"))) [
    | inl e ↦ rw e (Ensures-bind _ _ λ io' _. Ensures-ok _ (inl (sus, refl)))
    | inr e ↦ rw e (
        Ensures-bind _ _ λ levels _. Ensures-bind _ _ λ node _.
          Ensures-bind _ _
            λ io' _. Ensures-bind _ _ λ info _. Ensures-ok _ (inr (node, info, refl)))
  ]

  counted :
      (connfd : ℤ) (name : Bytes) (b b' : Broker)
      → b.fd_idx < limit_conn_clients
      → OfSus (put_name name (put_fd connfd b)) b'
      → Registered connfd b (count_client b')
  unfolding put_sus put_row put_name put_fd count_client
  counted connfd name b b' lt (inl (s, e)) = rw e (record {
    room = lt;
    name = name;
    sus = s;
    names = refl;
    fds = refl;
    suss = refl;
    rows = inl refl;
    count = refl;
    control = refl;
    mutex = refl;
  })
  counted connfd name b b' lt (inr (s, row, e)) = rw e (record {
    room = lt;
    name = name;
    sus = s;
    names = refl;
    fds = refl;
    suss = refl;
    rows = inr (row, refl);
    count = refl;
    control = refl;
    mutex = refl;
  })

  -- A registration that returns has added one client behind the others: it has written the cells
  -- of index fd_idx and no others, has counted the client, and has posted `sem_control` if that
  -- makes two or more.
  pub register-Registered :
      (slots : ℕ) (information : List ℤ) (connfd : ℤ) (b : Broker) (io : Io net)
      → Ensures (λ r. Registered connfd b r.0) (register net slots information connfd b io)
  unfolding register
  register-Registered slots information connfd b io = Ensures-bind _ _ λ u passed.
      Ensures-bind _ _ λ (name_line, rio, world₁) _. Ensures-bind _ _ λ (sus_line, rio₂, world₂) _.
        Ensures-bind _ _ λ name _. Ensures-bind _ _ λ io₁ _. Ensures-bind _ _ λ sus _.
          Ensures-bind _ _ λ r e. Ensures-ok _ (
            counted connfd name b r.0 (ltb→lt _ _ (guard_passed _ _ u passed)) (
              (subscribe_lem slots information name sus (put_name name (put_fd connfd b)) io₁).at r
                e))

  -- The eleventh client is registered behind the end of the tables.
  register_full :
      (slots : ℕ) (information : List ℤ) (connfd : ℤ) (b : Broker) (io : Io net)
      → limit_conn_clients ≤ b.fd_idx
      → register net slots information connfd b io ≡ fault overrun
  unfolding register ◌>>=◌
  register_full slots information connfd b io h =
      let e : ltb b.fd_idx limit_conn_clients ≡ false = ground arith in rw e

length-rows :
    (xs ys : List (List ℤ)) (n : ℕ)
    → (ys ≡ xs) ⊎ ((row : List ℤ) × (ys ≡ set xs n row))
    → length ys ≡ length xs
length-rows xs ys n (inl e) = ap length e
length-rows xs ys n (inr (row, e)) = ap length e ∙ length-set xs n row

-- A registration keeps the tables in order: ten cells each, and those of the counted clients set.
pub Registered-IsValid :
    (connfd : ℤ) (b b' : Broker) → Registered connfd b b' → IsValid b → IsValid b'
Registered-IsValid connfd b b' r v = record {
  names_size = ap length r.names ∙ length-set _ _ _ ∙ v.names_size;
  fds_size = ap length r.fds ∙ length-set _ _ _ ∙ v.fds_size;
  sus_size = ap length r.suss ∙ length-set _ _ _ ∙ v.sus_size;
  topics_size = length-rows b.topic_list b'.topic_list b.fd_idx r.rows ∙ v.topics_size;
  count = omega (arith, r.count, r.room);
  names =
      Filled-step b.fd_idx b'.fd_idx b.client_name_list b'.client_name_list r.name r.count r.names
        (omega (arith, r.room, v.names_size)) v.names;
  sus =
      Filled-step b.fd_idx b'.fd_idx b.client_sus_list b'.client_sus_list r.sus r.count r.suss
        (omega (arith, r.room, v.sus_size)) v.sus;
}

-- Whatever a client sends, a registration that returns from tables in order leaves them in order.
pub register-IsValid :
    (net : Net) (slots : ℕ) (information : List ℤ) (connfd : ℤ) (b : Broker) (io : Io net)
    → IsValid b
    → Ensures (λ r. IsValid r.0) (register net slots information connfd b io)
register-IsValid net slots information connfd b io v = record {
  at = λ r e.
      Registered-IsValid connfd b r.0
        ((register-Registered net slots information connfd b io).at r e) v;
}
