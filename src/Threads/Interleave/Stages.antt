-- ===== src/Threads/Interleave/Stages.antt =====
-- What each stage of a registration stores.
use mqttv.Base.{
  ℕ, ◌+◌, ◌≤◌, ◌<◌, ◌≡◌, refl, ◌∙◌, inl, inr, Option, some, List, arith, ltb→lt, length, set,
  length-set, Bool-cases,
}
use mqttv.Int.{ℤ}
use mqttv.Result.{guard_passed}
use mqttv.Result.Ensures.{Ensures, Ensures-ok, Ensures-bind}
use mqttv.CString.{Bytes, codes, str_eq}
use mqttv.Net.{Net, Io}
use mqttv.Broker.{Broker, init, limit_conn_clients}
use mqttv.Broker.Tables.{Filled, Filled-step, IsValid, init-IsValid}
use mqttv.Broker.Register.{put_fd, put_name, put_sus, put_row, count_client}
use mqttv.Threads.Interleave.{store_fd, store_name, store_text, store_sus, store_row}

pub store_fd_lem :
    (connfd : ℤ) (b : Broker)
    → Ensures (λ b'. (b.fd_idx < limit_conn_clients) × (b' ≡ put_fd connfd b)) (store_fd connfd b)
unfolding store_fd
store_fd_lem connfd b =
    Ensures-bind _ _ λ u passed. Ensures-ok _ (ltb→lt _ _ (guard_passed _ _ u passed), refl)

module _ (net : Net) where
  pub store_name_lem :
      (connfd : ℤ) (b : Broker) (io : Io net)
      → Ensures (λ r. r.2 ≡ put_name r.0 b) (store_name net connfd b io)
  unfolding store_name
  store_name_lem connfd b io = Ensures-bind _ _ λ (name_line, rio, world₁) _.
      Ensures-bind _ _ λ (sus_line, rio₂, world₂) _.
        Ensures-bind _ _ λ name _. Ensures-bind _ _ λ io' _. Ensures-ok _ refl

  pub store_sus_lem :
      (slots : ℕ) (name sus_line : Bytes) (b : Broker) (io : Io net)
      → Ensures (λ r. (s : Bytes) × (r.1 ≡ put_sus s b)) (store_sus net slots name sus_line b io)
  unfolding store_sus store_text
  store_sus_lem slots name sus_line b io = Ensures-bind _ _ λ sus _.
      elim (Bool-cases (str_eq sus (codes "NONE"))) [
        | inl e ↦ rw e (Ensures-bind _ _ λ io' _. Ensures-ok _ (sus, refl))
        | inr e ↦
            rw e (Ensures-bind _ _ λ levels _. Ensures-bind _ _ λ node _. Ensures-ok _ (node, refl))
      ]

  pub store_row_lem :
      (information : List ℤ) (name sus : Bytes) (levels : List Bytes) (b : Broker) (io : Io net)
      → Ensures
          (λ r. (row : List ℤ) × (r.0 ≡ put_row row b))
          (store_row net information name sus levels b io)
  unfolding store_row
  store_row_lem information name sus levels b io =
      Ensures-bind _ _ λ io' _. Ensures-bind _ _ λ info _. Ensures-ok _ (info, refl)

-- The tables while f descriptors, n names and m nodes are stored behind the counted clients.
pub record Shape (f n m : ℕ) (b : Broker) : Type 0 where
  pub names_size : length b.client_name_list ≡ limit_conn_clients
  pub fds_size : length b.client_fd_list ≡ limit_conn_clients
  pub sus_size : length b.client_sus_list ≡ limit_conn_clients
  pub topics_size : length b.topic_list ≡ limit_conn_clients
  pub room : b.fd_idx + f ≤ limit_conn_clients
  pub names : Filled (b.fd_idx + n) b.client_name_list
  pub sus : Filled (b.fd_idx + m) b.client_sus_list

pub Shape-eq :
    {f n m f' n' m' : ℕ} (b : Broker) → f ≡ f' → n ≡ n' → m ≡ m' → Shape f n m b → Shape f' n' m' b
Shape-eq b p q r h = record {
  names_size = h.names_size;
  fds_size = h.fds_size;
  sus_size = h.sus_size;
  topics_size = h.topics_size;
  room = omega (arith, p, h.room);
  names = rw q at h.names;
  sus = rw r at h.sus;
}

-- The tables are in order when nothing is stored that is not counted.
pub Shape-IsValid : (b : Broker) → Shape 0 0 0 b → IsValid b
Shape-IsValid b h =
    let none_more : b.fd_idx + 0 ≡ b.fd_idx = omega arith in
    record {
      names_size = h.names_size;
      fds_size = h.fds_size;
      sus_size = h.sus_size;
      topics_size = h.topics_size;
      count = omega (arith, h.room);
      names = rw none_more at h.names;
      sus = rw none_more at h.sus;
    }

pub Shape-sems :
    {f n m : ℕ} (b : Broker) (c k : ℕ)
    → Shape f n m b
    → Shape f n m (record b { sem_control = c; sem_mutex = k })
Shape-sems b c k h = record {
  names_size = h.names_size;
  fds_size = h.fds_size;
  sus_size = h.sus_size;
  topics_size = h.topics_size;
  room = h.room;
  names = h.names;
  sus = h.sus;
}

pub Shape-init : Shape 0 0 0 init
Shape-init = record {
  names_size = refl;
  fds_size = refl;
  sus_size = refl;
  topics_size = refl;
  room = omega arith;
  names = init-IsValid.names;
  sus = init-IsValid.sus;
}

pub Shape-put_fd :
    (connfd : ℤ) (b : Broker)
    → b.fd_idx < limit_conn_clients
    → Shape 0 0 0 b
    → Shape 1 0 0 (put_fd connfd b)
unfolding put_fd
Shape-put_fd connfd b free h = record {
  names_size = h.names_size;
  fds_size = length-set _ _ _ ∙ h.fds_size;
  sus_size = h.sus_size;
  topics_size = h.topics_size;
  room = omega (arith, free);
  names = h.names;
  sus = h.sus;
}

-- The cell behind the counted clients is written.
Filled-next :
    (n : ℕ) (xs : List (Option Bytes)) (s : Bytes)
    → n < length xs
    → Filled (n + 0) xs
    → Filled (n + 1) (set xs n (some s))
Filled-next n xs s lt h =
    let e : n + 0 ≡ n = omega arith in
    Filled-step n (n + 1) xs (set xs n (some s)) s refl refl lt (rw e at h)

pub Shape-put_name : (name : Bytes) (b : Broker) → Shape 1 0 0 b → Shape 1 1 0 (put_name name b)
unfolding put_name
Shape-put_name name b h = record {
  names_size = length-set _ _ _ ∙ h.names_size;
  fds_size = h.fds_size;
  sus_size = h.sus_size;
  topics_size = h.topics_size;
  room = h.room;
  names =
      Filled-next b.fd_idx b.client_name_list name (omega (arith, h.room, h.names_size)) h.names;
  sus = h.sus;
}

pub Shape-put_sus : (node : Bytes) (b : Broker) → Shape 1 1 0 b → Shape 1 1 1 (put_sus node b)
unfolding put_sus
Shape-put_sus node b h = record {
  names_size = h.names_size;
  fds_size = h.fds_size;
  sus_size = length-set _ _ _ ∙ h.sus_size;
  topics_size = h.topics_size;
  room = h.room;
  names = h.names;
  sus = Filled-next b.fd_idx b.client_sus_list node (omega (arith, h.room, h.sus_size)) h.sus;
}

pub Shape-put_row : (row : List ℤ) (b : Broker) → Shape 1 1 1 b → Shape 1 1 1 (put_row row b)
unfolding put_row
Shape-put_row row b h = record {
  names_size = h.names_size;
  fds_size = h.fds_size;
  sus_size = h.sus_size;
  topics_size = length-set _ _ _ ∙ h.topics_size;
  room = h.room;
  names = h.names;
  sus = h.sus;
}

pub Shape-count_client : (b : Broker) → Shape 1 1 1 b → Shape 0 0 0 (count_client b)
unfolding count_client
Shape-count_client b h = record {
  names_size = h.names_size;
  fds_size = h.fds_size;
  sus_size = h.sus_size;
  topics_size = h.topics_size;
  room = omega (arith, h.room);
  names = let e : b.fd_idx + 1 ≡ b.fd_idx + 1 + 0 = omega arith in rw e at h.names;
  sus = let e : b.fd_idx + 1 ≡ b.fd_idx + 1 + 0 = omega arith in rw e at h.sus;
}
