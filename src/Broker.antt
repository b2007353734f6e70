-- ===== src/Broker.antt =====
-- The tables and semaphores of broker_server.c, which all of its threads share.
pub mod Tables
pub mod Lookup
pub mod Register
pub mod Directory
use mqttv.Base.{
  ℕ, zero, suc, ◌+◌, ◌≡◌, refl, Bool, Option, none, some, List, [], ◌∷◌, if◌then◌else◌, ltb,
  get_elem?, replicate,
}
use mqttv.Int.{ℤ, pos, negsuc, minus_one}
use mqttv.Result.{Result, ok, fault, overrun}
use mqttv.CString.{Bytes, str_eq}
use mqttv.Topics.{topics_number}

abbrev pub limit_conn_clients : ℕ
limit_conn_clients = 10

-- `none` is the null pointer. The texts stand in the stacks of threads that never return, and
-- nothing writes to them once they are in a table.
pub record Broker : Type 0 where
  pub client_name_list : List (Option Bytes)
  pub client_fd_list : List ℤ
  pub fd_idx : ℕ
  pub client_sus_list : List (Option Bytes)
  pub topic_list : List (List ℤ)
  pub sem_control : ℕ
  pub sem_mutex : ℕ

-- The zeros of static storage, and the semaphores as `main` opens them.
abbrev pub init : Broker
init = record {
  client_name_list = replicate limit_conn_clients none;
  client_fd_list = replicate limit_conn_clients (pos 0);
  fd_idx = 0;
  client_sus_list = replicate limit_conn_clients none;
  topic_list = replicate limit_conn_clients (replicate topics_number (pos 0));
  sem_control = 0;
  sem_mutex = 1;
}

-- for(int i = 0; client_name_list[i] != NULL; i++), with the part of the array from i on
unfoldable pub find_from : Bytes → List (Option Bytes) → ℕ → Result ℤ
unfolding str_eq
find_from client_name [] i = fault overrun
find_from client_name (none ∷ rest) i = ok minus_one
find_from client_name (some name ∷ rest) i =
    if str_eq client_name name then ok (pos i) else find_from client_name rest (i + 1)

unfoldable pub find_index_by_client_name : Bytes → Broker → Result ℤ
unfolding find_from
find_index_by_client_name client_name b = find_from client_name b.client_name_list 0

-- client_fd_list[i], where i may be the -1 of a name that was not found
unfoldable pub fd_at : List ℤ → ℤ → Result ℤ
fd_at fds (negsuc n) = fault overrun
fd_at fds (pos i) = elim (get_elem? fds i) [ none ↦ fault overrun | some fd ↦ ok fd ]

pub fd_at-some :
    (fds : List ℤ) (i : ℕ) (fd : ℤ) → get_elem? fds i ≡ some fd → fd_at fds (pos i) ≡ ok fd
unfolding fd_at
fd_at-some fds i fd h = rw (h, fd_at)

-- sig_handler: closes the descriptors below fd_idx, in order, and leaves the process. The result
-- is the descriptors that were closed.
unfoldable close_from : ℕ → List ℤ → List ℤ
close_from zero fds = []
close_from (suc n) [] = []
close_from (suc n) (fd ∷ fds) = fd ∷ close_from n fds

unfoldable zero_from : ℕ → List ℤ → List ℤ
zero_from zero fds = fds
zero_from (suc n) [] = []
zero_from (suc n) (fd ∷ fds) = pos 0 ∷ zero_from n fds

unfoldable pub sig_handler : Broker → List ℤ × Broker
unfolding close_from zero_from
sig_handler b = (
  close_from b.fd_idx b.client_fd_list,
  record b { client_fd_list = zero_from b.fd_idx b.client_fd_list; fd_idx = 0 },
)
