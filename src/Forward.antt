-- ===== src/Forward.antt =====
-- `forward_message` and the loop of `forward_messages` of broker_server.c.
pub mod Delivery
pub mod Entry
pub mod Midway
pub mod Rounds
pub mod Service
use mqttv.Base.{
  ℕ, zero, suc, ◌≡◌, refl, ◌+◌, ◌*◌, Bool, true, false, Option, none, some, List, [], ◌∷◌, ◌++◌,
  ltb, if◌then◌else◌, get_elem?, length,
}
use mqttv.Int.{ℤ, is_minus_one}
use mqttv.Result.{Result, ok, fault, overrun, null, ◌>>=◌, ◌>>◌, guard, store}
use mqttv.CString.{Bytes, codes, newline, c_string, chop, str_eq}
use mqttv.CString.Split.{split}
use mqttv.Topics.{string_topics, level}
use mqttv.Net.{Net, Io, write_log, maxline}
use mqttv.Broker.{Broker, find_index_by_client_name, fd_at}

abbrev pub sharing_time : ℕ
sharing_time = 1

-- Reading a cell of an array; the array ends with the list.
unfoldable pub cell_at {ℓ} : {A : Type ℓ} → List A → ℕ → Result A
cell_at xs i = elim (get_elem? xs i) [ none ↦ fault overrun | some x ↦ ok x ]

pub cell_at-some {ℓ} :
    {A : Type ℓ} (xs : List A) (i : ℕ) (x : A) → get_elem? xs i ≡ some x → cell_at xs i ≡ ok x
unfolding cell_at
cell_at-some xs i x h = rw (h, cell_at)

pub cell_at_end {ℓ} :
    {A : Type ℓ} (xs : List A) (i : ℕ) → get_elem? xs i ≡ none → cell_at xs i ≡ fault overrun
unfolding cell_at
cell_at_end xs i h = rw (h, cell_at)

-- The message of topic j, built in `string[50]`. The byte that is written behind the NUL of the
-- string is overwritten by the strcat, or never read, but it has to lie inside of the array.
unfoldable pub topic_message : ℕ → Bytes → Bytes → Result Bytes
topic_message j prefix token = do
  string ← store 50 prefix
  string' ← store 50 (string ++ token)
  guard (ltb (suc (length string')) 50) overrun
  if ltb j 5 then store 50 (string' ++ newline) else ok string'

module _ (net : Net) where
  open net use {World, rio_readinitb, rio_readlineb, rio_writen}

  -- for(int j = 0; j < 6; j++), with the prefixes that are left and their index
  unfoldable pub send_from : List Bytes → ℕ → List ℤ → List Bytes → ℤ → World → Result World
  send_from [] j topic info fd_suscriber world = ok world
  send_from (prefix ∷ prefixes) j topic info fd_suscriber world = do
    cell ← cell_at topic j
    world' ← if is_minus_one cell then ok world else do
      token ← level info j
      string ← topic_message j prefix token
      rio_writen fd_suscriber string world
    send_from prefixes (suc j) topic info fd_suscriber world'

  -- What happens to a line that was read, which holds at least one byte.
  unfoldable pub forward_line : ℤ → List ℤ → Bytes → Bytes → Io net → Result (Io net)
  forward_line fd_suscriber topic publisher line io = do
    copy ← store 100 (c_string line)
    tmp_buf ← chop copy
    msg ←
        store (maxline * 2)
          (codes "Se ha recibido [" ++ (tmp_buf ++ (codes "] de [" ++ (publisher ++ codes "]"))))
    io' ← write_log net msg io
    info ← split 10 (c_string line) (codes ",")
    world ← send_from string_topics 0 topic info fd_suscriber io'.world
    ok (record io' { world = world })

  unfoldable pub forward_read : ℤ → List ℤ → Bytes → Bytes → Io net → Result (Io net)
  forward_read fd_suscriber topic publisher [] io =
      write_log net (codes "No hay mensaje disponible para enviar...\n") io
  forward_read fd_suscriber topic publisher (c ∷ line) io =
      forward_line fd_suscriber topic publisher (c ∷ line) io

  -- for(int i = 0; i < SHARINGTIME; i++), with the rounds that are left
  unfoldable pub forward_times : ℕ → net.Reader → ℤ → List ℤ → Bytes → Io net → Result (Io net)
  forward_times zero rio_src fd_suscriber topic publisher io = ok io
  forward_times (suc n) rio_src fd_suscriber topic publisher io = do
    (line, rio_src', world) ← rio_readlineb rio_src maxline io.world
    io' ← forward_read fd_suscriber topic publisher line (record io { world = world })
    forward_times n rio_src' fd_suscriber topic publisher io'

  -- The buffer for the source is made anew on each call. The one for the destination is not
  -- used, nor is the subscriber's name.
  unfoldable pub forward_message : ℤ → ℤ → List ℤ → Bytes → Io net → Result (Io net)
  forward_message connfd_pub connfd_sus topic publisher io =
      forward_times sharing_time (rio_readinitb connfd_pub) connfd_sus topic publisher io

  abbrev pub not_null : Option Bytes → Result Bytes
  not_null none = fault null
  not_null (some s) = ok s

  -- The body for a client with a subscription.
  unfoldable pub forward_subscription : Broker → ℕ → Bytes → Io net → Result (Io net)
  forward_subscription b i publisher io = do
    name ← cell_at b.client_name_list i
    topics_number ← cell_at b.topic_list i
    pub_idx ← find_index_by_client_name publisher b
    fd_pub ← fd_at b.client_fd_list pub_idx
    suscriber ← not_null name
    sus_idx ← find_index_by_client_name suscriber b
    fd_sus ← fd_at b.client_fd_list sus_idx
    msg ← store maxline (
        codes "Se envia informacion desde ["
        ++ (publisher ++ (codes "] -> [" ++ (suscriber ++ codes "]"))))
    io' ← write_log net msg io
    forward_message fd_pub fd_sus topics_number publisher io'

  -- One test and body of `for(int i = 0; client_sus_list[i] != NULL; i++)`, with the index that
  -- comes next: at the null pointer the loop around it starts again at 0.
  unfoldable pub forward_cell : Broker → ℕ → Io net → Option Bytes → Result (ℕ × Io net)
  forward_cell b i io none = ok (0, io)
  forward_cell b i io (some publisher) =
      if str_eq publisher (codes "NONE")
      then ok (suc i, io)
      else do io' ← forward_subscription b i publisher io; ok (suc i, io')

  unfoldable pub forward_entry : Broker → ℕ → Io net → Result (ℕ × Io net)
  forward_entry b i io = do cell ← cell_at b.client_sus_list i; forward_cell b i io cell

  -- The loop goes on unless it has come back to 0.
  unfoldable pub go_on : (ℕ → Io net → Result (ℕ × Io net)) → ℕ → Io net → Result (ℕ × Io net)
  go_on rest zero io = ok (0, io)
  go_on rest (suc i) io = rest (suc i) io

  -- The entries from index i on, up to the end of the round; none of them changes the tables. The
  -- fuel counts entries.
  unfoldable pub forward_round : ℕ → Broker → ℕ → Io net → Result (ℕ × Io net)
  forward_round zero b i io = ok (i, io)
  forward_round (suc n) b i io = do
    (next, io') ← forward_entry b i io
    go_on (forward_round n b) next io'

  -- while(1), with the rounds that are left; `m` is the fuel for the entries of each round.
  unfoldable pub forward_rounds : ℕ → ℕ → Broker → Io net → Result (Io net)
  forward_rounds m zero b io = ok io
  forward_rounds m (suc n) b io = do (_, io') ← forward_round m b 0 io; forward_rounds m n b io'
