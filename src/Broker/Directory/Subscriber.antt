-- ===== src/Broker/Directory/Subscriber.antt =====
-- The entry of the directory that `thread` of broker_server.c makes for a subscriber.
use mqttv.Base.{
  ℕ, zero, suc, ◌+◌, ◌≤◌, ◌<◌, ◌≡◌, refl, ◌≢◌, Option, some, List, [], ◌∷◌, ◌++◌, arith, set,
  length, All,
}
use mqttv.Int.{ℤ}
use mqttv.Result.{ok}
use mqttv.CString.{Bytes, codes, newline, HasNoNul}
use mqttv.CString.Split.RoundTrip.{join, IsWord}
use mqttv.Topics.Filters.{IsSupported, picked, wanted, and_each}
use mqttv.Net.{Net, Io, maxline}
use mqttv.Broker.{Broker, limit_conn_clients}
use mqttv.Broker.Tables.{IsValid}
use mqttv.Broker.Register.{register, put_fd, put_name, put_sus, put_row, count_client}
use mqttv.Broker.Register.Subscription.{register_subscriber}
use mqttv.Broker.Directory.{view, directory}

view-set_row :
    (n : ℕ) (xs : List (Option Bytes)) (fds : List ℤ) (ss : List (Option Bytes))
    (rs : List (List ℤ)) (name sus : Bytes) (fd : ℤ) (row : List ℤ)
    → n < length xs
    → n < length fds
    → n < length ss
    → n < length rs
    → view (suc n) (set xs n (some name)) (set fds n fd) (set ss n (some sus)) (set rs n row)
      ≡ view n xs fds ss rs ++ record { name = name; fd = fd; sus = sus; row = row } ∷ []
unfolding view
view-set_row n [] fds ss rs name sus fd row lx lf ls lr = elim lx [ ]
view-set_row n (x ∷ xs) [] ss rs name sus fd row lx lf ls lr = elim lf [ ]
view-set_row n (x ∷ xs) (f ∷ fds) [] rs name sus fd row lx lf ls lr = elim ls [ ]
view-set_row n (x ∷ xs) (f ∷ fds) (s ∷ ss) [] name sus fd row lx lf ls lr = elim lr [ ]
view-set_row zero (x ∷ xs) (f ∷ fds) (s ∷ ss) (r ∷ rs) name sus fd row lx lf ls lr = refl
view-set_row (suc n) (x ∷ xs) (f ∷ fds) (s ∷ ss) (r ∷ rs) name sus fd row lx lf ls lr =
    rw
      (view-set_row n xs fds ss rs name sus fd row (omega arith) (omega arith) (omega arith)
        (omega arith))
      refl

-- What the four stores and the count of a registration do to the directory.
pub count_client-directory :
    (connfd : ℤ) (name node : Bytes) (row : List ℤ) (b : Broker)
    → IsValid b
    → b.fd_idx < limit_conn_clients
    → (directory (count_client (put_row row (put_sus node (put_name name (put_fd connfd b)))))
        ≡ directory b ++ record { name = name; fd = connfd; sus = node; row = row } ∷ [])
      × ((count_client (put_row row (put_sus node (put_name name (put_fd connfd b))))).fd_idx
          ≡ suc b.fd_idx)
unfolding directory count_client put_row put_sus put_name put_fd
count_client-directory connfd name node row b v free =
    let count : suc b.fd_idx ≡ b.fd_idx + 1 = omega arith in
    (
      rw (← count) (
          view-set_row b.fd_idx b.client_name_list b.client_fd_list b.client_sus_list b.topic_list
            name node connfd row (omega (arith, free, v.names_size))
            (omega (arith, free, v.fds_size)) (omega (arith, free, v.sus_size))
            (omega (arith, free, v.topics_size))),
      omega arith,
    )

module _ (net : Net) (slots : ℕ) (a b c d e f : ℤ) where
  open net use {World, Reader, rio_readinitb, rio_readlineb, stamp}

  abbrev row : List ℤ
  row = a ∷ b ∷ c ∷ d ∷ e ∷ f ∷ []

  -- With tables in order and room for a client: one that sends its name and a node with a filter
  -- that the broker reads as the README describes it (IsSupported), in texts without a NUL, of less
  -- than 1000 bytes, whose levels hold no `/`, are not empty and fit into the array of split
  -- (`slots`, two cells in the program), where the subscription is not NONE and the text of the time is
  -- shorter than 100 bytes, is one more entry behind the others of the directory: with the name and the node that it sent,
  -- the descriptor of its connection, and a row that has exactly the topics that the filter asks for,
  -- but for those whose cell of the array on the stack was -1 by chance. No other entry changes, one
  -- more client is counted, and no more than the two lines is read.
  pub subscriber_entered :
      (connfd : ℤ) (s : Broker) (io : Io net) (name node : Bytes) (filter : List Bytes)
      (rio rio' : Reader) (w₁ w₂ : World)
      → IsValid s
      → s.fd_idx < limit_conn_clients
      → rio_readlineb (rio_readinitb connfd) maxline io.world ≡ ok (name ++ newline, rio, w₁)
      → rio_readlineb rio maxline w₁ ≡ ok (join b'/' (node ∷ filter) ++ newline, rio', w₂)
      → HasNoNul name
      → HasNoNul (join b'/' (node ∷ filter))
      → All (IsWord (codes "/")) (node ∷ filter)
      → length (node ∷ filter) ≤ slots
      → join b'/' (node ∷ filter) ≢ codes "NONE"
      → IsSupported filter
      → length name < 1000
      → length (join b'/' (node ∷ filter)) < 1000
      → length (stamp w₂) < 100
      → (row' : List ℤ) × (s' : Broker) × (io' : Io net) × (register net slots row connfd s io
          ≡ ok (s', io'))
        × (directory s'
            ≡ directory s ++ record { name = name; fd = connfd; sus = node; row = row' } ∷ [])
        × (s'.fd_idx ≡ suc s.fd_idx)
        × (picked row' ≡ and_each (wanted filter) (picked row))
        × (io'.world ≡ w₂)
  subscriber_entered connfd s io name node filter rio rio' w₁ w₂ v free r₁ r₂ n₁ n₂ words fits ne
        supported short shorter k =
      let (row', io', registered, exact, world) =
        register_subscriber net slots a b c d e f connfd s io name node filter rio rio' w₁ w₂ free
          r₁ r₂ n₁ n₂ words fits ne supported short shorter k in
      let (entry, counted) = count_client-directory connfd name node row' s v free in
      (row', _, io', registered, entry, counted, exact, world)
