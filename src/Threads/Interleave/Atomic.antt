-- ===== src/Threads/Interleave/Atomic.antt =====
-- A registration in one step, and the same registration store by store.
use mqttv.Base.{ℕ, ◌≡◌, refl, ◌⊎◌, inl, inr, true, false, none, some, List, ◌++◌, ltb, Bool-cases}
use mqttv.Int.{ℤ}
use mqttv.Result.{ok, overrun, ◌>>=◌, guard}
use mqttv.Result.Ensures.{Ensures, Ensures-ok, Ensures-bind}
use mqttv.CString.{Bytes, codes, str_eq}
use mqttv.CString.Split.{split, cut_line}
use mqttv.Topics.{level, update_sus_info}
use mqttv.Net.{Net, Io, maxline}
use mqttv.Broker.{Broker, limit_conn_clients}
use mqttv.Broker.Register.{
  register, subscribe, put_fd, put_name, put_sus, put_row, count_client, line_text, thread_log,
}
use mqttv.Threads.Interleave.{store_fd, store_name, store_text, store_sus, store_row}

module _ (net : Net) (slots : ℕ) (information : List ℤ) where
  -- The second half of the stages, from the tables with the name.
  abbrev pub SusStored : Bytes → Bytes → Broker → Io net → Broker → Io net → Type 0
  SusStored name sus_line b io b' io' =
      (store_sus net slots name sus_line b io ≡ ok (none, b', io'))
      ⊎ ((sus : Bytes) × (levels : List Bytes) × (b₁ : Broker) × (io₁ : Io net) × (store_sus net
              slots name sus_line b io
            ≡ ok (some (sus, levels), b₁, io₁))
          × (store_row net information name sus levels b₁ io₁ ≡ ok (b', io')))

  pub record Staged (connfd : ℤ) (b : Broker) (io : Io net) (r : Broker × Io net) : Type 0 where
    pub b₁ : Broker
    pub fd_done : store_fd connfd b ≡ ok b₁
    pub name : Bytes
    pub sus_line : Bytes
    pub b₂ : Broker
    pub io₂ : Io net
    pub name_done : store_name net connfd b₁ io ≡ ok (name, sus_line, b₂, io₂)
    pub b₃ : Broker
    pub sus_done : SusStored name sus_line b₂ io₂ b₃ r.1
    pub counted_done : r.0 ≡ count_client b₃

  none_done :
      (name sus sus_line : Bytes) (b : Broker) (io io' : Io net)
      → line_text sus_line ≡ ok sus
      → str_eq sus (codes "NONE") ≡ true
      → thread_log net (name ++ codes " no tiene ninguna suscripcion") io ≡ ok io'
      → store_sus net slots name sus_line b io ≡ ok (none, put_sus sus b, io')
  unfolding store_sus store_text ◌>>=◌
  none_done name sus sus_line b io io' t e l = rw t (rw e (rw l refl))

  node_done :
      (name sus sus_line : Bytes) (b : Broker) (io : Io net) (levels : List Bytes) (node : Bytes)
      → line_text sus_line ≡ ok sus
      → str_eq sus (codes "NONE") ≡ false
      → split slots sus (codes "/") ≡ ok levels
      → level levels 0 ≡ ok node
      → store_sus net slots name sus_line b io ≡ ok (some (sus, levels), put_sus node b, io)
  unfolding store_sus store_text ◌>>=◌
  node_done name sus sus_line b io levels node t e p q = rw t (rw e (rw p (rw q refl)))

  row_done :
      (name sus : Bytes) (levels : List Bytes) (b : Broker) (io io' : Io net) (info : List ℤ)
      → thread_log net (name ++ (codes " Se encuentra suscrito a: " ++ cut_line (codes "/") sus)) io
        ≡ ok io'
      → update_sus_info levels information ≡ ok info
      → store_row net information name sus levels b io ≡ ok (put_row info b, io')
  unfolding store_row ◌>>=◌
  row_done name sus levels b io io' info l u = rw l (rw u refl)

  subscribe_stages :
      (name sus sus_line : Bytes) (b : Broker) (io : Io net)
      → line_text sus_line ≡ ok sus
      → Ensures
          (λ r. SusStored name sus_line b io r.0 r.1)
          (subscribe net slots information name sus b io)
  unfolding subscribe
  subscribe_stages name sus sus_line b io t = elim (Bool-cases (str_eq sus (codes "NONE"))) [
    | inl e ↦ rw e (
        Ensures-bind _ _ λ io' l.
          Ensures-ok (put_sus sus b, io') (inl (none_done name sus sus_line b io io' t e l)))
    | inr e ↦ rw e (
        Ensures-bind _ _ λ levels p. Ensures-bind _ _ λ node q. Ensures-bind _ _ λ io' l.
          Ensures-bind _ _ λ info u.
            Ensures-ok (put_row info (put_sus node b), io')
              (inr (
                sus,
                levels,
                put_sus node b,
                io,
                node_done name sus sus_line b io levels node t e p q,
                row_done name sus levels (put_sus node b) io io' info l u,
              )))
  ]

  fd_eq :
      (connfd : ℤ) (b : Broker) (u : Unit {0})
      → guard (ltb b.fd_idx limit_conn_clients) overrun ≡ ok u
      → store_fd connfd b ≡ ok (put_fd connfd b)
  unfolding store_fd ◌>>=◌
  fd_eq connfd b u g = rw g refl

  name_eq :
      (connfd : ℤ) (b : Broker) (io io' : Io net) (name : Bytes)
      (l₁ l₂ : Bytes × net.Reader × net.World)
      → net.rio_readlineb (net.rio_readinitb connfd) maxline io.world ≡ ok l₁
      → net.rio_readlineb l₁.1 maxline l₁.2 ≡ ok l₂
      → line_text l₁.0 ≡ ok name
      → thread_log net (codes "Se ha conectado " ++ name) (record io { world = l₂.2 }) ≡ ok io'
      → store_name net connfd b io ≡ ok (name, l₂.0, put_name name b, io')
  unfolding store_name ◌>>=◌
  name_eq connfd b io io' name l₁ l₂ e₁ e₂ e₃ e₄ = rw e₁ (rw e₂ (rw e₃ (rw e₄ refl)))

  pub register_stages :
      (connfd : ℤ) (b : Broker) (io : Io net)
      → Ensures (λ r. Staged connfd b io r) (register net slots information connfd b io)
  unfolding register
  register_stages connfd b io = Ensures-bind _ _ λ u g. Ensures-bind _ _ λ l₁ e₁.
      Ensures-bind _ _ λ l₂ e₂. Ensures-bind _ _ λ name e₃. Ensures-bind _ _ λ io₁ e₄.
        Ensures-bind _ _ λ sus e₅. Ensures-bind _ _ λ r e₆.
          Ensures-ok (count_client r.0, r.1)
            (record {
              b₁ = put_fd connfd b;
              fd_done = fd_eq connfd b u g;
              name = name;
              sus_line = l₂.0;
              b₂ = put_name name (put_fd connfd b);
              io₂ = io₁;
              name_done = name_eq connfd (put_fd connfd b) io io₁ name l₁ l₂ e₁ e₂ e₃ e₄;
              b₃ = r.0;
              sus_done =
                  (subscribe_stages name sus l₂.0 (put_name name (put_fd connfd b)) io₁ e₅).at r e₆;
              counted_done = refl;
            })
