-- ===== src/Forward/Service.antt =====
-- The loop of `forward_messages` in terms of the directory of clients.
use mqttv.Base.{
  ℕ, zero, suc, ◌+◌, ◌≤◌, ◌<◌, ◌≡◌, refl, sym, ◌∙◌, inl, inr, some, List, [], ◌∷◌, ◌++◌, arith,
  if◌then◌else◌, get_elem?, length, Bool-cases, drop, ltb, ltb→lt,
}
use native.Mathlib.Decide.{dec_lt}
use mqttv.Result.{Result, ok, fault, overrun, ◌>>=◌, store, bind_assoc, bind_congr, bind_through}
use mqttv.CString.{codes, str_eq}
use mqttv.Net.{Net, Io, write_log, maxline}
use mqttv.Broker.{Broker, limit_conn_clients, find_index_by_client_name, fd_at}
use mqttv.Broker.Tables.{IsValid, get_elem?_null}
use mqttv.Broker.Directory.{
  Client, Holds, directory, find_fd, or_overrun, fd_of_name, get_elem?-directory, length-directory,
}
use mqttv.Forward.Entry.{get_elem?_end}
use mqttv.Forward.{
  cell_at-some, cell_at_end, forward_message, forward_subscription, forward_cell, forward_entry,
  go_on, forward_round,
}

drop_cell {ℓ} :
    {A : Type ℓ} (xs : List A) (i : ℕ) (x : A)
    → get_elem? xs i ≡ some x
    → drop i xs ≡ x ∷ drop (suc i) xs
drop_cell [] i x h = cc
drop_cell (y ∷ xs) zero x h = ground arith
drop_cell (y ∷ xs) (suc i) x h = drop_cell xs i x h

drop_end {ℓ} : {A : Type ℓ} (xs : List A) (i : ℕ) → length xs ≤ i → drop i xs ≡ []
drop_end [] zero h = refl
drop_end [] (suc i) h = refl
drop_end (x ∷ xs) zero h = absurd (omega arith)
drop_end (x ∷ xs) (suc i) h = drop_end xs i (omega arith)

module _ (net : Net) where
  -- One message goes from the first client that has the name of the node to the first client that
  -- has the subscriber's name.
  unfoldable pub deliver : List Client → Client → Io net → Result (Io net)
  deliver clients c io = do
    fd_pub ← or_overrun (find_fd c.sus clients)
    fd_sus ← or_overrun (find_fd c.name clients)
    msg ← store maxline (
        codes "Se envia informacion desde ["
        ++ (c.sus ++ (codes "] -> [" ++ (c.name ++ codes "]"))))
    io' ← write_log net msg io
    forward_message net fd_pub fd_sus c.row c.sus io'

  unfoldable pub serve_client : List Client → Client → Io net → Result (Io net)
  serve_client clients c io = if str_eq c.sus (codes "NONE") then ok io else deliver clients c io

  -- The clients that are left to serve, in their order.
  unfoldable pub serve_all : List Client → List Client → Io net → Result (Io net)
  serve_all clients [] io = ok io
  serve_all clients (c ∷ cs) io = serve_client clients c io >>= serve_all clients cs

  subscription_delivers :
      (b : Broker) (i : ℕ) (c : Client) (io : Io net)
      → IsValid b
      → Holds b.client_name_list b.client_fd_list b.client_sus_list b.topic_list i c
      → forward_subscription net b i c.sus io ≡ deliver (directory b) c io
  unfolding forward_subscription deliver ◌>>=◌
  subscription_delivers b i c io v (hn, hf, hs, hr) = rw (cell_at-some b.client_name_list i _ hn) (
      rw (cell_at-some b.topic_list i c.row hr) (
        bind_through (find_index_by_client_name c.sus b) (fd_at b.client_fd_list)
          (or_overrun (find_fd c.sus (directory b))) _ (fd_of_name c.sus b v)
        ∙ bind_congr (or_overrun (find_fd c.sus (directory b))) _ _ λ fd_pub.
          bind_through (find_index_by_client_name c.name b) (fd_at b.client_fd_list)
            (or_overrun (find_fd c.name (directory b))) _ (fd_of_name c.name b v)))

  -- The null pointer behind the last client ends a round; with ten clients there is none.
  abbrev pub round_end : Broker → Io net → Result (ℕ × Io net)
  round_end b io = if ltb b.fd_idx limit_conn_clients then ok (0, io) else fault overrun

  entry_serves :
      (b : Broker) (i : ℕ) (c : Client) (io : Io net)
      → IsValid b
      → Holds b.client_name_list b.client_fd_list b.client_sus_list b.topic_list i c
      → forward_entry net b i io ≡ (serve_client (directory b) c io >>= λ io'. ok (suc i, io'))
  unfolding forward_entry forward_cell serve_client ◌>>=◌
  entry_serves b i c io v held =
      rw (cell_at-some b.client_sus_list i _ held.2)
        (elim (Bool-cases (str_eq c.sus (codes "NONE"))) [
          | inl e ↦ rw e refl
          | inr e ↦ rw e (rw (subscription_delivers b i c io v held) refl)
        ])

  entry_ends :
      (b : Broker) (io : Io net) → IsValid b → forward_entry net b b.fd_idx io ≡ round_end b io
  unfolding forward_entry forward_cell ◌>>=◌
  entry_ends b io v = elim (Bool-cases (ltb b.fd_idx limit_conn_clients)) [
    | inl free ↦ rw free (
        rw
          (cell_at-some b.client_sus_list b.fd_idx _ (
            get_elem?_null b.fd_idx b.client_sus_list v.sus
              (omega (arith, v.sus_size, ltb→lt b.fd_idx limit_conn_clients free))))
          refl)
    | inr full ↦ rw full (
        rw
          (cell_at_end b.client_sus_list b.fd_idx
            (get_elem?_end b.client_sus_list b.fd_idx (ground (arith, v.sus_size))))
          refl)
  ]

  go_on_end :
      (rest : ℕ → Io net → Result (ℕ × Io net)) (b : Broker) (io : Io net)
      → (round_end b io >>= λ r. go_on net rest r.0 r.1) ≡ round_end b io
  unfolding go_on ◌>>=◌
  go_on_end rest b io = elim (Bool-cases (ltb b.fd_idx limit_conn_clients)) [
    | inl free ↦ rw free refl
    | inr full ↦ rw full refl
  ]

  round_from :
      (n : ℕ) (b : Broker) (i : ℕ) (io : Io net)
      → IsValid b
      → i ≤ b.fd_idx
      → b.fd_idx < i + n
      → forward_round net n b i io
        ≡ (serve_all (directory b) (drop i (directory b)) io >>= round_end b)
  unfolding forward_round serve_all go_on ◌>>=◌
  round_from zero b i io v le h = absurd (omega arith)
  round_from (suc n) b i io v le h = elim (dec_lt i b.fd_idx) [
    | yes lt ↦
        let (c, p, held) = get_elem?-directory b i v lt in
        rw (entry_serves b i c io v held) (
          rw (drop_cell (directory b) i c p) (
            bind_assoc (serve_client (directory b) c io) _ _
            ∙ bind_congr (serve_client (directory b) c io) _ _
                (λ io'. round_from n b (suc i) io' v (omega arith) (omega arith))
            ∙ sym (bind_assoc (serve_client (directory b) c io) _ _)))
    | no ge ↦
        let e : i ≡ b.fd_idx = omega arith in
        rw e (
          rw (entry_ends b io v) (
            rw (drop_end (directory b) b.fd_idx (length-directory b))
              (go_on_end (forward_round net n b) b io)))
  ]

  -- From tables in order, with fuel for one entry more than there are clients, a round serves the
  -- clients of the directory in their order, each one that has a subscription once: a message goes
  -- from the first client that has the subscribed name to the first client that has the
  -- subscriber's name, by the subscriber's row, and a name that no client has is an access out of
  -- bounds. Then the round comes back to index 0, or reads behind the table if ten clients are in it.
  pub forward_round-serves :
      (n : ℕ) (b : Broker) (io : Io net)
      → IsValid b
      → b.fd_idx < n
      → forward_round net n b 0 io ≡ (serve_all (directory b) (directory b) io >>= round_end b)
  forward_round-serves n b io v h = round_from n b 0 io v (omega arith) (omega arith)
