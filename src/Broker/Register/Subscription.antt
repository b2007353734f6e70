-- ===== src/Broker/Register/Subscription.antt =====
-- What the broker stores for a client with a subscription.
use mqttv.Base.{
  ℕ, ◌*◌, ◌≤◌, ◌<◌, ◌≡◌, refl, ◌≢◌, List, [], ◌∷◌, ◌++◌, arith, lt→ltb, length, length-append, All,
}
use mqttv.Int.{ℤ}
use mqttv.Result.{ok, ◌>>=◌, store_fits, >>=-eq-ok}
use mqttv.Result.Ensures.{ok_injective}
use mqttv.CString.{Bytes, codes, newline, HasNoNul, str_eq_ne, is_delim}
use mqttv.CString.Split.{cut_line, span_token}
use mqttv.CString.Split.RoundTrip.{join, IsWord, split-join}
use mqttv.Topics.{level-some, update_sus_info}
use mqttv.Topics.Filters.{IsSupported, picked, wanted, and_each}
use mqttv.Topics.Selection.{update_sus_info-wanted}
use mqttv.Net.{Net, Io, write_log, maxline}
use mqttv.Broker.{Broker, limit_conn_clients}
use mqttv.Broker.Register.{
  register, subscribe, thread_log, put_fd, put_name, put_sus, put_row, count_client,
}
use mqttv.Broker.Register.Greeting.{line_text-newline}

length-span_token : (delim s : Bytes) → length (span_token delim s) ≤ length s
unfolding span_token
length-span_token delim [] = omega arith
length-span_token delim (c ∷ s) = ground (arith, length-span_token delim s)

length-cut_line : (delim s : Bytes) → length (cut_line delim s) ≤ length s
unfolding cut_line
length-cut_line delim [] = omega arith
length-cut_line delim (c ∷ s) = ground (arith, length-cut_line delim s, length-span_token delim s)

module _ (net : Net) where
  open net use {World, Reader, rio_readinitb, rio_readlineb, stamp}

  abbrev pub with_line : Bytes → Io net → Io net
  with_line text io = record io { log = io.log ++ ((stamp io.world ++ text) ++ newline) ∷ [] }

  -- A text of at most 4000 bytes and a short time fit into the buffers of the log.
  pub logged :
      (text : Bytes) (io : Io net)
      → length text ≤ 4000
      → length (stamp io.world) < 100
      → thread_log net text io ≡ ok (with_line text io)
  unfolding thread_log write_log ◌>>=◌
  logged text io h k = rw (store_fits (maxline * 3) text (omega arith)) (
      rw (
        store_fits maxline (stamp io.world ++ text)
          (omega (arith, length-append (stamp io.world) text))))

  module _ (slots : ℕ) (a b c d e f : ℤ) where
    abbrev row : List ℤ
    row = a ∷ b ∷ c ∷ d ∷ e ∷ f ∷ []

    abbrev topic_text : Bytes → List Bytes → Bytes
    topic_text node filter = join b'/' (node ∷ filter)

    abbrev subscribed_text : Bytes → Bytes → Bytes
    subscribed_text name sus =
        name ++ (codes " Se encuentra suscrito a: " ++ cut_line (codes "/") sus)

    subscribe_lem :
        (name node : Bytes) (filter : List Bytes) (row' : List ℤ) (s : Broker) (io : Io net)
        → All (IsWord (codes "/")) (node ∷ filter)
        → length (node ∷ filter) ≤ slots
        → topic_text node filter ≢ codes "NONE"
        → update_sus_info (node ∷ filter) row ≡ ok row'
        → length name < 1000
        → length (topic_text node filter) < 1000
        → length (stamp io.world) < 100
        → subscribe net slots row name (topic_text node filter) s io
          ≡ ok (
            put_row row' (put_sus node s),
            with_line (subscribed_text name (topic_text node filter)) io,
          )
    unfolding subscribe ◌>>=◌
    subscribe_lem name node filter row' s io words fits ne u short shorter k =
        rw (str_eq_ne (topic_text node filter) (codes "NONE") ne) (
          rw
            (split-join slots (codes "/") b'/' (node ∷ filter) (unfold is_delim in refl) words fits)
            (rw (level-some (node ∷ filter) 0 node refl) (
              rw
                (logged (subscribed_text name (topic_text node filter)) io
                  (omega (
                    arith,
                    length-append name (
                        codes " Se encuentra suscrito a: "
                        ++ cut_line (codes "/") (topic_text node filter)),
                    length-cut_line (codes "/") (topic_text node filter),
                  ))
                  k)
                (rw u))))

    -- A client that sends its name and a node with a filter of IsSupported, in
    -- texts that the buffers have room for, is registered behind the others: under its name and
    -- descriptor, with the node, and with a row that has exactly the topics that the filter asks for,
    -- but for those whose cell of the array on the stack was -1 by chance.
    pub register_subscriber :
        (connfd : ℤ) (s : Broker) (io : Io net) (name node : Bytes) (filter : List Bytes)
        (rio rio' : Reader) (w₁ w₂ : World)
        → s.fd_idx < limit_conn_clients
        → rio_readlineb (rio_readinitb connfd) maxline io.world ≡ ok (name ++ newline, rio, w₁)
        → rio_readlineb rio maxline w₁ ≡ ok (topic_text node filter ++ newline, rio', w₂)
        → HasNoNul name
        → HasNoNul (topic_text node filter)
        → All (IsWord (codes "/")) (node ∷ filter)
        → length (node ∷ filter) ≤ slots
        → topic_text node filter ≢ codes "NONE"
        → IsSupported filter
        → length name < 1000
        → length (topic_text node filter) < 1000
        → length (stamp w₂) < 100
        → (row' : List ℤ) × (io' : Io net) × (register net slots row connfd s io
            ≡ ok
                (count_client (put_row row' (put_sus node (put_name name (put_fd connfd s)))), io'))
          × (picked row' ≡ and_each (wanted filter) (picked row))
          × (io'.world ≡ w₂)
    unfolding register ◌>>=◌
    register_subscriber connfd s io name node filter rio rio' w₁ w₂ free r₁ r₂ n₁ n₂ words fits ne
          supported short shorter k =
        let (row', u, p) = row_of in
        let io₁ = with_line (codes "Se ha conectado " ++ name) (record io { world = w₂ }) in
        (
          row',
          with_line (subscribed_text name (topic_text node filter)) io₁,
          rw (lt→ltb s.fd_idx limit_conn_clients free) (
              rw r₁ (
                rw r₂ (
                  rw (line_text-newline name n₁) (
                    rw
                      (logged (codes "Se ha conectado " ++ name) (record io { world = w₂ })
                        (omega arith) k)
                      (rw (line_text-newline (topic_text node filter) n₂) (
                        rw (
                          subscribe_lem name node filter row' (put_name name (put_fd connfd s)) io₁
                            words fits ne u short shorter k))))))),
          p,
          refl,
        )
      where
        row_of :
            (r : List ℤ) × (update_sus_info (node ∷ filter) row ≡ ok r)
            × (picked r ≡ and_each (wanted filter) (picked row))
        row_of =
            let (r, u, q) =
              >>=-eq-ok (update_sus_info (node ∷ filter) row) (λ t. ok (picked t))
                (update_sus_info-wanted a b c d e f node filter supported) in
            (r, u, ok_injective _ _ q)
