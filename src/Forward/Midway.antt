-- ===== src/Forward/Midway.antt =====
-- What a thread that forwards sees of a client in the middle of its registration: `thread` of
-- broker_server.c holds `sem_mutex` then, which the loop of `forward_messages` does not wait for.
use mqttv.Base.{
  ℕ, suc, ◌+◌, ◌<◌, ◌≡◌, ap, ◌∙◌, ◌≢◌, some, List, arith, get_elem?, get_elem?-set_self, length,
}
use mqttv.Int.{ℤ, pos}
use mqttv.Result.{ok, ◌>>=◌, bind_assoc}
use mqttv.CString.{Bytes, codes}
use mqttv.Net.{Net, Io, write_log, maxline}
use mqttv.Broker.{Broker, limit_conn_clients, find_index_by_client_name}
use mqttv.Broker.Tables.{IsValid, Filled-set}
use mqttv.Broker.Lookup.{IsFirst}
use mqttv.Broker.Register.{put_fd, put_name, put_sus}
use mqttv.Forward.{forward_message, forward_entry}
use mqttv.Forward.Entry.{find_from_first, entry_subscribed, subscription_routes, route_text}

-- The tables after the store of the subscribed node, before the row of topics is copied and the
-- client is counted.
abbrev pub midway : ℤ → Bytes → Bytes → Broker → Broker
midway connfd name node b = put_sus node (put_name name (put_fd connfd b))

module _ (net : Net) where
  -- In the middle of a registration, from the store of the subscribed node on, a thread that comes
  -- to the new client's cell forwards to it already, by the row of topics that stood in the matrix
  -- before, whatever the client has asked for.
  pub forward_entry-midway :
      (b : Broker) (connfd : ℤ) (name node : Bytes) (k m : ℕ) (row : List ℤ) (fd_pub fd_sus : ℤ)
      (io : Io net)
      → IsValid b
      → b.fd_idx < limit_conn_clients
      → node ≢ codes "NONE"
      → get_elem? b.topic_list b.fd_idx ≡ some row
      → IsFirst node k (midway connfd name node b).client_name_list
      → IsFirst name m (midway connfd name node b).client_name_list
      → get_elem? (midway connfd name node b).client_fd_list k ≡ some fd_pub
      → get_elem? (midway connfd name node b).client_fd_list m ≡ some fd_sus
      → length node + length name + 50 < maxline
      → forward_entry net (midway connfd name node b) b.fd_idx io ≡ (
          write_log net (route_text net node name) io >>= λ io₁.
          forward_message net fd_pub fd_sus row node io₁ >>= λ io₂. ok (suc b.fd_idx, io₂))
  unfolding put_sus put_name put_fd find_index_by_client_name
  forward_entry-midway b connfd name node k m row fd_pub fd_sus io v free ne hr fp fn dp dn short =
      let names =
        Filled-set b.fd_idx b.client_name_list name v.names (omega (arith, v.names_size)) in
      entry_subscribed net (midway connfd name node b) b.fd_idx node io
        (get_elem?-set_self b.client_sus_list b.fd_idx (some node) (omega (arith, v.sus_size))) ne
      ∙ ap (λ r. r >>= λ io'. ok (suc b.fd_idx, io'))
          (subscription_routes net (midway connfd name node b) b.fd_idx k m node name row fd_pub
            fd_sus io
            (get_elem?-set_self b.client_name_list b.fd_idx (some name)
              (omega (arith, v.names_size)))
            hr
            (find_from_first node k 0 _ (suc b.fd_idx) names fp
              ∙ ap (λ (t : ℕ). ok (pos t)) (omega arith))
            (find_from_first name m 0 _ (suc b.fd_idx) names fn
              ∙ ap (λ (t : ℕ). ok (pos t)) (omega arith))
            dp dn short)
      ∙ bind_assoc _ _ _
