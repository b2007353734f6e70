-- ===== src/Broker/Register/Overrun.antt =====
-- Subscriptions with more levels than buf_suscription_info has cells.
use mqttv.Base.{ℕ, ◌<◌, ◌≡◌, refl, ◌≢◌, lt→ltb, List, ◌++◌, length}
use mqttv.Int.{ℤ}
use mqttv.Result.{ok, fault, overrun, ◌>>=◌}
use mqttv.CString.{Bytes, codes, newline, HasNoNul, str_eq_ne}
use mqttv.CString.Split.Tokens.{tokens}
use mqttv.CString.Split.Reference.{split_lem}
use mqttv.Net.{Net, Io, maxline}
use mqttv.Broker.{Broker, limit_conn_clients}
use mqttv.Broker.Register.{register, subscribe, thread_log, put_fd, put_name}
use mqttv.Broker.Register.Greeting.{line_text-newline}

module _ (net : Net) where
  open net use {World, Reader, rio_readinitb, rio_readlineb}

  subscribe_overruns :
      (slots : ℕ) (information : List ℤ) (name sus : Bytes) (b : Broker) (io : Io net)
      → sus ≢ codes "NONE"
      → slots < length (tokens (codes "/") sus)
      → subscribe net slots information name sus b io ≡ fault overrun
  unfolding subscribe ◌>>=◌
  subscribe_overruns slots information name sus b io ne many =
      rw (str_eq_ne sus (codes "NONE") ne) (
        rw (split_lem slots sus (codes "/"))
          (rw (lt→ltb slots (length (tokens (codes "/") sus)) many) refl))

  -- A client whose subscription has more levels than buf_suscription_info has cells makes the broker
  -- write behind the end of that array.
  pub register_overruns :
      (slots : ℕ) (information : List ℤ) (connfd : ℤ) (b : Broker) (io io' : Io net)
      (name sus : Bytes) (rio rio' : Reader) (w₁ w₂ : World)
      → b.fd_idx < limit_conn_clients
      → rio_readlineb (rio_readinitb connfd) maxline io.world ≡ ok (name ++ newline, rio, w₁)
      → rio_readlineb rio maxline w₁ ≡ ok (sus ++ newline, rio', w₂)
      → HasNoNul name
      → HasNoNul sus
      → thread_log net (codes "Se ha conectado " ++ name) (record io { world = w₂ }) ≡ ok io'
      → sus ≢ codes "NONE"
      → slots < length (tokens (codes "/") sus)
      → register net slots information connfd b io ≡ fault overrun
  unfolding register ◌>>=◌
  register_overruns slots information connfd b io io' name sus rio rio' w₁ w₂ free r₁ r₂ n₁ n₂
        logged ne many =
      rw (lt→ltb b.fd_idx limit_conn_clients free) (
        rw r₁ (
          rw r₂ (
            rw (line_text-newline name n₁) (
              rw logged (
                rw (line_text-newline sus n₂) (
                  rw
                    (subscribe_overruns slots information name sus (put_name name (put_fd connfd b))
                      io' ne many)
                    refl))))))
