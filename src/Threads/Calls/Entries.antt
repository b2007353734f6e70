-- ===== src/Threads/Calls/Entries.antt =====
-- One thread's way through an entry of the loop, with no other thread in between.
use mqttv.Base.{ℕ, suc, ◌≡◌, refl, Option, none, some, false, List, ◌∷◌, ◌++◌, inl, inr, Bool-cases}
use mqttv.Int.{ℤ}
use mqttv.Result.{ok, ◌>>=◌, store}
use mqttv.Result.Ensures.{Ensures, Ensures-ok, Ensures-bind}
use mqttv.CString.{Bytes, codes, str_eq}
use mqttv.Net.{Net, Io, write_log, maxline}
use mqttv.Broker.{Broker, find_index_by_client_name, fd_at}
use mqttv.Forward.{cell_at, not_null, forward_subscription, forward_cell, forward_entry}
use mqttv.Rio.Connections.{sockets}
use mqttv.Threads.Calls.{
  Route, Spot, at, reading, Call, starts_again, passes_over, chooses, Calls, here, next, choose,
}
use mqttv.Threads.Calls.Alone.{Calls-trans, with_spot, message-Calls}

-- The code in front of a read, from its own parts.
module _ (net : Net) where
  pub choose_ok :
      (b : Broker) (i : ℕ) (publisher : Bytes) (io io' : Io net) (name : Option Bytes)
      (topic : List ℤ) (pub_idx fd_pub : ℤ) (suscriber : Bytes) (sus_idx fd_sus : ℤ) (msg : Bytes)
      → cell_at b.client_name_list i ≡ ok name
      → cell_at b.topic_list i ≡ ok topic
      → find_index_by_client_name publisher b ≡ ok pub_idx
      → fd_at b.client_fd_list pub_idx ≡ ok fd_pub
      → not_null net name ≡ ok suscriber
      → find_index_by_client_name suscriber b ≡ ok sus_idx
      → fd_at b.client_fd_list sus_idx ≡ ok fd_sus
      → store maxline (
          codes "Se envia informacion desde ["
          ++ (publisher ++ (codes "] -> [" ++ (suscriber ++ codes "]"))))
        ≡ ok msg
      → write_log net msg io ≡ ok io'
      → choose net b i publisher io
        ≡ ok
            (record { fd_pub = fd_pub; fd_sus = fd_sus; topic = topic; publisher = publisher }, io')
  unfolding choose ◌>>=◌
  choose_ok b i publisher io io' name topic pub_idx fd_pub suscriber sus_idx fd_sus msg e₁ e₂ e₃ e₄
        e₅ e₆ e₇ e₈ e₉ =
      rw e₁ (rw e₂ (rw e₃ (rw e₄ (rw e₅ (rw e₆ (rw e₇ (rw e₈ (rw e₉ refl))))))))

module _ (now : Bytes) (xs ys : List Spot) (b : Broker) where
  subscription-Calls :
      (i : ℕ) (publisher : Bytes) (io : Io (sockets now)) (taken : List (Route × Bytes))
      → cell_at b.client_sus_list i ≡ ok (some publisher)
      → str_eq publisher (codes "NONE") ≡ false
      → Ensures
          (λ io'.
            (taken' : List (Route × Bytes)) × Calls now
              (with_spot now xs ys b io taken (at i))
              (with_spot now xs ys b io' taken' (at (suc i))))
          (forward_subscription (sockets now) b i publisher io)
  unfolding forward_subscription
  subscription-Calls i publisher io taken c n = Ensures-bind _ _ λ name e₁.
      Ensures-bind _ _ λ topic e₂. Ensures-bind _ _ λ pub_idx e₃. Ensures-bind _ _ λ fd_pub e₄.
        Ensures-bind _ _ λ suscriber e₅. Ensures-bind _ _ λ sus_idx e₆.
          Ensures-bind _ _ λ fd_sus e₇. Ensures-bind _ _ λ msg e₈. Ensures-bind _ _ λ io₁ e₉.
            let route : Route = record {
              fd_pub = fd_pub;
              fd_sus = fd_sus;
              topic = topic;
              publisher = publisher;
            } in
            let first : Call now (with_spot now xs ys b io taken (at i))
                (with_spot now xs ys b io₁ taken (reading i route)) =
              chooses i publisher route io₁ (xs ++ reading i route ∷ ys) c n
                (choose_ok (sockets now) b i publisher io io₁ name topic pub_idx fd_pub suscriber
                  sus_idx fd_sus msg e₁ e₂ e₃ e₄ e₅ e₆ e₇ e₈ e₉)
                (xs, ys, refl, refl) refl in
            record {
              at = λ io' h.
                  let (taken', run) = (message-Calls now xs ys b i route io₁ taken).at io' h in
                  (taken', Calls-trans now (next here first) run);
            }

  -- One entry of the loop.
  pub entry-Calls :
      (i : ℕ) (io : Io (sockets now)) (taken : List (Route × Bytes))
      → Ensures
          (λ r.
            (taken' : List (Route × Bytes)) × Calls now
              (with_spot now xs ys b io taken (at i))
              (with_spot now xs ys b r.1 taken' (at r.0)))
          (forward_entry (sockets now) b i io)
  unfolding forward_entry forward_cell
  entry-Calls i io taken = Ensures-bind _ _ λ cell e. by_cell cell e
    where
      by_cell :
          (cell : Option Bytes)
          → cell_at b.client_sus_list i ≡ ok cell
          → Ensures
              (λ r.
                (taken' : List (Route × Bytes)) × Calls now
                  (with_spot now xs ys b io taken (at i))
                  (with_spot now xs ys b r.1 taken' (at r.0)))
              (forward_cell (sockets now) b i io cell)
      by_cell none e =
          Ensures-ok (0, io)
            (taken, next here (starts_again i (xs ++ at 0 ∷ ys) e (xs, ys, refl, refl) refl))
      by_cell (some publisher) e = elim (Bool-cases (str_eq publisher (codes "NONE"))) [
        | inl n ↦ rw n (
            Ensures-ok (suc i, io)
              (
                taken,
                next here
                    (passes_over i publisher (xs ++ at (suc i) ∷ ys) e n (xs, ys, refl, refl) refl),
              ))
        | inr n ↦ rw n (
            Ensures-bind _ _ λ io' h.
              Ensures-ok (suc i, io') ((subscription-Calls i publisher io taken e n).at io' h))
      ]
