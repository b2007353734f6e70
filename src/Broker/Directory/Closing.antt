-- ===== src/Broker/Directory/Closing.antt =====
-- What SIGINT does to the clients of the directory.
use mqttv.Base.{ℕ, zero, suc, ◌≤◌, ◌≡◌, refl, ap, Option, List, [], ◌∷◌, arith, length, map}
use mqttv.Int.{ℤ}
use mqttv.CString.{Bytes}
use mqttv.Broker.{Broker, sig_handler, close_from}
use mqttv.Broker.Tables.{IsValid}
use mqttv.Broker.Directory.{view, directory}

close_from-view :
    (n : ℕ) (xs : List (Option Bytes)) (fds : List ℤ) (ss : List (Option Bytes))
    (rs : List (List ℤ))
    → n ≤ length xs
    → n ≤ length fds
    → n ≤ length ss
    → n ≤ length rs
    → close_from n fds ≡ map (λ c. c.fd) (view n xs fds ss rs)
unfolding close_from view
close_from-view zero xs fds ss rs lx lf ls lr = refl
close_from-view (suc n) [] fds ss rs lx lf ls lr = elim lx [ ]
close_from-view (suc n) (x ∷ xs) [] ss rs lx lf ls lr = elim lf [ ]
close_from-view (suc n) (x ∷ xs) (f ∷ fds) [] rs lx lf ls lr = elim ls [ ]
close_from-view (suc n) (x ∷ xs) (f ∷ fds) (s ∷ ss) [] lx lf ls lr = elim lr [ ]
close_from-view (suc n) (x ∷ xs) (f ∷ fds) (s ∷ ss) (r ∷ rs) lx lf ls lr =
    ap (◌∷◌ f)
      (close_from-view n xs fds ss rs (omega arith) (omega arith) (omega arith) (omega arith))

-- With tables in order, the handler of SIGINT closes the connection of each client of the directory,
-- once, in their order, and nothing else, and leaves an empty directory.
pub sig_handler-closes :
    (b : Broker)
    → IsValid b
    → ((sig_handler b).0 ≡ map (λ c. c.fd) (directory b)) × (directory (sig_handler b).1 ≡ [])
unfolding sig_handler directory view
sig_handler-closes b v = (
  close_from-view b.fd_idx b.client_name_list b.client_fd_list b.client_sus_list b.topic_list
      (omega (arith, v.count, v.names_size)) (omega (arith, v.count, v.fds_size))
      (omega (arith, v.count, v.sus_size)) (omega (arith, v.count, v.topics_size)),
  refl,
)
