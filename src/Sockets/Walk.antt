-- ===== src/Sockets/Walk.antt =====
-- Which address is taken, and what becomes of the other descriptors.
use mqttv.Base.{
  ◌≡◌, refl, ap, ◌∙◌, Bool, true, false, not, ◌&&◌, Option, none, some, List, [], ◌∷◌, ◌++◌, arith,
  if◌then◌else◌,
}
use mqttv.Int.{ℤ, minus_one, is_negative}
use mqttv.Result.{ok}
use mqttv.Sockets.{Address, Opened, walk, listen_on, connected, open_listenfd, open_clientfd}

-- An address that gives a socket and takes it.
abbrev pub is_good : Address → Bool
is_good p = not (is_negative p.socket) && p.accepted

abbrev pub first_good : List Address → Option ℤ
first_good [] = none
first_good (p ∷ ps) = if is_good p then some p.socket else first_good ps

abbrev pub descriptor : Option ℤ → ℤ
descriptor none = minus_one
descriptor (some fd) = fd

abbrev pub left_open : Option ℤ → List ℤ
left_open none = []
left_open (some fd) = fd ∷ []

walk_lem :
    (ps : List Address)
    → ((walk ps).fd ≡ first_good ps)
      × ((walk ps).opened ≡ (walk ps).closed ++ left_open (first_good ps))
unfolding walk
walk_lem [] = (refl, refl)
walk_lem (p ∷ ps) = ground (arith, walk_lem ps)

connected-descriptor : (o : Option ℤ) → connected o ≡ descriptor o
unfolding connected
connected-descriptor none = refl
connected-descriptor (some fd) = refl

listen_on-descriptor :
    (listening : Bool) (o : Option ℤ)
    → listen_on listening o ≡ (if listening then descriptor o else minus_one)
unfolding listen_on
listen_on-descriptor true none = refl
listen_on-descriptor false none = refl
listen_on-descriptor listening (some fd) = refl

-- `open_clientfd` returns the first descriptor that connects, or -1 if none does, and has closed
-- every other descriptor that it opened.
pub open_clientfd_lem :
    (ps : List Address)
    → (r : Opened) × (open_clientfd (some ps) ≡ ok r)
      × (r.result ≡ descriptor (first_good ps))
      × (r.opened ≡ r.closed ++ left_open (first_good ps))
unfolding open_clientfd
open_clientfd_lem ps = (
  record { result = connected (walk ps).fd; opened = (walk ps).opened; closed = (walk ps).closed },
  refl,
  connected-descriptor (walk ps).fd ∙ ap descriptor (walk_lem ps).0,
  (walk_lem ps).1,
)

-- `open_listenfd` returns the first descriptor that can be bound, if `listen` succeeds on it, and
-- -1 otherwise. It has closed every other descriptor that it opened, and leaves the bound one open,
-- also where `listen` fails and the caller gets -1.
pub open_listenfd_lem :
    (ps : List Address) (listening : Bool)
    → (r : Opened) × (open_listenfd (some ps) listening ≡ ok r)
      × (r.result ≡ (if listening then descriptor (first_good ps) else minus_one))
      × (r.opened ≡ r.closed ++ left_open (first_good ps))
unfolding open_listenfd
open_listenfd_lem ps listening = (
  record {
    result = listen_on listening (walk ps).fd;
    opened = (walk ps).opened;
    closed = (walk ps).closed;
  },
  refl,
  listen_on-descriptor listening (walk ps).fd
      ∙ ap (λ o. if listening then descriptor o else minus_one) (walk_lem ps).0,
  (walk_lem ps).1,
)
