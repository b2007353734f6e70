-- ===== src/Sockets.antt =====
-- common.c: opening a listening socket and a connection, over the answers of the system.
pub mod Walk
pub mod Robust
use mqttv.Base.{Bool, true, false, Option, none, some, List, [], ◌∷◌, if◌then◌else◌}
use mqttv.Int.{ℤ, minus_one, is_negative}
use mqttv.Result.{Result, ok, fault, exits, unset}

-- An address that getaddrinfo found, with what the system answers to it: the descriptor of `socket`,
-- and whether `bind` (of open_listenfd) or `connect` (of open_clientfd) succeeds.
pub record Address : Type 0 where
  pub socket : ℤ
  pub accepted : Bool

-- The descriptor that the loop ends with, those that it opened, and those that it closed.
pub record Found : Type 0 where
  pub fd : Option ℤ
  pub opened : List ℤ
  pub closed : List ℤ

-- for (p = listp; p; p = p->ai_next), the same in both functions
unfoldable pub walk : List Address → Found
walk [] = record { fd = none; opened = []; closed = [] }
walk (p ∷ ps) =
    let rest = walk ps in
    if is_negative p.socket
    then rest
    else if p.accepted
    then record { fd = some p.socket; opened = p.socket ∷ []; closed = [] }
    else record { fd = rest.fd; opened = p.socket ∷ rest.opened; closed = p.socket ∷ rest.closed }

pub record Opened : Type 0 where
  pub result : ℤ
  pub opened : List ℤ
  pub closed : List ℤ

listen_on : Bool → Option ℤ → ℤ
listen_on listening none = minus_one
listen_on listening (some fd) = if listening then fd else minus_one

-- `listp` is set only if getaddrinfo succeeds, which the code does not test; `listening` says
-- whether `listen` succeeds.
unfoldable pub open_listenfd : Option (List Address) → Bool → Result Opened
unfolding walk listen_on
open_listenfd none listening = fault unset
open_listenfd (some listp) listening =
    let found = walk listp in
    ok (record {
      result = listen_on listening found.fd;
      opened = found.opened;
      closed = found.closed;
    })

connected : Option ℤ → ℤ
connected none = minus_one
connected (some fd) = fd

unfoldable pub open_clientfd : Option (List Address) → Result Opened
unfolding walk connected
open_clientfd none = fault unset
open_clientfd (some listp) =
    let found = walk listp in
    ok (record { result = connected found.fd; opened = found.opened; closed = found.closed })

-- Closes the socket, prints the error and leaves the process; the result of the body is the
-- descriptors that were closed.
unfoldable pub connection_error : ℤ → List ℤ × Result (Unit {0})
connection_error connfd = (connfd ∷ [], exits minus_one)
