-- ===== src/Sync/Peers.antt =====
-- The connections of a node in internal/dnsengine/sync.go: checkAuthToken, the handshake of
-- handleConnection in both directions, its clean-up, and the test on an address from peer exchange.
use next_path.Base.Map
use next_path.Base.Map.{Map}
use next_path.Base.{
  ℕ, Bool, true, false, not, ◌&&◌, ◌||◌, List, ◌∷◌, ite, Option, none, some, ◌==◌, leb,
  if◌then◌else◌, length,
}
use next_path.Net.{Bytes, Bytes-discrete}
use next_path.Sync.{SafeConn, should_keep_new_connection}
use next_path.Text.{is_empty}

pub record SyncHandshake : Type 0 where
  pub uuid : ℕ
  pub port : ℕ
  pub pool_net : Bytes
  pub pool_net6 : Bytes
  pub auth_token : Bytes

-- A pointer to a connection: its identity, and what the choice between two reads.
pub record Conn : Type 0 where
  pub pointer : ℕ
  pub safe : SafeConn

-- What the handshake reads and changes; `done` is the closed channel, and `closed` the connections
-- that were closed, last first.
pub record Node : Type 0 where
  pub node_uuid : ℕ
  pub pool_net : Bytes
  pub pool_net6 : Bytes
  pub auth_token : Bytes
  pub done : Bool
  pub conns : Map Bytes Conn
  pub active_dials : Map Bytes ℕ
  pub closed : List ℕ

abbrev pub equal : Bytes → Bytes → Bool
equal a b = ite (Bytes-discrete a b) true false

-- Without a token of its own a node takes any.
unfoldable pub check_auth_token : Node → Bytes → Bool
check_auth_token n supplied = if is_empty n.auth_token then true else equal supplied n.auth_token

-- `s.conns[selfAddr] = sc`, and for an outgoing one the end of the dial.
unfoldable pub enter : Bytes → Conn → Node → Node
enter addr c n =
    let conns = Map.put Bytes-discrete addr c n.conns in
    if c.safe.is_outgoing
    then record n { conns = conns; active_dials = Map.delete Bytes-discrete addr n.active_dials }
    else record n { conns = conns }

abbrev pub close_conn : ℕ → Node → Node
close_conn pointer n = record n { closed = pointer ∷ n.closed }

-- The choice between a connection and the one that is entered under its address, if any; `none` is a
-- return without an entry. `local_canonical` is the local address of the connection with the port of
-- this node.
unfoldable pub choose_entry : Bytes → Bytes → Conn → Node → Node × Option Bytes
choose_entry local_canonical addr c n = elim (Map.get Bytes-discrete addr n.conns) [
  | none ↦ (enter addr c n, some addr)
  | some old ↦
      if old.pointer == c.pointer
      then (enter addr c n, some addr)
      else if should_keep_new_connection n.node_uuid local_canonical old.safe c.safe addr
      then (enter addr c (close_conn old.pointer n), some addr)
      else (n, none)
]

-- The section under the lock.
abbrev pub register : Bytes → Bytes → Conn → Node → Node × Option Bytes
register local_canonical addr c n =
    if n.done then (n, none) else choose_entry local_canonical addr c n

-- The tests on a handshake that was read. `responds` says that the answer of an incoming connection
-- found room in its channel, and `self_addr` is the address of the peer with the port of its
-- handshake, if it is a TCP address.
unfoldable pub shake_hands :
    Bool → Bool → (ℕ → Option Bytes) → Bytes → ℕ → SyncHandshake → Node → Node × Option Bytes
shake_hands is_outgoing responds self_addr local_canonical pointer h n =
    let c : Conn = record {
      pointer = pointer;
      safe = record { peer_uuid = h.uuid; is_outgoing = is_outgoing };
    } in
    let found : Node × Option Bytes = elim (self_addr h.port) [
      | none ↦ (n, none)
      | some addr ↦
          if not is_outgoing
            && (not (equal h.pool_net n.pool_net) || not (equal h.pool_net6 n.pool_net6))
          then (n, none)
          else if not is_outgoing && not responds
          then (n, none)
          else register local_canonical addr c n
    ] in
    if not (check_auth_token n h.auth_token)
    then (n, none)
    else if h.uuid == n.node_uuid
    then (n, none)
    else found

-- `defer sc.Close()` where handleConnection returns before the loop.
unfoldable pub close_refused : ℕ → Node × Option Bytes → Node × Option Bytes
close_refused pointer (n, none) = (close_conn pointer n, none)
close_refused pointer (n, some addr) = (n, some addr)

-- `handleConnection` up to the loop: a handshake that cannot be read is `none`.
unfoldable pub open_connection :
    Bool → Bool → (ℕ → Option Bytes) → Bytes → ℕ → Option SyncHandshake → Node → Node × Option Bytes
open_connection is_outgoing responds self_addr local_canonical pointer none n =
    close_refused pointer (n, none)
open_connection is_outgoing responds self_addr local_canonical pointer (some h) n =
    close_refused pointer (shake_hands is_outgoing responds self_addr local_canonical pointer h n)

-- `CLEANUP` and the deferred close: only the connection's own entry goes.
unfoldable pub clean_up : Bytes → ℕ → Node → Node
clean_up addr pointer n =
    let left : Node = elim (Map.get Bytes-discrete addr n.conns) [
      | none ↦ n
      | some c ↦
          if c.pointer == pointer
          then record n { conns = Map.delete Bytes-discrete addr n.conns }
          else n
    ] in
    close_conn pointer left

-- The target of a message of peer exchange is dialled: `is_special` says that the address is loopback,
-- multicast, unspecified or link-local.
unfoldable pub takes_pex : (Bytes → Bool) → ℕ → Bytes → Node → Bool
takes_pex is_special port ip n =
    if port == 0 || is_special ip then false else if leb 50 (length n.conns) then false else true
