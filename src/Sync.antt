-- ===== src/Sync.antt =====
-- internal/dnsengine/sync.go: which of two connections to a peer stays (shouldKeepNewConnection), and
-- the case of handleConnection that takes a message of mappings. The children have the handshake, the
-- batches and the dials. The engine makes the pool before
-- the manager, so that `s.pool` is never nil.
pub mod Connections
pub mod Receiving
pub mod Batches
pub mod Peers
pub mod Registering
pub mod Dialing
pub mod Pinning
pub mod Starting
pub mod Trust
pub mod Discovery
pub mod Finding
use next_path.Base.{
  ℕ, ◌+◌, ◌%◌, ◌^◌, bit_and, Bool, true, false, not, ◌&&◌, ◌||◌, List, [], ◌∷◌, ◌++◌, ite, Option,
  none, some, Ordering, ◌==◌, ltb, if◌then◌else◌, length,
}
use next_path.Hlc.{observe_version}
use next_path.Lease.{mapping_ttl}
use next_path.Net.{Bytes, bytes_compare, to4}
use next_path.Pool.{IpPool, Mapping, get_version, add_mapping}

-- `a < b` on strings.
unfoldable pub string_lt : Bytes → Bytes → Bool
string_lt a b = elim (bytes_compare a b) [ Ordering.lt ↦ true | _ ↦ false ]

-- What the choice reads of a `SafeConn`.
pub record SafeConn : Type 0 where
  pub peer_uuid : ℕ
  pub is_outgoing : Bool

-- `local_canonical` is the local address of the new connection with the port of this node.
unfoldable pub should_keep_new_connection : ℕ → Bytes → SafeConn → SafeConn → Bytes → Bool
should_keep_new_connection node_uuid local_canonical old new remote_canonical =
    if not (new.peer_uuid == old.peer_uuid)
    then true
    else if (if new.is_outgoing then old.is_outgoing else not old.is_outgoing)
    then true
    else if new.is_outgoing
    then (if ltb node_uuid new.peer_uuid
        then true
        else if node_uuid == new.peer_uuid
        then string_lt local_canonical remote_canonical
        else false)
    else (if ltb new.peer_uuid node_uuid
        then true
        else if node_uuid == new.peer_uuid
        then string_lt remote_canonical local_canonical
        else false)

-- `net.IPNet` as net.ParseCIDR gives it: the address and the mask have one length.
pub record IpNet : Type 0 where
  pub ip : Bytes
  pub mask : Bytes

-- The loop of `IPNet.Contains`.
unfoldable pub masked_equal : Bytes → Bytes → Bytes → Bool
masked_equal (n ∷ ns) (m ∷ ms) (b ∷ bs) = bit_and n m == bit_and b m && masked_equal ns ms bs
masked_equal [] ms [] = true
masked_equal ns ms bs = false

-- `IPNet.Contains`, with an IPv4 address in four bytes.
unfoldable pub contains : IpNet → Bytes → Bool
contains n ip =
    let x : Bytes = elim (to4 ip) [ some ip4 ↦ ip4 | none ↦ ip ] in
    length x == length n.ip && masked_equal n.ip n.mask x

-- What the handler reads and changes; `applied` are the calls of the nftables client, last first.
pub record SyncManager : Type 0 where
  pub pool : IpPool
  pub parsed_net_v4 : Option IpNet
  pub parsed_net_v6 : Option IpNet
  pub applied : List (Bytes × Bytes)
  pub metrics_syncs : ℕ

unfoldable pub is_in_subnet : SyncManager → Bytes → Bool
is_in_subnet s [] = false
is_in_subnet s (b ∷ bs) = elim (to4 (b ∷ bs)) [
  | some _ ↦ elim s.parsed_net_v4 [ some n ↦ contains n (b ∷ bs) | none ↦ false ]
  | none ↦ elim s.parsed_net_v6 [ some n ↦ contains n (b ∷ bs) | none ↦ false ]
]

-- `ObserveVersion` on the pool.
unfoldable pub observe : ℕ → ℕ → IpPool → IpPool
observe v now p = record p { hlc = observe_version v now p.hlc }

-- A mapping whose answer from `AddMapping` is known.
unfoldable pub apply_mapping : Mapping → IpPool × Bool → SyncManager → SyncManager
apply_mapping m (p, true) s = record s { pool = p; applied = (m.fake_ip, m.real_ip) ∷ s.applied }
apply_mapping m (p, false) s = record s { pool = p }

abbrev pub is_nil : Bytes → Bool
is_nil ip = length ip == 0

-- One round of the loop, with the readings of the wall clock in ObserveVersion and before AddMapping.
unfoldable pub receive_mapping : ℕ → ℕ → Mapping → SyncManager → SyncManager
receive_mapping now later m s =
    if is_nil m.fake_ip || is_nil m.real_ip
    then s
    else if not (is_in_subnet s m.fake_ip)
    then s
    else if ltb m.version (get_version m.fake_ip s.pool)
    then s
    else apply_mapping m
        (add_mapping m.real_ip m.fake_ip m.version (later + mapping_ttl)
          (observe m.version now s.pool))
        s

unfoldable pub receive_all : (Mapping → ℕ × ℕ) → List Mapping → SyncManager → SyncManager
receive_all clock [] s = s
receive_all clock (m ∷ ms) s = receive_all clock ms (receive_mapping (clock m).0 (clock m).1 m s)

-- The case `MsgTypeMappings`.
unfoldable pub receive_message : (Mapping → ℕ × ℕ) → List Mapping → SyncManager → SyncManager
receive_message clock ms s =
    receive_all clock ms (record s { metrics_syncs = (s.metrics_syncs + length ms) % 2 ^ 64 })
