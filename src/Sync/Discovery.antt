-- ===== src/Sync/Discovery.antt =====
-- discoverAndConnect and sendPexMessage of internal/dnsengine/sync.go, with the messages of peer exchange
-- that handleConnection sends for a new connection.
use next_path.Base.Map.{Map}
use next_path.Base.{ℕ, Bool, false, List, [], ◌∷◌, ◌++◌, Option, none, some, if◌then◌else◌}
use next_path.Net.{Bytes}
use next_path.Sync.Batches.{Offer, room, full, was_closed}
use next_path.Sync.Dialing.{try_connect}
use next_path.Sync.Peers.{Node, Conn, close_conn, equal}

-- Functions of net, and what the node's interfaces and the name servers say. `ip_text` prints an
-- address, `port_of` is strconv.Atoi with the conversion to uint16.
pub record Network : Type 0 where
  pub split_host_port : Bytes → Option (Bytes × Bytes)
  pub join_host_port : Bytes → Bytes → Bytes
  pub parse_ip : Bytes → Option Bytes
  pub ip_text : Bytes → Bytes
  pub port_of : Bytes → Option ℕ
  pub lookup_ip : Bytes → Option (List Bytes)
  pub is_local_ip : Bytes → Bool

pub record Pex : Type 0 where
  pub pex_ip : Bytes
  pub pex_port : ℕ

module _ (w : Network) where
  -- `localIPs[host]` for the host of an address that splits.
  unfoldable pub is_local : Bytes → Bool
  is_local addr = elim (w.split_host_port addr) [
    | none ↦ false
    | some (host, port) ↦ w.is_local_ip host
  ]

  -- The addresses of one host that are not this node's, each with the name for its certificate.
  unfoldable pub dials_to : Bytes → Bytes → List Bytes → List (Bytes × Bytes)
  dials_to host port [] = []
  dials_to host port (ip ∷ ips) =
      let rest = dials_to host port ips in
      if w.is_local_ip (w.ip_text ip)
      then rest
      else (w.join_host_port (w.ip_text ip) port, host) ∷ rest

  -- A host that is no address and has none is left to the dial.
  unfoldable pub resolved : Bytes → Bytes → List (Bytes × Bytes)
  resolved host port = elim (w.parse_ip host) [
    | some ip ↦ dials_to host port (ip ∷ [])
    | none ↦ elim (w.lookup_ip host) [
      | none ↦ (w.join_host_port host port, host) ∷ []
      | some ips ↦ dials_to host port ips
    ]
  ]

  unfoldable pub targets : Bytes → List Bytes → List (Bytes × Bytes)
  targets sync_port [] = []
  targets sync_port (peer ∷ peers) =
      let own : List (Bytes × Bytes) = elim (w.split_host_port peer) [
        | none ↦ resolved peer sync_port
        | some (host, port) ↦ resolved host port
      ] in
      own ++ targets sync_port peers

  -- The calls of tryConnect in order, with the dials that start. `now` is the clock at each call.
  unfoldable pub connect_all :
      (Bytes → ℕ) → List (Bytes × Bytes) → Node → Node × List (Bytes × Bytes)
  connect_all now [] n = (n, [])
  connect_all now ((addr, name) ∷ rest) n =
      let (next, started) = try_connect (now addr) (is_local addr) addr n in
      let (final, dials) = connect_all now rest next in
      (final, if started then (addr, name) ∷ dials else dials)

  unfoldable pub discover_and_connect :
      (Bytes → ℕ) → Bytes → List Bytes → Node → Node × List (Bytes × Bytes)
  discover_and_connect now sync_port peers n = connect_all now (targets sync_port peers) n

  -- The message about an address.
  unfoldable pub pex_of : Bytes → Option Pex
  pex_of addr = elim (w.split_host_port addr) [
    | none ↦ none
    | some (host, port) ↦ elim (w.parse_ip host) [
      | none ↦ none
      | some ip ↦ elim (w.port_of port) [
        | none ↦ none
        | some p ↦ some (record { pex_ip = ip; pex_port = p })
      ]
    ]
  ]

  -- `sendPexMessage` to the connection with this pointer: a full channel closes it.
  unfoldable pub send_pex_message : Offer → ℕ → Bytes → Node → Node × List (ℕ × Pex)
  send_pex_message offer pointer addr n = elim (pex_of addr) [
    | none ↦ (n, [])
    | some msg ↦ elim offer [
      | room ↦ (n, (pointer, msg) ∷ [])
      | full ↦ (close_conn pointer n, [])
      | was_closed ↦ (n, [])
    ]
  ]

  -- The other peers, for the new one.
  unfoldable pub other_peers : Bytes → Map Bytes Conn → List Bytes
  other_peers self_addr [] = []
  other_peers self_addr ((addr, c) ∷ conns) =
      let rest = other_peers self_addr conns in
      let told : List Bytes = elim (w.split_host_port addr) [
        | none ↦ rest
        | some (host, port) ↦ if w.is_local_ip host then rest else addr ∷ rest
      ] in
      if equal addr self_addr then rest else told

  unfoldable pub tell_new : (Bytes → Offer) → ℕ → List Bytes → Node → Node × List (ℕ × Pex)
  tell_new offers pointer [] n = (n, [])
  tell_new offers pointer (addr ∷ addrs) n =
      let (next, sent) = send_pex_message (offers addr) pointer addr n in
      let (final, later) = tell_new offers pointer addrs next in (final, sent ++ later)

  -- The new one, for the others.
  unfoldable pub tell_others :
      (Bytes → Offer) → Bytes → Map Bytes Conn → Node → Node × List (ℕ × Pex)
  tell_others offers self_addr [] n = (n, [])
  tell_others offers self_addr ((addr, c) ∷ conns) n =
      let (next, sent) =
        if equal addr self_addr
        then (n, [])
        else send_pex_message (offers addr) c.pointer self_addr n in
      let (final, later) = tell_others offers self_addr conns next in (final, sent ++ later)

  -- All messages of peer exchange for a new connection; the two functions say what each channel does.
  unfoldable pub introduce :
      (Bytes → Offer) → (Bytes → Offer) → Bytes → ℕ → Node → Node × List (ℕ × Pex)
  introduce to_new to_others self_addr pointer n =
      let (next, sent) = tell_new to_new pointer (other_peers self_addr n.conns) n in
      let (final, later) = tell_others to_others self_addr next.conns next in (final, sent ++ later)
