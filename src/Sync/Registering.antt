-- ===== src/Sync/Registering.antt =====
-- Which connections internal/dnsengine/sync.go enters among those of its peers.
use next_path.Base.Map
use next_path.Base.{ℕ, Bool, true, false, ◌∷◌, Option, none, some, ◌≡◌, ◌≢◌, ◌⊎◌, ◌==◌}
use next_path.Net.{Bytes, Bytes-discrete}
use next_path.Sync.Peers.{SyncHandshake, Conn, Node, equal, check_auth_token, close_conn}

-- The entry under the address is the connection; an older one of another pointer was closed and no
-- other connection, and no other entry changed.
pub record Enters (addr : Bytes) (c : Conn) (start n : Node) : Type 0 where
  pub entry : Map.get Bytes-discrete addr n.conns ≡ some c
  pub others :
      (k : Bytes)
      → k ≢ addr
      → Map.get Bytes-discrete k n.conns ≡ Map.get Bytes-discrete k start.conns
  pub replaced :
      (old : Conn)
      → Map.get Bytes-discrete addr start.conns ≡ some old
      → old.pointer ≢ c.pointer
      → n.closed ≡ old.pointer ∷ start.closed
  pub unreplaced :
      ((old : Conn) → Map.get Bytes-discrete addr start.conns ≡ some old → old.pointer ≡ c.pointer)
      → n.closed ≡ start.closed

abbrev pub Registers : Conn → Node → Node × Option Bytes → Type 0
Registers c start (n, none) = n ≡ start
Registers c start (n, some addr) = Enters addr c start n

-- What the tests and the section under the lock leave: nothing, or the entry of a peer that has the
-- token, is another node and, where it dialled, has the same pool networks.
abbrev Shakes : Bool → ℕ → SyncHandshake → Node → Node × Option Bytes → Type 0
Shakes is_outgoing pointer g start (n, none) = n ≡ start
Shakes is_outgoing pointer g start (n, some addr) =
    (check_auth_token start g.auth_token ≡ true)
    × ((g.uuid == start.node_uuid) ≡ false)
    × ((is_outgoing ≡ true)
        ⊎ ((equal g.pool_net start.pool_net ≡ true) × (equal g.pool_net6 start.pool_net6 ≡ true)))
    × (start.done ≡ false)
    × Enters addr
        (record {
          pointer = pointer;
          safe = record { peer_uuid = g.uuid; is_outgoing = is_outgoing };
        })
        start n

-- What opening a connection leaves: the closed connection, or the entry of its peer.
abbrev pub Opens : Bool → ℕ → Option SyncHandshake → Node → Node × Option Bytes → Type 0
Opens is_outgoing pointer h start (n, none) = n ≡ close_conn pointer start
Opens is_outgoing pointer h start (n, some addr) =
    (g : SyncHandshake) × (h ≡ some g) × Shakes is_outgoing pointer g start (n, some addr)

module _ (is_outgoing : Bool) (pointer : ℕ) (start : Node) where
  connection : SyncHandshake → Conn
  connection g = record {
    pointer = pointer;
    safe = record { peer_uuid = g.uuid; is_outgoing = is_outgoing };
  }
