-- ===== src/Sync/Connections.antt =====
-- shouldKeepNewConnection in internal/dnsengine/sync.go: two nodes that dial each other agree.
use next_path.Base.{ℕ, true, false, not, [], ◌∷◌, ◌≡◌, ◌≢◌, refl, arith}
use next_path.Net.{Bytes, bytes_compare}
use next_path.Sync.{SafeConn, should_keep_new_connection, string_lt}

-- A connection with a peer that this node dialled, and one that the peer dialled.
abbrev pub dialled : ℕ → SafeConn
dialled peer = record { peer_uuid = peer; is_outgoing = true }

abbrev pub accepted : ℕ → SafeConn
accepted peer = record { peer_uuid = peer; is_outgoing = false }

-- The two ends of one new connection, between node `a` that dialled it and node `b`, while another
-- that `b` dialled stands: both ends keep the new one, or both keep the old one. Each end sees the
-- address of the other as the remote one.
pub should_keep_new_connection-agree :
    (a b : ℕ) (addr_a addr_b : Bytes)
    → should_keep_new_connection a addr_a (accepted b) (dialled b) addr_b
      ≡ should_keep_new_connection b addr_b (dialled a) (accepted a) addr_a
unfolding should_keep_new_connection
should_keep_new_connection-agree a b addr_a addr_b = ground arith

string_lt_asym : (a b : Bytes) → a ≢ b → string_lt a b ≡ not (string_lt b a)
unfolding string_lt bytes_compare
string_lt_asym [] [] n = absurd (n refl)
string_lt_asym [] (y ∷ b) n = refl
string_lt_asym (x ∷ a) [] n = refl
string_lt_asym (x ∷ a) (y ∷ b) n = ground (arith, string_lt_asym a b)

-- When the two arrive in the other order, the same connection stays: a node keeps the one that it
-- dialled as the new one exactly if it does not keep the other as the new one. Nodes of one UUID
-- need two addresses.
should_keep_new_connection-order :
    (a b : ℕ) (addr_a addr_b : Bytes)
    → addr_a ≢ addr_b
    → should_keep_new_connection a addr_a (accepted b) (dialled b) addr_b
      ≡ not (should_keep_new_connection a addr_a (dialled b) (accepted b) addr_b)
unfolding should_keep_new_connection
should_keep_new_connection-order a b addr_a addr_b n =
    ground (arith, string_lt_asym addr_a addr_b n)
