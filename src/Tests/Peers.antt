-- ===== src/Tests/Peers.antt =====
-- Theorems on the peers of internal/dnsengine/sync.go: two nodes with one token and one pool network.
use next_path.Base.Map
use next_path.Base.{
  All, if◌then◌else◌, ℕ_discrete, ℕ, true, false, List, [], ◌∷◌, Option, none, some, ◌≡◌, refl,
}
use next_path.Net.{Bytes, Bytes-discrete}
use next_path.Pool.{Mapping}
use next_path.Sync.Batches.{room, Delivers, send_all_mappings, send_all_mappings-Delivers}
use next_path.Sync.Peers.{
  SyncHandshake, Node, open_connection, close_refused, check_auth_token, shake_hands, choose_entry,
}
use next_path.Sync.Discovery.{
  Network, discover_and_connect, connect_all, targets, resolved, dials_to, is_local, introduce,
  tell_new, tell_others, other_peers, send_pex_message, pex_of,
}
use next_path.Sync.Dialing.{try_connect, start_dial}
use next_path.Sync.Finding.{Reached, discover_and_connect-Reached}
use next_path.Sync.Trust.{Guards, start_manager-Guards}
use next_path.Sync.Starting.{
  Setting, listening, strict_var, start_manager, start_server, get_tls_config, start_with, pin,
  custom_fingerprints, fingerprint_of,
}
use next_path.Text.{codes}
use next_path.Sync.Peers.{equal}
use next_path.Tests.Data.{google, cloudflare, fake_seven, fake_nine}

abbrev node : Node
node = record {
  node_uuid = 1;
  pool_net = 49 ∷ [];
  pool_net6 = 50 ∷ [];
  auth_token = 116 ∷ [];
  done = false;
  conns = [];
  active_dials = [];
  closed = [];
}

abbrev handshake : SyncHandshake
handshake = record {
  uuid = 2;
  port = 5353;
  pool_net = 49 ∷ [];
  pool_net6 = 50 ∷ [];
  auth_token = 116 ∷ [];
}

-- `10`, as the address of the peer.
abbrev address : ℕ → Option Bytes
address port = some (49 ∷ 48 ∷ [])

entered : (open_connection false true address [] 7 (some handshake) node).1 ≡ some (49 ∷ 48 ∷ [])
unfolding open_connection close_refused shake_hands choose_entry check_auth_token Bytes-discrete
    ℕ_discrete Map.get
entered = refl

-- A node that closes refuses the connection and closes it.
refused :
    open_connection false true address [] 7 (some handshake) (record node { done = true })
    ≡ (record node { done = true; closed = 7 ∷ [] }, none)
unfolding open_connection close_refused shake_hands choose_entry check_auth_token Bytes-discrete
    ℕ_discrete
refused = refl

abbrev mappings : List Mapping
mappings =
    record { fake_ip = fake_seven; real_ip = google; version = 5 }
    ∷ record { fake_ip = fake_nine; real_ip = cloudflare; version = 6 }
    ∷ []

send_all_mappings-Delivers_example :
    Delivers (λ n. room) mappings (send_all_mappings (λ n. room) mappings)
send_all_mappings-Delivers_example = send_all_mappings-Delivers (λ n. room) mappings

-- Pinning without a fingerprint in the environment; the digest of a text is the text, and the key pair
-- is one certificate.
abbrev setting : Setting
setting = record {
  variable = λ name.
      if equal name (codes "NEXTPATH_SYNC_TOKEN")
      then codes "secret"
      else if equal name strict_var
      then codes "pin"
      else [];
  exists = λ path. true;
  missing = λ path. false;
  load = λ cert key. some (codes "cert" ∷ []);
  sha256 = λ text. text;
  trim = λ text. text;
  lower = λ text. text;
  split = λ text. [];
  clean = λ text. text;
  decode = λ text. none;
  listens = true;
}

started : start_manager setting ≡ listening (codes "cert" ∷ [])
unfolding start_manager start_server get_tls_config start_with pin custom_fingerprints
    fingerprint_of Bytes-discrete ℕ_discrete
started = refl

start_manager-Guards_example : Guards setting (codes "cert" ∷ [])
start_manager-Guards_example =
    start_manager-Guards setting (codes "cert" ∷ []) (λ certs e full. absurd (cc)) started

-- Every address splits, and none is local.
abbrev network : Network
network = record {
  split_host_port = λ addr. some (addr, codes "5353");
  join_host_port = λ host port. host;
  parse_ip = some;
  ip_text = λ ip. ip;
  port_of = λ port. some 5353;
  lookup_ip = λ host. none;
  is_local_ip = λ host. false;
}

-- A configured peer is dialled, and only once.
dialled :
    (discover_and_connect network (λ addr. 100) (codes "5353") (codes "p" ∷ codes "p" ∷ []) node).1
    ≡ (codes "p", codes "p") ∷ []
unfolding discover_and_connect connect_all targets resolved dials_to is_local try_connect start_dial
    Map.get Map.put Map.delete Bytes-discrete ℕ_discrete
dialled = refl

-- A new connection under `q` is told of the one under `p`, and the other way round.
abbrev two_conns : Node
two_conns = record node {
  conns =
      (codes "p", record { pointer = 3; safe = record { peer_uuid = 2; is_outgoing = true } })
      ∷ (codes "q", record { pointer = 4; safe = record { peer_uuid = 5; is_outgoing = true } })
      ∷ [];
}

introduced :
    (introduce network (λ addr. room) (λ addr. room) (codes "q") 4 two_conns).1
    ≡ (4, record { pex_ip = codes "p"; pex_port = 5353 })
      ∷ (3, record { pex_ip = codes "q"; pex_port = 5353 })
      ∷ []
unfolding introduce tell_new tell_others other_peers send_pex_message pex_of Bytes-discrete
    ℕ_discrete
introduced = refl

discover_and_connect-Reached_example :
    let r = discover_and_connect network (λ addr. 100) (codes "5353") (codes "p" ∷ []) node in
    (r.0.conns ≡ [])
    × All (Reached network node (targets network (codes "5353") (codes "p" ∷ []))) r.1
discover_and_connect-Reached_example =
    discover_and_connect-Reached network node (λ addr. 100) (codes "5353") (codes "p" ∷ [])
