-- ===== src/Netlink/Setup.antt =====
-- parseBoolEnv and the parts of InitStructure in internal/netlink/nftables.go that read the
-- environment and run nft. The environment, the libraries' functions on texts and addresses, and the
-- nft command are parameters.
use Prim.Native.String.{String}
use next_path.Base.{
  Bool, true, false, not, ◌&&◌, ◌||◌, List, [], ◌∷◌, ◌++◌, Option, none, some, if◌then◌else◌,
}
use next_path.Net.{Bytes}
use next_path.Netlink.{is_ipv6}
use next_path.Netlink.Rules.{Settings, config_text}
use text.Mathlib.Text.{◌==◌ as same}

pub record Library : Type 0 where
  pub getenv : String → String
  pub trim_space : String → String
  pub to_lower : String → String
  pub is_number : String → Bool
  pub split_commas : String → List String
  pub split_host_port : String → Option String
  pub parse_ip : String → Option Bytes
  pub lookup_ip : String → Option (List Bytes)
  pub ip_text : Bytes → String
  pub nft : String → Option String

module _ (l : Library) where
  unfoldable pub parse_bool_env : String → Bool → Bool
  parse_bool_env key default_val =
      let v = l.to_lower (l.trim_space (l.getenv key)) in
      if same v "" then default_val else same v "true" || same v "1" || same v "y" || same v "yes"

  -- A variable that holds a number, or a default.
  unfoldable pub number_env : String → String → String
  number_env key default_val =
      let v = l.getenv key in if not (l.is_number v) || same v "" then default_val else v

  -- `peerV4` and `peerV6`.
  pub record Peers : Type 0 where
    pub peer_v4 : List String
    pub peer_v6 : List String

  unfoldable pub add_peer : Bytes → Peers → Peers
  add_peer ip ps =
      if is_ipv6 ip
      then record ps { peer_v6 = ps.peer_v6 ++ l.ip_text ip ∷ [] }
      else record ps { peer_v4 = ps.peer_v4 ++ l.ip_text ip ∷ [] }

  unfoldable pub add_peers : List Bytes → Peers → Peers
  add_peers [] ps = ps
  add_peers (ip ∷ ips) ps = add_peers ips (add_peer ip ps)

  -- One entry of `PEERS`: an address, or a name that is looked up.
  unfoldable pub read_peer : String → Peers → Peers
  read_peer entry ps =
      let p = l.trim_space entry in
      let host : String = elim (l.split_host_port p) [ some h ↦ h | none ↦ p ] in
      let found : Peers = elim (l.parse_ip host) [
        | some ip ↦ add_peer ip ps
        | none ↦ elim (l.lookup_ip host) [ none ↦ ps | some ips ↦ add_peers ips ps ]
      ] in
      if same p "" then ps else found

  unfoldable pub read_peers : List String → Peers → Peers
  read_peers [] ps = ps
  read_peers (entry ∷ entries) ps = read_peers entries (read_peer entry ps)

  unfoldable pub settings : String → String → Settings
  settings pool_net pool_net6 =
      let doh_port = number_env "DOH_PORT" "443" in
      let peers_str = l.getenv "PEERS" in
      let peers : Peers =
        if same peers_str ""
        then record { peer_v4 = []; peer_v6 = [] }
        else read_peers (l.split_commas peers_str) (record { peer_v4 = []; peer_v6 = [] }) in
      record {
        pool_net = pool_net;
        pool_net6 = pool_net6;
        custom_doh = parse_bool_env "DOH_ENABLE" false && not (same doh_port "443");
        doh_port = doh_port;
        public_dns = parse_bool_env "PUBLIC_DNS" false;
        dns_rate_limit = number_env "DNS_RATE_LIMIT" "300";
        enable_ipv6 = parse_bool_env "ENABLE_IPV6" true;
        sync_port = number_env "SYNC_PORT" "5353";
        peer_v4 = peers.peer_v4;
        peer_v6 = peers.peer_v6;
      }

  -- An error is its text.
  unfoldable pub init_structure : String → String → Option String
  init_structure pool_net pool_net6 = l.nft (config_text (settings pool_net pool_net6))
