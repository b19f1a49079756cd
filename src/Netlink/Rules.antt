-- ===== src/Netlink/Rules.antt =====
-- InitStructure of internal/netlink/nftables.go: the rules as data, and the text that nft gets.
use Prim.Native.String.{String, ◌++◌ as append}
use next_path.Base.{Bool, true, false, not, ◌&&◌, List, [], ◌∷◌, ◌++◌, map, if◌then◌else◌}

pub data Family : Type 0 where
  v4 : Family
  v6 : Family

pub data Protocol : Type 0 where
  udp : Protocol
  tcp : Protocol

-- The rules, named for what they test and do. `hook` and `plain` hold their text.
pub data Rule : Type 0 where
  hook : String → Rule
  plain : String → Rule
  lo_accept : Rule
  established_accept : Rule
  deny_drop : Family → Rule
  outside_drop : Family → Protocol → String → Rule
  peer_accept : Family → String → String → Rule
  rate_accept : Protocol → String → Bool → String → Family → String → Rule
  port_drop : Protocol → String → Rule
  refresh : Family → String → Rule
  dnat : Family → String → Rule

unfoldable pub concat : List String → String
concat [] = ""
concat (s ∷ ss) = append s (concat ss)

abbrev ip : Family → String
ip v4 = "ip"
ip v6 = "ip6"

abbrev proto : Protocol → String
proto udp = "udp"
proto tcp = "tcp"

abbrev deny_set : Family → String
deny_set v4 = "@deny_v4"
deny_set v6 = "@deny_v6"

abbrev map_name : Family → String
map_name v4 = "@v4_map"
map_name v6 = "@v6_map"

-- `allowedV4` and `allowedV6`.
abbrev allowed : Family → String
allowed v4 = "{ 127.0.0.0/8, 10.0.0.0/8, 172.16.0.0/12, 192.168.0.0/16, 100.64.0.0/10 }"
allowed v6 = "{ ::1/128, fe80::/10, fd00::/8 }"

unfoldable pub rule_text : Rule → List String
rule_text (hook s) = "type " ∷ s ∷ "; policy accept;" ∷ []
rule_text (plain s) = s ∷ []
rule_text lo_accept = "iifname \"lo\" accept" ∷ []
rule_text established_accept = "ct state established,related accept" ∷ []
rule_text (deny_drop f) = ip f ∷ " saddr " ∷ deny_set f ∷ " drop" ∷ []
rule_text (outside_drop f p port) =
    ip f ∷ " saddr != " ∷ allowed f ∷ " " ∷ proto p ∷ " dport " ∷ port ∷ " drop" ∷ []
rule_text (peer_accept f addr port) =
    ip f ∷ " saddr " ∷ addr ∷ " tcp dport " ∷ port ∷ " accept" ∷ []
rule_text (rate_accept p port new meter f rate) =
    proto p
    ∷ " dport "
    ∷ port
    ∷ (if new then " ct state new" else "")
    ∷ " add @"
    ∷ meter
    ∷ " { "
    ∷ ip f
    ∷ " saddr limit rate "
    ∷ rate
    ∷ "/second } accept"
    ∷ []
rule_text (port_drop p port) = proto p ∷ " dport " ∷ port ∷ " drop" ∷ []
rule_text (refresh f net) =
    "ct original "
    ∷ ip f
    ∷ " daddr "
    ∷ net
    ∷ " ct status dnat update "
    ∷ map_name f
    ∷ " { ct original "
    ∷ ip f
    ∷ " daddr : "
    ∷ ip f
    ∷ " daddr }"
    ∷ []
rule_text (dnat f net) =
    ip f ∷ " daddr " ∷ net ∷ " dnat " ∷ ip f ∷ " to " ∷ ip f ∷ " daddr map " ∷ map_name f ∷ []

unfoldable pub rule_line : Rule → String
rule_line r = append "        " (append (concat (rule_text r)) "\n")

-- What InitStructure reads of the environment; `custom_doh` is a DoH port that is on and not 443.
pub record Settings : Type 0 where
  pub pool_net : String
  pub pool_net6 : String
  pub custom_doh : Bool
  pub doh_port : String
  pub public_dns : Bool
  pub dns_rate_limit : String
  pub enable_ipv6 : Bool
  pub sync_port : String
  pub peer_v4 : List String
  pub peer_v6 : List String

abbrev pub when {ℓ} : {A : Type ℓ} → Bool → List A → List A
when true rules = rules
when false rules = []

module _ (s : Settings) where
  -- The rules that shut DNS and DoH to addresses outside the private networks.
  unfoldable pub outside_family : Family → List Rule
  outside_family f =
      outside_drop f udp "53"
      ∷ outside_drop f tcp "53"
      ∷ when s.custom_doh (outside_drop f tcp s.doh_port ∷ [])

  unfoldable pub outside_rules : List Rule
  outside_rules =
      when (not s.public_dns) (outside_family v4 ++ when s.enable_ipv6 (outside_family v6))

  unfoldable pub peer_rules : List Rule
  peer_rules =
      map (λ a. peer_accept v4 a s.sync_port) s.peer_v4
      ++ when s.enable_ipv6 (map (λ a. peer_accept v6 a s.sync_port) s.peer_v6)

  unfoldable pub sync_rules : List Rule
  sync_rules =
      outside_drop v4 tcp s.sync_port ∷ when s.enable_ipv6 (outside_drop v6 tcp s.sync_port ∷ [])

  unfoldable pub rate_rules : List Rule
  rate_rules =
      rate_accept udp "53" false "dns_udp_meter" v4 rate
      ∷ rate_accept tcp "53" true "dns_tcp_new_meter" v4 rate
      ∷ rate_accept tcp "53" false "dns_tcp_meter" v4 rate
      ∷ (when s.enable_ipv6 (
            rate_accept udp "53" false "dns_udp6_meter" v6 rate
            ∷ rate_accept tcp "53" true "dns_tcp6_new_meter" v6 rate
            ∷ rate_accept tcp "53" false "dns_tcp6_meter" v6 rate
            ∷ [])
          ++ when s.custom_doh (
              rate_accept tcp s.doh_port true "doh_tcp_new_meter" v4 rate
              ∷ rate_accept tcp s.doh_port false "doh_tcp_meter" v4 rate
              ∷ when s.enable_ipv6 (
                  rate_accept tcp s.doh_port true "doh_tcp6_new_meter" v6 rate
                  ∷ rate_accept tcp s.doh_port false "doh_tcp6_meter" v6 rate
                  ∷ [])))
    where
      rate : String
      rate = s.dns_rate_limit

  unfoldable pub last_rules : List Rule
  last_rules =
      port_drop udp "53"
      ∷ port_drop tcp "53"
      ∷ when (s.custom_doh && not s.public_dns) (port_drop tcp s.doh_port ∷ [])

  unfoldable pub input_rules : List Rule
  input_rules =
      hook "filter hook input priority 0"
      ∷ lo_accept
      ∷ established_accept
      ∷ deny_drop v4
      ∷ (when s.enable_ipv6 (deny_drop v6 ∷ [])
          ++ (outside_rules ++ (peer_rules ++ (sync_rules ++ (rate_rules ++ last_rules)))))

  unfoldable pub forward_rules : List Rule
  forward_rules =
      hook "filter hook forward priority 0"
      ∷ deny_drop v4
      ∷ refresh v4 s.pool_net
      ∷ when s.enable_ipv6 (deny_drop v6 ∷ refresh v6 s.pool_net6 ∷ [])

  unfoldable pub output_rules : List Rule
  output_rules =
      hook "filter hook output priority 0"
      ∷ refresh v4 s.pool_net
      ∷ when s.enable_ipv6 (refresh v6 s.pool_net6 ∷ [])

  unfoldable pub nat_rules : String → List Rule
  nat_rules name = hook name ∷ dnat v4 s.pool_net ∷ when s.enable_ipv6 (dnat v6 s.pool_net6 ∷ [])

  -- The chains in their order.
  unfoldable pub chains : List (String × List Rule)
  chains =
      ("input", input_rules)
      ∷ ("forward", forward_rules)
      ∷ ("output", output_rules)
      ∷ ("postrouting", hook "nat hook postrouting priority 100" ∷ plain "masquerade" ∷ [])
      ∷ (
        "filter_postrouting",
        hook "filter hook postrouting priority 300"
            ∷ plain "tcp flags syn tcp option maxseg size set rt mtu"
            ∷ [],
      )
      ∷ (
        "raw_prerouting",
        hook "filter hook prerouting priority -300" ∷ plain "iifname \"lo\" notrack" ∷ [],
      )
      ∷ (
        "raw_output",
        hook "filter hook output priority -300" ∷ plain "oifname \"lo\" notrack" ∷ [],
      )
      ∷ ("nat_prerouting", nat_rules "nat hook prerouting priority -100")
      ∷ ("nat_output", nat_rules "nat hook output priority -100")
      ∷ []

  -- The maps and sets: their declarations after the word and a blank.
  unfoldable pub set_lines : List String
  set_lines =
      "map v4_map { type ipv4_addr : ipv4_addr; flags dynamic, timeout; timeout 2h; }"
      ∷ (when s.enable_ipv6
            ("map v6_map { type ipv6_addr : ipv6_addr; flags dynamic, timeout; timeout 2h; }" ∷ [])
          ++ ("set deny_v4 { type ipv4_addr; flags interval; }"
              ∷ meter "dns_udp_meter" "ipv4_addr"
              ∷ meter "dns_tcp_new_meter" "ipv4_addr"
              ∷ meter "dns_tcp_meter" "ipv4_addr"
              ∷ meter "doh_tcp_new_meter" "ipv4_addr"
              ∷ meter "doh_tcp_meter" "ipv4_addr"
              ∷ when s.enable_ipv6 (
                  "set deny_v6 { type ipv6_addr; flags interval; }"
                  ∷ meter "dns_udp6_meter" "ipv6_addr"
                  ∷ meter "dns_tcp6_new_meter" "ipv6_addr"
                  ∷ meter "dns_tcp6_meter" "ipv6_addr"
                  ∷ meter "doh_tcp6_new_meter" "ipv6_addr"
                  ∷ meter "doh_tcp6_meter" "ipv6_addr"
                  ∷ [])))
    where
      meter : String → String → String
      meter name type =
          concat ("set " ∷ name ∷ " { type " ∷ type ∷ "; flags dynamic; size 65535; }" ∷ [])

  abbrev chain_text : String × List Rule → String
  chain_text (name, rules) =
      concat ("    chain " ∷ name ∷ " {\n" ∷ concat (map rule_line rules) ∷ "    }\n" ∷ [])

  -- `configStr`.
  unfoldable pub config_text : String
  config_text = concat (
      "table inet nextpath {\n"
      ∷ concat (map (λ l. append "    " (append l "\n")) set_lines)
      ∷ concat (map chain_text chains)
      ∷ "}\n"
      ∷ [])
