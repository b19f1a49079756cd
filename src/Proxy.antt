-- ===== src/Proxy.antt =====
-- handleDNSRequest, resolveUpstream and patchSVCBValues of internal/dnsengine/proxy.go. The exchanges
-- with the upstream servers are parameters. An answer's maps have the keys of Alloc.
pub mod Collecting
pub mod Addresses
pub mod Hiding
pub mod Handling
use next_path.Alloc.{to4_bytes, Given, MappingInfo, IpText, get_fake_ips_for_reals, roll_back}
use next_path.Base.Map
use next_path.Base.Map.{Map}
use next_path.Base.{
  ℕ, zero, suc, ◌+◌, ◌%◌, ◌^◌, Bool, true, false, not, ◌&&◌, ◌||◌, List, [], ◌∷◌, ◌++◌, ite, Option,
  none, some, ◌==◌, min, if◌then◌else◌, length,
}
use next_path.Net.{Bytes, IpKey, IpKey-discrete, ipv4, to_ip_key, to_ip, to4, to16, zero16}
use next_path.Pool.{IpPool, Mapping}

-- The values of an SVCB record; `rest` is any other, by a number.
pub data SvcbKeyValue : Type 0 where
  ipv4_hint : List Bytes → SvcbKeyValue
  ipv6_hint : List Bytes → SvcbKeyValue
  rest : ℕ → SvcbKeyValue

-- The records that the handler tells apart, with their time to live. `svcb` is SVCB and HTTPS,
-- `signature` is RRSIG, NSEC and NSEC3, and `other` is any other, by a number.
pub data Rr : Type 0 where
  a : ℕ → Bytes → Rr
  aaaa : ℕ → Bytes → Rr
  svcb : ℕ → List SvcbKeyValue → Rr
  signature : ℕ → Rr
  other : ℕ → Rr

pub record Msg : Type 0 where
  pub answer : List Rr
  pub ns : List Rr
  pub extra : List Rr
  pub truncated : Bool
  pub authenticated_data : Bool

-- `a.Equal(b)`: an IPv4 address and its sixteen-byte form are equal, as their keys are.
abbrev pub ip_equal : Bytes → Bytes → Bool
ip_equal x y = ite (IpKey-discrete (to_ip_key x) (to_ip_key y)) true false

unfoldable pub holds : Bytes → List Bytes → Bool
holds ip [] = false
holds ip (x ∷ xs) = let later = holds ip xs in if ip_equal x ip then true else later

-- `realV4` and `realV6`.
pub record Reals : Type 0 where
  pub v4 : List Bytes
  pub v6 : List Bytes

unfoldable pub add_v4 : Bytes → Reals → Reals
add_v4 ip rs = elim (to4 ip) [
  | none ↦ rs
  | some ip4 ↦
      if ip_equal ip4 (ipv4 0 0 0 0)
      then rs
      else if holds ip4 rs.v4
      then rs
      else record rs { v4 = rs.v4 ++ ip4 ∷ [] }
]

unfoldable pub add_v6 : Bool → Bytes → Reals → Reals
add_v6 enable ip rs =
    let added =
      if ip_equal ip zero16
      then rs
      else if holds ip rs.v6
      then rs
      else record rs { v6 = rs.v6 ++ ip ∷ [] } in
    if enable then elim (to4 ip) [ some b ↦ rs | none ↦ added ] else rs

unfoldable pub add_all : (Bytes → Reals → Reals) → List Bytes → Reals → Reals
add_all add [] rs = rs
add_all add (ip ∷ ips) rs = add_all add ips (add ip rs)

-- `extractSVCBHints`.
unfoldable pub extract_hints : Bool → List SvcbKeyValue → Reals → Reals
extract_hints enable [] rs = rs
extract_hints enable (ipv4_hint ips ∷ kvs) rs = extract_hints enable kvs (add_all add_v4 ips rs)
extract_hints enable (ipv6_hint ips ∷ kvs) rs =
    extract_hints enable kvs (if enable then add_all (add_v6 enable) ips rs else rs)
extract_hints enable (rest n ∷ kvs) rs = extract_hints enable kvs rs

unfoldable pub collect_ips : Bool → Rr → Reals → Reals
collect_ips enable (a ttl ip) rs = add_v4 ip rs
collect_ips enable (aaaa ttl ip) rs = add_v6 enable ip rs
collect_ips enable (svcb ttl kvs) rs = extract_hints enable kvs rs
collect_ips enable (signature n) rs = rs
collect_ips enable (other n) rs = rs

unfoldable pub collect_all : Bool → List Rr → Reals → Reals
collect_all enable [] rs = rs
collect_all enable (rr ∷ rrs) rs = collect_all enable rrs (collect_ips enable rr rs)

-- `mapV4[ip.String()]`.
abbrev pub lookup : Bytes → Map IpText Bytes → Option Bytes
lookup ip m = Map.get IpKey-discrete (to_ip_key ip) m

-- `newHints`.
unfoldable pub patch_hints : Map IpText Bytes → List Bytes → List Bytes
patch_hints m [] = []
patch_hints m (ip ∷ ips) =
    let later = patch_hints m ips in elim (lookup ip m) [ none ↦ later | some fake ↦ fake ∷ later ]

unfoldable pub patch_svcb_values :
    Map IpText Bytes → Map IpText Bytes → Bool → List SvcbKeyValue → List SvcbKeyValue
patch_svcb_values m4 m6 enable [] = []
patch_svcb_values m4 m6 enable (ipv4_hint ips ∷ kvs) =
    ipv4_hint (patch_hints m4 ips) ∷ patch_svcb_values m4 m6 enable kvs
patch_svcb_values m4 m6 enable (ipv6_hint ips ∷ kvs) =
    let later = patch_svcb_values m4 m6 enable kvs in
    if enable then ipv6_hint (patch_hints m6 ips) ∷ later else later
patch_svcb_values m4 m6 enable (rest n ∷ kvs) = rest n ∷ patch_svcb_values m4 m6 enable kvs

-- What `filterRRs` makes of one record, if it keeps it.
unfoldable pub filter_rr : ℕ → Bool → Map IpText Bytes → Map IpText Bytes → Rr → Option Rr
filter_rr max_ttl enable m4 m6 (a ttl ip) =
    some (elim (lookup ip m4) [ some fake ↦ a (min ttl max_ttl) fake | none ↦ a ttl ip ])
filter_rr max_ttl enable m4 m6 (aaaa ttl ip) =
    let found : Rr = elim (lookup ip m6) [
      | some fake ↦ aaaa (min ttl max_ttl) fake
      | none ↦ aaaa ttl ip
    ] in
    if enable then some found else none
filter_rr max_ttl enable m4 m6 (svcb ttl kvs) =
    some (svcb (min ttl max_ttl) (patch_svcb_values m4 m6 enable kvs))
filter_rr max_ttl enable m4 m6 (signature n) = none
filter_rr max_ttl enable m4 m6 (other n) = some (other n)

unfoldable pub filter_rrs : ℕ → Bool → Map IpText Bytes → Map IpText Bytes → List Rr → List Rr
filter_rrs max_ttl enable m4 m6 [] = []
filter_rrs max_ttl enable m4 m6 (rr ∷ rrs) =
    let later = filter_rrs max_ttl enable m4 m6 rrs in
    elim (filter_rr max_ttl enable m4 m6 rr) [ none ↦ later | some kept ↦ kept ∷ later ]

-- The attempts on one upstream server: `exchange true` is over TCP.
unfoldable pub ask : (Bool → ℕ → Option Msg) → ℕ → ℕ → Option Msg
ask exchange zero attempt = none
ask exchange (suc n) attempt =
    let again = ask exchange n (suc attempt) in
    elim (exchange false attempt) [
      | none ↦ again
      | some resp ↦
          let whole : Option Msg = elim (exchange true attempt) [
            | some tcp ↦ some tcp
            | none ↦ some resp
          ] in
          if resp.truncated then whole else some resp
    ]

-- `resolveUpstream`; an error is `none`.
unfoldable pub resolve_upstream : List (Bool → ℕ → Option Msg) → Option Msg
resolve_upstream [] = none
resolve_upstream (exchange ∷ upstreams) =
    let next = resolve_upstream upstreams in
    elim (ask exchange 2 0) [ some resp ↦ some resp | none ↦ next ]

-- What the handler writes: an empty reply, `dns.HandleFailed`, or the message with its two maps.
pub data Written : Type 0 where
  empty_reply : Written
  failed : Written
  answered : Msg → Given → Given → Written

-- A map of real to fake addresses, empty where no address needs one.
unfoldable pub give : Bool → ℕ → (Bytes → ℕ) → List Bytes → IpPool → IpPool × Option Given
give is_v6 now clock [] p = (p, some (record { result = []; new_mappings = [] }))
give is_v6 now clock (ip ∷ ips) p = get_fake_ips_for_reals is_v6 now clock (ip ∷ ips) p

pub record DnsProxy : Type 0 where
  pub max_ttl : ℕ
  pub enable_ipv6 : Bool

unfoldable pub patch : DnsProxy → Msg → Given → Given → Msg
patch s resp g4 g6 =
    let keep = filter_rrs s.max_ttl s.enable_ipv6 g4.result g6.result in
    record resp {
      answer = keep resp.answer;
      ns = keep resp.ns;
      extra = keep resp.extra;
      authenticated_data = false;
    }

-- The rest of the handler after the IPv4 map: where IPv6 fails, the new IPv4 mappings are removed.
unfoldable pub finish_v6 : DnsProxy → Msg → Given → IpPool × Option Given → IpPool × Written
finish_v6 s resp g4 (p, none) = (roll_back g4.new_mappings p, failed)
finish_v6 s resp g4 (p, some g6) = (p, answered (patch s resp g4 g6) g4 g6)

unfoldable pub finish_v4 :
    DnsProxy → Msg → (IpPool → IpPool × Option Given) → IpPool × Option Given → IpPool × Written
finish_v4 s resp give6 (p, none) = (p, failed)
finish_v4 s resp give6 (p, some g4) = finish_v6 s resp g4 (give6 p)

abbrev pub sections : Msg → List Rr
sections m = m.answer ++ (m.ns ++ m.extra)

unfoldable pub handle_response : DnsProxy → ℕ → (Bytes → ℕ) → Msg → IpPool → IpPool × Written
handle_response s now clock resp p =
    let reals = collect_all s.enable_ipv6 (sections resp) (record { v4 = []; v6 = [] }) in
    finish_v4 s resp (give true now clock reals.v6) (give false now clock reals.v4 p)

-- `plain` says that the request has no question, or asks for the root or the health check only.
unfoldable pub handle_dns_request :
    DnsProxy → Bool → List (Bool → ℕ → Option Msg) → ℕ → (Bytes → ℕ) → IpPool → IpPool × Written
handle_dns_request s plain upstreams now clock p =
    let resolved : IpPool × Written = elim (resolve_upstream upstreams) [
      | none ↦ (p, failed)
      | some resp ↦ handle_response s now clock resp p
    ] in
    if plain then (p, empty_reply) else resolved

-- The calls of `nftClient.AddMapping` in the background: the fake address, and the real one in the form
-- of its family.
unfoldable pub to_apply : (Bytes → Bytes) → Map IpText Bytes → List (Bytes × Bytes)
to_apply form [] = []
to_apply form ((text, fake) ∷ m) = (fake, form (to_ip text)) ∷ to_apply form m

unfoldable pub to_broadcast : (Bytes → Bytes) → Map IpText MappingInfo → List Mapping
to_broadcast form [] = []
to_broadcast form ((text, info) ∷ m) =
    record { fake_ip = info.ip; real_ip = form (to_ip text); version = info.version }
    ∷ to_broadcast form m

-- What the background routine applies, and what it sends to the peers.
unfoldable pub background : Given → Given → List (Bytes × Bytes) × List Mapping
background g4 g6 = (
  to_apply to4_bytes g4.result ++ to_apply to16 g6.result,
  to_broadcast to4_bytes g4.new_mappings ++ to_broadcast to16 g6.new_mappings,
)
