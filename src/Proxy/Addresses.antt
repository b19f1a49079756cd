-- ===== src/Proxy/Addresses.antt =====
-- What handleDNSRequest in internal/dnsengine/proxy.go collects are addresses.
use next_path.Base.{
  none, ◌≡◌, ◌≢◌, Bool, true, false, List, [], ◌∷◌, inl, inr, All, All-append, Bool-cases,
  Option-cases,
}
use next_path.Net.{Bytes, IpKey, IsIp, ipv4, to4, to_ip_key, zero16}
use next_path.Proxy.Collecting.{HintIps, RrIps, to4-key}
use next_path.Proxy.{
  SvcbKeyValue, ipv4_hint, ipv6_hint, rest, Rr, a, aaaa, svcb, signature, other, Reals, ip_equal,
  holds, add_v4, add_v6, add_all, extract_hints, collect_ips, collect_all,
}

-- An address of IPv6.
abbrev pub IsIp6 : Bytes → Type 0
IsIp6 ip = IsIp ip × (to4 ip ≡ none)

abbrev pub RealIps : Reals → Type 0
RealIps rs = All IsIp rs.v4 × All IsIp6 rs.v6

add_v4-RealIps : (ip : Bytes) (rs : Reals) → IsIp ip → RealIps rs → RealIps (add_v4 ip rs)
unfolding add_v4
add_v4-RealIps ip rs v (four, six) = elim (Option-cases (to4 ip)) [
  | inl e ↦ rw (e, add_v4) (four, six)
  | inr (b, e) ↦ elim (Bool-cases (ip_equal b (ipv4 0 0 0 0))) [
    | inl zero ↦ rw (e, zero, add_v4) (four, six)
    | inr nonzero ↦ elim (Bool-cases (holds b rs.v4)) [
      | inl old ↦ rw (e, nonzero, old, add_v4) (four, six)
      | inr new ↦
          rw (e, nonzero, new, add_v4)
            (All-append IsIp rs.v4 (b ∷ []) four ((to4-key ip b v e).1, tt), six)
    ]
  ]
]

add_v6-RealIps :
    (enable : Bool) (ip : Bytes) (rs : Reals) → IsIp ip → RealIps rs → RealIps (add_v6 enable ip rs)
unfolding add_v6
add_v6-RealIps false ip rs v h = h
add_v6-RealIps true ip rs v (four, six) = elim (Option-cases (to4 ip)) [
  | inr (b, e) ↦ rw (e, add_v6) (four, six)
  | inl e ↦ elim (Bool-cases (ip_equal ip zero16)) [
    | inl zero ↦ rw (e, zero, add_v6) (four, six)
    | inr nonzero ↦ elim (Bool-cases (holds ip rs.v6)) [
      | inl old ↦ rw (e, nonzero, old, add_v6) (four, six)
      | inr new ↦
          rw (e, nonzero, new, add_v6) (four, All-append IsIp6 rs.v6 (ip ∷ []) six ((v, e), tt))
    ]
  ]
]

add_all-RealIps :
    (add : Bytes → Reals → Reals)
    → ((ip : Bytes) (rs : Reals) → IsIp ip → RealIps rs → RealIps (add ip rs))
    → (ips : List Bytes) (rs : Reals) → All IsIp ips
    → RealIps rs
    → RealIps (add_all add ips rs)
unfolding add_all
add_all-RealIps add keeps [] rs v h = h
add_all-RealIps add keeps (ip ∷ ips) rs (v, vs) h =
    add_all-RealIps add keeps ips (add ip rs) vs (keeps ip rs v h)

extract_hints-RealIps :
    (enable : Bool) (kvs : List SvcbKeyValue) (rs : Reals)
    → All HintIps kvs
    → RealIps rs
    → RealIps (extract_hints enable kvs rs)
unfolding extract_hints
extract_hints-RealIps enable [] rs v h = h
extract_hints-RealIps enable (ipv4_hint ips ∷ kvs) rs (v, vs) h =
    extract_hints-RealIps enable kvs _ vs (add_all-RealIps add_v4 add_v4-RealIps ips rs v h)
extract_hints-RealIps true (ipv6_hint ips ∷ kvs) rs (v, vs) h =
    extract_hints-RealIps true kvs _ vs
      (add_all-RealIps (add_v6 true) (add_v6-RealIps true) ips rs v h)
extract_hints-RealIps false (ipv6_hint ips ∷ kvs) rs (v, vs) h =
    extract_hints-RealIps false kvs rs vs h
extract_hints-RealIps enable (rest n ∷ kvs) rs (v, vs) h = extract_hints-RealIps enable kvs rs vs h

collect_ips-RealIps :
    (enable : Bool) (rr : Rr) (rs : Reals)
    → RrIps rr
    → RealIps rs
    → RealIps (collect_ips enable rr rs)
unfolding collect_ips
collect_ips-RealIps enable (a ttl ip) rs v h = add_v4-RealIps ip rs v h
collect_ips-RealIps enable (aaaa ttl ip) rs v h = add_v6-RealIps enable ip rs v h
collect_ips-RealIps enable (svcb ttl kvs) rs v h = extract_hints-RealIps enable kvs rs v h
collect_ips-RealIps enable (signature n) rs v h = h
collect_ips-RealIps enable (other n) rs v h = h

pub collect_all-RealIps :
    (enable : Bool) (rrs : List Rr) (rs : Reals)
    → All RrIps rrs
    → RealIps rs
    → RealIps (collect_all enable rrs rs)
unfolding collect_all
collect_all-RealIps enable [] rs v h = h
collect_all-RealIps enable (rr ∷ rrs) rs (v, vs) h =
    collect_all-RealIps enable rrs (collect_ips enable rr rs) vs
      (collect_ips-RealIps enable rr rs v h)

-- The addresses of IPv6 are addresses, and no key of IPv4 is one of theirs.
pub IsIp6-All : (ips : List Bytes) → All IsIp6 ips → All IsIp ips
IsIp6-All [] h = tt
IsIp6-All (ip ∷ ips) ((v, six), h) = (v, IsIp6-All ips h)

pub IsIp6-apart :
    (k : IpKey) (ips : List Bytes)
    → k.is_ipv6 ≡ false
    → All IsIp6 ips
    → All (λ ip. k ≢ to_ip_key ip) ips
unfolding to_ip_key
IsIp6-apart k [] four h = tt
IsIp6-apart k (ip ∷ ips) four ((v, six), h) =
    (λ e. absurd (cc (rw (e, to_ip_key, six) at four)), IsIp6-apart k ips four h)
