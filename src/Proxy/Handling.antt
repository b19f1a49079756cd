-- ===== src/Proxy/Handling.antt =====
-- The whole of handleDNSRequest in internal/dnsengine/proxy.go.
use next_path.Alloc.Giving.{Outcome, get_fake_ips_for_reals-Outcome}
use next_path.Alloc.Round.{IsReady}
use next_path.Alloc.Tracking.{Agrees, roll_back-Tracks}
use next_path.Alloc.{Given}
use next_path.Base.Map
use next_path.Base.{
  ℕ, Bool, true, false, List, [], ◌∷◌, ◌++◌, Option, none, some, ◌≡◌, ◌≢◌, ◌∙◌, inl, inr, refl, All,
  All-append, Option-cases,
}
use next_path.Leases.Sharing.{get_fake_ips_for_reals-Gives}
use next_path.Net.{Bytes, IpKey, IsIp, to_ip_key}
use next_path.Pool.Views.{fake_of}
use next_path.Pool.{IpPool, find}
use next_path.Proxy.Addresses.{IsIp6, IsIp6-All, IsIp6-apart, collect_all-RealIps}
use next_path.Proxy.Collecting.{RrIps, Settled, collect_all-Settled}
use next_path.Proxy.Hiding.{Hides, filter_rrs-Hides}
use next_path.Proxy.{
  Msg, Rr, Written, empty_reply, failed, answered, DnsProxy, Reals, collect_all, give, patch,
  filter_rrs, finish_v4, finish_v6, handle_response, handle_dns_request, resolve_upstream, sections,
}

-- No mapping but those of the start.
abbrev pub AddsNone : IpPool → IpPool → Type 0
AddsNone start q = (k f : IpKey) → fake_of q k ≡ some f → fake_of start k ≡ some f

-- The answers for addresses of IPv4 are the mappings of the pool.
abbrev pub Agrees4 : IpPool → Given → Type 0
Agrees4 q g =
    (k : IpKey) (ip : Bytes)
    → k.is_ipv6 ≡ false
    → find k g.result ≡ some ip
    → fake_of q k ≡ some (to_ip_key ip)

-- What a request leaves and writes.
abbrev pub Handled : DnsProxy → IpPool → IpPool × Written → Type 0
Handled s start (q, empty_reply) = IsReady q × AddsNone start q
Handled s start (q, failed) = IsReady q × AddsNone start q
Handled s start (q, answered msg g4 g6) =
    IsReady q
    × Agrees4 q g4
    × Agrees q g6
    × All (Hides s.max_ttl s.enable_ipv6 g4.result g6.result) (sections msg)
    × (msg.authenticated_data ≡ false)

give-Outcome :
    (is_v6 : Bool) (now : ℕ) (clock : Bytes → ℕ) (reals : List Bytes) (p : IpPool)
    → IsReady p
    → All IsIp reals
    → Outcome p reals (give is_v6 now clock reals p)
unfolding give Map.get
give-Outcome is_v6 now clock [] p ready v = (ready, λ k ip e. absurd (cc), tt, λ k f e. inl e, tt)
give-Outcome is_v6 now clock (ip ∷ ips) p ready v =
    get_fake_ips_for_reals-Outcome is_v6 now clock (ip ∷ ips) p ready v

give-others :
    (is_v6 : Bool) (now : ℕ) (clock : Bytes → ℕ) (reals : List Bytes) (p : IpPool) (k : IpKey)
    → IsReady p
    → All IsIp reals
    → All (λ ip. k ≢ to_ip_key ip) reals
    → fake_of (give is_v6 now clock reals p).0 k ≡ fake_of p k
unfolding give
give-others is_v6 now clock [] p k ready v n = refl
give-others is_v6 now clock (ip ∷ ips) p k ready v n =
    (get_fake_ips_for_reals-Gives is_v6 now clock (ip ∷ ips) p ready v).1.0 k n

All-front : (P : Rr → Type 0) (xs ys : List Rr) → All P (xs ++ ys) → All P xs × All P ys
All-front P [] ys h = (tt, h)
All-front P (x ∷ xs) ys (h, hs) = let (front, back) = All-front P xs ys hs in ((h, front), back)

module _ (s : DnsProxy) (resp : Msg) where
  patch-Hides :
      (g4 g6 : Given)
      → All (Settled g4.result g6.result s.enable_ipv6) (sections resp)
      → All (Hides s.max_ttl s.enable_ipv6 g4.result g6.result) (sections (patch s resp g4 g6))
  unfolding patch
  patch-Hides g4 g6 h =
      let P = Settled g4.result g6.result s.enable_ipv6 in
      let (answer, others) = All-front P resp.answer (resp.ns ++ resp.extra) h in
      let (ns, extra) = All-front P resp.ns resp.extra others in
      let keep = filter_rrs s.max_ttl s.enable_ipv6 g4.result g6.result in
      let hides = filter_rrs-Hides s.max_ttl s.enable_ipv6 g4.result g6.result in
      All-append _ (keep resp.answer) (keep resp.ns ++ keep resp.extra) (hides resp.answer answer)
        (All-append _ (keep resp.ns) (keep resp.extra) (hides resp.ns ns) (hides resp.extra extra))

  module _ (now : ℕ) (clock : Bytes → ℕ) (start : IpPool) (valid : All RrIps (sections resp)) where
    no_reals : Reals
    no_reals = record { v4 = []; v6 = [] }

    reals : Reals
    unfolding no_reals
    reals = collect_all s.enable_ipv6 (sections resp) no_reals

    finish_v6-Handled :
        (p : IpPool) (g4 : Given) (r : IpPool × Option Given)
        → Outcome start reals.v4 (p, some g4)
        → Outcome p reals.v6 r
        → ((k : IpKey) → k.is_ipv6 ≡ false → fake_of r.0 k ≡ fake_of p k)
        → Handled s start (finish_v6 s resp g4 r)
    unfolding finish_v6 reals no_reals patch
    finish_v6-Handled p g4 (q, none) (ready, agrees, found, tracks, keyed) (ready_q, none_new)
          same =
        roll_back-Tracks start g4.new_mappings q ready_q keyed
          (λ k f e. tracks k f (none_new k f e))
    finish_v6-Handled p g4 (q, some g6) (ready, agrees, found, tracks, keyed)
          (ready_q, agrees_q, found_q, t, k) same =
        (
          ready_q,
          λ k ip four e. same k four ∙ agrees k ip e,
          agrees_q,
          patch-Hides g4 g6
              (collect_all-Settled g4.result g6.result s.enable_ipv6 (sections resp) no_reals valid
                (found, found_q)).1,
          refl,
        )

    finish_v4-Handled :
        (r : IpPool × Option Given)
        → Outcome start reals.v4 r
        → Handled s start (finish_v4 s resp (give true now clock reals.v6) r)
    unfolding finish_v4 reals no_reals
    finish_v4-Handled (p, none) (ready, none_new) = (ready, none_new)
    finish_v4-Handled (p, some g4) (ready, agrees, found, tracks, keyed) =
        let six : All IsIp6 reals.v6 =
          (collect_all-RealIps s.enable_ipv6 (sections resp) no_reals valid (tt, tt)).1 in
        finish_v6-Handled p g4 (give true now clock reals.v6 p)
          (ready, agrees, found, tracks, keyed)
          (give-Outcome true now clock reals.v6 p ready (IsIp6-All reals.v6 six))
          (λ k four.
            give-others true now clock reals.v6 p k ready (IsIp6-All reals.v6 six)
              (IsIp6-apart k reals.v6 four six))

    pub handle_response-Handled :
        IsReady start → Handled s start (handle_response s now clock resp start)
    unfolding handle_response reals no_reals
    handle_response-Handled ready = finish_v4-Handled (give false now clock reals.v4 start) (
        give-Outcome false now clock reals.v4 start ready
          (collect_all-RealIps s.enable_ipv6 (sections resp) no_reals valid (tt, tt)).0)

-- From a pool that is ready, and where every message of the upstream servers holds addresses of four
-- or sixteen bytes, handleDNSRequest leaves a ready pool. An empty or failed reply leaves no mapping
-- that was not there before, also where IPv4 was mapped and IPv6 fails. The addresses of
-- an answer in its A, AAAA, SVCB and HTTPS records are ones that the request's two maps hold, but for
-- 0.0.0.0, the unspecified address, and an address of the wrong family for its record. What the map of
-- IPv6 has for a real address, and the map of IPv4 for one of IPv4, is the fake address that the pool
-- left gives it. A mapped A or AAAA record and each SVCB record has at most the configured time to
-- live, and the flag for authenticated data is off.
pub handle_dns_request-Handled :
    (s : DnsProxy) (plain : Bool) (upstreams : List (Bool → ℕ → Option Msg)) (now : ℕ)
    (clock : Bytes → ℕ) (start : IpPool)
    → IsReady start
    → ((resp : Msg) → resolve_upstream upstreams ≡ some resp → All RrIps (sections resp))
    → Handled s start (handle_dns_request s plain upstreams now clock start)
unfolding handle_dns_request
handle_dns_request-Handled s true upstreams now clock start ready valid = (ready, λ k f e. e)
handle_dns_request-Handled s false upstreams now clock start ready valid =
    elim (Option-cases (resolve_upstream upstreams)) [
      | inl lost ↦ rw (lost, handle_dns_request) (ready, λ k f e. e)
      | inr (resp, got) ↦
          rw (got, handle_dns_request)
            (handle_response-Handled s resp now clock start (valid resp got) ready)
    ]
