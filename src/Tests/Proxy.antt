-- ===== src/Tests/Proxy.antt =====
-- handleDNSRequest of internal/dnsengine/proxy.go on a message with 8.8.8.8, from an upstream server
-- that answers at its second attempt.
use next_path.Base.{
  ℕ, zero, suc, Bool, true, false, [], ◌∷◌, Option, none, some, ◌≡◌, refl, subst, All,
}
use next_path.Proxy.Collecting.{RrIps}
use next_path.Proxy.Handling.{Handled, handle_dns_request-Handled}
use next_path.Proxy.{Msg, a, other, DnsProxy, handle_dns_request, resolve_upstream, ask, sections}
use next_path.Tests.Data.{empty_pool, google, google-IsIp, pool_of-IsReady}

abbrev message : Msg
message = record {
  answer = a 900 google ∷ [];
  ns = [];
  extra = other 7 ∷ [];
  truncated = false;
  authenticated_data = true;
}

abbrev upstream : Bool → ℕ → Option Msg
upstream tcp zero = none
upstream tcp (suc n) = some message

abbrev proxy : DnsProxy
proxy = record { max_ttl = 300; enable_ipv6 = true }

resolves : resolve_upstream (upstream ∷ []) ≡ some message
unfolding resolve_upstream ask
resolves = refl

message-RrIps :
    (resp : Msg) → resolve_upstream (upstream ∷ []) ≡ some resp → All RrIps (sections resp)
message-RrIps resp h =
    let same : message ≡ resp = cc resolves in
    subst (λ m. All RrIps (sections m)) same (google-IsIp, (tt, tt))

handle_dns_request-Handled_example :
    Handled proxy empty_pool
      (handle_dns_request proxy false (upstream ∷ []) 1000 (λ _. 2000) empty_pool)
handle_dns_request-Handled_example =
    handle_dns_request-Handled proxy false (upstream ∷ []) 1000 (λ _. 2000) empty_pool
      (pool_of-IsReady 65536) message-RrIps
