-- ===== src/Tests/Netlink.antt =====
-- Theorems on internal/netlink/nftables.go with a kernel that refuses every second batch.
use next_path.Base.{
  inr, inl, Bool-cases, if◌then◌else◌, Bool, true, false, not, [], ◌∷◌, ◌++◌, none, some, ◌≡◌, ◌≢◌,
  refl, All, Option,
}
use mathlib.Core.List.{Memᴰ}
use Prim.Native.String.{String}
use text.Mathlib.Text.{◌==◌ as same}
use next_path.Net.{Bytes}
use next_path.Netlink.Answers.{Settles, new_worker-Settles}
use next_path.Netlink.Input.{Verdict, accept, drop, first_verdict, Judges, input_rules-shut}
use next_path.Netlink.Order.{IsSound, new_worker-IsSound}
use next_path.Netlink.Rules.{
  Rule, Family, Protocol, port_drop, outside_drop, v4, v6, udp, tcp, Settings, input_rules,
  outside_rules, outside_family, sync_rules, peer_rules,
}
use next_path.Netlink.Worker.{
  Worker, waiting, stopped, new_worker, Run, stay, next, add_mapping, request,
}
use next_path.Netlink.{Kernel, NftClient, is_ipv6}
use next_path.Tests.Data.{google, fake_seven}

abbrev kernel : Kernel
kernel = record {
  State = Bool;
  add_elements = λ v6 els odd. (odd, none);
  flush = λ odd. (not odd, if_odd odd);
  connect = λ odd. (odd, true);
}
  where
    if_odd : Bool → Option Bytes
    if_odd true = some (98 ∷ 97 ∷ 100 ∷ [])
    if_odd false = none

abbrev client : NftClient kernel
client = record { kernel = true; connected = true; enable_ipv6 = true }

-- The worker after one request, and after it took the request.
abbrev requested : Worker kernel
requested = (request kernel fake_seven google 7200 (new_worker kernel client)).0

one_request : Run kernel (new_worker kernel client) requested
one_request = next stay (add_mapping fake_seven google 7200)

queue : requested.queue ≡ record { fake_ip = fake_seven; real_ip = google; timeout = 7200 } ∷ []
unfolding request new_worker is_ipv6
queue = refl

phase : requested.phase ≡ waiting
unfolding request new_worker is_ipv6
phase = refl

new_worker-IsSound_example : IsSound kernel requested
new_worker-IsSound_example = new_worker-IsSound kernel client requested one_request

not_stopped : requested.phase ≢ stopped
not_stopped e = absurd (cc phase)

new_worker-Settles_example : Settles kernel requested requested
new_worker-Settles_example = new_worker-Settles kernel client requested one_request not_stopped

abbrev settings : Settings
settings = record {
  pool_net = "198.18.0.0/15";
  pool_net6 = "fd00:18::/108";
  custom_doh = false;
  doh_port = "443";
  public_dns = false;
  dns_rate_limit = "300";
  enable_ipv6 = true;
  sync_port = "5353";
  peer_v4 = "192.0.2.7" ∷ [];
  peer_v6 = [];
}

-- A UDP packet to port 53 from 192.0.2.9.
abbrev packet : Rule → Option Verdict
packet (outside_drop v4 udp port) = if same port "53" then some drop else none
packet (port_drop udp port) = if same port "53" then some drop else none
packet _ = none

packet-Judges : Judges packet
packet-Judges = record {
  hooks = λ s. refl;
  no_lo = refl;
  no_connection = refl;
  denies = λ f e. absurd (cc);
  drops = drops;
}
  where
    drops :
        (f : Family) (p : Protocol) (port : String) → packet (outside_drop f p port) ≢ some accept
    drops v4 udp port e = elim (Bool-cases (same port "53")) [
      | inl h ↦ absurd (cc (rw h at e))
      | inr h ↦ absurd (cc (rw h at e))
    ]
    drops v4 tcp port e = absurd (cc)
    drops v6 p port e = absurd (cc)

no_peer : All (λ r. packet r ≡ none) (peer_rules settings)
unfolding peer_rules
no_peer = (refl, tt)

among : Memᴰ (outside_drop v4 udp "53") (outside_rules settings ++ sync_rules settings)
unfolding outside_rules outside_family
among = Memᴰ.head refl

input_rules-shut_example : first_verdict packet (input_rules settings) ≡ some drop
input_rules-shut_example =
    input_rules-shut packet settings packet-Judges no_peer (outside_drop v4 udp "53") among refl
