-- ===== src/Leases/Sharing.antt =====
-- GetFakeIPsForReals of internal/dnsengine/ippool.go changes the addresses that it is called with only.
use next_path.Alloc.Giving.{
  count_exhaustion-IsReady, allocate_one-Rounds, get_fake_ips_for_reals-Outcome, Outcome,
}
use next_path.Alloc.Round.{IsReady, Rounds}
use next_path.Alloc.Sorting.{All-sort_reals}
use next_path.Alloc.Tracking.{Agrees, Keyed, IsReady-removed, remove_text, round-Keyed}
use next_path.Alloc.{
  Allocated, done, exhausted, Given, MappingInfo, allocate_one, allocate_all, roll_back,
  count_exhaustion, count_allocations, sort_reals, get_fake_ips_for_reals,
}
use next_path.Base.Map
use next_path.Base.Map.{Map}
use next_path.Base.{
  Option-cases, length, ℕ, Bool, List, [], ◌∷◌, Option, none, some, ◌≡◌, ◌≢◌, refl, ◌∙◌, inl, inr,
  if_pos, if_neg, All,
}
use next_path.Leases.{Gives}
use next_path.Net.Keys.{to_ip_key-IsKey}
use next_path.Net.{Bytes, IpKey, IpKey-discrete, IsIp, to_ip_key}
use next_path.Pool.Views.{fake_of}
use next_path.Pool.{find, IpPool, shard, remove_mapping}
use next_path.Net.{to_ip}

-- The key is none of the map's.
abbrev Missing : IpKey → Map IpKey MappingInfo → Type 0
Missing k m = All (λ e. k ≢ e.0) m

Missing-delete :
    (k j : IpKey) (m : Map IpKey MappingInfo)
    → Missing k m
    → Missing k (Map.delete IpKey-discrete j m)
unfolding Map.delete
Missing-delete k j [] h = tt
Missing-delete k j ((i, v) ∷ m) (h, hs) = elim (IpKey-discrete j i) [
  | yes e ↦ rw (if_pos _ e) (Missing-delete k j m hs)
  | no n ↦ rw (if_neg _ n) (h, Missing-delete k j m hs)
]

Missing-put :
    (k j : IpKey) (v : MappingInfo) (m : Map IpKey MappingInfo)
    → k ≢ j
    → Missing k m
    → Missing k (Map.put IpKey-discrete j v m)
unfolding Map.put
Missing-put k j v m n h = (n, Missing-delete k j m h)

roll_back-others :
    (k : IpKey) (start : IpPool) (m : Map IpKey MappingInfo) (q : IpPool)
    → IsReady q
    → Keyed m
    → Missing k m
    → fake_of (roll_back m q) k ≡ fake_of q k
unfolding roll_back
roll_back-others k start [] q ready keyed other = refl
roll_back-others k start ((text, info) ∷ m) q ready (key, keyed) (n, other) =
    let r = remove_text start q text info.ip ready.valid key in
    roll_back-others k start m (remove_mapping (to_ip text) info.ip q)
      (IsReady-removed start q _ _ _ r ready) keyed other
    ∙ r.kept_real k n

-- The counters are out of sight of the maps.
count_exhaustion-fake_of : (q : IpPool) (k : IpKey) → fake_of (count_exhaustion q) k ≡ fake_of q k
unfolding count_exhaustion fake_of shard
count_exhaustion-fake_of q k = refl

count_allocations-fake_of :
    (n : ℕ) (q : IpPool) (k : IpKey) → fake_of (count_allocations n q) k ≡ fake_of q k
unfolding count_allocations fake_of shard
count_allocations-fake_of n q k = refl

module _ (is_ipv6 : Bool) (now : ℕ) (clock : Bytes → ℕ) (k : IpKey) where
  round-Missing :
      (p q : IpPool) (rk : IpKey) (g h : Given)
      → Rounds p rk g (done q h)
      → k ≢ rk
      → Missing k g.new_mappings
      → Missing k h.new_mappings
  round-Missing p q rk g h (ready, others, (ip, has, put, kind)) n other = elim kind [
    | inl (e, old) ↦ rw e other
    | inr (v, e) ↦ rw e (Missing-put k rk _ g.new_mappings n other)
  ]

  step :
      (ip : Bytes) (ips : List Bytes) (p : IpPool) (g : Given)
      → IsIp ip
      → IsReady p
      → Keyed g.new_mappings
      → k ≢ to_ip_key ip
      → Missing k g.new_mappings
      → ((q : IpPool) (h : Given)
          → IsReady q
          → Keyed h.new_mappings
          → Missing k h.new_mappings
          → fake_of (allocate_all is_ipv6 now clock ips q h).0 k ≡ fake_of q k)
      → (a : Allocated) → Rounds p (to_ip_key ip) g a
      → let final : IpPool × Option Given = elim a [
        | done q h ↦ allocate_all is_ipv6 now clock ips q h
        | exhausted q h ↦ (roll_back h.new_mappings (count_exhaustion q), none)
      ] in
        fake_of final.0 k ≡ fake_of p k
  step ip ips p g v ready keyed n other rest (done q h) round =
      rest q h round.0 (round-Keyed p q _ g h round (to_ip_key-IsKey ip v) keyed)
        (round-Missing p q _ g h round n other)
      ∙ round.1 k n
  step ip ips p g v ready keyed n other rest (exhausted q h) (ready_q, others, lost, same) =
      roll_back-others k p h.new_mappings (count_exhaustion q) (count_exhaustion-IsReady q ready_q)
        (rw same keyed) (rw same other)
      ∙ count_exhaustion-fake_of q k
      ∙ others k n

  allocate_all-others :
      (ips : List Bytes) (p : IpPool) (g : Given)
      → All IsIp ips
      → All (λ ip. k ≢ to_ip_key ip) ips
      → IsReady p
      → Keyed g.new_mappings
      → Missing k g.new_mappings
      → fake_of (allocate_all is_ipv6 now clock ips p g).0 k ≡ fake_of p k
  unfolding allocate_all
  allocate_all-others [] p g v n ready keyed other = count_allocations-fake_of (length g.result) p k
  allocate_all-others (ip ∷ ips) p g (v, vs) (n, ns) ready keyed other =
      step ip ips p g v ready keyed n other
        (λ q h ready_q keyed_q other_q. allocate_all-others ips q h vs ns ready_q keyed_q other_q)
        (allocate_one is_ipv6 now (clock ip) ip p g)
        (allocate_one-Rounds is_ipv6 now clock p ip p g v ready)

  get_fake_ips_for_reals-others :
      (reals : List Bytes) (p : IpPool)
      → IsReady p
      → All IsIp reals
      → All (λ ip. k ≢ to_ip_key ip) reals
      → fake_of (get_fake_ips_for_reals is_ipv6 now clock reals p).0 k ≡ fake_of p k
  unfolding get_fake_ips_for_reals
  get_fake_ips_for_reals-others [] p ready v n = refl
  get_fake_ips_for_reals-others (ip ∷ ips) p ready v n =
      allocate_all-others (sort_reals (ip ∷ ips)) p (record { result = []; new_mappings = [] })
        (All-sort_reals IsIp (ip ∷ ips) v) (All-sort_reals (λ x. k ≢ to_ip_key x) (ip ∷ ips) n)
        ready tt tt

answered :
    (q : IpPool) (h : Given) (reals : List Bytes)
    → Agrees q h
    → All (λ ip. find (to_ip_key ip) h.result ≢ none) reals
    → All (λ ip. fake_of q (to_ip_key ip) ≢ none) reals
answered q h [] agrees found = tt
answered q h (ip ∷ ips) agrees (n, ns) = (
  λ e. elim (Option-cases (find (to_ip_key ip) h.result)) [
    | inl missing ↦ n missing
    | inr (fake, there) ↦ absurd (cc (agrees (to_ip_key ip) fake there))
  ],
  answered q h ips agrees ns,
)

-- What a call promises of the map alone.
pub get_fake_ips_for_reals-Gives :
    (is_ipv6 : Bool) (now : ℕ) (clock : Bytes → ℕ) (reals : List Bytes) (p : IpPool)
    → IsReady p
    → All IsIp reals
    → let q = (get_fake_ips_for_reals is_ipv6 now clock reals p).0 in
      IsReady q × Gives reals (fake_of p) (fake_of q)
get_fake_ips_for_reals-Gives is_ipv6 now clock reals p ready v =
    read (get_fake_ips_for_reals is_ipv6 now clock reals p)
      (get_fake_ips_for_reals-Outcome is_ipv6 now clock reals p ready v)
      (λ k n. get_fake_ips_for_reals-others is_ipv6 now clock k reals p ready v n)
  where
    read :
        (r : IpPool × Option Given)
        → Outcome p reals r
        → ((k : IpKey) → All (λ ip. k ≢ to_ip_key ip) reals → fake_of r.0 k ≡ fake_of p k)
        → IsReady r.0 × Gives reals (fake_of p) (fake_of r.0)
    read (q, some h) (ready_q, agrees, found, tracks, keyed) same =
        (ready_q, (same, inl (answered q h reals agrees found)))
    read (q, none) (ready_q, less) same = (ready_q, (same, inr less))
