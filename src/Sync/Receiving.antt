-- ===== src/Sync/Receiving.antt =====
-- Mappings that arrive from other nodes (handleConnection in internal/dnsengine/sync.go).
use mathlib.Core.List.{Memᴰ}
use next_path.Base.{
  ℕ, ◌+◌, ◌%◌, ◌^◌, Bool, true, false, ◌||◌, List, [], ◌∷◌, some, ◌≡◌, ◌⊎◌, inl, inr, refl, sym,
  ◌∙◌, arith, ltb, All, Bool-cases, length,
}
use next_path.Lease.{mapping_ttl}
use next_path.Net.{Bytes, IpKey, IpKey-discrete, IsIp, to_ip_key}
use next_path.Pool.Adding.{add_mapping-Decides, add_mapping-IsValid, IsValid-maps}
use next_path.Pool.Claiming.{Unchanged, wins}
use next_path.Pool.Invariant.{IsValid}
use next_path.Pool.Views.{fake_of}
use next_path.Pool.{IpPool, Mapping, add_mapping, shard, get_version}
use next_path.Sync.{
  SyncManager, is_in_subnet, is_nil, observe, apply_mapping, receive_mapping, receive_all,
  receive_message,
}

-- The mapping of two keys is one of the list, and its fake address is in the subnet.
abbrev pub Sent : SyncManager → List Mapping → IpKey → IpKey → Type 0
Sent s ms k f =
    (m : Mapping) × Memᴰ m ms
    × (is_in_subnet s m.fake_ip ≡ true)
    × (k ≡ to_ip_key m.real_ip)
    × (f ≡ to_ip_key m.fake_ip)

-- `t` comes from `s` by some of the mappings.
pub record Received (s : SyncManager) (ms : List Mapping) (t : SyncManager) : Type 0 where
  pub valid : IsValid t.pool
  pub net_v4 : t.parsed_net_v4 ≡ s.parsed_net_v4
  pub net_v6 : t.parsed_net_v6 ≡ s.parsed_net_v6
  pub from : (k f : IpKey) → fake_of t.pool k ≡ some f → (fake_of s.pool k ≡ some f) ⊎ Sent s ms k f

Received-refl : (s : SyncManager) (ms : List Mapping) → IsValid s.pool → Received s ms s
Received-refl s ms valid = record {
  valid = valid;
  net_v4 = refl;
  net_v6 = refl;
  from = λ k f h. inl h;
}

pub Unchanged-fake_of : (p q : IpPool) → Unchanged p q → (k : IpKey) → fake_of q k ≡ fake_of p k
unfolding fake_of shard
Unchanged-fake_of p q u k = rw u.shards refl

module _ (now later : ℕ) (m : Mapping) (s : SyncManager) (valid : IsValid s.pool)
    (real : IsIp m.real_ip) where
  observed : IpPool
  observed = observe m.version now s.pool

  observed-IsValid : IsValid observed
  unfolding observed observe
  observed-IsValid = IsValid-maps s.pool observed refl refl refl valid

  observed-fake_of : (k : IpKey) → fake_of observed k ≡ fake_of s.pool k
  unfolding observed observe fake_of shard
  observed-fake_of k = refl

  added_from :
      (k f : IpKey)
      → fake_of (add_mapping m.real_ip m.fake_ip m.version (later + mapping_ttl) observed).0 k
        ≡ some f
      → (fake_of s.pool k ≡ some f) ⊎ ((k ≡ to_ip_key m.real_ip) × (f ≡ to_ip_key m.fake_ip))
  added_from k f h =
      let e = later + mapping_ttl in
      let d = add_mapping-Decides observed m.real_ip m.fake_ip m.version e observed-IsValid real in
      elim (Bool-cases (wins observed (to_ip_key m.real_ip) (to_ip_key m.fake_ip) m.version)) [
        | inr lost ↦
            inl (sym (observed-fake_of k) ∙ sym (Unchanged-fake_of observed _ (d.keeps lost) k) ∙ h)
        | inl won ↦
            let b = d.binds won in
            elim (IpKey-discrete k (to_ip_key m.real_ip)) [
              | yes here ↦ inr (here, ground (arith, b.fakes k))
              | no other ↦ inl (ground (arith, b.fakes k, observed-fake_of k))
            ]
      ]

  apply_mapping-pool : (r : IpPool × Bool) → (apply_mapping m r s).pool ≡ r.0
  unfolding apply_mapping
  apply_mapping-pool (p, true) = refl
  apply_mapping-pool (p, false) = refl

  apply_mapping-nets :
      (r : IpPool × Bool)
      → ((apply_mapping m r s).parsed_net_v4 ≡ s.parsed_net_v4)
        × ((apply_mapping m r s).parsed_net_v6 ≡ s.parsed_net_v6)
  unfolding apply_mapping
  apply_mapping-nets (p, true) = (refl, refl)
  apply_mapping-nets (p, false) = (refl, refl)

  Received-applied :
      (ms : List Mapping)
      → Memᴰ m ms
      → is_in_subnet s m.fake_ip ≡ true
      → let r = add_mapping m.real_ip m.fake_ip m.version (later + mapping_ttl) observed in
        Received s ms (apply_mapping m r s)
  Received-applied ms here inside =
      let r = add_mapping m.real_ip m.fake_ip m.version (later + mapping_ttl) observed in
      let (net_v4, net_v6) = apply_mapping-nets r in
      record {
        valid = rw (apply_mapping-pool r) (
            add_mapping-IsValid observed m.real_ip m.fake_ip m.version (later + mapping_ttl)
              observed-IsValid real);
        net_v4 = net_v4;
        net_v6 = net_v6;
        from = λ k f h. elim (added_from k f (rw (apply_mapping-pool r) at h)) [
          | inl old ↦ inl old
          | inr (a, b) ↦ inr (m, here, inside, a, b)
        ];
      }

  receive_mapping-Received :
      (ms : List Mapping) → Memᴰ m ms → Received s ms (receive_mapping now later m s)
  unfolding receive_mapping observed
  receive_mapping-Received ms here = elim (Bool-cases (is_nil m.fake_ip || is_nil m.real_ip)) [
    | inl nil ↦ rw nil (Received-refl s ms valid)
    | inr present ↦ elim (Bool-cases (is_in_subnet s m.fake_ip)) [
      | inr outside ↦ rw (present, outside) (Received-refl s ms valid)
      | inl inside ↦ elim (Bool-cases (ltb m.version (get_version m.fake_ip s.pool))) [
        | inl older ↦ rw (present, inside, older) (Received-refl s ms valid)
        | inr fresh ↦ rw (present, inside, fresh) (Received-applied ms here inside)
      ]
    ]
  ]

is_in_subnet-nets :
    (s t : SyncManager) (ip : Bytes)
    → t.parsed_net_v4 ≡ s.parsed_net_v4
    → t.parsed_net_v6 ≡ s.parsed_net_v6
    → is_in_subnet t ip ≡ is_in_subnet s ip
unfolding is_in_subnet
is_in_subnet-nets s t [] h₄ h₆ = refl
is_in_subnet-nets s t (b ∷ bs) h₄ h₆ = rw (h₄, h₆) refl

Received-trans :
    (s t u : SyncManager) (ms : List Mapping) → Received s ms t → Received t ms u → Received s ms u
Received-trans s t u ms a b = record {
  valid = b.valid;
  net_v4 = b.net_v4 ∙ a.net_v4;
  net_v6 = b.net_v6 ∙ a.net_v6;
  from = λ k f h. elim (b.from k f h) [
    | inl old ↦ a.from k f old
    | inr (m, here, inside, x, y) ↦
        inr (m, here, sym (is_in_subnet-nets s t m.fake_ip a.net_v4 a.net_v6) ∙ inside, x, y)
  ];
}

module _ (clock : Mapping → ℕ × ℕ) (ms : List Mapping) where
  receive_all-Received :
      (rest : List Mapping) (s : SyncManager)
      → ((m : Mapping) → Memᴰ m rest → Memᴰ m ms)
      → All (λ m. IsIp m.real_ip) rest
      → IsValid s.pool
      → Received s ms (receive_all clock rest s)
  unfolding receive_all
  receive_all-Received [] s sub ips valid = Received-refl s ms valid
  receive_all-Received (m ∷ rest) s sub (ip, ips) valid =
      let step =
        receive_mapping-Received (clock m).0 (clock m).1 m s valid ip ms (sub m (Memᴰ.head refl)) in
      let next = receive_mapping (clock m).0 (clock m).1 m s in
      Received-trans s next _ ms step
        (receive_all-Received rest next (λ q h. sub q (Memᴰ.tail h)) ips step.valid)

-- A message of mappings from a peer, whose real addresses have four or sixteen bytes, keeps the
-- pool valid. What is mapped afterwards was mapped before, or is a mapping of the message whose
-- fake address is in the subnet of this node.
pub receive_message-Received :
    (clock : Mapping → ℕ × ℕ) (ms : List Mapping) (s : SyncManager)
    → All (λ m. IsIp m.real_ip) ms
    → IsValid s.pool
    → Received s ms (receive_message clock ms s)
unfolding receive_message
receive_message-Received clock ms s ips valid =
    Received-trans s counted (receive_message clock ms s) ms
      (record { valid = valid; net_v4 = refl; net_v6 = refl; from = λ k f h. inl h })
      (receive_all-Received clock ms ms counted (λ m h. h) ips valid)
  where
    counted : SyncManager
    counted = record s { metrics_syncs = (s.metrics_syncs + length ms) % 2 ^ 64 }
