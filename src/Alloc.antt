-- ===== src/Alloc.antt =====
-- GetFakeIPsForReals and ComputeLevel1Hash of internal/dnsengine/ippool.go: the choice of a fake
-- address for each real one. Arithmetic on uint32 wraps.
pub mod Natural
pub mod Probing
pub mod Choosing
pub mod Round
pub mod Tracking
pub mod Sorting
pub mod Giving
use next_path.Base.Map
use next_path.Base.Map.{Map}
use next_path.Base.{
  ℕ, zero, suc, ◌+◌, ◌-◌, ◌*◌, ◌/◌, ◌%◌, ◌^◌, Bool, true, false, not, ◌&&◌, ◌||◌, List, [], ◌∷◌,
  ◌++◌, Option, none, some, Ordering, ◌==◌, ltb, min, if◌then◌else◌, length, take, drop,
}
use next_path.Hlc.{get_next_version}
use next_path.Lease.{minute, mapping_ttl, check_lease, held, vacant}
use next_path.Net.{
  Bytes, IpKey, IpKey-discrete, v4_prefix, octets, be_uint32, to_ip_key, to_ip, to4, to16,
  bytes_compare, fnv1a_bytes,
}
use next_path.Pool.{IpPool, Metrics, find, shard, get_shard_index, store, remove_mapping}

abbrev pub u32_mod : ℕ
u32_mod = 2 ^ 32

-- `net.IPv4(byte(v >> 24), …)`.
abbrev pub ip_of_uint32 : ℕ → Bytes
ip_of_uint32 v = v4_prefix ++ octets v

-- A copy of `poolStart6` with `v` in its last four bytes.
abbrev pub ip6_of_uint32 : Bytes → ℕ → Bytes
ip6_of_uint32 start v = take 12 start ++ octets v

-- `ip.To4()` where nil is the empty list.
abbrev pub to4_bytes : Bytes → Bytes
to4_bytes ip = elim (to4 ip) [ none ↦ [] | some b ↦ b ]

-- The value of `ComputeLevel1Hash` on IPv4: never .0 or .255.
unfoldable pub natural4 : IpPool → Bytes → ℕ
natural4 p real_ip =
    let v = (p.pool_start + fnv1a_bytes (to4_bytes real_ip) % p.pool_size) % u32_mod in
    if v % 256 == 0 then (v + 1) % u32_mod else if v % 256 == 255 then v - 1 else v

unfoldable pub natural6 : IpPool → Bytes → ℕ
natural6 p real_ip =
    (be_uint32 (drop 12 p.pool_start6) + fnv1a_bytes (to16 real_ip) % p.pool_size6) % u32_mod

unfoldable pub compute_level1_hash : Bool → Bytes → IpPool → Bytes
unfolding natural4 natural6
compute_level1_hash false real_ip p = ip_of_uint32 (natural4 p real_ip)
compute_level1_hash true real_ip p = ip6_of_uint32 p.pool_start6 (natural6 p real_ip)

unfoldable pub occupied : IpPool → Bytes → Bool
occupied p ip = elim (find (to_ip_key ip) p.global_fake_to_real) [ none ↦ false | some _ ↦ true ]

-- `candidateIPVal` at an attempt; the subtraction of uint32 values wraps.
unfoldable pub candidate4 : IpPool → ℕ → ℕ → ℕ
candidate4 p natural attempt =
    let offset = (natural + u32_mod - p.pool_start) % u32_mod in
    (p.pool_start + (offset + attempt) % u32_mod % p.pool_size) % u32_mod

-- One attempt: `rest` is what the attempts after it find.
unfoldable pub try_candidate4 : IpPool → ℕ → Option Bytes → Option Bytes
try_candidate4 p v rest =
    if v % 256 == 0 || v % 256 == 255
    then rest
    else if occupied p (ip_of_uint32 v)
    then rest
    else some (ip_of_uint32 v)

-- The IPv4 probe: `n` attempts are left.
unfoldable pub probe4 : IpPool → ℕ → ℕ → ℕ → Option Bytes
probe4 p natural zero attempt = none
probe4 p natural (suc n) attempt =
    let rest = probe4 p natural n (attempt + 1) in
    try_candidate4 p (candidate4 p natural attempt) rest

unfoldable pub candidate6 : IpPool → ℕ → ℕ → ℕ
candidate6 p natural attempt =
    let start = be_uint32 (drop 12 p.pool_start6) in
    let offset = (natural + u32_mod - start) % u32_mod in
    (start + (offset + attempt) % u32_mod % p.pool_size6) % u32_mod

unfoldable pub try_candidate6 : IpPool → ℕ → Option Bytes → Option Bytes
try_candidate6 p v rest =
    let ip = ip6_of_uint32 p.pool_start6 v in if occupied p ip then rest else some ip

unfoldable pub probe6 : IpPool → ℕ → ℕ → ℕ → Option Bytes
probe6 p natural zero attempt = none
probe6 p natural (suc n) attempt =
    let rest = probe6 p natural n (attempt + 1) in
    try_candidate6 p (candidate6 p natural attempt) rest

-- `finalFake`: the natural address, or the first free one that a probe meets.
unfoldable pub choose_fake : Bool → Bytes → IpPool → Option Bytes
choose_fake is_ipv6 real_ip p =
    let natural = compute_level1_hash is_ipv6 real_ip p in
    let probed =
      if is_ipv6
      then probe6 p (be_uint32 (drop 12 natural)) (min p.pool_size6 1024) 0
      else probe4 p (be_uint32 (to4_bytes natural)) (min p.pool_size 1024) 0 in
    if occupied p natural then probed else some natural

-- The text of an address stands for the key that it is the text of: two addresses have one text
-- exactly if they have one key, and `net.ParseIP` gives the address of the key back.
abbrev pub IpText : Type 0
IpText = IpKey

pub record MappingInfo : Type 0 where
  pub ip : Bytes
  pub version : ℕ

-- `result` and `newMappings`.
pub record Given : Type 0 where
  pub result : Map IpText Bytes
  pub new_mappings : Map IpText MappingInfo

abbrev pub answer : IpText → Bytes → Given → Given
answer text ip g = record g { result = Map.put IpKey-discrete text ip g.result }

pub data Allocated : Type 0 where
  done : IpPool → Given → Allocated
  exhausted : IpPool → Given → Allocated

-- The new lease: `clock` is the reading of the wall clock that the version is drawn at.
unfoldable pub grant : ℕ → IpKey → ℕ → ℕ → Bytes → IpPool → Given → Allocated
grant i rk now clock fake p g =
    let version = get_next_version clock p.hlc in
    done (store i rk (to_ip_key fake) version (now + mapping_ttl) none (record p { hlc = version }))
      (record {
        result = Map.put IpKey-discrete rk fake g.result;
        new_mappings =
            Map.put IpKey-discrete rk (record { ip = fake; version = version }) g.new_mappings;
      })

-- One round under the locks.
unfoldable pub allocate_locked : Bool → ℕ → ℕ → Bytes → ℕ → IpKey → IpPool → Given → Allocated
allocate_locked is_ipv6 now clock real_ip i rk p g =
    elim (check_lease i rk (now + mapping_ttl) now now p) [
      | held q existing ↦ done q (answer rk (to_ip existing) g)
      | vacant q ↦ elim (choose_fake is_ipv6 real_ip q) [
        | none ↦ exhausted q g
        | some fake ↦ grant i rk now clock fake q g
      ]
    ]

-- One round: the read outside the locks first. A missing expiry is the zero time.
unfoldable pub allocate_key : Bool → ℕ → ℕ → Bytes → ℕ → IpKey → IpPool → Given → Allocated
allocate_key is_ipv6 now clock real_ip i rk p g =
    let s = shard p i in
    let expiry : ℕ = elim (find rk s.expiries) [ none ↦ 0 | some e ↦ e ] in
    let locked = allocate_locked is_ipv6 now clock real_ip i rk p g in
    elim (find rk s.real_to_fake) [
      | none ↦ locked
      | some fk ↦ if ltb (now + 5 * minute) expiry then done p (answer rk (to_ip fk) g) else locked
    ]

unfoldable pub allocate_one : Bool → ℕ → ℕ → Bytes → IpPool → Given → Allocated
allocate_one is_ipv6 now clock real_ip =
    allocate_key is_ipv6 now clock real_ip (get_shard_index real_ip) (to_ip_key real_ip)

-- The roll-back: `RemoveMapping` of every new mapping of the call.
unfoldable pub roll_back : Map IpText MappingInfo → IpPool → IpPool
roll_back [] p = p
roll_back ((text, info) ∷ m) p = roll_back m (remove_mapping (to_ip text) info.ip p)

unfoldable pub count_exhaustion : IpPool → IpPool
count_exhaustion p = record p { metrics = record m { exhaustions = (m.exhaustions + 1) % 2 ^ 64 } }
  where
    m : Metrics
    m = p.metrics

unfoldable pub count_allocations : ℕ → IpPool → IpPool
count_allocations n p = record p {
  metrics = record m { allocations = (m.allocations + n) % 2 ^ 64 };
}
  where
    m : Metrics
    m = p.metrics

-- The loop over the sorted addresses.
unfoldable pub allocate_all :
    Bool → ℕ → (Bytes → ℕ) → List Bytes → IpPool → Given → IpPool × Option Given
allocate_all is_ipv6 now clock [] p g = (count_allocations (length g.result) p, some g)
allocate_all is_ipv6 now clock (ip ∷ ips) p g = elim (allocate_one is_ipv6 now (clock ip) ip p g) [
  | done q h ↦ allocate_all is_ipv6 now clock ips q h
  | exhausted q h ↦ (roll_back h.new_mappings (count_exhaustion q), none)
]

-- `sort.Slice` by `bytes.Compare` of the sixteen-byte forms.
unfoldable pub insert_real : Bytes → List Bytes → List Bytes
insert_real x [] = x ∷ []
insert_real x (y ∷ ys) = elim (bytes_compare (to16 y) (to16 x)) [
  | Ordering.lt ↦ y ∷ insert_real x ys
  | _ ↦ x ∷ y ∷ ys
]

unfoldable pub sort_reals : List Bytes → List Bytes
unfolding insert_real
sort_reals [] = []
sort_reals (x ∷ xs) = insert_real x (sort_reals xs)

-- `none` is the answer `nil, nil, false`.
unfoldable pub get_fake_ips_for_reals :
    Bool → ℕ → (Bytes → ℕ) → List Bytes → IpPool → IpPool × Option Given
get_fake_ips_for_reals is_ipv6 now clock [] p = (p, none)
get_fake_ips_for_reals is_ipv6 now clock (ip ∷ ips) p =
    allocate_all is_ipv6 now clock (sort_reals (ip ∷ ips)) p
      (record { result = []; new_mappings = [] })
