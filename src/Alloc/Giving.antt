-- ===== src/Alloc/Giving.antt =====
-- The whole of GetFakeIPsForReals in internal/dnsengine/ippool.go: what a call gives, and what a
-- failed one leaves.
use next_path.Alloc.Round.{IsReady, Rounds, allocate_key-Rounds}
use next_path.Alloc.{
  Allocated, done, exhausted, Given, allocate_one, allocate_all, roll_back, count_exhaustion,
  count_allocations, sort_reals, get_fake_ips_for_reals,
}
use next_path.Alloc.Tracking.{
  Agrees, Grows, Tracks, Keyed, round-Agrees, round-Grows, round-has, round-Keyed, round-Tracks,
  roll_back-Tracks,
}
use next_path.Alloc.Sorting.{All-sort_reals, All-sort_reals_back}
use next_path.Base.Map
use next_path.Base.Map.{Map}
use next_path.Base.{ℕ, Bool, List, [], ◌∷◌, Option, none, some, ◌≡◌, ◌≢◌, refl, sym, ◌∙◌, inl, All}
use next_path.Net.Keys.{to_ip_key-IsKey}
use next_path.Net.{Bytes, IpKey, IpKey-discrete, IsIp, to_ip_key}
use next_path.Pool.Claiming.{get_shard_index-key, Unchanged}
use next_path.Pool.Adding.{Unchanged-IsValid}
use next_path.Pool.Views.{fake_of}
use next_path.Pool.{IpPool, find, shard}

abbrev empty_given : Given
empty_given = record { result = []; new_mappings = [] }

-- What a call from `start` leaves and gives.
abbrev pub Outcome : IpPool → List Bytes → IpPool × Option Given → Type 0
Outcome start reals (q, some h) =
    IsReady q
    × Agrees q h
    × All (λ ip. find (to_ip_key ip) h.result ≢ none) reals
    × Tracks start q h.new_mappings
    × Keyed h.new_mappings
Outcome start reals (q, none) =
    IsReady q × ((k f : IpKey) → fake_of q k ≡ some f → fake_of start k ≡ some f)

-- The counters are out of sight of the maps.
Unchanged-IsReady :
    (p q : IpPool) → Unchanged p q → q.pool_start6 ≡ p.pool_start6 → IsReady p → IsReady q
unfolding fake_of shard
Unchanged-IsReady p q u start h = record {
  valid = Unchanged-IsValid p q u h.valid;
  keyed = rw u.shards h.keyed;
  start6 = rw start h.start6;
  wide6 = rw start h.wide6;
}

count_allocations-IsReady : (n : ℕ) (p : IpPool) → IsReady p → IsReady (count_allocations n p)
unfolding count_allocations
count_allocations-IsReady n p h =
    Unchanged-IsReady p _ (record { shards = refl; reals = refl; versions = refl; hlc = refl }) refl
      h

pub count_exhaustion-IsReady : (p : IpPool) → IsReady p → IsReady (count_exhaustion p)
unfolding count_exhaustion
count_exhaustion-IsReady p h =
    Unchanged-IsReady p _ (record { shards = refl; reals = refl; versions = refl; hlc = refl }) refl
      h

module _ (is_ipv6 : Bool) (now : ℕ) (clock : Bytes → ℕ) (start : IpPool) where
  pub allocate_one-Rounds :
      (ip : Bytes) (p : IpPool) (g : Given)
      → IsIp ip
      → IsReady p
      → Rounds p (to_ip_key ip) g (allocate_one is_ipv6 now (clock ip) ip p g)
  unfolding allocate_one
  allocate_one-Rounds ip p g v ready =
      rw (get_shard_index-key ip v)
        (allocate_key-Rounds is_ipv6 now (clock ip) ip p (to_ip_key ip) g ready)

  -- What stands before the rounds that are left.
  record Running (p : IpPool) (g : Given) : Type 0 where
    ready : IsReady p
    agrees : Agrees p g
    tracks : Tracks start p g.new_mappings
    keyed : Keyed g.new_mappings

  start-Running : IsReady start → Running start empty_given
  unfolding Map.get
  start-Running ready = record {
    ready = ready;
    agrees = λ k ip e. absurd (cc);
    tracks = λ k f e. inl e;
    keyed = tt;
  }

  Looped : Given → List Bytes → IpPool × Option Given → Type 0
  Looped g ips (q, some h) = Outcome start ips (q, some h) × Grows g h
  Looped g ips (q, none) = Outcome start ips (q, none)

  finish :
      (p : IpPool) (g : Given) → Running p g → Looped g [] (allocate_all is_ipv6 now clock [] p g)
  unfolding Looped allocate_all count_allocations fake_of shard
  finish p g r =
      ((count_allocations-IsReady _ p r.ready, r.agrees, tt, r.tracks, r.keyed), λ k n. n)

  fail :
      (p q : IpPool) (rk : IpKey) (g h : Given) (ips : List Bytes)
      → Running p g
      → Rounds p rk g (exhausted q h)
      → Looped g ips (roll_back h.new_mappings (count_exhaustion q), none)
  unfolding Looped count_exhaustion fake_of shard
  fail p q rk g h ips r (ready, others, lost, same) =
      roll_back-Tracks start h.new_mappings (count_exhaustion q) (count_exhaustion-IsReady q ready)
        (rw same r.keyed)
        (λ k f e. elim (IpKey-discrete k rk) [
          | yes here ↦ absurd (cc)
          | no n ↦ rw same (r.tracks k f (sym (others k n) ∙ e))
        ])

  continue :
      (p q : IpPool) (ip : Bytes) (g h : Given) (ips : List Bytes) (final : IpPool × Option Given)
      → Rounds p (to_ip_key ip) g (done q h)
      → Looped h ips final
      → Looped g (ip ∷ ips) final
  unfolding Looped
  continue p q ip g h ips (l, none) round o = o
  continue p q ip g h ips (l, some final) round ((ready, agrees, found, tracks, keyed), grows) = (
    (ready, agrees, (grows _ (round-has p q _ g h round), found), tracks, keyed),
    λ k n. grows k (round-Grows p q _ g h round k n),
  )

  advance :
      (p q : IpPool) (ip : Bytes) (g h : Given)
      → IsIp ip
      → Running p g
      → Rounds p (to_ip_key ip) g (done q h)
      → Running q h
  advance p q ip g h v r round = record {
    ready = round.0;
    agrees = round-Agrees p q _ g h round r.agrees;
    tracks = round-Tracks p q _ g h round start r.tracks;
    keyed = round-Keyed p q _ g h round (to_ip_key-IsKey ip v) r.keyed;
  }

  step :
      (ip : Bytes) (ips : List Bytes) (p : IpPool) (g : Given)
      → IsIp ip
      → Running p g
      → ((q : IpPool) (h : Given)
          → Running q h
          → Looped h ips (allocate_all is_ipv6 now clock ips q h))
      → (a : Allocated) → Rounds p (to_ip_key ip) g a
      → Looped g (ip ∷ ips) (elim a [
        | done q h ↦ allocate_all is_ipv6 now clock ips q h
        | exhausted q h ↦ (roll_back h.new_mappings (count_exhaustion q), none)
      ])
  step ip ips p g v r rest (done q h) round =
      continue p q ip g h ips _ round (rest q h (advance p q ip g h v r round))
  step ip ips p g v r rest (exhausted q h) round = fail p q (to_ip_key ip) g h (ip ∷ ips) r round

  allocate_all-Looped :
      (ips : List Bytes) (p : IpPool) (g : Given)
      → All IsIp ips
      → Running p g
      → Looped g ips (allocate_all is_ipv6 now clock ips p g)
  unfolding allocate_all
  allocate_all-Looped [] p g v r = finish p g r
  allocate_all-Looped (ip ∷ ips) p g (v, vs) r =
      step ip ips p g v r (λ q h r'. allocate_all-Looped ips q h vs r')
        (allocate_one is_ipv6 now (clock ip) ip p g) (allocate_one-Rounds ip p g v r.ready)

  Looped-Outcome :
      (g : Given) (ips : List Bytes) (r : IpPool × Option Given)
      → Looped g ips r
      → Outcome start ips r
  unfolding Looped
  Looped-Outcome g ips (q, none) o = o
  Looped-Outcome g ips (q, some h) (o, grows) = o

-- GetFakeIPsForReals on addresses of four or sixteen bytes, and a valid pool whose keys are keys of
-- such addresses and whose IPv6 start has sixteen bytes. A call that succeeds keeps the invariant and answers every
-- real address with the fake one that it has afterwards; what is mapped then was mapped before or
-- is a new mapping of the answer, whose real keys are keys of addresses. A call that fails keeps the invariant and leaves no mapping that
-- was not there before.
pub get_fake_ips_for_reals-Outcome :
    (is_ipv6 : Bool) (now : ℕ) (clock : Bytes → ℕ) (reals : List Bytes) (p : IpPool)
    → IsReady p
    → All IsIp reals
    → Outcome p reals (get_fake_ips_for_reals is_ipv6 now clock reals p)
unfolding get_fake_ips_for_reals
get_fake_ips_for_reals-Outcome is_ipv6 now clock [] p ready v = (ready, λ k f e. e)
get_fake_ips_for_reals-Outcome is_ipv6 now clock (ip ∷ ips) p ready v =
    unsorted (allocate_all is_ipv6 now clock (sort_reals (ip ∷ ips)) p empty_given) (
      Looped-Outcome is_ipv6 now clock p empty_given (sort_reals (ip ∷ ips)) _ (
        allocate_all-Looped is_ipv6 now clock p (sort_reals (ip ∷ ips)) p empty_given
          (All-sort_reals IsIp (ip ∷ ips) v) (start-Running is_ipv6 now clock p ready)))
  where
    unsorted :
        (r : IpPool × Option Given) → Outcome p (sort_reals (ip ∷ ips)) r → Outcome p (ip ∷ ips) r
    unsorted (q, none) o = o
    unsorted (q, some h) (ready_q, agrees, found, tracks, keyed) =
        (ready_q, agrees, All-sort_reals_back _ (ip ∷ ips) found, tracks, keyed)
