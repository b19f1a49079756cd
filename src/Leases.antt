-- ===== src/Leases.antt =====
-- What the pool of internal/dnsengine/ippool.go promises: a one-to-one partial map from real to fake
-- addresses, which each method changes in its own way. A call of a method is an `Op`.
pub mod Setup
pub mod Settling
pub mod Sharing
pub mod Refining
use next_path.Alloc.{get_fake_ips_for_reals}
use next_path.Base.{ℕ, ◌+◌, Bool, List, [], ◌∷◌, ite, Option, none, some, ◌≡◌, ◌≢◌, ◌⊎◌, All}
use next_path.Lease.{try_reserve, prune_expired}
use next_path.Net.{Bytes, IpKey, IpKey-discrete, IsIp, to_ip_key}
use next_path.Pool.Views.{fake_of, expiry_of}
use next_path.Pool.{IpPool, add_mapping, remove_mapping}
use next_path.Sync.{observe}

-- A method with its arguments and the readings of the wall clock that it takes.
pub data Op : Type 0 where
  add : Bytes → Bytes → ℕ → ℕ → Op
  reserve : Bytes → Bytes → ℕ → ℕ → ℕ → ℕ → Op
  remove : Bytes → Bytes → Op
  prune : ℕ → Op
  give : Bool → ℕ → (Bytes → ℕ) → List Bytes → Op
  hear : ℕ → ℕ → Op

-- The pool after the call.
unfoldable pub run : Op → IpPool → IpPool
run (add real fake v e) p = (add_mapping real fake v e p).0
run (reserve real fake v e now later) p = (try_reserve real fake v e now later p).0
run (remove real fake) p = remove_mapping real fake p
run (prune now) p = prune_expired now p
run (give is_ipv6 now clock reals) p = (get_fake_ips_for_reals is_ipv6 now clock reals p).0
run (hear v now) p = observe v now p

unfoldable pub run_all : List Op → IpPool → IpPool
run_all [] p = p
run_all (op ∷ ops) p = run_all ops (run op p)

-- Its addresses have four or sixteen bytes.
abbrev pub HasIps : Op → Type 0
HasIps (add real fake v e) = IsIp real × IsIp fake
HasIps (reserve real fake v e now later) = IsIp real × IsIp fake
HasIps (remove real fake) = IsIp real
HasIps (prune now) = Unit {0}
HasIps (give is_ipv6 now clock reals) = All IsIp reals
HasIps (hear v now) = Unit {0}

-- The map: the fake address of each real one.
abbrev pub Leases : Type 0
Leases = IpKey → Option IpKey

abbrev pub leases : IpPool → Leases
leases = fake_of

abbrev pub OneToOne : Leases → Type 0
OneToOne l = (r s f : IpKey) → l r ≡ some f → l s ≡ some f → r ≡ s

abbrev pub Same : Leases → Leases → Type 0
Same l m = (k : IpKey) → m k ≡ l k

-- Every mapping of the second is one of the first.
abbrev pub Shrinks : Leases → Leases → Type 0
Shrinks l m = (k f : IpKey) → m k ≡ some f → l k ≡ some f

abbrev pub SameBut : IpKey → Leases → Leases → Type 0
SameBut rk l m = (k : IpKey) → k ≢ rk → m k ≡ l k

-- The two addresses belong to each other now, and to nothing else.
abbrev pub Moves : IpKey → IpKey → Leases → Leases → Type 0
Moves rk fk l m =
    (k : IpKey)
    → m k
      ≡ ite (IpKey-discrete k rk) (some fk)
          (elim (l k) [ none ↦ none | some f ↦ ite (IpKey-discrete f fk) none (some f) ])

-- Only the real address changes: it keeps what it has, loses it, or has the fake address, which no
-- other real one had.
abbrev pub Settles : IpKey → IpKey → Leases → Leases → Type 0
Settles rk fk l m =
    SameBut rk l m
    × ((m rk ≡ l rk)
        ⊎ ((m rk ≡ none) ⊎ ((m rk ≡ some fk) × ((k : IpKey) → k ≢ rk → l k ≢ some fk))))

-- The real address loses this fake address, if it has it.
abbrev pub Parts : IpKey → IpKey → Leases → Leases → Type 0
Parts rk fk l m = SameBut rk l m × Shrinks l m × (m rk ≢ some fk)

-- Exactly the given real addresses may change. Either each of them has a fake address then, or no
-- mapping is new.
abbrev pub Gives : List Bytes → Leases → Leases → Type 0
Gives reals l m =
    ((k : IpKey) → All (λ ip. k ≢ to_ip_key ip) reals → m k ≡ l k)
    × (All (λ ip. m (to_ip_key ip) ≢ none) reals ⊎ Shrinks l m)

-- What a method may do.
abbrev pub Allows : Op → Leases → Leases → Type 0
Allows (add real fake v e) l m = Same l m ⊎ Moves (to_ip_key real) (to_ip_key fake) l m
Allows (reserve real fake v e now later) l m = Settles (to_ip_key real) (to_ip_key fake) l m
Allows (remove real fake) l m = Parts (to_ip_key real) (to_ip_key fake) l m
Allows (prune now) l m = Shrinks l m
Allows (give is_ipv6 now clock reals) l m = Gives reals l m
Allows (hear v now) l m = Same l m

-- A sequence of calls through one-to-one maps.
abbrev pub Behaves : List Op → Leases → Leases → Type 0
Behaves [] l n = Same l n
Behaves (op ∷ ops) l n = (m : Leases) × Allows op l m × OneToOne m × Behaves ops m n
