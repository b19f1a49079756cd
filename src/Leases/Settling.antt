-- ===== src/Leases/Settling.antt =====
-- TryReserve of internal/dnsengine/ippool.go as a change of one real address.
use next_path.Base.{ℕ, ◌≡◌, inl, inr, refl, arith, Option-cases}
use next_path.Lease.Checking.{Checked, check_lease-Checked, bind_free}
use next_path.Lease.{Held, held, vacant, check_lease, reserve_key, try_reserve}
use next_path.Leases.{Settles}
use next_path.Net.{Bytes, IpKey, IsIp, to_ip_key}
use next_path.Pool.Claiming.{get_shard_index-key}
use next_path.Pool.Invariant.{IsValid}
use next_path.Pool.Views.{key_index, fake_of, real_of}
use next_path.Pool.{IpPool}

module _ (p : IpPool) (rk fk : IpKey) (fake_ip : Bytes) (v e now later : ℕ)
    (valid : IsValid p) where
  Settles-cases :
      (h : Held)
      → Checked p rk h
      → h ≡ check_lease (key_index rk) rk e now later p
      → Settles rk fk
          (fake_of p)
          (fake_of (reserve_key (key_index rk) rk fk fake_ip v e now later p).0)
  unfolding reserve_key real_of
  Settles-cases (held q f) (valid_q, setup, old, same) eq =
      rw (← eq, reserve_key) (λ k n. same k, inl (same rk))
  Settles-cases (vacant q) (valid_q, setup, free, same) eq = elim (Option-cases (real_of q fk)) [
    | inr (r, h) ↦ rw (← eq, reserve_key, h) (same, inr (inl free))
    | inl h ↦
        let b = bind_free q rk fk v e valid_q free h in
        rw (← eq, reserve_key, h)
          (
            λ k n. ground (arith, b.fakes k, same k n, valid_q.owned k fk),
            inr (
                inr (
                  ground (arith, b.fakes rk),
                  λ k n l. ground (arith, same k n, valid_q.owned k fk),
                )),
          )
  ]

pub try_reserve-Settles :
    (p : IpPool) (real_ip fake_ip : Bytes) (v e now later : ℕ)
    → IsValid p
    → IsIp real_ip
    → Settles
        (to_ip_key real_ip)
        (to_ip_key fake_ip)
        (fake_of p)
        (fake_of (try_reserve real_ip fake_ip v e now later p).0)
unfolding try_reserve
try_reserve-Settles p real_ip fake_ip v e now later valid ip =
    let rk = to_ip_key real_ip in
    rw (get_shard_index-key real_ip ip) (
      Settles-cases p rk (to_ip_key fake_ip) fake_ip v e now later valid
        (check_lease (key_index rk) rk e now later p) (check_lease-Checked p rk e now later valid)
        refl)
