-- ===== src/Leases/Setup.antt =====
-- The methods of the pool in internal/dnsengine/ippool.go leave the start of its IPv6 part alone.
use next_path.Base.{
  arith, ℕ, zero, suc, List, [], ◌∷◌, Option, none, some, ◌≡◌, refl, ◌∙◌, inl, inr, Bool-cases,
  Option-cases,
}
use next_path.Lease.Checking.{Checked, check_lease-Checked}
use next_path.Lease.{
  Held, held, vacant, check_lease, reserve_key, try_reserve, drop_expired, drop_all, prune_shard,
  prune_from, prune_expired,
}
use next_path.Net.{Bytes, IpKey, IsIp, to_ip_key}
use next_path.Pool.Claiming.{get_shard_index-key}
use next_path.Pool.Invariant.{IsValid}
use next_path.Pool.Views.{key_index}
use next_path.Pool.{
  IpPool, add_mapping, claim_fake, claim_real, store, clear_old, update_shard, assign_fake,
  forget_fake, unlink, count_collision, find, shard, loses, key_bytes, get_shard_index,
}

store-start6 :
    (i : ℕ) (rk fk : IpKey) (v e : ℕ) (old : Option IpKey) (p : IpPool)
    → (store i rk fk v e old p).pool_start6 ≡ p.pool_start6
unfolding store clear_old update_shard assign_fake
store-start6 i rk fk v e none p = refl
store-start6 i rk fk v e (some r) p = refl

unlink-start6 :
    (i : ℕ) (rk fk : IpKey) (p : IpPool) → (unlink i rk fk p).pool_start6 ≡ p.pool_start6
unfolding unlink update_shard forget_fake
unlink-start6 i rk fk p = refl

claim_real-start6 :
    (i : ℕ) (rk fk : IpKey) (v e : ℕ) (old : Option IpKey) (p : IpPool)
    → (claim_real i rk fk v e old p).0.pool_start6 ≡ p.pool_start6
unfolding claim_real count_collision forget_fake
claim_real-start6 i rk fk v e old p = elim (Option-cases (find rk (shard p i).real_to_fake)) [
  | inl h ↦ rw (h, claim_real) (store-start6 i rk fk v e old p)
  | inr (f, h) ↦ ground (
    arith,
    store-start6 i rk fk v e old (count_collision p),
    store-start6 i rk fk v e old (forget_fake f (count_collision p)),
  )
]

pub add_mapping-start6 :
    (real fake : Bytes) (v e : ℕ) (p : IpPool)
    → (add_mapping real fake v e p).0.pool_start6 ≡ p.pool_start6
unfolding add_mapping claim_fake count_collision
add_mapping-start6 real fake v e p =
    let fk = to_ip_key fake in
    let rk = to_ip_key real in
    elim (Option-cases (find fk p.global_fake_to_real)) [
      | inl h ↦ rw (h, claim_fake) (claim_real-start6 (get_shard_index real) rk fk v e none p)
      | inr (r, h) ↦
          elim (Bool-cases (loses v (key_bytes rk) (find fk p.global_versions) (key_bytes r))) [
            | inl lost ↦ rw (h, claim_fake, lost) refl
            | inr won ↦
                rw (h, claim_fake, won)
                  (claim_real-start6 (get_shard_index real) rk fk v e _ (count_collision p))
          ]
    ]

drop_expired-start6 :
    (now i : ℕ) (e : IpKey × IpKey) (p : IpPool)
    → (drop_expired now i e p).pool_start6 ≡ p.pool_start6
unfolding drop_expired
drop_expired-start6 now i (rk, fk) p = ground (arith, unlink-start6 i rk fk p)

drop_all-start6 :
    (now i : ℕ) (l : List (IpKey × IpKey)) (p : IpPool)
    → (drop_all now i l p).pool_start6 ≡ p.pool_start6
unfolding drop_all
drop_all-start6 now i [] p = refl
drop_all-start6 now i (e ∷ l) p =
    drop_all-start6 now i l (drop_expired now i e p) ∙ drop_expired-start6 now i e p

prune_from-start6 : (now n i : ℕ) (p : IpPool) → (prune_from now n i p).pool_start6 ≡ p.pool_start6
unfolding prune_from prune_shard
prune_from-start6 now zero i p = refl
prune_from-start6 now (suc n) i p =
    prune_from-start6 now n (suc i) (prune_shard now i p) ∙ drop_all-start6 now i _ p

pub prune_expired-start6 :
    (now : ℕ) (p : IpPool) → (prune_expired now p).pool_start6 ≡ p.pool_start6
unfolding prune_expired
prune_expired-start6 now p = prune_from-start6 now 64 0 p

module _ (p : IpPool) (rk fk : IpKey) (fake_ip : Bytes) (v e now later : ℕ) where
  reserve-start6 :
      (h : Held)
      → Checked p rk h
      → h ≡ check_lease (key_index rk) rk e now later p
      → (reserve_key (key_index rk) rk fk fake_ip v e now later p).0.pool_start6 ≡ p.pool_start6
  unfolding reserve_key
  reserve-start6 (held q f) (valid, setup, old, same) eq = rw (← eq, reserve_key) setup.pool_start6
  reserve-start6 (vacant q) (valid, setup, free, same) eq =
      elim (Option-cases (find fk q.global_fake_to_real)) [
        | inr (r, h) ↦ rw (← eq, reserve_key, h) setup.pool_start6
        | inl h ↦
            rw (← eq, reserve_key, h)
              (store-start6 (key_index rk) rk fk v e none q ∙ setup.pool_start6)
      ]

pub try_reserve-start6 :
    (p : IpPool) (real_ip fake_ip : Bytes) (v e now later : ℕ)
    → IsValid p
    → IsIp real_ip
    → (try_reserve real_ip fake_ip v e now later p).0.pool_start6 ≡ p.pool_start6
unfolding try_reserve
try_reserve-start6 p real_ip fake_ip v e now later valid ip =
    let rk = to_ip_key real_ip in
    rw (get_shard_index-key real_ip ip) (
      reserve-start6 p rk (to_ip_key fake_ip) fake_ip v e now later
        (check_lease (key_index rk) rk e now later p) (check_lease-Checked p rk e now later valid)
        refl)
