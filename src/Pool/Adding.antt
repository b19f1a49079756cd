-- ===== src/Pool/Adding.antt =====
-- AddMapping of internal/dnsengine/ippool.go: when it takes a mapping, and what it changes.
use next_path.Pool.Claiming.{
  get_shard_index-key, beats_fake, wins, Unchanged, Decides, refused, counted, claim_real-Decides,
}
use next_path.Base.{ℕ, Bool, none, some, ◌≡◌, ite, inl, inr, Option-cases, Bool-cases}
use next_path.Net.{Bytes, IpKey, IpKey-discrete, IsIp, to_ip_key}
use next_path.Pool.{IpPool, shard, count_collision, loses, key_bytes, claim_fake, add_mapping}
use next_path.Pool.Views.{key_index, fake_of, expiry_of, real_of, version_of}
use next_path.Pool.Invariant.{IsValid, Rebinds-IsValid}
use next_path.Pool.Store.{owner}

module _ (p : IpPool) (rk fk : IpKey) (v e : ℕ) (valid : IsValid p) where
  counted-IsValid : IsValid (count_collision p)
  unfolding count_collision fake_of expiry_of real_of version_of shard
  counted-IsValid = record {
    wide = valid.wide;
    owned = valid.owned;
    bound = valid.bound;
    versioned = valid.versioned;
    unversioned = valid.unversioned;
    timed = valid.timed;
    untimed = valid.untimed;
    placed = valid.placed;
  }

  -- A decision at the counted pool is one at the pool.
  Decides-counted :
      (r : IpPool × Bool)
      → Decides
          (count_collision p)
          rk
          fk
          v
          e
          (beats_fake (count_collision p) fk v (fake_of (count_collision p) rk))
          r
      → Decides p rk fk v e (beats_fake p fk v (fake_of p rk)) r
  unfolding count_collision fake_of expiry_of real_of version_of shard beats_fake
  Decides-counted r d = record {
    answers = d.answers;
    binds = λ h.
        let b = d.binds h in
        record {
          wide = b.wide;
          placed = b.placed;
          fakes = b.fakes;
          reals = b.reals;
          versions = b.versions;
          expiries = b.expiries;
        };
    keeps = λ h.
        let u = d.keeps h in
        record { shards = u.shards; reals = u.reals; versions = u.versions; hlc = u.hlc };
  }

  owner-none : real_of p fk ≡ none → owner rk (real_of p fk) ≡ none
  unfolding owner
  owner-none h = rw h

  owner-some :
      (r : IpKey)
      → real_of p fk ≡ some r
      → owner rk (real_of (count_collision p) fk) ≡ ite (IpKey-discrete r rk) none (some r)
  unfolding count_collision real_of owner
  owner-some r h = rw h

  claim_fake-Decides : Decides p rk fk v e (wins p rk fk v) (claim_fake (key_index rk) rk fk v e p)
  unfolding claim_fake wins real_of version_of
  claim_fake-Decides = elim (Option-cases (real_of p fk)) [
    | inl h ↦ rw (h, claim_fake) (rw (owner-none h) at (claim_real-Decides p rk fk v e valid))
    | inr (r, h) ↦ elim (Bool-cases (loses v (key_bytes rk) (version_of p fk) (key_bytes r))) [
      | inl lost ↦
          rw (h, claim_fake, lost) (refused p rk fk v e valid _ (counted p rk fk v e valid))
      | inr won ↦
          rw (h, claim_fake, won)
            (Decides-counted _ (
              rw (owner-some r h) at
                (claim_real-Decides (count_collision p) rk fk v e counted-IsValid)))
    ]
  ]

-- AddMapping on every path, for a valid pool and a real address of four or sixteen bytes. It answers whether the new mapping beats those that stand in its way.
-- If so, the two addresses are bound to each other with the version and the expiry given, every
-- other mapping of either is gone, and all else is as it was; if not, only the counters change.
pub add_mapping-Decides :
    (p : IpPool) (real_ip fake_ip : Bytes) (v e : ℕ)
    → IsValid p
    → IsIp real_ip
    → let rk = to_ip_key real_ip in
      let fk = to_ip_key fake_ip in
      Decides p rk fk v e (wins p rk fk v) (add_mapping real_ip fake_ip v e p)
unfolding add_mapping
add_mapping-Decides p real_ip fake_ip v e valid ip =
    rw (get_shard_index-key real_ip ip) (claim_fake-Decides p _ _ v e valid)

-- The invariant reads the three maps only.
pub IsValid-maps :
    (p q : IpPool)
    → q.shards ≡ p.shards
    → q.global_fake_to_real ≡ p.global_fake_to_real
    → q.global_versions ≡ p.global_versions
    → IsValid p
    → IsValid q
unfolding fake_of expiry_of real_of version_of shard
IsValid-maps p q shards reals versions valid = record {
  wide = rw shards valid.wide;
  owned = rw (shards, reals) valid.owned;
  bound = rw (shards, reals) valid.bound;
  versioned = rw (reals, versions) valid.versioned;
  unversioned = rw (reals, versions) valid.unversioned;
  timed = rw shards valid.timed;
  untimed = rw shards valid.untimed;
  placed = rw shards valid.placed;
}

pub Unchanged-IsValid : (p q : IpPool) → Unchanged p q → IsValid p → IsValid q
Unchanged-IsValid p q u valid = IsValid-maps p q u.shards u.reals u.versions valid

-- AddMapping of a real address of four or sixteen bytes keeps the invariant: the global map and the shards stay inverse to each other, with a
-- version for each mapped fake address, an expiry for each mapped real one, each in its own shard.
pub add_mapping-IsValid :
    (p : IpPool) (real_ip fake_ip : Bytes) (v e : ℕ)
    → IsValid p
    → IsIp real_ip
    → IsValid (add_mapping real_ip fake_ip v e p).0
add_mapping-IsValid p real_ip fake_ip v e valid ip =
    let d = add_mapping-Decides p real_ip fake_ip v e valid ip in
    elim (Bool-cases (wins p (to_ip_key real_ip) (to_ip_key fake_ip) v)) [
      | inl h ↦ Rebinds-IsValid p _ _ _ v e valid (d.binds h)
      | inr h ↦ Unchanged-IsValid p _ (d.keeps h) valid
    ]
