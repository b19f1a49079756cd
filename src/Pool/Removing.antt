-- ===== src/Pool/Removing.antt =====
-- RemoveMapping of internal/dnsengine/ippool.go.
use next_path.Base.{some, ◌≡◌, ◌≢◌, refl, arith, inl, inr, Option-cases, if_pos, if_neg}
use next_path.Net.{Bytes, IpKey, IpKey-discrete, IsIp, to_ip_key}
use next_path.Pool.Claiming.{get_shard_index-key}
use next_path.Pool.Invariant.{IsValid}
use next_path.Pool.Store.{unlink-IsValid, fake_of-unlink}
use next_path.Pool.Views.{key_index, fake_of}
use next_path.Pool.{IpPool, unlink, update_shard, forget_fake, remove_key, remove_mapping}

-- `q` is `p` without the mapping of `rk` to `fk`; nothing else is lost or added.
pub record Removes (p q : IpPool) (rk fk : IpKey) : Type 0 where
  pub valid : IsValid q
  pub start6 : q.pool_start6 ≡ p.pool_start6
  pub parted : fake_of q rk ≢ some fk
  pub from : (k f : IpKey) → fake_of q k ≡ some f → fake_of p k ≡ some f
  pub kept_fake : (k f : IpKey) → f ≢ fk → fake_of p k ≡ some f → fake_of q k ≡ some f
  pub kept_real : (k : IpKey) → k ≢ rk → fake_of q k ≡ fake_of p k

module _ (p : IpPool) (rk fk : IpKey) (valid : IsValid p) where
  Removes-nothing : fake_of p rk ≢ some fk → Removes p p rk fk
  Removes-nothing n = record {
    valid = valid;
    start6 = refl;
    parted = n;
    from = λ k f h. h;
    kept_fake = λ k f m h. h;
    kept_real = λ k m. refl;
  }

  Removes-unlinked : fake_of p rk ≡ some fk → Removes p (unlink (key_index rk) rk fk p) rk fk
  unfolding unlink update_shard forget_fake
  Removes-unlinked h = record {
    valid = unlink-IsValid p rk fk valid h;
    start6 = refl;
    parted = ground (arith, fake_of-unlink p rk fk valid.wide rk);
    from = λ k f. ground (arith, fake_of-unlink p rk fk valid.wide k);
    kept_fake = λ k f m e. ground (arith, fake_of-unlink p rk fk valid.wide k);
    kept_real = λ k m. ground (arith, fake_of-unlink p rk fk valid.wide k);
  }

  pub remove_key-Removes : Removes p (remove_key (key_index rk) rk fk p) rk fk
  unfolding remove_key fake_of
  remove_key-Removes = elim (Option-cases (fake_of p rk)) [
    | inl h ↦ rw (h, remove_key) (Removes-nothing (λ e. cc))
    | inr (f, h) ↦ elim (IpKey-discrete f fk) [
      | yes e ↦ rw (h, remove_key, if_pos _ e) (Removes-unlinked (cc))
      | no n ↦ rw (h, remove_key, if_neg _ n) (Removes-nothing (λ e. n (cc)))
    ]
  ]

-- RemoveMapping on a valid pool, of a real address of four or sixteen bytes, takes out the mapping of its two addresses, if there is one, and
-- no other, and the pool stays valid.
pub remove_mapping-Removes :
    (p : IpPool) (real_ip fake_ip : Bytes)
    → IsValid p
    → IsIp real_ip
    → Removes p (remove_mapping real_ip fake_ip p) (to_ip_key real_ip) (to_ip_key fake_ip)
unfolding remove_mapping
remove_mapping-Removes p real_ip fake_ip valid ip =
    rw (get_shard_index-key real_ip ip)
      (remove_key-Removes p (to_ip_key real_ip) (to_ip_key fake_ip) valid)
