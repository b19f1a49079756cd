-- ===== src/Pool/Fresh.antt =====
-- A pool as NewIPPoolWithConfig in internal/dnsengine/ippool.go leaves it: without a mapping.
use next_path.Base.Map
use next_path.Base.{
  ℕ, [], none, replicate, length-replicate, get_or-replicate, ◌≡◌, refl, ap, ◌∙◌, length, get_or,
}
use next_path.Net.{IpKey}
use next_path.Pool.Invariant.{IsValid}
use next_path.Pool.Views.{key_index, fake_of, expiry_of, real_of, version_of}
use next_path.Pool.{IpPool, empty_shard, shard}

module _ (p : IpPool) (shards : p.shards ≡ replicate 64 empty_shard) where
  fresh-shard : (i : ℕ) → shard p i ≡ empty_shard
  unfolding shard
  fresh-shard i = ap (λ ss. get_or ss i empty_shard) shards ∙ get_or-replicate 64 i empty_shard

  pub fresh-fake_of : (r : IpKey) → fake_of p r ≡ none
  unfolding fake_of Map.get
  fresh-fake_of r = rw (fresh-shard (key_index r)) refl

  fresh-expiry_of : (r : IpKey) → expiry_of p r ≡ none
  unfolding expiry_of Map.get
  fresh-expiry_of r = rw (fresh-shard (key_index r)) refl

  module _ (global : p.global_fake_to_real ≡ []) (versions : p.global_versions ≡ []) where
    pub fresh-real_of : (f : IpKey) → real_of p f ≡ none
    unfolding real_of Map.get
    fresh-real_of f = rw global refl

    fresh-version_of : (f : IpKey) → version_of p f ≡ none
    unfolding version_of Map.get
    fresh-version_of f = rw versions refl

    pub fresh-IsValid : IsValid p
    unfolding Map.get
    fresh-IsValid = record {
      wide = ap length shards ∙ length-replicate 64 empty_shard;
      owned = λ r f h. absurd (cc (fresh-fake_of r));
      bound = λ r f h. absurd (cc (fresh-real_of f));
      versioned = λ f n. absurd (n (fresh-real_of f));
      unversioned = λ f h. fresh-version_of f;
      timed = λ r n. absurd (n (fresh-fake_of r));
      untimed = λ r h. fresh-expiry_of r;
      placed = λ i r n. rw (fresh-shard i) (refl, refl);
    }
