-- ===== src/Lease/Frees.antt =====
-- PruneExpired of internal/dnsengine/ippool.go reaches every expired mapping.
use next_path.Lease.Pruning.{
  Expired, Kept, Prunes, Prunes-refl, Prunes-trans, drop_expired-Prunes, drop_all-Prunes,
  prune_shard-Prunes,
}
use next_path.Base.Map
use next_path.Base.Map.{Map}
use next_path.Base.{
  ℕ, zero, suc, subst, ◌+◌, ◌≤◌, ◌<◌, List, [], ◌∷◌, none, some, ◌≡◌, refl, ite, arith, ◌∙◌, ◌⊎◌,
  inl, inr, Option-cases, lt→ltb, if_pos, ℕ_discrete,
}
use next_path.Lease.{
  collect_expired, drop_expired, drop_all, prune_shard, prune_from, prune_expired,
}
use next_path.Net.{IpKey, IpKey-discrete}
use next_path.Pool.Invariant.{IsValid}
use next_path.Pool.Store.{fake_of-unlink}
use next_path.Pool.Views.{key_index, key_index-lt, fake_of, expiry_of}
use next_path.Pool.{IpPool, CacheShard, find, shard, unlink}

-- The pair stands in the list.
abbrev Listed : IpKey → IpKey → List (IpKey × IpKey) → Type 0
Listed r f [] = ⊥
Listed r f ((k, g) ∷ l) = ((k ≡ r) × (g ≡ f)) ⊎ Listed r f l

-- The first loop lists every expired key of the shard with its fake address.
collect_expired-Listed :
    (now : ℕ) (s : CacheShard) (m : Map IpKey ℕ) (r f : IpKey) (e : ℕ)
    → find r m ≡ some e
    → e < now
    → find r s.real_to_fake ≡ some f
    → Listed r f (collect_expired now s m)
unfolding collect_expired Map.get
collect_expired-Listed now s [] r f e h l g = absurd (cc)
collect_expired-Listed now s ((k, x) ∷ m) r f e h l g =
    ground (arith, collect_expired-Listed now s m r f e)

-- A free address stays free.
stays_free :
    (now : ℕ) (p q : IpPool) (r : IpKey) → Prunes now p q → fake_of p r ≡ none → fake_of q r ≡ none
stays_free now p q r a h = go (a.kept r)
  where
    go : Kept now p q r → fake_of q r ≡ none
    go (inl (c, d)) = c ∙ h
    go (inr (e, n)) = n

-- A round for a pair that stands and has expired frees the address.
drop_self :
    (now : ℕ) (p : IpPool) (r f : IpKey) (e : ℕ)
    → IsValid p
    → expiry_of p r ≡ some e
    → e < now
    → fake_of p r ≡ some f
    → fake_of (drop_expired now (key_index r) (r, f) p) r ≡ none
unfolding drop_expired fake_of expiry_of
drop_self now p r f e v t l h =
    rw (t, drop_expired, lt→ltb e now l, h, if_pos (IpKey-discrete f f) refl)
      (freed (fake_of-unlink p r f v.wide r))
  where
    freed :
        fake_of (unlink (key_index r) r f p) r ≡ ite (IpKey-discrete r r) none (fake_of p r)
        → fake_of (unlink (key_index r) r f p) r ≡ none
    freed q = ground arith

module _ (now : ℕ) (p next final : IpPool) (r f k g : IpKey) (e : ℕ)
    (l : List (IpKey × IpKey)) where
  -- The round is for the pair itself, or the pair stands in the rest of the list.
  frees_step :
      Prunes now p next
      → Prunes now next final
      → (k ≡ r → g ≡ f → fake_of next r ≡ none)
      → (Listed r f l
          → expiry_of next r ≡ some e
          → fake_of next r ≡ some f
          → fake_of final r ≡ none)
      → expiry_of p r ≡ some e
      → fake_of p r ≡ some f
      → Listed r f ((k, g) ∷ l)
      → Kept now p next r
      → fake_of final r ≡ none
  frees_step step rest self later t h (inl (a, b)) kept =
      stays_free now next final r rest (self a b)
  frees_step step rest self later t h (inr m) (inl (c, d)) = later m (d ∙ t) (c ∙ h)
  frees_step step rest self later t h (inr m) (inr (x, n)) = stays_free now next final r rest n

drop_all-frees :
    (now : ℕ) (r f : IpKey) (e : ℕ) (l : List (IpKey × IpKey)) (p : IpPool)
    → IsValid p
    → Listed r f l
    → expiry_of p r ≡ some e
    → e < now
    → fake_of p r ≡ some f
    → fake_of (drop_all now (key_index r) l p) r ≡ none
unfolding drop_all
drop_all-frees now r f e [] p v m t lt h = absurd m
drop_all-frees now r f e ((k, g) ∷ l) p v m t lt h =
    let i = key_index r in
    let next = drop_expired now i (k, g) p in
    let step = drop_expired-Prunes now i p (k, g) v in
    let rest = drop_all-Prunes now i l next step.valid in
    frees_step now p next (drop_all now i l next) r f k g e l step rest
      (λ a b. rw (a, b) (drop_self now p r f e v t lt h))
      (λ m' t' h'. drop_all-frees now r f e l next step.valid m' t' lt h') t h m (step.kept r)

-- Pruning its shard frees an expired address.
prune_shard-frees :
    (now : ℕ) (r : IpKey) (p : IpPool)
    → IsValid p
    → Expired now (expiry_of p r)
    → fake_of (prune_shard now (key_index r) p) r ≡ none
unfolding prune_shard fake_of expiry_of
prune_shard-frees now r p v x = elim (Option-cases (expiry_of p r)) [
  | inl t ↦ absurd (rw t at x)
  | inr (e, t) ↦ elim (Option-cases (fake_of p r)) [
    | inl h ↦ stays_free now p _ r (prune_shard-Prunes now (key_index r) p v) h
    | inr (f, h) ↦
        let s = shard p (key_index r) in
        drop_all-frees now r f e (collect_expired now s s.expiries) p v
          (collect_expired-Listed now s s.expiries r f e t (rw t at x) h) t (rw t at x) h
  ]
]

prune_from-Prunes : (now n i : ℕ) (p : IpPool) → IsValid p → Prunes now p (prune_from now n i p)
unfolding prune_from
prune_from-Prunes now zero i p v = Prunes-refl now p v
prune_from-Prunes now (suc n) i p v =
    let step = prune_shard-Prunes now i p v in
    Prunes-trans now p _ _ step (prune_from-Prunes now n (suc i) (prune_shard now i p) step.valid)

-- After the shards from `i` on, an address of one of them that had expired is free.
module _ (now : ℕ) (r : IpKey) where
  pruned_step :
      (p next final : IpPool)
      → Prunes now p next
      → Prunes now next final
      → Expired now (expiry_of p r)
      → (Expired now (expiry_of next r) → fake_of final r ≡ none)
      → Kept now p next r
      → fake_of final r ≡ none
  pruned_step p next final a b x later (inl (c, d)) = later (rw d x)
  pruned_step p next final a b x later (inr (e, n)) = stays_free now next final r b n

  prune_from-frees :
      (n i : ℕ) (p : IpPool)
      → IsValid p
      → i ≤ key_index r
      → key_index r < i + n
      → Expired now (expiry_of p r)
      → fake_of (prune_from now n i p) r ≡ none
  unfolding prune_from
  prune_from-frees zero i p v lo hi x = absurd (omega arith)
  prune_from-frees (suc n) i p v lo hi x =
      let step = prune_shard-Prunes now i p v in
      let next = prune_shard now i p in
      let rest = prune_from-Prunes now n (suc i) next step.valid in
      elim (ℕ_discrete (key_index r) i) [
        | yes here ↦ stays_free now next _ r rest (
            subst (λ j. fake_of (prune_shard now j p) r ≡ none) here
              (prune_shard-frees now r p v x))
        | no later ↦
            pruned_step p next _ step rest x
              (prune_from-frees n (suc i) next step.valid (omega arith) (omega arith)) (step.kept r)
      ]

-- PruneExpired on a valid pool keeps the invariant and frees every real address whose expiry is before now. Every
-- other address keeps its mapping and its expiry.
pub prune_expired-exact :
    (now : ℕ) (p : IpPool)
    → IsValid p
    → IsValid (prune_expired now p)
      × ((r : IpKey) → Expired now (expiry_of p r) → fake_of (prune_expired now p) r ≡ none)
      × ((r : IpKey)
          → ¬ Expired now (expiry_of p r)
          → (fake_of (prune_expired now p) r ≡ fake_of p r)
            × (expiry_of (prune_expired now p) r ≡ expiry_of p r))
unfolding prune_expired
prune_expired-exact now p v =
    let all = prune_from-Prunes now 64 0 p v in
    (
      all.valid,
      λ r x. prune_from-frees now r 64 0 p v (omega arith) (key_index-lt r) x,
      λ r n. untouched r n (all.kept r),
    )
  where
    untouched :
        (r : IpKey)
        → ¬ Expired now (expiry_of p r)
        → Kept now p (prune_from now 64 0 p) r
        → (fake_of (prune_from now 64 0 p) r ≡ fake_of p r)
          × (expiry_of (prune_from now 64 0 p) r ≡ expiry_of p r)
    untouched r n (inl k) = k
    untouched r n (inr (x, h)) = absurd (n x)
