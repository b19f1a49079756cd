-- ===== src/Lease/Pruning.antt =====
-- PruneExpired of internal/dnsengine/ippool.go drops expired mappings only.
use next_path.Base.{
  ℕ, ◌<◌, List, [], ◌∷◌, Option, none, some, ◌≡◌, ◌≢◌, refl, ap, arith, ◌∙◌, ◌⊎◌, inl, inr,
  Option-cases, Bool-cases, ltb, if_pos, if_neg, ℕ_discrete,
}
use next_path.Lease.{drop_expired, drop_all, prune_shard}
use next_path.Net.{IpKey, IpKey-discrete}
use next_path.Pool.Invariant.{IsValid}
use next_path.Pool.Store.{unlink-IsValid, fake_of-unlink, expiry_of-unlink}
use next_path.Pool.Views.{key_index, fake_of, expiry_of}
use next_path.Pool.{IpPool, unlink}

-- The expiry is before `now`.
abbrev pub Expired : ℕ → Option ℕ → Type 0
Expired now none = ⊥
Expired now (some e) = e < now

-- One real address: as it was, or expired and now free.
abbrev pub Kept : ℕ → IpPool → IpPool → IpKey → Type 0
Kept now p q r =
    ((fake_of q r ≡ fake_of p r) × (expiry_of q r ≡ expiry_of p r))
    ⊎ (Expired now (expiry_of p r) × (fake_of q r ≡ none))

-- A stretch of the pruning.
pub record Prunes (now : ℕ) (p q : IpPool) : Type 0 where
  pub valid : IsValid q
  pub kept : (r : IpKey) → Kept now p q r

pub Prunes-refl : (now : ℕ) (p : IpPool) → IsValid p → Prunes now p p
Prunes-refl now p v = record { valid = v; kept = λ r. inl (refl, refl) }

Kept-trans :
    (now : ℕ) (p q s : IpPool) (r : IpKey)
    → IsValid q
    → Kept now p q r
    → Kept now q s r
    → Kept now p s r
Kept-trans now p q s r v (inl (a, b)) (inl (c, d)) = inl (c ∙ a, d ∙ b)
Kept-trans now p q s r v (inl (a, b)) (inr (e, n)) = inr (rw b at e, n)
Kept-trans now p q s r v (inr (e, n)) (inl (c, d)) = inr (e, c ∙ n)
Kept-trans now p q s r v (inr (e, n)) (inr (e', n')) = inr (e, n')

pub Prunes-trans : (now : ℕ) (p q s : IpPool) → Prunes now p q → Prunes now q s → Prunes now p s
Prunes-trans now p q s a b = record {
  valid = b.valid;
  kept = λ r. Kept-trans now p q s r a.valid (a.kept r) (b.kept r);
}

module _ (now : ℕ) (p : IpPool) (rk fk : IpKey) (valid : IsValid p) where
  unlink-Prunes :
      (e : ℕ)
      → fake_of p rk ≡ some fk
      → expiry_of p rk ≡ some e
      → e < now
      → Prunes now p (unlink (key_index rk) rk fk p)
  unlink-Prunes e h t l = record {
    valid = unlink-IsValid p rk fk valid h;
    kept = λ r. elim (IpKey-discrete r rk) [
      | yes same ↦ inr (rw (same, t) l, ground (arith, fake_of-unlink p rk fk valid.wide r))
      | no other ↦ inl (
        ground (arith, fake_of-unlink p rk fk valid.wide r),
        ground (arith, expiry_of-unlink p rk fk valid.wide r),
      )
    ];
  }

  -- One round of the second loop, at the shard of the key.
  drop_home : Prunes now p (drop_expired now (key_index rk) (rk, fk) p)
  unfolding drop_expired fake_of expiry_of
  drop_home = elim (Option-cases (expiry_of p rk)) [
    | inl t ↦ rw (t, drop_expired) (Prunes-refl now p valid)
    | inr (e, t) ↦ elim (Bool-cases (ltb e now)) [
      | inr live ↦ rw (t, drop_expired, live) (Prunes-refl now p valid)
      | inl dead ↦ elim (Option-cases (fake_of p rk)) [
        | inl h ↦ rw (t, drop_expired, dead, h) (Prunes-refl now p valid)
        | inr (g, h) ↦ elim (IpKey-discrete g fk) [
          | no n ↦ rw (t, drop_expired, dead, h, if_neg _ n) (Prunes-refl now p valid)
          | yes s ↦
              rw (t, drop_expired, dead, h, if_pos _ s)
                (unlink-Prunes e (h ∙ ap some s) t (ground arith))
        ]
      ]
    ]
  ]

  -- At any other shard it does nothing.
  drop_elsewhere : (i : ℕ) → key_index rk ≢ i → drop_expired now i (rk, fk) p ≡ p
  unfolding drop_expired
  drop_elsewhere i n = rw ((valid.placed i rk n).1, drop_expired)

pub drop_expired-Prunes :
    (now i : ℕ) (p : IpPool) (e : IpKey × IpKey) → IsValid p → Prunes now p (drop_expired now i e p)
drop_expired-Prunes now i p (rk, fk) v = elim (ℕ_discrete (key_index rk) i) [
  | yes h ↦ rw (← h) (drop_home now p rk fk v)
  | no n ↦ rw (drop_elsewhere now p rk fk v i n) (Prunes-refl now p v)
]

pub drop_all-Prunes :
    (now i : ℕ) (l : List (IpKey × IpKey)) (p : IpPool)
    → IsValid p
    → Prunes now p (drop_all now i l p)
unfolding drop_all
drop_all-Prunes now i [] p v = Prunes-refl now p v
drop_all-Prunes now i (e ∷ l) p v =
    let step = drop_expired-Prunes now i p e v in
    Prunes-trans now p _ _ step (drop_all-Prunes now i l (drop_expired now i e p) step.valid)

pub prune_shard-Prunes : (now i : ℕ) (p : IpPool) → IsValid p → Prunes now p (prune_shard now i p)
unfolding prune_shard
prune_shard-Prunes now i p v = drop_all-Prunes now i _ p v
