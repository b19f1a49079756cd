-- ===== src/Pool/Gossip.antt =====
-- AddMapping of internal/dnsengine/ippool.go as the nodes use it: a mapping that arrives again, and
-- one that is newer than what stands in its way.
use next_path.Base.{
  ℕ, ◌<◌, true, false, Option, none, some, Ordering, ◌≡◌, refl, sym, ◌∙◌, arith, [], ◌∷◌,
}
use next_path.Net.{Bytes, IpKey, IsIp, to_ip_key, bytes_compare}
use next_path.Pool.Adding.{add_mapping-Decides, add_mapping-IsValid}
use next_path.Pool.Claiming.{beats_real, beats_fake, wins, Unchanged}
use next_path.Pool.Invariant.{IsValid}
use next_path.Pool.Views.{fake_of, real_of, version_of}
use next_path.Pool.{IpPool, add_mapping, loses, not_after, key_bytes}

bytes_compare_refl : (b : Bytes) → bytes_compare b b ≡ Ordering.eq
unfolding bytes_compare
bytes_compare_refl [] = refl
bytes_compare_refl (x ∷ xs) = ground (arith, bytes_compare_refl xs)

not_after_refl : (b : Bytes) → not_after b b ≡ true
unfolding not_after
not_after_refl b = ground (arith, bytes_compare_refl b)

loses_again : (v : ℕ) (b : Bytes) → loses v b (some v) b ≡ true
unfolding loses
loses_again v b = ground (arith, not_after_refl b)

-- The version of the mapping that a key is part of is below `v`.
abbrev pub Older : Option ℕ → ℕ → Type 0
Older none v = Unit
Older (some old) v = old < v

loses-Older : (v : ℕ) (old : Option ℕ) (a b : Bytes) → Older old v → loses v a old b ≡ false
unfolding loses
loses-Older v none a b h = refl
loses-Older v (some old) a b h = ground arith

wins_again :
    (q : IpPool) (rk fk : IpKey) (v : ℕ)
    → real_of q fk ≡ some rk
    → version_of q fk ≡ some v
    → wins q rk fk v ≡ false
unfolding wins beats_real
wins_again q rk fk v h₁ h₂ = rw (h₁, h₂, loses_again) refl

-- On a valid pool, a mapping of a real address of four or sixteen bytes that AddMapping has just taken
-- is refused when it arrives again with its version,
-- whatever its expiry, and then only the counters change.
add_mapping-again :
    (p : IpPool) (real_ip fake_ip : Bytes) (v e later : ℕ)
    → IsValid p
    → IsIp real_ip
    → (add_mapping real_ip fake_ip v e p).1 ≡ true
    → let q = (add_mapping real_ip fake_ip v e p).0 in
      let r = add_mapping real_ip fake_ip v later q in (r.1 ≡ false) × Unchanged q r.0
add_mapping-again p real_ip fake_ip v e later valid ip taken =
    let rk = to_ip_key real_ip in
    let fk = to_ip_key fake_ip in
    let d = add_mapping-Decides p real_ip fake_ip v e valid ip in
    let q = (add_mapping real_ip fake_ip v e p).0 in
    let b = d.binds (sym d.answers ∙ taken) in
    let d' =
      add_mapping-Decides q real_ip fake_ip v later
        (add_mapping-IsValid p real_ip fake_ip v e valid ip) ip in
    let lost = wins_again q rk fk v (ground (arith, b.reals fk)) (ground (arith, b.versions fk)) in
    (d'.answers ∙ lost, d'.keeps lost)

module _ (p : IpPool) (rk fk : IpKey) (v : ℕ) where
  beats_real_newer : (r : Option IpKey) → Older (version_of p fk) v → beats_real p rk fk v r ≡ true
  unfolding beats_real
  beats_real_newer none h = refl
  beats_real_newer (some r) h =
      rw (loses-Older v (version_of p fk) (key_bytes rk) (key_bytes r) h) refl

  beats_fake_newer :
      (o : Option IpKey)
      → ((f : IpKey) → o ≡ some f → Older (version_of p f) v)
      → beats_fake p fk v o ≡ true
  unfolding beats_fake
  beats_fake_newer none h = refl
  beats_fake_newer (some f) h =
      ground (arith, loses-Older v (version_of p f) (key_bytes fk) (key_bytes f) (h f refl))

  wins_newer :
      Older (version_of p fk) v
      → ((f : IpKey) → fake_of p rk ≡ some f → Older (version_of p f) v)
      → wins p rk fk v ≡ true
  unfolding wins
  wins_newer h₁ h₂ =
      rw (beats_real_newer (real_of p fk) h₁, beats_fake_newer (fake_of p rk) h₂) refl

-- On a valid pool, AddMapping takes a mapping, of a real address of four or sixteen bytes, whose version is above that of the mapping of its fake address and
-- that of the mapping of its real one, where these exist. The two addresses are then mapped to
-- each other, under the new version.
pub add_mapping-newer :
    (p : IpPool) (real_ip fake_ip : Bytes) (v e : ℕ)
    → IsValid p
    → IsIp real_ip
    → Older (version_of p (to_ip_key fake_ip)) v
    → ((f : IpKey) → fake_of p (to_ip_key real_ip) ≡ some f → Older (version_of p f) v)
    → let r = add_mapping real_ip fake_ip v e p in
      (r.1 ≡ true)
      × (fake_of r.0 (to_ip_key real_ip) ≡ some (to_ip_key fake_ip))
      × (real_of r.0 (to_ip_key fake_ip) ≡ some (to_ip_key real_ip))
      × (version_of r.0 (to_ip_key fake_ip) ≡ some v)
add_mapping-newer p real_ip fake_ip v e valid ip h₁ h₂ =
    let rk = to_ip_key real_ip in
    let fk = to_ip_key fake_ip in
    let d = add_mapping-Decides p real_ip fake_ip v e valid ip in
    let won = wins_newer p rk fk v h₁ h₂ in
    let b = d.binds won in
    (
      d.answers ∙ won,
      ground (arith, b.fakes rk),
      ground (arith, b.reals fk),
      ground (arith, b.versions fk),
    )
