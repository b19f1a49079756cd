-- ===== src/Pool/Claiming.antt =====
-- The real side of AddMapping in internal/dnsengine/ippool.go: when a mapping wins over the one
-- that its real address has.
use next_path.Base.{
  ℕ, Bool, true, false, not, ◌&&◌, Option, none, some, ◌≡◌, ◌≢◌, ite, refl, ap, arith, ◌∙◌, inl,
  inr, Option-cases, Bool-cases, if_pos, if_neg,
}
use next_path.Net.{Bytes, IpKey, IpKey-discrete, IsIp, to_ip_key}
use next_path.Net.Keys.{normalize_ip-to_ip}
use next_path.Pool.{
  IpPool, shard, store, forget_fake, count_collision, loses, key_bytes, claim_real, get_shard_index,
}
use next_path.Pool.Views.{
  key_index, fake_of, expiry_of, real_of, version_of, real_of-forget_fake, version_of-forget_fake,
  fake_of-forget_fake, expiry_of-forget_fake, length-forget_fake,
}
use next_path.Pool.Invariant.{IsValid, Rebinds}
use next_path.Pool.Store.{Prepared, owner, store-Rebinds, forget_fake-Placed}

-- A real address is in the shard of its key.
pub get_shard_index-key : (ip : Bytes) → IsIp ip → get_shard_index ip ≡ key_index (to_ip_key ip)
unfolding get_shard_index key_index
get_shard_index-key ip v = rw (normalize_ip-to_ip ip v)

-- The mapping of either address that stands in the way is older: it has no version, or a smaller
-- one, or the same and the smaller address.
unfoldable pub beats_real : IpPool → IpKey → IpKey → ℕ → Option IpKey → Bool
beats_real p rk fk v none = true
beats_real p rk fk v (some r) = not (loses v (key_bytes rk) (version_of p fk) (key_bytes r))

unfoldable pub beats_fake : IpPool → IpKey → ℕ → Option IpKey → Bool
beats_fake p fk v none = true
beats_fake p fk v (some f) =
    ite (IpKey-discrete f fk) true (not (loses v (key_bytes fk) (version_of p f) (key_bytes f)))

unfoldable pub wins : IpPool → IpKey → IpKey → ℕ → Bool
unfolding beats_real beats_fake
wins p rk fk v = beats_real p rk fk v (real_of p fk) && beats_fake p fk v (fake_of p rk)

-- Nothing changes but the counters.
pub record Unchanged (p q : IpPool) : Type 0 where
  pub shards : q.shards ≡ p.shards
  pub reals : q.global_fake_to_real ≡ p.global_fake_to_real
  pub versions : q.global_versions ≡ p.global_versions
  pub hlc : q.hlc ≡ p.hlc

-- A call that was asked to bind `rk` and `fk`, where `win` is the answer due.
pub record Decides (p : IpPool) (rk fk : IpKey) (v e : ℕ) (win : Bool) (r : IpPool × Bool)
    : Type 0 where
  pub answers : r.1 ≡ win
  pub binds : win ≡ true → Rebinds p r.0 rk fk v e
  pub keeps : win ≡ false → Unchanged p r.0

module _ (p : IpPool) (rk fk : IpKey) (valid : IsValid p) where
  pub Prepared-unmapped : fake_of p rk ≡ none → Prepared p p rk fk
  unfolding owner
  Prepared-unmapped h = record {
    wide = valid.wide;
    placed = valid.placed;
    fakes = λ r. refl;
    expiries = λ r. refl;
    reals = λ f n. ground (arith, valid.bound rk f);
    versions = λ f n. ground (arith, valid.bound rk f, valid.unversioned f);
  }

  Prepared-same : fake_of p rk ≡ some fk → Prepared p p rk fk
  unfolding owner
  Prepared-same h = record {
    wide = valid.wide;
    placed = valid.placed;
    fakes = λ r. refl;
    expiries = λ r. refl;
    reals = λ f n. ground (arith, valid.bound rk f);
    versions = λ f n. ground (arith, valid.bound rk f, valid.unversioned f);
  }

  Prepared-moved : (g : IpKey) → fake_of p rk ≡ some g → g ≢ fk → Prepared p (forget_fake g p) rk fk
  unfolding owner
  Prepared-moved g h n = record {
    wide = length-forget_fake p g ∙ valid.wide;
    placed = forget_fake-Placed p g valid.placed;
    fakes = fake_of-forget_fake p g;
    expiries = expiry_of-forget_fake p g;
    reals = λ f n'. ground (arith, real_of-forget_fake p g f, valid.owned rk g, valid.bound rk f);
    versions = λ f n'. ground (
      arith,
      version_of-forget_fake p g f,
      valid.owned rk g,
      valid.bound rk f,
      valid.unversioned f,
    );
  }

  -- `count_collision` is out of sight of the maps.
  Prepared-counted : (s : IpPool) → Prepared p s rk fk → Prepared p (count_collision s) rk fk
  unfolding count_collision fake_of expiry_of real_of version_of shard
  Prepared-counted s h = record {
    wide = h.wide;
    placed = h.placed;
    fakes = h.fakes;
    expiries = h.expiries;
    reals = h.reals;
    versions = h.versions;
  }

module _ (p : IpPool) (rk fk : IpKey) (v e : ℕ) (valid : IsValid p) where
  abbrev real_part : IpPool × Bool
  real_part = claim_real (key_index rk) rk fk v e (owner rk (real_of p fk)) p

  pub accepted :
      (s : IpPool) (r : IpPool × Bool)
      → r ≡ (store (key_index rk) rk fk v e (owner rk (real_of p fk)) s, true)
      → Prepared p s rk fk
      → Decides p rk fk v e true r
  accepted s r eq prep = record {
    answers = cc;
    binds = λ _. rw eq (store-Rebinds p s rk fk v e valid prep);
    keeps = λ h. cc;
  }

  pub refused : (q : IpPool) → Unchanged p q → Decides p rk fk v e false (q, false)
  refused q same = record { answers = refl; binds = λ h. cc; keeps = λ _. same }

  pub counted : Unchanged p (count_collision p)
  unfolding count_collision
  counted = record { shards = refl; reals = refl; versions = refl; hlc = refl }

  swapped : (g : IpKey) → count_collision (forget_fake g p) ≡ forget_fake g (count_collision p)
  unfolding count_collision forget_fake
  swapped g = refl

  -- The second half of the method, on each of its four paths.
  pub claim_real-Decides : Decides p rk fk v e (beats_fake p fk v (fake_of p rk)) real_part
  unfolding claim_real beats_fake fake_of version_of
  claim_real-Decides = elim (Option-cases (fake_of p rk)) [
    | inl h ↦ rw (h, claim_real) (accepted p _ refl (Prepared-unmapped p rk fk valid h))
    | inr (g, h) ↦ elim (IpKey-discrete g fk) [
      | yes same ↦
          rw (h, claim_real, if_pos _ same, if_pos _ same)
            (accepted (count_collision p) _ refl
              (Prepared-counted p rk fk valid p (Prepared-same p rk fk valid (h ∙ ap some same))))
      | no moved ↦ elim (Bool-cases (loses v (key_bytes fk) (version_of p g) (key_bytes g))) [
        | inl lost ↦ rw (h, claim_real, if_neg _ moved, if_neg _ moved, lost) (refused _ counted)
        | inr won ↦
            rw (h, claim_real, if_neg _ moved, if_neg _ moved, won)
              (accepted _ _ refl (
                rw (← swapped g)
                  (Prepared-counted p rk fk valid _ (Prepared-moved p rk fk valid g h moved))))
      ]
    ]
  ]
