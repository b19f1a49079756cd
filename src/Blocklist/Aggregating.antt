-- ===== src/Blocklist/Aggregating.antt =====
-- The loop of aggregatePrefixes in internal/parser/compiler.go ends, and what it ends with.
use next_path.Base.{
  ℕ, zero, suc, ◌-◌, ◌≤◌, ◌<◌, Bool, false, [], ◌∷◌, some, ◌≡◌, ◌⊎◌, inl, inr, arith, ◌==◌, leb,
  length, All, Bool-cases,
}
use next_path.Blocklist.Addresses.{
  Prefixes, Nets, min_prefix, max_prefix, widen, supers, aggregate_loop, aggregate_prefixes,
  collapse_ip_nets, rounds,
}

-- What the loop relies on: netipx makes no prefix longer than the longest that it gets, and
-- netip widens a prefix to fewer bits.
pub record Widens (ps : Prefixes) : Type 0 where
  pub collapses :
      (m : ℕ) (nets : Nets ps)
      → All (λ n. ps.bits n ≤ m) nets
      → All (λ n. ps.bits n ≤ m) (ps.sub_nets nets [])
  pub supers :
      (n : ps.Prefix) (b : ℕ)
      → b < ps.bits n
      → (p : ps.Prefix) × (ps.super n b ≡ some p) × (ps.bits p ≡ b)
  pub bounded : (n : ps.Prefix) → ps.bits n ≤ 128

module _ (ps : Prefixes) (w : Widens ps) where
  Below : ℕ → ps.Prefix → Type 0
  Below m n = ps.bits n ≤ m

  max_prefix-All : (nets : Nets ps) (m : ℕ) → max_prefix ps nets ≤ m → All (Below m) nets
  unfolding max_prefix Below
  max_prefix-All [] m h = tt
  max_prefix-All (n ∷ ns) m h = (omega arith, max_prefix-All ns m (omega arith))

  max_prefix-bound : (nets : Nets ps) (m : ℕ) → All (Below m) nets → max_prefix ps nets ≤ m
  unfolding max_prefix Below
  max_prefix-bound [] m h = omega arith
  max_prefix-bound (n ∷ ns) m (h, hs) = omega (arith, max_prefix-bound ns m hs)

  widen-Below :
      (longest : ℕ) (n : ps.Prefix)
      → 0 < longest
      → ps.bits n ≤ longest
      → Below (longest - 1) (widen ps longest n)
  unfolding widen Below
  widen-Below longest n pos h = elim (Bool-cases (ps.bits n == longest)) [
    | inr other ↦ rw other (ground arith)
    | inl same ↦
        let (p, found, bits) = w.supers n (longest - 1) (ground arith) in
        rw (same, found) (omega arith)
  ]

  supers-Below :
      (longest : ℕ) (nets : Nets ps)
      → 0 < longest
      → All (Below longest) nets
      → All (Below (longest - 1)) (supers ps longest nets)
  unfolding supers Below
  supers-Below longest [] pos h = tt
  supers-Below longest (n ∷ ns) pos (h, hs) =
      (widen-Below longest n pos h, supers-Below longest ns pos hs)

  -- A round makes the longest prefix shorter.
  round_shorter :
      (res : Nets ps)
      → 0 < max_prefix ps res
      → max_prefix ps (collapse_ip_nets ps (supers ps (max_prefix ps res) res))
        ≤ max_prefix ps res - 1
  unfolding Below
  round_shorter res pos =
      let longest = max_prefix ps res in
      max_prefix-bound _ _
        (w.collapses _ _ (supers-Below longest res pos (max_prefix-All res longest (omega arith))))

  -- Few enough prefixes, or none that may be widened.
  abbrev pub Aggregated : ℕ → Bool → Nets ps → Type 0
  Aggregated limit is_v6 nets = (length nets ≤ limit) ⊎ (max_prefix ps nets ≤ min_prefix is_v6)

  aggregate_loop-Aggregated :
      (fuel limit : ℕ) (is_v6 : Bool) (res : Nets ps)
      → max_prefix ps res ≤ fuel
      → Aggregated limit is_v6 (aggregate_loop ps fuel limit is_v6 res)
  unfolding aggregate_loop
  aggregate_loop-Aggregated zero limit is_v6 res h = inr (omega arith)
  aggregate_loop-Aggregated (suc fuel) limit is_v6 res h =
      elim (Bool-cases (leb (length res) limit)) [
        | inl few ↦ rw few (inl (ground arith))
        | inr many ↦ elim (Bool-cases (leb (max_prefix ps res) (min_prefix is_v6))) [
          | inl wide ↦ rw (many, wide) (inr (ground arith))
          | inr narrow ↦
              rw (many, narrow)
                (aggregate_loop-Aggregated fuel limit is_v6 _
                  (shorter (round_shorter res (positive (max_prefix ps res) narrow))))
        ]
      ]
    where
      positive : (m : ℕ) → leb m (min_prefix is_v6) ≡ false → 0 < m
      positive m n = ground arith

      shorter : {m : ℕ} → m ≤ max_prefix ps res - 1 → m ≤ fuel
      shorter l = omega arith

  -- Where netip and netipx widen prefixes and join them as they document, the loop of
  -- aggregatePrefixes ends within 129 rounds for a limit above zero: then there are no more prefixes
  -- than the limit, or none is longer than the shortest length that may still be widened.
  pub aggregate_prefixes-Aggregated :
      (nets : Nets ps) (limit : ℕ) (is_v6 : Bool)
      → 0 < limit
      → Aggregated limit is_v6 (aggregate_prefixes ps nets limit is_v6)
  unfolding aggregate_prefixes Below
  aggregate_prefixes-Aggregated [] limit is_v6 pos = inl (omega arith)
  aggregate_prefixes-Aggregated (n ∷ ns) limit is_v6 pos = rw (above limit pos) (
      aggregate_loop-Aggregated rounds limit is_v6 (collapse_ip_nets ps (n ∷ ns))
        (within (max_prefix-bound _ 128 (w.collapses 128 (n ∷ ns) (all_bounded (n ∷ ns))))))
    where
      above : (limit : ℕ) → 0 < limit → leb limit 0 ≡ false
      above limit h = ground arith

      within : {m : ℕ} → m ≤ 128 → m ≤ rounds
      within h = omega arith

      all_bounded : (nets : Nets ps) → All (λ n. ps.bits n ≤ 128) nets
      all_bounded [] = tt
      all_bounded (n ∷ ns) = (w.bounded n, all_bounded ns)
