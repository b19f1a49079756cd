-- ===== src/Blocklist/Addresses.antt =====
-- parseIPFile, filterIPNets, aggregatePrefixes and compileIPs of internal/parser/compiler.go. The
-- netip and netipx packages, where subNetsOptimized makes its set, are the parameter `Prefixes`.
use next_path.Base.{
  ℕ, zero, suc, ◌-◌, Bool, true, false, not, ◌&&◌, ◌||◌, List, [], ◌∷◌, ◌++◌, Option, none, some,
  ◌==◌, ltb, leb, max, if◌then◌else◌, length,
}
use next_path.Names.{has_byte}
use next_path.Net.{Bytes}
use next_path.Text.{is_empty, before_any}

-- `sub_nets` is `subNetsOptimized`, `super n b` is `n.Addr().Prefix(b)` and then `Masked`, where an
-- error is `none`, and `parse_prefix` is `netip.ParsePrefix`.
pub record Prefixes : Type 1 where
  pub Prefix : Type 0
  pub bits : Prefix → ℕ
  pub is6 : Prefix → Bool
  pub sub_nets : List Prefix → List Prefix → List Prefix
  pub super : Prefix → ℕ → Option Prefix
  pub parse_prefix : Bytes → Option Prefix

-- `ver == 6`.
abbrev pub min_prefix : Bool → ℕ
min_prefix is_v6 = if is_v6 then 32 else 12

-- The rounds that suffice: a prefix has 128 bits at most.
abbrev pub rounds : ℕ
rounds = 129

module _ (ps : Prefixes) where
  abbrev pub Nets : Type 0
  Nets = List ps.Prefix

  -- A line of an address file, without blanks around it.
  unfoldable pub complete : Bytes → Bytes
  complete part =
      if has_byte 47 part
      then part
      else if has_byte 58 part
      then part ++ 47 ∷ 49 ∷ 50 ∷ 56 ∷ []
      else part ++ 47 ∷ 51 ∷ 50 ∷ []

  unfoldable pub parse_ip_line : (Bytes → Bytes) → Bytes → Option ps.Prefix
  parse_ip_line trim_space text =
      let line = trim_space text in
      let part = if has_byte 35 line then trim_space (before_any (35 ∷ []) line) else line in
      if is_empty line || starts line 35 || starts line 59
      then none
      else if is_empty part
      then none
      else ps.parse_prefix (complete part)
    where
      starts : Bytes → ℕ → Bool
      starts [] c = false
      starts (d ∷ ds) c = d == c

  unfoldable pub parse_ip_file : (Bytes → Bytes) → List Bytes → Nets
  parse_ip_file trim_space [] = []
  parse_ip_file trim_space (l ∷ ls) =
      let rest = parse_ip_file trim_space ls in
      elim (parse_ip_line trim_space l) [ none ↦ rest | some n ↦ n ∷ rest ]

  unfoldable pub filter_ip_nets : Nets → Bool → Bool → Nets
  filter_ip_nets [] is_v6 safeguard = []
  filter_ip_nets (n ∷ ns) is_v6 safeguard =
      let rest = filter_ip_nets ns is_v6 safeguard in
      if equal (ps.is6 n) is_v6
      then if safeguard && (not is_v6 && ltb (ps.bits n) 4 || is_v6 && ltb (ps.bits n) 16)
        then rest
        else n ∷ rest
      else rest
    where
      equal : Bool → Bool → Bool
      equal true b = b
      equal false b = not b

  -- `collapseIPNets`.
  abbrev pub collapse_ip_nets : Nets → Nets
  collapse_ip_nets nets = ps.sub_nets nets []

  -- `maxPrefix`, of one prefix or more.
  unfoldable pub max_prefix : Nets → ℕ
  max_prefix [] = 0
  max_prefix (n ∷ ns) = max (ps.bits n) (max_prefix ns)

  -- `supers`.
  unfoldable pub widen : ℕ → ps.Prefix → ps.Prefix
  widen longest n =
      if ps.bits n == longest then elim (ps.super n (longest - 1)) [ some p ↦ p | none ↦ n ] else n

  unfoldable pub supers : ℕ → Nets → Nets
  supers longest [] = []
  supers longest (n ∷ ns) = widen longest n ∷ supers longest ns

  -- The loop: a number of rounds, at most.
  unfoldable pub aggregate_loop : ℕ → ℕ → Bool → Nets → Nets
  aggregate_loop zero limit is_v6 res = res
  aggregate_loop (suc fuel) limit is_v6 res =
      let next = aggregate_loop fuel limit is_v6 (collapse_ip_nets (supers (max_prefix res) res)) in
      if leb (length res) limit
      then res
      else if leb (max_prefix res) (min_prefix is_v6)
      then res
      else next

  unfoldable pub aggregate_prefixes : Nets → ℕ → Bool → Nets
  aggregate_prefixes [] limit is_v6 = []
  aggregate_prefixes (n ∷ ns) limit is_v6 =
      if leb limit 0 then n ∷ ns else aggregate_loop rounds limit is_v6 (collapse_ip_nets (n ∷ ns))

  -- The deny file and the route file of one version.
  unfoldable pub compile_version : ℕ → Nets → Nets → Nets → Bool → Nets × Nets
  compile_version limit inc_ips exc_ips deny_ips is_v6 =
      let nets = filter_ip_nets inc_ips is_v6 true in
      let ex_nets = filter_ip_nets exc_ips is_v6 false in
      let dn_nets = filter_ip_nets deny_ips is_v6 false in
      (
        ps.sub_nets dn_nets [],
        ps.sub_nets (aggregate_prefixes nets limit is_v6) (ex_nets ++ dn_nets),
      )

  -- `compileIPs`: the files of IPv4, then those of IPv6.
  unfoldable pub compile_ips : ℕ → Nets → Nets → Nets → (Nets × Nets) × (Nets × Nets)
  compile_ips limit inc exc deny =
      (compile_version limit inc exc deny false, compile_version limit inc exc deny true)
