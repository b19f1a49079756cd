-- ===== src/Blocklist/Stale.antt =====
-- When CompileLists of internal/parser/compiler.go compiles again.
use next_path.Base.{
  Bool, true, false, List, [], ◌∷◌, ◌≡◌, refl, sym, ap, ◌∙◌, inl, inr, arith, Bool-cases, if_pos,
  if_neg,
}
use next_path.Blocklist.Addresses.{Prefixes}
use next_path.Blocklist.Compiling.{
  compile_needed_lists, Results, Run, compile_lists, compile_ips_needed, compile_domains_needed,
  file_exists, proxy_rpz, adblock_rpz, deny_rpz, deny2_rpz, route_ips_v4, route_ips_v6,
}
use next_path.Blocklist.Files.{compile_needed}
use next_path.Net.{Bytes, Bytes-discrete}
use next_path.Text.{is_empty, trim_space}

-- A hash in hexadecimal: not empty, without blanks around it.
pub record IsHash (h : Bytes) : Type 0 where
  pub full : is_empty h ≡ false
  pub plain : trim_space h ≡ h

-- The results on which the tests for changes look are there and not empty.
pub record Exist (r : Results) : Type 0 where
  pub proxy : file_exists (r.files proxy_rpz) ≡ true
  pub adblock : file_exists (r.files adblock_rpz) ≡ true
  pub deny : file_exists (r.files deny_rpz) ≡ true
  pub deny2 : file_exists (r.files deny2_rpz) ≡ true
  pub route4 : file_exists (r.files route_ips_v4) ≡ true
  pub route6 : file_exists (r.files route_ips_v6) ≡ true

-- Without a need to compile the hash is the current one.
compile_needed-hash :
    (cached current : Bytes) (results : List Bool)
    → compile_needed cached current results ≡ false
    → cached ≡ current
unfolding compile_needed
compile_needed-hash cached current [] h = elim (Bytes-discrete cached current) [
  | yes e ↦ e
  | no n ↦ let off = if_neg (Bytes-discrete cached current) n false true in absurd (ground arith)
]
compile_needed-hash cached current (exists ∷ results) h =
    compile_needed-hash cached current results (ground arith)

compile_needed-same :
    (cached current : Bytes)
    → is_empty current ≡ false
    → cached ≡ current
    → compile_needed cached current [] ≡ false
unfolding compile_needed
compile_needed-same cached current full e =
    let on = if_pos (Bytes-discrete cached current) e false true in
    rw (ap is_empty e, full, on) refl

compile_needed-cons :
    (cached current : Bytes) (exists : Bool) (results : List Bool)
    → exists ≡ true
    → compile_needed cached current results ≡ false
    → compile_needed cached current (exists ∷ results) ≡ false
unfolding compile_needed
compile_needed-cons cached current exists results h k = rw (h, k) refl

module _ {ps : Prefixes} where
  -- The directories can be made and the hash files written.
  abbrev pub Works : Run ps → Type 0
  Works run = (run.makes ≡ true) × (run.notes_ips ≡ true) × (run.notes_domains ≡ true)

  hash_ips_after :
      (run : Run ps) (ips domains : Bool) (r : Results)
      → Works run
      → IsHash run.current_ips
      → (ips ≡ false → trim_space r.hash_ips ≡ run.current_ips)
      → trim_space (compile_needed_lists run ips domains r).hash_ips ≡ run.current_ips
  unfolding compile_needed_lists
  hash_ips_after run true true r (makes, ips, domains) hash same =
      rw (makes, ips, domains) hash.plain
  hash_ips_after run true false r (makes, ips, domains) hash same = rw (makes, ips) hash.plain
  hash_ips_after run false true r (makes, ips, domains) hash same = rw (makes, domains) (same refl)
  hash_ips_after run false false r (makes, ips, domains) hash same = rw makes (same refl)

  hash_domains_after :
      (run : Run ps) (ips domains : Bool) (r : Results)
      → Works run
      → IsHash run.current_domains
      → (domains ≡ false → trim_space r.hash_domains ≡ run.current_domains)
      → trim_space (compile_needed_lists run ips domains r).hash_domains ≡ run.current_domains
  unfolding compile_needed_lists
  hash_domains_after run true true r (makes, ips, domains) hash same =
      rw (makes, ips, domains) hash.plain
  hash_domains_after run true false r (makes, ips, domains) hash same = rw (makes, ips) (same refl)
  hash_domains_after run false true r (makes, ips, domains) hash same =
      rw (makes, domains) hash.plain
  hash_domains_after run false false r (makes, ips, domains) hash same = rw makes (same refl)

  ips_needed-hash :
      (run : Run ps) (r : Results)
      → compile_ips_needed run r ≡ false
      → trim_space r.hash_ips ≡ run.current_ips
  unfolding compile_ips_needed
  ips_needed-hash run r = compile_needed-hash (trim_space r.hash_ips) run.current_ips _

  domains_needed-hash :
      (run : Run ps) (r : Results)
      → compile_domains_needed run r ≡ false
      → trim_space r.hash_domains ≡ run.current_domains
  unfolding compile_domains_needed
  domains_needed-hash run r = compile_needed-hash (trim_space r.hash_domains) run.current_domains _

  ips_idle :
      (run : Run ps) (r : Results)
      → is_empty run.current_ips ≡ false
      → trim_space r.hash_ips ≡ run.current_ips
      → Exist r
      → compile_ips_needed run r ≡ false
  unfolding compile_ips_needed
  ips_idle run r full same e =
      let needed = compile_needed-cons (trim_space r.hash_ips) run.current_ips in
      needed _ _ e.route4 (
        needed _ _ e.route6 (compile_needed-same (trim_space r.hash_ips) run.current_ips full same))

  domains_idle :
      (run : Run ps) (r : Results)
      → is_empty run.current_domains ≡ false
      → trim_space r.hash_domains ≡ run.current_domains
      → Exist r
      → compile_domains_needed run r ≡ false
  unfolding compile_domains_needed
  domains_idle run r full same e =
      let needed = compile_needed-cons (trim_space r.hash_domains) run.current_domains in
      needed _ _ e.proxy (
        needed _ _ e.adblock (
          needed _ _ e.deny (
            needed _ _ e.deny2
              (compile_needed-same (trim_space r.hash_domains) run.current_domains full same))))

  idle_same :
      (run : Run ps) (ips domains : Bool) (r : Results)
      → ips ≡ false
      → domains ≡ false
      → compile_needed_lists run ips domains r ≡ r
  unfolding compile_needed_lists
  idle_same run false false r h k = elim (Bool-cases run.makes) [
    | inl made ↦ rw made refl
    | inr failed ↦ rw failed refl
  ]
  idle_same run true domains r h k = absurd (cc)
  idle_same run false true r h k = absurd (cc)

  -- A run with the same hashes, after one that could write its hash files, where the results on which the
  -- tests for changes look are there and not empty: it changes nothing, whichever of the results the first
  -- run could not write.
  pub compile_lists-again :
      (run again : Run ps) (r : Results)
      → Works run
      → IsHash run.current_ips
      → IsHash run.current_domains
      → again.current_ips ≡ run.current_ips
      → again.current_domains ≡ run.current_domains
      → Exist (compile_lists run r)
      → compile_lists again (compile_lists run r) ≡ compile_lists run r
  unfolding compile_lists
  compile_lists-again run again r works ips domains same_ips same_domains exist =
      let after = compile_lists run r in
      let needed_ips = compile_ips_needed run r in
      let needed_domains = compile_domains_needed run r in
      let noted_ips =
        hash_ips_after run needed_ips needed_domains r works ips (ips_needed-hash run r) in
      let noted_domains =
        hash_domains_after run needed_ips needed_domains r works domains
          (domains_needed-hash run r) in
      let full_ips = ap is_empty same_ips ∙ ips.full in
      let full_domains = ap is_empty same_domains ∙ domains.full in
      idle_same again (compile_ips_needed again after) (compile_domains_needed again after) after
        (ips_idle again after full_ips (noted_ips ∙ sym same_ips) exist)
        (domains_idle again after full_domains (noted_domains ∙ sym same_domains) exist)
