-- ===== src/Blocklist/Compiling.antt =====
-- CompileLists of internal/parser/compiler.go once its sources are downloaded: the tests for changes,
-- the files that it writes, and the two hashes. What the lists hold, the hashes and the calls on files
-- are those of one run.
use next_path.Base.{
  ℕ, Bool, false, not, ◌&&◌, ◌||◌, List, [], ◌∷◌, ◌++◌, Option, none, some, ◌==◌, map,
  if◌then◌else◌,
}
use next_path.Blocklist.Addresses.{Prefixes, Nets, compile_ips}
use next_path.Blocklist.Files.{
  Calls, Files, rpz_text, write_rpz_file, write_ip_file, sort_strings, compile_needed,
}
use next_path.Blocklist.Lines.{Lists, no_lists}
use next_path.Blocklist.Zones.{Zone, proxy_zone, adblock_zone}
use next_path.Domains.{build_simple_rpz}
use next_path.Net.{Bytes}
use next_path.Text.{is_empty, trim_space}

pub data ResultName : Type 0 where
  proxy_rpz : ResultName
  adblock_rpz : ResultName
  deny_rpz : ResultName
  deny2_rpz : ResultName
  route_ips_v4 : ResultName
  route_ips_v6 : ResultName
  deny_ips_v4 : ResultName
  deny_ips_v6 : ResultName

-- The result directory; a hash file that is not there is empty.
pub record Results : Type 0 where
  pub files : ResultName → Files
  pub hash_ips : Bytes
  pub hash_domains : Bytes

-- What loadIPs and loadDomainsWithRules give for the lists of these names.
pub record Loaded (ps : Prefixes) : Type 0 where
  pub include_ips : Nets ps
  pub exclude_ips : Nets ps
  pub deny_ips : Nets ps
  pub include_hosts : Lists
  pub include_adblock_hosts : Lists
  pub exclude_adblock_hosts : Lists
  pub rpz : Lists
  pub rpz2 : Lists
  pub exclude_hosts : Lists
  pub remove_hosts : Lists

-- One run: `makes` says that the directories can be made, `calls` and `writes` which calls on a result
-- succeed, `notes_ips` and `notes_domains` that the hash files can be written; `path` is that of a
-- result, `header` begins a zone, and `show` prints a prefix.
pub record Run (ps : Prefixes) : Type 0 where
  pub makes : Bool
  pub current_ips : Bytes
  pub current_domains : Bytes
  pub loaded : Loaded ps
  pub limit : ℕ
  pub block_ads : Bool
  pub route_all : Bool
  pub to_lower : Bytes → Bytes
  pub path : ResultName → Bytes
  pub header : Bytes
  pub show : ps.Prefix → Bytes
  pub calls : ResultName → Calls
  pub writes : ResultName → Bool
  pub notes_ips : Bool
  pub notes_domains : Bool

-- `fileExists`.
unfoldable pub has_content : List Bytes → Bool
has_content [] = false
has_content (piece ∷ text) = not (is_empty piece) || has_content text

abbrev pub file_exists : Files → Bool
file_exists fs = elim fs.target [ none ↦ false | some text ↦ has_content text ]

abbrev pub simple_zone : Lists → Zone
simple_zone lists =
    let (domains, excl) = build_simple_rpz lists.rules in record { domains = domains; excl = excl }

module _ {ps : Prefixes} where
  abbrev pub limit_of : Run ps → ℕ
  limit_of run = if run.limit == 0 then 500 else run.limit

  -- The lists for advertisements are empty where these are not blocked.
  abbrev pub ad_lists : Run ps → Lists → Lists
  ad_lists run lists = if run.block_ads then lists else no_lists

  abbrev pub zone_text : Run ps → ResultName → Zone → Lists → Bool → List Bytes
  zone_text run name z lists route_all =
      rpz_text run.header (run.path name) z.domains z.excl (sort_strings lists.raw_rules) route_all

  -- The text of each zone.
  unfoldable pub rpz_of : Run ps → ResultName → Option (List Bytes)
  rpz_of run proxy_rpz =
      let l = run.loaded in
      some (
        zone_text run proxy_rpz
          (proxy_zone run.to_lower l.include_hosts.rules l.exclude_hosts.rules l.remove_hosts.rules)
          l.include_hosts run.route_all)
  rpz_of run adblock_rpz =
      let l = run.loaded in
      let har = ad_lists run l.include_adblock_hosts in
      let hae = ad_lists run l.exclude_adblock_hosts in
      some (
        zone_text run adblock_rpz (adblock_zone har.rules hae.rules l.remove_hosts.rules) har false)
  rpz_of run deny_rpz =
      some (zone_text run deny_rpz (simple_zone run.loaded.rpz) run.loaded.rpz false)
  rpz_of run deny2_rpz =
      some (zone_text run deny2_rpz (simple_zone run.loaded.rpz2) run.loaded.rpz2 false)
  rpz_of run other = none

  abbrev pub ip_text : Run ps → Nets ps → List Bytes
  ip_text run nets = map (λ n. run.show n ++ 10 ∷ []) nets

  -- The text of each address list.
  unfoldable pub ips_of : Run ps → ResultName → Option (List Bytes)
  ips_of run name =
      let l = run.loaded in
      let ((deny4, route4), (deny6, route6)) =
        compile_ips ps (limit_of run) l.include_ips l.exclude_ips l.deny_ips in
      elim name [
        | route_ips_v4 ↦ some (ip_text run route4)
        | route_ips_v6 ↦ some (ip_text run route6)
        | deny_ips_v4 ↦ some (ip_text run deny4)
        | deny_ips_v6 ↦ some (ip_text run deny6)
        | proxy_rpz ↦ none
        | adblock_rpz ↦ none
        | deny_rpz ↦ none
        | deny2_rpz ↦ none
      ]

  unfoldable pub write_domains : Run ps → (ResultName → Files) → ResultName → Files
  write_domains run files name = elim (rpz_of run name) [
    | none ↦ files name
    | some text ↦ write_rpz_file (run.calls name) text (files name)
  ]

  unfoldable pub write_ips : Run ps → (ResultName → Files) → ResultName → Files
  write_ips run files name = elim (ips_of run name) [
    | none ↦ files name
    | some text ↦ write_ip_file (run.writes name) (run.calls name) text (files name)
  ]

  unfoldable pub compile_ips_needed : Run ps → Results → Bool
  compile_ips_needed run r =
      compile_needed (trim_space r.hash_ips) run.current_ips
        (file_exists (r.files route_ips_v4) ∷ file_exists (r.files route_ips_v6) ∷ [])

  unfoldable pub compile_domains_needed : Run ps → Results → Bool
  compile_domains_needed run r = compile_needed (trim_space r.hash_domains) run.current_domains (
      file_exists (r.files proxy_rpz)
      ∷ file_exists (r.files adblock_rpz)
      ∷ file_exists (r.files deny_rpz)
      ∷ file_exists (r.files deny2_rpz)
      ∷ [])

  -- What is written where the address lists, or the zones, are compiled.
  abbrev pub ips_step : Run ps → Bool → Results → Results
  ips_step run needed r = if needed then record r { files = write_ips run r.files } else r

  abbrev pub domains_step : Run ps → Bool → Results → Results
  domains_step run needed r = if needed then record r { files = write_domains run r.files } else r

  abbrev pub note_ips : Run ps → Bool → Results → Results
  note_ips run needed r =
      if needed && run.notes_ips then record r { hash_ips = run.current_ips } else r

  abbrev pub note_domains : Run ps → Bool → Results → Results
  note_domains run needed r =
      if needed && run.notes_domains then record r { hash_domains = run.current_domains } else r

  -- What is compiled, and the hashes after it.
  unfoldable pub compile_needed_lists : Run ps → Bool → Bool → Results → Results
  compile_needed_lists run ips domains r =
      let compiled =
        note_domains run domains
          (note_ips run ips (domains_step run domains (ips_step run ips r))) in
      if not run.makes then r else if not ips && not domains then r else compiled

  unfoldable pub compile_lists : Run ps → Results → Results
  compile_lists run r =
      compile_needed_lists run (compile_ips_needed run r) (compile_domains_needed run r) r
