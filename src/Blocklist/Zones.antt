-- ===== src/Blocklist/Zones.antt =====
-- The zones proxy.rpz and adblock.rpz of CompileLists, and stripPrefixesMap, in
-- internal/parser/compiler.go.
use next_path.Base.{ℕ, ◌-◌, List, [], ◌∷◌, ◌++◌, if◌then◌else◌, length}
use next_path.Domains.{DomainRule, has_key, add_key, included, excepted, without, collapse_domains}
use next_path.Names.{strip_prefix}
use next_path.Net.{Bytes}

-- The names of all rules, exceptions or not, added to a set.
unfoldable pub names_of : List DomainRule → List Bytes → List Bytes
names_of [] ds = ds
names_of (r ∷ rs) ds = add_key r.domain (names_of rs ds)

-- `for d := range src { dst[d] = struct{}{} }`.
unfoldable pub add_keys : List Bytes → List Bytes → List Bytes
add_keys [] ds = ds
add_keys (d ∷ src) ds = add_key d (add_keys src ds)

-- A zone out of the names to block and the exceptions.
unfoldable pub zone : List Bytes → List Bytes → List Bytes
zone inc exc = without exc (collapse_domains (inc ++ exc))

pub record Zone : Type 0 where
  pub domains : List Bytes
  pub excl : List Bytes

-- `stripPrefixesMap`.
unfoldable pub strip_prefixes_map : (Bytes → Bytes) → List Bytes → List Bytes
strip_prefixes_map to_lower [] = []
strip_prefixes_map to_lower (d ∷ ds) =
    add_key (strip_prefix to_lower d) (strip_prefixes_map to_lower ds)

-- `pExcRaw`: `hpr`, `ex_p_only` and `ex_g` are the rules of include-hosts, exclude-hosts and
-- remove-hosts.
unfoldable pub proxy_exceptions : List DomainRule → List DomainRule → List DomainRule → List Bytes
proxy_exceptions hpr ex_p_only ex_g = names_of ex_g (names_of ex_p_only (excepted hpr))

-- `pDoms` and `pExc`.
unfoldable pub proxy_zone :
    (Bytes → Bytes) → List DomainRule → List DomainRule → List DomainRule → Zone
proxy_zone to_lower hpr ex_p_only ex_g =
    let exc = proxy_exceptions hpr ex_p_only ex_g in
    record {
      domains = zone (strip_prefixes_map to_lower (included hpr)) exc;
      excl = collapse_domains exc;
    }

-- The keys of a set that another has, and those that it does not have.
unfoldable pub within : List Bytes → List Bytes → List Bytes
within lookup [] = []
within lookup (d ∷ ds) = let rest = within lookup ds in if has_key d lookup then d ∷ rest else rest

-- `adExcExt` and `adIntEx`: the exceptions that a rule of `hae` names, and the others.
unfoldable pub external_exceptions : List DomainRule → List DomainRule → List Bytes
external_exceptions har hae = within (names_of hae []) (excepted (har ++ hae))

unfoldable pub internal_exceptions : List DomainRule → List DomainRule → List Bytes
internal_exceptions har hae = without (names_of hae []) (excepted (har ++ hae))

-- `adAllExc`.
unfoldable pub all_exceptions : List DomainRule → List DomainRule → List DomainRule → List Bytes
all_exceptions har hae ex_g =
    add_keys (external_exceptions har hae)
      (add_keys (internal_exceptions har hae) (names_of ex_g []))

-- `adFinal` and `adExcl`: `har` and `hae` are the rules of include-adblock-hosts and
-- exclude-adblock-hosts.
unfoldable pub adblock_zone : List DomainRule → List DomainRule → List DomainRule → Zone
adblock_zone har hae ex_g = record {
  domains = zone (included (har ++ hae)) (all_exceptions har hae ex_g);
  excl = collapse_domains (external_exceptions har hae ++ internal_exceptions har hae);
}

-- `adFiltered`, never below zero.
unfoldable pub ad_filtered : List DomainRule → List DomainRule → List DomainRule → ℕ
ad_filtered har hae ex_g =
    length har
    - length (adblock_zone har hae ex_g).domains
    - length (external_exceptions har hae)
    - length (internal_exceptions har hae)
