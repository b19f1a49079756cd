-- ===== src/Blocklist/Files.antt =====
-- writeRPZFile and the choice of files in getStateHash of internal/parser/compiler.go. The calls on
-- files may fail; `Calls` says which succeed. A text is the list of its pieces.
use next_path.Base.{
  Bool, true, false, not, ◌&&◌, ◌||◌, List, [], ◌∷◌, ◌++◌, ite, Option, none, some, if◌then◌else◌,
  ◌==◌,
}
use next_path.Domains.{dot, has_suffix}
use next_path.Net.{Bytes, Bytes-discrete}
use next_path.Sync.{string_lt}
use next_path.Text.{is_empty, contains_text}

-- `sort.Strings`. Equal strings cannot be told apart, so that every sorting gives this list.
unfoldable pub insert_string : Bytes → List Bytes → List Bytes
insert_string s [] = s ∷ []
insert_string s (t ∷ ts) =
    let rest = insert_string s ts in if string_lt t s then t ∷ rest else s ∷ t ∷ ts

unfoldable pub sort_strings : List Bytes → List Bytes
unfolding insert_string
sort_strings [] = []
sort_strings (s ∷ ss) = insert_string s (sort_strings ss)

-- `. CNAME rpz-passthru.` and `. CNAME .`, with the end of the line.
abbrev passthru : Bytes
passthru =
    46 ∷ 32 ∷ 67 ∷ 78 ∷ 65 ∷ 77 ∷ 69 ∷ 32 ∷ 114 ∷ 112 ∷ 122 ∷ 45 ∷ 112 ∷ 97 ∷ 115 ∷ 115 ∷ 116 ∷ 104
    ∷ 114 ∷ 117 ∷ 46 ∷ 10 ∷ []

abbrev nxdomain : Bytes
nxdomain = 46 ∷ 32 ∷ 67 ∷ 78 ∷ 65 ∷ 77 ∷ 69 ∷ 32 ∷ 46 ∷ 10 ∷ []

-- `proxy`.
abbrev proxy : Bytes
proxy = 112 ∷ 114 ∷ 111 ∷ 120 ∷ 121 ∷ []

-- The two records of each name, but for the empty one and the root.
unfoldable pub records : Bytes → List Bytes → List Bytes
records action [] = []
records action (d ∷ ds) =
    let rest = records action ds in
    if is_empty d
    then rest
    else if is_root d
    then rest
    else (d ++ action) ∷ (42 ∷ 46 ∷ (d ++ action)) ∷ rest
  where
    is_root : Bytes → Bool
    is_root [] = false
    is_root (c ∷ []) = c == dot
    is_root (c ∷ e ∷ es) = false

unfoldable pub raw_lines : List Bytes → List Bytes
raw_lines [] = []
raw_lines (r ∷ rs) = (r ++ 10 ∷ []) ∷ raw_lines rs

-- The contents: `header` is the TTL and the SOA record, which holds the time.
unfoldable pub rpz_text : Bytes → Bytes → List Bytes → List Bytes → List Bytes → Bool → List Bytes
rpz_text header path domains excl raw_rules route_all =
    header
    ∷ ((if route_all && contains_text path proxy
          then (42 ∷ 32 ∷ 67 ∷ 78 ∷ 65 ∷ 77 ∷ 69 ∷ 32 ∷ 46 ∷ 10 ∷ []) ∷ []
          else [])
        ++ (raw_lines raw_rules
            ++ (records passthru (sort_strings excl) ++ records nxdomain (sort_strings domains))))

-- The file and its temporary one.
pub record Files : Type 0 where
  pub target : Option (List Bytes)
  pub tmp : Option (List Bytes)

pub record Calls : Type 0 where
  pub creates : Bool
  pub flushes : Bool
  pub syncs : Bool
  pub renames : Bool

-- The early returns remove the temporary file.
unfoldable pub write_rpz_file : Calls → List Bytes → Files → Files
write_rpz_file c text fs =
    let removed : Files = record fs { tmp = none } in
    if not c.creates
    then fs
    else if not c.flushes
    then removed
    else if not c.syncs
    then removed
    else if not c.renames
    then removed
    else record { target = some text; tmp = none }

-- `writeIPFile`, whose every write may fail too.
unfoldable pub write_ip_file : Bool → Calls → List Bytes → Files → Files
write_ip_file writes c text fs =
    let removed : Files = record fs { tmp = none } in
    if not c.creates
    then fs
    else if not writes
    then removed
    else if not c.flushes
    then removed
    else if not c.renames
    then removed
    else record { target = some text; tmp = none }

-- `compileIPsNeeded` and `compileDomainsNeeded` of CompileLists: the two hashes, and whether each
-- result exists.
unfoldable pub compile_needed : Bytes → Bytes → List Bool → Bool
compile_needed cached_hash current_hash [] =
    is_empty cached_hash || ite (Bytes-discrete cached_hash current_hash) false true
compile_needed cached_hash current_hash (exists ∷ results) =
    let rest = compile_needed cached_hash current_hash results in rest || not exists

-- Which files of a tree `getStateHash` counts for its two types. `name` is the last part of `path`.
pub data FileType : Type 0 where
  ips : FileType
  domains : FileType

-- `-ips.txt`, `/include-ips/` and `/exclude-ips/`.
abbrev ips_txt : Bytes
ips_txt = 45 ∷ 105 ∷ 112 ∷ 115 ∷ 46 ∷ 116 ∷ 120 ∷ 116 ∷ []

abbrev include_ips : Bytes
include_ips = 47 ∷ 105 ∷ 110 ∷ 99 ∷ 108 ∷ 117 ∷ 100 ∷ 101 ∷ 45 ∷ 105 ∷ 112 ∷ 115 ∷ 47 ∷ []

abbrev exclude_ips : Bytes
exclude_ips = 47 ∷ 101 ∷ 120 ∷ 99 ∷ 108 ∷ 117 ∷ 100 ∷ 101 ∷ 45 ∷ 105 ∷ 112 ∷ 115 ∷ 47 ∷ []

unfoldable pub is_ip_file : Bytes → Bytes → Bool
is_ip_file name path =
    contains_text name ips_txt || contains_text path include_ips || contains_text path exclude_ips

unfoldable pub counts_for : FileType → Bytes → Bytes → Bool
counts_for type name path =
    if has_suffix name (46 ∷ 116 ∷ 120 ∷ 116 ∷ [])
    then elim type [ ips ↦ is_ip_file name path | domains ↦ not (is_ip_file name path) ]
    else false
