-- ===== src/Cache/Loading.antt =====
-- loadDomainsWithRules, downloadAllWithRules and loadIPs of internal/parser/compiler.go: a list is what a
-- manual file and the cached files of its sources hold, of which the missing ones are downloaded. The
-- addresses are taken one after the other; a set of rules is the list of its keys.
use next_path.Base.{
  Bool, not, ◌&&◌, List, [], ◌∷◌, ◌++◌, Option, none, some, All, All-append, if◌then◌else◌,
}
use next_path.Blocklist.Addresses.{Prefixes, Nets, parse_ip_file}
use next_path.Blocklist.Lines.{Library, Flags, Lists, no_lists, flags_of, read_urls, validate_file}
use next_path.Blocklist.Rules.{IsClean, validate_file-AllClean}
use next_path.Blocklist.Zones.{add_keys}
use next_path.Cache.{Web, txt, get_cached_filepath, download_or_get_cached}
use next_path.Disk.{Disk, read}
use next_path.Net.{Bytes}
use next_path.Netlink.Deny.{split_lines}
use next_path.Text.{codes, is_empty, contains_text}

-- `scan` gives the lines that bufio.Scanner reads.
pub record Lookup : Type 0 where
  pub web : Web
  pub library : Library
  pub scan : Bytes → List Bytes
  pub nanos : Bytes
  pub sources_dir : Bytes
  pub manual_dir : Bytes
  pub download_dir : Bytes

abbrev pub download_dir_of : Bytes → Bytes
download_dir_of dir = if is_empty dir then codes "/app/nextpath/download" else dir

-- The results of two files.
unfoldable pub merge : Lists → Lists → Lists
merge a b = record {
  rules = a.rules ++ b.rules;
  cas_set = add_keys a.cas_set b.cas_set;
  raw_rules = add_keys a.raw_rules b.raw_rules;
}

module _ (c : Lookup) where
  abbrev pub dir : Bytes
  dir = download_dir_of c.download_dir

  abbrev pub lines_at : Bytes → Disk → Option (List Bytes)
  lines_at path d =
      let lines : Option (List Bytes) = elim (read path d) [
        | none ↦ none
        | some content ↦ some (c.scan content)
      ] in
      if c.web.reads path then lines else none

  -- The addresses in a source file; none where it cannot be read.
  unfoldable pub urls_at : Bytes → Disk → List Bytes
  urls_at path d =
      let urls : List Bytes = elim (read path d) [
        | none ↦ []
        | some content ↦ read_urls c.library (split_lines content)
      ] in
      if c.web.reads path then urls else []

  -- A cached file that is not there is downloaded.
  unfoldable pub fetch_missing : Bytes → Bytes → Disk → Disk
  fetch_missing stem url d = elim (read (get_cached_filepath c.web dir url stem) d) [
    | none ↦ (download_or_get_cached c.web c.nanos dir url stem d).0
    | some content ↦ d
  ]

  unfoldable pub download_all_with_rules : Bytes → Flags → List Bytes → Disk → Disk × Lists
  download_all_with_rules stem f [] d = (d, no_lists)
  download_all_with_rules stem f (url ∷ urls) d =
      let next = fetch_missing stem url d in
      let (final, rest) = download_all_with_rules stem f urls next in
      let own =
        validate_file c.library f (lines_at (get_cached_filepath c.web dir url stem) next) in
      (final, merge own rest)

  abbrev pub sources_file : Bytes → Bytes
  sources_file name =
      let file =
        if contains_text name (codes "rpz") && not (contains_text name (codes "rpz2"))
        then codes "rpz.txt"
        else if contains_text name (codes "rpz2")
        then codes "rpz2.txt"
        else name ++ txt in
      c.web.join (c.sources_dir ∷ file ∷ [])

  abbrev pub manual_file : Bytes → Bytes
  manual_file name = c.web.join (c.manual_dir ∷ (name ++ txt) ∷ [])

  unfoldable pub load_domains_with_rules : Bytes → Bool → Disk → Disk × Lists
  load_domains_with_rules name filter_casino d =
      let f = flags_of name filter_casino in
      let (final, downloaded) = download_all_with_rules name f (urls_at (sources_file name) d) d in
      (final, merge downloaded (validate_file c.library f (lines_at (manual_file name) final)))

  module _ (ps : Prefixes) where
    -- The prefixes of an address file.
    unfoldable pub nets_at : Bytes → Disk → Nets ps
    nets_at path d = elim (lines_at path d) [
      | none ↦ []
      | some lines ↦ parse_ip_file ps c.library.trim_space lines
    ]

    unfoldable pub download_all_nets : Bytes → List Bytes → Disk → Disk × Nets ps
    download_all_nets stem [] d = (d, [])
    download_all_nets stem (url ∷ urls) d =
        let next = fetch_missing stem url d in
        let (final, rest) = download_all_nets stem urls next in
        (final, nets_at (get_cached_filepath c.web dir url stem) next ++ rest)

    unfoldable pub load_ips : Bytes → Disk → Disk × Nets ps
    load_ips name d =
        let manual = nets_at (manual_file name) d in
        let (final, downloaded) =
          download_all_nets name (urls_at (c.web.join (c.sources_dir ∷ (name ++ txt) ∷ [])) d) d in
        (final, manual ++ downloaded)

  module _ (name : Bytes) (filter_casino : Bool) where
    abbrev Clean : Lists → Type 0
    Clean ls = All (IsClean c.library (flags_of name filter_casino)) ls.rules

    merge-Clean : (a b : Lists) → Clean a → Clean b → Clean (merge a b)
    unfolding merge
    merge-Clean a b h k = All-append _ a.rules b.rules h k

    download_all_with_rules-Clean :
        (stem : Bytes) (urls : List Bytes) (d : Disk)
        → Clean (download_all_with_rules stem (flags_of name filter_casino) urls d).1
    unfolding download_all_with_rules
    download_all_with_rules-Clean stem [] d = tt
    download_all_with_rules-Clean stem (url ∷ urls) d =
        let next = fetch_missing stem url d in
        let f = flags_of name filter_casino in
        merge-Clean
          (validate_file c.library f (lines_at (get_cached_filepath c.web dir url stem) next))
          (download_all_with_rules stem f urls next).1
          (validate_file-AllClean c.library f
            (lines_at (get_cached_filepath c.web dir url stem) next))
          (download_all_with_rules-Clean stem urls next)

    -- The rules of a list, from its manual file and its sources, whatever these hold and the servers
    -- answer: each has a name that is not empty, has valid labels, and is no casino's where these are
    -- filtered.
    pub load_domains_with_rules-Clean :
        (d : Disk)
        → All
            (IsClean c.library (flags_of name filter_casino))
            (load_domains_with_rules name filter_casino d).1.rules
    unfolding load_domains_with_rules
    load_domains_with_rules-Clean d =
        let f = flags_of name filter_casino in
        let urls = urls_at (sources_file name) d in
        let loaded = download_all_with_rules name f urls d in
        merge-Clean loaded.1 (validate_file c.library f (lines_at (manual_file name) loaded.0))
          (download_all_with_rules-Clean name urls d)
          (validate_file-AllClean c.library f (lines_at (manual_file name) loaded.0))
