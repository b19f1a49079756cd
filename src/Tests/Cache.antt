-- ===== src/Tests/Cache.antt =====
-- Downloads of internal/parser/compiler.go: one source file with one address, and a cached file that no
-- source names.
use next_path.Base.{ℕ_discrete, true, false, List, [], ◌∷◌, ◌++◌, none, some, ◌≡◌, refl}
use next_path.Base.Map
use next_path.Blocklist.Lines.{Library, read_urls}
use next_path.Cache.Fetching.{Caches, download_or_get_cached-Caches}
use next_path.Cache.Revalidating.{download_or_get_cached-validators}
use next_path.Cache.Sources.{Leaves, download_sources-Leaves}
use next_path.Cache.{
  Web, responded, download_or_get_cached, take_response, keep_body, discard, note, validators_of,
  request_for, request_with, jobs_of, texts_in, fetch_all, sweep, download_sources,
}
use next_path.Disk.{Disk, read}
use next_path.Domains.{has_prefix}
use next_path.Names.{has_byte}
use next_path.Net.{Bytes, Bytes-discrete}
use next_path.Netlink.Deny.{split_lines, add_head}
use next_path.Text.{codes, split_line}
use next_path.Updater.Etags.{IsTag}

abbrev joined : List Bytes → Bytes
joined [] = []
joined (p ∷ []) = p
joined (p ∷ q ∷ ps) = p ++ (47 ∷ joined (q ∷ ps))

abbrev pub web : Web
web = record {
  md5_hex = λ url. url;
  join = joined;
  dir = λ path. path;
  base = λ path. codes "deny.txt";
  inside = λ dir path. has_prefix path dir;
  calls = λ path. record { creates = true; renames = true; notes = true; spoilt = none };
  reads = λ path. true;
  removes = λ path. true;
  serve = λ request. responded 200 (codes "v1") [] (some (codes "a.com"));
}

abbrev pub library : Library
library = record {
  to_lower = λ s. s;
  trim_space = λ s. s;
  to_ascii = some;
  fields = λ s. [];
  parses_addr = λ s. false;
  is_casino = λ s. false;
}

abbrev pub disk : Disk
disk = record {
  contents = (codes "/s/deny.txt", codes "u") ∷ (codes "/d/old.txt", codes "b.com") ∷ [];
  dirs = [];
}

abbrev after : Disk
after = download_sources web library (codes "7") (codes "/s") (codes "/d") disk

cached : read (codes "/d/deny/u.txt") after ≡ some (codes "a.com")
unfolding download_sources discard sweep fetch_all jobs_of texts_in read_urls split_lines
    download_or_get_cached take_response keep_body note validators_of split_line has_prefix Map.get
    Map.put Map.delete Bytes-discrete ℕ_discrete add_head
cached = refl

removed : read (codes "/d/old.txt") after ≡ none
unfolding download_sources discard sweep fetch_all jobs_of texts_in read_urls split_lines
    download_or_get_cached take_response keep_body note validators_of split_line has_prefix Map.get
    Map.put Map.delete Bytes-discrete ℕ_discrete add_head
removed = refl

v1-IsTag : IsTag (codes "v1")
unfolding has_byte split_line
v1-IsTag = record { begins = refl; ends = refl; line = refl }

nil-IsTag : IsTag []
unfolding split_line
nil-IsTag = record { begins = tt; ends = tt; line = refl }

download_or_get_cached-Caches_example :
    Caches
      (codes "7")
      (codes "/d/deny/u.txt")
      (responded 200 (codes "v1") [] (some (codes "a.com")))
      disk
      (download_or_get_cached web (codes "7") (codes "/d") (codes "u") (codes "deny") disk)
download_or_get_cached-Caches_example =
    download_or_get_cached-Caches web (codes "7") (codes "/d") (codes "u") (codes "deny") disk

download_or_get_cached-validators_example :
    request_for web
      (codes "u")
      (codes "/d/deny/u.txt")
      (download_or_get_cached web (codes "7") (codes "/d") (codes "u") (codes "deny") disk).0
    ≡ request_with (codes "u") (codes "v1", [])
download_or_get_cached-validators_example =
    download_or_get_cached-validators web (codes "7") (codes "/d") (codes "u") (codes "deny")
      (codes "v1") [] (codes "a.com") disk v1-IsTag nil-IsTag (λ e. absurd (cc))
      (refl, refl, refl, refl, refl) refl

download_sources-Leaves_example :
    Leaves web
      (codes "/d")
      (jobs_of web library (texts_in web (codes "/s") disk.contents) disk)
      (codes "/d/old.txt")
      disk
      after
unfolding has_prefix
download_sources-Leaves_example =
    download_sources-Leaves web library (codes "7") (codes "/s") (codes "/d") (codes "/d/old.txt")
      disk (55, [], refl, refl) refl
