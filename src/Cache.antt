-- ===== src/Cache.antt =====
-- The downloads of the list compiler in internal/parser/compiler.go: getCachedFilepath, fileExists,
-- downloadOrGetCached and downloadSources. HTTP, md5, filepath and the outcome of calls on files are the
-- parameter `Web`. The goroutines of downloadSources work on different files, so that they run one
-- after the other here, after the source files were read; `nanos` is the clock in the names of their
-- temporary files.
pub mod Fetching
pub mod Revalidating
pub mod Sweeping
pub mod Serving
pub mod Sources
pub mod Loading
pub mod Hashing
use next_path.Base.Map.{Map}
use next_path.Base.{
  ◌-◌, take, ℕ, Bool, true, false, not, ◌&&◌, ◌||◌, List, [], ◌∷◌, ◌++◌, Option, none, some, ◌==◌,
  if◌then◌else◌, drop, length, map, reverse,
}
use next_path.Blocklist.Lines.{Library, read_urls}
use next_path.Disk.{Disk, read, write, remove, mkdir_all}
use next_path.Domains.{has_suffix}
use next_path.Net.{Bytes}
use next_path.Netlink.Deny.{split_lines}
use next_path.Text.{codes, is_empty, trim_space, split_line}
use next_path.Updater.{Request, header, meta_text, same}

-- A status, the headers ETag and Last-Modified, and the body, unless it breaks off.
pub data Response : Type 0 where
  unreachable : Response
  responded : ℕ → Bytes → Bytes → Option Bytes → Response

-- Which calls on a cached file's temporary file succeed, whether its `.meta` can be written, and what
-- that file holds otherwise.
pub record Calls : Type 0 where
  pub creates : Bool
  pub renames : Bool
  pub notes : Bool
  pub spoilt : Option Bytes

-- `md5_hex` is the digest in hexadecimal, `inside` says that a file lies in the tree of a directory;
-- `join`, `dir` and `base` are those of filepath. `reads` and `removes` say whether a file can be read
-- and removed if it is there.
pub record Web : Type 0 where
  pub md5_hex : Bytes → Bytes
  pub join : List Bytes → Bytes
  pub dir : Bytes → Bytes
  pub base : Bytes → Bytes
  pub inside : Bytes → Bytes → Bool
  pub calls : Bytes → Calls
  pub reads : Bytes → Bool
  pub removes : Bytes → Bool
  pub serve : Request → Response

abbrev pub txt : Bytes
txt = codes ".txt"

abbrev pub meta_path : Bytes → Bytes
meta_path cached = cached ++ codes ".meta"

abbrev pub tmp_path : Bytes → Bytes → Bytes
tmp_path nanos cached = cached ++ (codes ".tmp." ++ nanos)

-- A file that is not empty.
abbrev pub file_exists : Bytes → Disk → Bool
file_exists path d = elim (read path d) [ none ↦ false | some content ↦ not (is_empty content) ]

abbrev pub request_with : Bytes → Bytes × Bytes → Request
request_with url (etag, last_mod) = record {
  url = url;
  if_none_match = header etag;
  if_modified_since = header last_mod;
}

abbrev pub member_of : Bytes → List Bytes → Bool
member_of path [] = false
member_of path (p ∷ ps) = same path p || member_of path ps

module _ (w : Web) where
  abbrev pub get_cached_filepath : Bytes → Bytes → Bytes → Bytes
  get_cached_filepath download_dir url stem =
      w.join (download_dir ∷ stem ∷ (take 8 (w.md5_hex url) ++ txt) ∷ [])

  -- `os.Remove`, whose error is not looked at.
  unfoldable pub discard : Bytes → Disk → Disk
  discard path d = if w.removes path then remove path d else d

  -- The validators that are sent for a cached file.
  unfoldable pub validators_of : Bytes → Disk → Bytes × Bytes
  validators_of cached d =
      let noted : Bytes × Bytes = elim (read (meta_path cached) d) [
        | none ↦ ([], [])
        | some meta ↦ elim (split_line meta) [
          | none ↦ ([], [])
          | some (first, second) ↦ (trim_space first, trim_space second)
        ]
      ] in
      if file_exists cached d && w.reads (meta_path cached) then noted else ([], [])

  abbrev pub request_for : Bytes → Bytes → Disk → Request
  request_for url cached d = request_with url (validators_of cached d)

  -- What becomes of `.meta` beside a new cached file.
  unfoldable pub note : Bytes → Bytes → Bytes → Disk → Disk
  note cached etag last_mod d =
      let c = w.calls cached in
      if is_empty etag && is_empty last_mod
      then discard (meta_path cached) d
      else if c.notes
      then write (meta_path cached) (meta_text etag last_mod) d
      else elim c.spoilt [
        | none ↦ discard (meta_path cached) d
        | some left ↦ write (meta_path cached) left d
      ]

  -- A response of status 200; false stands for an error.
  unfoldable pub keep_body : Bytes → Bytes → Bytes → Bytes → Option Bytes → Disk → Disk × Bool
  keep_body nanos cached etag last_mod body d =
      let c = w.calls cached in
      let tmp = tmp_path nanos cached in
      let opened = write tmp [] d in
      if not c.creates then (d, false) else elim body [
        | none ↦ (discard tmp opened, false)
        | some content ↦
            let filled = discard tmp (write tmp content opened) in
            if is_empty content
            then (filled, true)
            else if not c.renames
            then (filled, false)
            else (note cached etag last_mod (write cached content filled), true)
      ]

  unfoldable pub take_response : Bytes → Bytes → Response → Disk → Disk × Bool
  take_response nanos cached unreachable d = (d, false)
  take_response nanos cached (responded status etag last_mod body) d =
      if status == 304
      then (d, true)
      else if not (status == 200)
      then (d, false)
      else keep_body nanos cached etag last_mod body d

  unfoldable pub download_or_get_cached : Bytes → Bytes → Bytes → Bytes → Disk → Disk × Bool
  download_or_get_cached nanos download_dir url stem d =
      let cached = get_cached_filepath download_dir url stem in
      let made = mkdir_all (w.dir cached) d in
      take_response nanos cached (w.serve (request_for url cached made)) made

  -- The files of a tree, as filepath.Walk visits them, whose names end in `.txt`.
  unfoldable pub texts_in : Bytes → Map Bytes Bytes → List Bytes
  texts_in dir [] = []
  texts_in dir ((path, content) ∷ files) =
      let rest = texts_in dir files in
      if w.inside dir path && has_suffix path txt then path ∷ rest else rest

  abbrev pub stem_of : Bytes → Bytes
  stem_of path =
      let name = w.base path in
      if has_suffix name txt then take (length name - length txt) name else name

  -- The addresses in the source files that can be read, each with the stem of its file.
  unfoldable pub jobs_of : Library → List Bytes → Disk → List (Bytes × Bytes)
  jobs_of l [] d = []
  jobs_of l (file ∷ files) d =
      let rest = jobs_of l files d in
      let all : List (Bytes × Bytes) = elim (read file d) [
        | none ↦ rest
        | some content ↦
            map (λ url. (url, stem_of file)) (read_urls l (split_lines content)) ++ rest
      ] in
      if w.reads file then all else rest

  abbrev pub cached_of : Bytes → Bytes × Bytes → Bytes
  cached_of download_dir (url, stem) = get_cached_filepath download_dir url stem

  -- The downloads, one for each cached file.
  unfoldable pub fetch_all : Bytes → Bytes → List (Bytes × Bytes) → List Bytes → Disk → Disk
  fetch_all nanos download_dir [] seen d = d
  fetch_all nanos download_dir ((url, stem) ∷ jobs) seen d =
      let cached = get_cached_filepath download_dir url stem in
      let next =
        if member_of cached seen
        then d
        else (download_or_get_cached nanos download_dir url stem d).0 in
      fetch_all nanos download_dir jobs (cached ∷ seen) next

-- The removal of cached files that no source names.
unfoldable pub sweep : Web → List Bytes → List Bytes → Disk → Disk
sweep w active [] d = d
sweep w active (path ∷ paths) d =
    let next = if member_of path active then d else discard w (meta_path path) (discard w path d) in
    sweep w active paths next

unfoldable pub download_sources : Web → Library → Bytes → Bytes → Bytes → Disk → Disk
download_sources w l nanos sources_dir download_dir d =
    let made = mkdir_all download_dir d in
    let jobs = jobs_of w l (texts_in w sources_dir made.contents) made in
    let fetched = fetch_all w nanos download_dir jobs [] made in
    sweep w (map (cached_of w download_dir) jobs) (texts_in w download_dir fetched.contents) fetched
