-- ===== src/Updater.antt =====
-- The update of compiled lists from another node in cmd/nextpath-engine/main.go: downloadRemoteFiles,
-- runReload, and the steps of the two loops. The HTTP server and the gzip and tar readers, filepath
-- and the file system's answers are the parameter `Host`. A header is ASCII text.
pub mod Writing
pub mod Containing
pub mod Replies
pub mod Etags
use next_path.Base.Map
use next_path.Base.Map.{Map}
use next_path.Base.{
  ℕ, ◌+◌, ◌-◌, ◌*◌, ◌%◌, Bool, true, false, not, ◌&&◌, ◌||◌, List, [], ◌∷◌, ◌++◌, ite, Option, none,
  some, ◌==◌, ltb, if◌then◌else◌,
}
use next_path.Domains.{has_prefix, has_suffix}
use next_path.Disk.{Disk, read, write, remove, mkdir_all}
use next_path.Net.{Bytes, Bytes-discrete}
use next_path.Text.{codes, is_empty, trim_space, split_line}

pub data Kind : Type 0 where
  directory : Kind
  regular : Kind
  other : Kind

-- A member of an archive; the body is `none` where it cannot be copied whole.
pub record Entry : Type 0 where
  pub name : Bytes
  pub kind : Kind
  pub size : ℕ
  pub body : Option Bytes

-- What the tar reader gives: members up to the end or to an error.
pub data Archive : Type 0 where
  ended : Archive
  broken : Archive
  member : Entry → Archive → Archive

pub record Request : Type 0 where
  pub url : Bytes
  pub if_none_match : Option Bytes
  pub if_modified_since : Option Bytes

-- A status, the headers ETag and Last-Modified, and the archive, unless gzip refuses the body.
pub data Reply : Type 0 where
  unreachable : Reply
  replied : ℕ → Bytes → Bytes → Option Archive → Reply

-- Which of the calls on the temporary file of a target succeed.
pub record Calls : Type 0 where
  pub opens : Bool
  pub syncs : Bool
  pub closes : Bool
  pub renames : Bool

-- `clean`, `join` and `dir` are those of filepath.
pub record Host : Type 0 where
  pub clean : Bytes → Bytes
  pub join : Bytes → Bytes → Bytes
  pub dir : Bytes → Bytes
  pub calls : Bytes → Calls
  pub serve : Request → Reply

abbrev pub max_size : ℕ
max_size = 500 * 1024 * 1024

abbrev pub tmp_path : Bytes → Bytes
tmp_path target = target ++ codes ".tmp"

abbrev pub same : Bytes → Bytes → Bool
same a b = ite (Bytes-discrete a b) true false

abbrev pub archive_url : Bytes → Bytes
archive_url url =
    if has_suffix url (codes ".tar.gz")
    then url
    else if has_suffix url (codes "/")
    then url ++ codes "result.tar.gz"
    else url ++ codes "/result.tar.gz"

abbrev pub header : Bytes → Option Bytes
header value = if is_empty value then none else some value

abbrev pub request_for : Bytes → Bytes → Bytes → Request
request_for source last_etag last_modified = record {
  url = archive_url source;
  if_none_match = header last_etag;
  if_modified_since = header last_modified;
}

abbrev pub is_remote : Bytes → Bool
is_remote source = has_prefix source (codes "http://") || has_prefix source (codes "https://")

-- The two validators in `.etag`.
unfoldable pub meta_parts : Bytes → Bytes × Bytes
meta_parts meta = elim (split_line meta) [
  | none ↦ (meta, [])
  | some (first, second) ↦ (trim_space first, trim_space second)
]

unfoldable pub read_meta : Bytes → Bytes × Bytes
read_meta content = meta_parts (trim_space content)

abbrev pub meta_text : Bytes → Bytes → Bytes
meta_text etag last_mod = etag ++ 10 ∷ last_mod

module _ (h : Host) where
  -- The function that writes a regular file: through a temporary one, which is gone in the end.
  unfoldable pub write_file : Bytes → Entry → Disk → Disk × Bool
  write_file target e d =
      let c = h.calls target in
      let tmp = tmp_path target in
      let made = mkdir_all (h.dir target) d in
      let opened = write tmp [] made in
      if not c.opens
      then (made, false)
      else if ltb max_size e.size
      then (remove tmp opened, false)
      else elim e.body [
        | none ↦ (remove tmp opened, false)
        | some data_of ↦
            if not (c.syncs && c.closes && c.renames)
            then (remove tmp (write tmp data_of opened), false)
            else (write target data_of (remove tmp (write tmp data_of opened)), true)
      ]

  abbrev pub target_of : Bytes → Entry → Bytes
  target_of target_dir e = h.join target_dir (h.clean e.name)

  -- `strings.HasPrefix(targetPath, filepath.Clean(targetDir)+"/")`.
  abbrev pub is_inside : Bytes → Bytes → Bool
  is_inside target_dir path = has_prefix path (h.clean target_dir ++ 47 ∷ [])

  unfoldable pub extract : Bytes → Archive → Disk → Disk × Bool
  extract target_dir ended d = (d, true)
  extract target_dir broken d = (d, false)
  extract target_dir (member e rest) d =
      let target = target_of target_dir e in
      let skipped = extract target_dir rest d in
      let entered : Disk × Bool = elim e.kind [
        | directory ↦ extract target_dir rest (mkdir_all target d)
        | regular ↦
            let (next, ok) = write_file target e d in
            elim ok [ true ↦ extract target_dir rest next | false ↦ (next, false) ]
        | other ↦ skipped
      ] in
      if not (is_inside target_dir target) then skipped else entered

  -- What follows the request: `nanos` is the clock's text in a tag that stands for missing
  -- validators.
  unfoldable pub take_reply :
      Bytes → Bytes → Bytes → Bytes → Reply → Disk → Disk × Option (Bytes × Bytes)
  take_reply nanos target_dir last_etag last_modified unreachable d = (d, none)
  take_reply nanos target_dir last_etag last_modified (replied status etag last_mod body) d =
      let tags =
        if is_empty etag && is_empty last_mod
        then (codes "no-cache-" ++ nanos, last_mod)
        else (etag, last_mod) in
      if status == 304
      then (d, some (last_etag, last_modified))
      else if not (status == 200)
      then (d, none)
      else elim body [
        | none ↦ (d, none)
        | some archive ↦
            let (next, ok) = extract target_dir archive (mkdir_all target_dir d) in
            (next, if ok then some tags else none)
      ]

  unfoldable pub download_remote_files :
      Bytes → Bytes → Bytes → Bytes → Bytes → Disk → Disk × Option (Bytes × Bytes)
  download_remote_files nanos source target_dir last_etag last_modified =
      take_reply nanos target_dir last_etag last_modified
        (h.serve (request_for source last_etag last_modified))

  -- `runReload` without local compilation; `writes` says that `.etag` can be written.
  unfoldable pub reload : Bytes → Bool → Bytes → Bytes → Disk → Disk
  reload nanos writes source result_dir d =
      let path = h.join result_dir (codes ".etag") in
      let content : Bytes = elim (read path d) [ none ↦ [] | some b ↦ b ] in
      let (last_etag, last_mod) = read_meta content in
      let (next, tags) = download_remote_files nanos source result_dir last_etag last_mod d in
      let updated : Disk = elim tags [
        | none ↦ next
        | some (etag, modified) ↦
            if same etag last_etag && same modified last_mod
            then next
            else if writes
            then write path (meta_text etag modified) next
            else next
      ] in
      if is_remote source then updated else d

-- The delay of the first timer of `startUpdaterLoop`: `now` is the time since the zero time, and
-- Truncate leaves it alone where the interval is not positive.
unfoldable pub initial_delay : ℕ → ℕ → ℕ
initial_delay now interval =
    let truncated = if interval == 0 then now else now - now % interval in
    truncated + interval - now

-- One tick of `startFileWatcher`: the times that it remembers, and whether it reloads.
unfoldable pub watch_tick : ℕ × ℕ → ℕ × ℕ → (ℕ × ℕ) × Bool
watch_tick (last1, last2) (m1, m2) =
    if not (m1 == last1) || not (m2 == last2) then ((m1, m2), true) else ((last1, last2), false)
