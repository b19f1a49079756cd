-- ===== src/Tests/Updater.antt =====
-- A download of cmd/nextpath-engine/main.go with an archive of three members.
use next_path.Base.{
  ℕ_discrete, ◌==◌, if◌then◌else◌, true, [], ◌∷◌, ◌++◌, Option, none, some, ◌≡◌, refl,
}
use next_path.Base.Map
use next_path.Names.{has_byte}
use next_path.Domains.{has_prefix}
use next_path.Net.{Bytes, Bytes-discrete}
use next_path.Text.{codes, split_line}
use next_path.Updater.Etags.{IsTag, read_meta-meta_text}
use next_path.Updater.Replies.{Updates, download_remote_files-Updates}
use next_path.Updater.{
  Archive, ended, member, Entry, regular, Host, Calls, replied, download_remote_files, extract,
  write_file, take_reply, read_meta, meta_text, initial_delay, watch_tick,
}
use next_path.Disk.{Disk, read}

abbrev all_succeed : Calls
all_succeed = record { opens = true; syncs = true; closes = true; renames = true }

abbrev deny_list : Entry
deny_list = record {
  name = codes "deny-ips-v4.txt";
  kind = regular;
  size = 11;
  body = some (codes "192.0.2.1\n");
}

-- A member whose target is cleaned to a path outside.
abbrev outside : Entry
outside = record { name = codes "../passwd"; kind = regular; size = 1; body = some (codes "x") }

abbrev lists : Archive
lists = member outside (member deny_list ended)

-- `join` gives the path outside for the member outside.
abbrev host : Host
host = record {
  clean = λ path. path;
  join = λ a b. elim b [ [] ↦ a | c ∷ s ↦ if c == 46 then codes "/passwd" else a ++ 47 ∷ c ∷ s ];
  dir = λ path. path;
  calls = λ path. all_succeed;
  serve = λ request. replied 200 (codes "\"v1\"") (codes "Mon") (some lists);
}

abbrev empty_disk : Disk
empty_disk = record { contents = []; dirs = [] }

abbrev target : Bytes
target = codes "/lists"

abbrev after : Disk × Option (Bytes × Bytes)
after = download_remote_files host (codes "1") (codes "https://a") target [] [] empty_disk

entered : read (codes "/lists/deny-ips-v4.txt") after.0 ≡ some (codes "192.0.2.1\n")
unfolding download_remote_files take_reply extract write_file Map.get has_prefix Map.put
    Bytes-discrete ℕ_discrete
entered = refl

left_out : read (codes "/passwd") after.0 ≡ none
unfolding download_remote_files take_reply extract write_file Map.get has_prefix Map.put
    Bytes-discrete ℕ_discrete Map.delete
left_out = refl

answered : after.1 ≡ some (codes "\"v1\"", codes "Mon")
unfolding download_remote_files take_reply extract write_file has_prefix
answered = refl

download_remote_files-Updates_example :
    Updates host target
      ([], [])
      (replied 200 (codes "\"v1\"") (codes "Mon") (some lists))
      empty_disk
      after
download_remote_files-Updates_example =
    download_remote_files-Updates host (codes "1") (codes "https://a") target [] [] empty_disk

-- Thirteen units after the zero time, with an interval of eight.
delayed : initial_delay 13 8 ≡ 3
unfolding initial_delay
delayed = refl

changed : watch_tick (1, 2) (1, 3) ≡ ((1, 3), true)
unfolding watch_tick
changed = refl

nil-IsTag : IsTag []
unfolding split_line
nil-IsTag = record { begins = tt; ends = tt; line = refl }

date-IsTag : IsTag (codes "Mon, 02 Jan")
unfolding split_line has_byte
date-IsTag = record { begins = refl; ends = refl; line = refl }

-- A reply without an ETag: its date is sent as one the next time.
read_meta-meta_text_example :
    read_meta (meta_text [] (codes "Mon, 02 Jan")) ≡ (codes "Mon, 02 Jan", [])
read_meta-meta_text_example = read_meta-meta_text [] (codes "Mon, 02 Jan") nil-IsTag date-IsTag
