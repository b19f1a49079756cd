-- ===== src/Tests/Compiling.antt =====
-- Runs of CompileLists of internal/parser/compiler.go whose results cannot be written, and a list with
-- one manual rule.
use next_path.Base.{ℕ_discrete, true, false, [], ◌∷◌, none, some, ◌≡◌, refl, All}
use next_path.Blocklist.Addresses.{Prefixes}
use next_path.Blocklist.Compiling.{
  Results, Run, Loaded, compile_lists, compile_needed_lists, compile_ips_needed,
  compile_domains_needed, write_domains, write_ips, rpz_of, ips_of, has_content,
}
use next_path.Blocklist.Files.{Calls, compile_needed, write_rpz_file, write_ip_file}
use next_path.Blocklist.Lines.{no_lists, flags_of}
use next_path.Blocklist.Rules.{IsClean}
use next_path.Blocklist.Stale.{IsHash, Exist, compile_lists-again}
use next_path.Blocklist.Files.{domains, counts_for, is_ip_file, sort_strings, insert_string}
use next_path.Cache.Hashing.{state_files, files_for}
use next_path.Cache.{texts_in}
use next_path.Domains.{has_prefix}
use next_path.Sync.{string_lt}
use next_path.Text.{contains_text}
use next_path.Cache.Loading.{Lookup, load_domains_with_rules, load_domains_with_rules-Clean}
use next_path.Names.{has_byte}
use next_path.Net.{bytes_compare, Bytes, Bytes-discrete}
use next_path.Tests.Cache.{web, library, disk}
use next_path.Text.{codes, trim_space, trim, trim_left}

abbrev prefixes : Prefixes
prefixes = record {
  Prefix = Bytes;
  bits = λ n. 24;
  is6 = λ n. false;
  sub_nets = λ inc exc. inc;
  super = λ n b. none;
  parse_prefix = some;
}

abbrev loaded : Loaded prefixes
loaded = record {
  include_ips = [];
  exclude_ips = [];
  deny_ips = [];
  include_hosts = no_lists;
  include_adblock_hosts = no_lists;
  exclude_adblock_hosts = no_lists;
  rpz = no_lists;
  rpz2 = no_lists;
  exclude_hosts = no_lists;
  remove_hosts = no_lists;
}

abbrev failing : Calls
failing = record { creates = false; flushes = true; syncs = true; renames = true }

abbrev succeeding : Calls
succeeding = record { creates = true; flushes = true; syncs = true; renames = true }

abbrev run_with : Calls → Run prefixes
run_with calls = record {
  makes = true;
  current_ips = codes "a1";
  current_domains = codes "b2";
  loaded = loaded;
  limit = 500;
  block_ads = true;
  route_all = false;
  to_lower = λ s. s;
  path = λ name. [];
  header = codes "$TTL 10800";
  show = λ n. n;
  calls = λ name. calls;
  writes = λ name. true;
  notes_ips = true;
  notes_domains = true;
}

-- Results of lists that have changed since.
abbrev old : Results
old = record {
  files = λ name. record { target = some (codes "old" ∷ []); tmp = none };
  hash_ips = codes "00";
  hash_domains = codes "00";
}

a1-IsHash : IsHash (codes "a1")
unfolding trim_space trim trim_left has_byte
a1-IsHash = record { full = refl; plain = refl }

b2-IsHash : IsHash (codes "b2")
unfolding trim_space trim trim_left has_byte
b2-IsHash = record { full = refl; plain = refl }

old-Exist : Exist (compile_lists (run_with failing) old)
unfolding compile_lists compile_needed_lists compile_ips_needed compile_domains_needed
    compile_needed write_domains write_ips rpz_of ips_of has_content write_rpz_file write_ip_file
    trim_space trim trim_left has_byte Bytes-discrete ℕ_discrete
old-Exist = record {
  proxy = refl;
  adblock = refl;
  deny = refl;
  deny2 = refl;
  route4 = refl;
  route6 = refl;
}

-- The old results stay, though the second run could write them.
compile_lists-again_example :
    compile_lists (run_with succeeding) (compile_lists (run_with failing) old)
    ≡ compile_lists (run_with failing) old
compile_lists-again_example =
    compile_lists-again (run_with failing) (run_with succeeding) old (refl, refl, refl) a1-IsHash
      b2-IsHash refl refl old-Exist

abbrev lookup : Lookup
lookup = record {
  web = web;
  library = library;
  scan = λ content. content ∷ [];
  nanos = codes "7";
  sources_dir = codes "/s";
  manual_dir = codes "/m";
  download_dir = codes "/d";
}

load_domains_with_rules-Clean_example :
    All
      (IsClean library (flags_of (codes "deny") false))
      (load_domains_with_rules lookup (codes "deny") false disk).1.rules
load_domains_with_rules-Clean_example =
    load_domains_with_rules-Clean lookup (codes "deny") false disk

-- Of the three directories the two files count as lists of domains.
counted : state_files lookup domains disk ≡ codes "/d/old.txt" ∷ codes "/s/deny.txt" ∷ []
unfolding state_files files_for texts_in counts_for is_ip_file has_prefix contains_text sort_strings
    insert_string string_lt bytes_compare
counted = refl
