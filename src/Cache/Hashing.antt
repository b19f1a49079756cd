-- ===== src/Cache/Hashing.antt =====
-- getStateHash of internal/parser/compiler.go: the text whose digest tells whether lists or settings have
-- changed.
use next_path.Base.{Bool, List, [], ◌∷◌, ◌++◌, Option, none, some, if◌then◌else◌}
use next_path.Blocklist.Files.{FileType, counts_for, sort_strings}
use next_path.Cache.Loading.{Lookup, dir}
use next_path.Cache.{texts_in}
use next_path.Disk.{Disk}
use next_path.Net.{Bytes}
use next_path.Text.{codes}

-- The settings that count. `limit` is printed in decimal, and `variable` is os.Getenv.
pub record Settings : Type 0 where
  pub route_all : Bool
  pub filter_casino : Bool
  pub limit : Bytes
  pub block_ads : Bool
  pub enable_ipv6 : Bool
  pub variable : Bytes → Bytes

-- `fmt.Sprintf("%v", b)`.
abbrev pub bool_text : Bool → Bytes
bool_text b = if b then codes "true" else codes "false"

abbrev pub setting_text : Bytes → Bytes → Bytes
setting_text name value = name ++ (61 ∷ value)

abbrev pub settings_text : Settings → Bytes
settings_text s =
    setting_text (codes "ROUTE_ALL") (bool_text s.route_all)
    ++ (setting_text (codes "FILTER_CASINO") (bool_text s.filter_casino)
        ++ (setting_text (codes "LIMIT") s.limit
            ++ (setting_text (codes "BLOCK_ADS") (bool_text s.block_ads)
                ++ (setting_text (codes "ENABLE_IPV6") (bool_text s.enable_ipv6)
                    ++ (setting_text (codes "IPV6_PROXY_ONLY")
                          (s.variable (codes "IPV6_PROXY_ONLY"))
                        ++ (setting_text (codes "NEXTPATH_DNS_IP")
                              (s.variable (codes "NEXTPATH_DNS_IP"))
                            ++ (setting_text (codes "FAKE_IP") (s.variable (codes "FAKE_IP"))
                                ++ setting_text (codes "FAKE_IP6")
                                    (s.variable (codes "FAKE_IP6")))))))))

module _ (c : Lookup) where
  unfoldable pub files_for : FileType → List Bytes → List Bytes
  files_for type [] = []
  files_for type (path ∷ paths) =
      let rest = files_for type paths in
      if counts_for type (c.web.base path) path then path ∷ rest else rest

  -- The files that count, in order.
  unfoldable pub state_files : FileType → Disk → List Bytes
  state_files type d = sort_strings (
      files_for type (
        texts_in c.web c.sources_dir d.contents
        ++ (texts_in c.web c.manual_dir d.contents ++ texts_in c.web (dir c) d.contents)))

  -- `stat` gives size and time of modification of a file as a text, if os.Stat succeeds.
  unfoldable pub files_text : (Bytes → Option Bytes) → List Bytes → Bytes
  files_text stat [] = []
  files_text stat (path ∷ paths) =
      let rest = files_text stat paths in
      c.web.base path ++ elim (stat path) [ none ↦ rest | some text ↦ text ++ rest ]

  unfoldable pub get_state_hash :
      (Bytes → Bytes) → (Bytes → Option Bytes) → Settings → FileType → Disk → Bytes
  get_state_hash sha256_hex stat s type d =
      sha256_hex (files_text stat (state_files type d) ++ settings_text s)
