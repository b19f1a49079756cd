-- ===== src/Netlink/Deny.antt =====
-- getDenyElements and ReloadDenySets of internal/netlink/nftables.go: the text that replaces the deny
-- sets. The file, strings.TrimSpace, net.ParseCIDR and net.ParseIP are parameters.
use next_path.Base.{Bool, true, false, List, [], ◌∷◌, ◌++◌, Option, none, some, ◌==◌, if◌then◌else◌}
use next_path.Names.{has_byte}
use next_path.Net.{Bytes}
use next_path.Text.{is_empty, before_any}

-- `strings.Split(content, "\n")`.
unfoldable pub add_head : Bytes → List Bytes → List Bytes
add_head pre [] = pre ∷ []
add_head pre (l ∷ ls) = (pre ++ l) ∷ ls

unfoldable pub split_lines : Bytes → List Bytes
split_lines [] = [] ∷ []
split_lines (c ∷ cs) =
    let rest = split_lines cs in if c == 10 then [] ∷ rest else add_head (c ∷ []) rest

-- `strings.Join(ips, ", ")`.
unfoldable pub join : List Bytes → Bytes
join [] = []
join (s ∷ []) = s
join (s ∷ t ∷ ts) = s ++ 44 ∷ 32 ∷ join (t ∷ ts)

module _ (trim_space : Bytes → Bytes) (parses_cidr parses_ip : Bytes → Bool) where
  -- The tests on a line without its comment: with a slash a prefix, without one an address.
  unfoldable pub is_element : Bytes → Bool
  is_element line =
      if is_empty line then false else if has_byte 47 line then parses_cidr line else parses_ip line

  unfoldable pub elements : List Bytes → List Bytes
  elements [] = []
  elements (l ∷ ls) =
      let line = trim_space (before_any (35 ∷ []) l) in
      let rest = elements ls in if is_element line then line ∷ rest else rest

  -- The elements; a file that cannot be read has none.
  unfoldable pub deny_elements : Option Bytes → List Bytes
  deny_elements none = []
  deny_elements (some content) = elements (split_lines content)

  unfoldable pub get_deny_elements : Option Bytes → Bytes
  get_deny_elements file = join (deny_elements file)

  -- What the commands of `ReloadDenySets` do to one set.
  pub data Command : Type 0 where
    flush_set : Bool → Command
    add_element : Bool → Bytes → Command

  unfoldable pub reload_set : Bool → Bytes → List Command
  reload_set v6 els =
      if is_empty els then flush_set v6 ∷ [] else flush_set v6 ∷ add_element v6 els ∷ []

  unfoldable pub reload_deny_sets : Bool → Option Bytes → Option Bytes → List Command
  reload_deny_sets enable_ipv6 file4 file6 =
      reload_set false (get_deny_elements file4)
      ++ (if enable_ipv6 then reload_set true (get_deny_elements file6) else [])
