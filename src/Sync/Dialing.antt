-- ===== src/Sync/Dialing.antt =====
-- tryConnect of internal/dnsengine/sync.go up to its dial, the certificates that its dial takes, and
-- the list of peers in NewSyncManager.
use next_path.Base.Map
use next_path.Base.Map.{Map}
use next_path.Base.{
  ℕ, ◌-◌, ◌*◌, Bool, true, false, not, ◌&&◌, ◌||◌, List, [], ◌∷◌, ◌++◌, Option, none, some, ◌==◌,
  ltb, if◌then◌else◌, length,
}
use next_path.Names.{has_byte}
use next_path.Net.{Bytes, Bytes-discrete}
use next_path.Sync.Peers.{Node, equal}
use next_path.Text.{is_empty}

abbrev second : ℕ
second = 1000000000

abbrev pub drop_dial : Bytes → Node → Node
drop_dial addr n = record n { active_dials = Map.delete Bytes-discrete addr n.active_dials }

-- Whether a dial starts. `is_local` says that the host of the address splits off and is one of this
-- node's.
unfoldable pub start_dial : Bool → Bytes → Node → Node × Bool
start_dial is_local addr n =
    if is_local
    then (drop_dial addr n, false)
    else if n.done
    then (drop_dial addr n, false)
    else (n, true)

unfoldable pub try_connect : ℕ → Bool → Bytes → Node → Node × Bool
try_connect now is_local addr n =
    let noted = record n { active_dials = Map.put Bytes-discrete addr now n.active_dials } in
    let recent : Bool = elim (Map.get Bytes-discrete addr n.active_dials) [
      | none ↦ false
      | some dial_time ↦ ltb (now - dial_time) (10 * second)
    ] in
    elim (Map.get Bytes-discrete addr n.conns) [
      | some c ↦ (n, false)
      | none ↦ if recent then (n, false) else start_dial is_local addr noted
    ]

-- The value of `NEXTPATH_SYNC_STRICT_TLS` after strings.TrimSpace and strings.ToLower: `pinning` and
-- `pin`, then `false`, `0`, `n` and `no`.
abbrev pub is_pinning : Bytes → Bool
is_pinning val =
    equal val (112 ∷ 105 ∷ 110 ∷ 110 ∷ 105 ∷ 110 ∷ 103 ∷ []) || equal val (112 ∷ 105 ∷ 110 ∷ [])

abbrev pub skips_verify : Bytes → Bool
skips_verify val =
    equal val (102 ∷ 97 ∷ 108 ∷ 115 ∷ 101 ∷ [])
    || equal val (48 ∷ [])
    || equal val (110 ∷ [])
    || equal val (110 ∷ 111 ∷ [])

unfoldable pub matches : Bytes → List Bytes → Bool
matches hash [] = false
matches hash (fp ∷ fps) = let later = matches hash fps in if equal hash fp then true else later

-- `VerifyPeerCertificate`; `hash` is the digest of the first certificate, if there is one.
unfoldable pub verify_peer : List Bytes → Option Bytes → Bool
verify_peer fingerprints none = false
verify_peer fingerprints (some hash) = matches hash fingerprints

-- Whether the dial takes a peer's certificate, where `trusted` is the verdict of the tls package, which
-- `InsecureSkipVerify` leaves out.
unfoldable pub accepts_peer : Bytes → List Bytes → Bool → Option Bytes → Bool
accepts_peer val fingerprints trusted hash =
    let pinned : Bool =
      if is_pinning val && not (length fingerprints == 0)
      then verify_peer fingerprints hash
      else true in
    if skips_verify val || is_pinning val then pinned else trusted && pinned

-- `NEXTPATH_SYNC_CERT_FINGERPRINT`: `decode` is hex.DecodeString after the colons were removed.
unfoldable pub read_fingerprints :
    (Bytes → Bytes) → (Bytes → Option Bytes) → List Bytes → List Bytes
read_fingerprints clean decode [] = []
read_fingerprints clean decode (part ∷ parts) =
    let rest = read_fingerprints clean decode parts in
    let checked : List Bytes = elim (decode (clean part)) [
      | none ↦ rest
      | some fp ↦ if length fp == 32 then fp ∷ rest else rest
    ] in
    if is_empty (clean part) then rest else checked

-- The list of `PEERS`; 58 is the colon.
unfoldable pub read_peer_list : (Bytes → Bytes) → Bytes → List Bytes → List Bytes
read_peer_list trim_space sync_port [] = []
read_peer_list trim_space sync_port (entry ∷ entries) =
    let p = trim_space entry in
    let rest = read_peer_list trim_space sync_port entries in
    let full = if has_byte 58 p then p else p ++ 58 ∷ sync_port in
    if is_empty p then rest else full ∷ rest
