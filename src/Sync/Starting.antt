-- ===== src/Sync/Starting.antt =====
-- The start of the synchronisation in internal/dnsengine/sync.go: resolvePath, getTLSConfig, the
-- fingerprints of NewSyncManager, and StartServer up to its listener.
use next_path.Base.{
  Bool, not, ◌&&◌, ◌||◌, List, [], ◌∷◌, Option, none, some, ◌==◌, if◌then◌else◌, length,
}
use next_path.Net.{Bytes}
use next_path.Sync.Dialing.{is_pinning, read_fingerprints}
use next_path.Sync.Peers.{equal}
use next_path.Text.{codes, is_empty}

-- The variable, or the first of the paths that is there, or the last one.
unfoldable pub first_path : (Bytes → Bool) → Bytes → List Bytes → Bytes
first_path exists last [] = last
first_path exists last (p ∷ ps) = let rest = first_path exists p ps in if exists p then p else rest

abbrev pub resolve_path : (Bytes → Bool) → Bytes → List Bytes → Bytes
resolve_path exists env_val defaults =
    if is_empty env_val then first_path exists [] defaults else env_val

-- The environment and the files. `variable` is os.Getenv, `missing` says that os.Stat reports a file
-- that does not exist, `load` is tls.LoadX509KeyPair with the certificates in the order of the file,
-- `sha256` the digest, `split` strings.Split at commas, `clean` takes the colons out of a trimmed
-- text, `decode` is hex.DecodeString, and `listens` says that tls.Listen succeeds.
pub record Setting : Type 0 where
  pub variable : Bytes → Bytes
  pub exists : Bytes → Bool
  pub missing : Bytes → Bool
  pub load : Bytes → Bytes → Option (List Bytes)
  pub sha256 : Bytes → Bytes
  pub trim : Bytes → Bytes
  pub lower : Bytes → Bytes
  pub split : Bytes → List Bytes
  pub clean : Bytes → Bytes
  pub decode : Bytes → Option Bytes
  pub listens : Bool

abbrev pub cert_var : Bytes
cert_var = codes "NEXTPATH_SYNC_CERT"

abbrev pub key_var : Bytes
key_var = codes "NEXTPATH_SYNC_KEY"

abbrev pub strict_var : Bytes
strict_var = codes "NEXTPATH_SYNC_STRICT_TLS"

abbrev pub fingerprint_var : Bytes
fingerprint_var = codes "NEXTPATH_SYNC_CERT_FINGERPRINT"

abbrev pub default_token : Bytes
default_token = codes "change_me_to_a_secure_random_string"

pub data TlsConfig : Type 0 where
  not_configured : TlsConfig
  not_loaded : TlsConfig
  configured : Option Bytes → TlsConfig

-- What StartServer leaves: no server and no error; an error; or a server, with the fingerprints that
-- its dials read.
pub data Started : Type 0 where
  idle : Started
  refused : Started
  listening : List Bytes → Started

module _ (s : Setting) where
  abbrev pub cert_file : Bytes
  cert_file =
      resolve_path s.exists (s.variable cert_var)
        (codes "/run/secrets/cert.pem" ∷ codes "/app/nextpath/certs/cert.pem" ∷ [])

  abbrev pub key_file : Bytes
  key_file =
      resolve_path s.exists (s.variable key_var)
        (codes "/run/secrets/key.pem" ∷ codes "/app/nextpath/certs/key.pem" ∷ [])

  -- The digest of the first certificate.
  unfoldable pub fingerprint_of : List Bytes → Option Bytes
  fingerprint_of [] = none
  fingerprint_of (cert ∷ certs) = some (s.sha256 cert)

  unfoldable pub get_tls_config : TlsConfig
  get_tls_config =
      if s.missing cert_file
      then not_configured
      else if s.missing key_file
      then not_configured
      else elim (s.load cert_file key_file) [
        | none ↦ not_loaded
        | some certs ↦ configured (fingerprint_of certs)
      ]

  -- The fingerprints of a new manager.
  unfoldable pub custom_fingerprints : List Bytes
  custom_fingerprints =
      let hash_str = s.variable fingerprint_var in
      if is_empty hash_str then [] else read_fingerprints s.clean s.decode (s.split hash_str)

  abbrev pub strict_tls : Bytes
  strict_tls = s.lower (s.trim (s.variable strict_var))

  -- The fingerprints after the tests of StartServer, or none where it gives up.
  unfoldable pub pin : Option Bytes → List Bytes → Option (List Bytes)
  pin fingerprint fps =
      let hash_str = s.trim (s.variable fingerprint_var) in
      let added : List Bytes = elim fingerprint [ none ↦ fps | some fp ↦ fp ∷ fps ] in
      let none_given = length fps == 0 in
      if not (is_pinning strict_tls)
      then some fps
      else if not (is_empty hash_str) && none_given
      then none
      else if none_given
      then some added
      else some fps

  unfoldable pub start_with : Bytes → List Bytes → Option Bytes → Started
  start_with auth_token fps fingerprint =
      let pinned : Started = elim (pin fingerprint fps) [
        | none ↦ idle
        | some now ↦ if s.listens then listening now else refused
      ] in
      if is_empty auth_token || equal auth_token default_token then idle else pinned

  unfoldable pub start_server : Bytes → List Bytes → Started
  start_server auth_token fps = elim get_tls_config [
    | not_configured ↦ idle
    | not_loaded ↦ idle
    | configured fingerprint ↦ start_with auth_token fps fingerprint
  ]

  -- A new manager that is started.
  unfoldable pub start_manager : Started
  start_manager = start_server (s.variable (codes "NEXTPATH_SYNC_TOKEN")) custom_fingerprints
