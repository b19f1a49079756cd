-- ===== src/Sync/Trust.antt =====
-- What a node of internal/dnsengine/sync.go trusts once its server is started.
use next_path.Base.{
  Bool, true, false, ◌||◌, List, [], ◌∷◌, Option, none, some, ◌≡◌, ◌≢◌, ◌⊎◌, ◌↔◌, inl, inr, refl,
  sym, ◌∙◌, ap, arith, ◌==◌, length, Bool-cases, Option-cases,
}
use mathlib.Core.Option.{some-injective}
use next_path.Net.{Bytes}
use next_path.Sync.Dialing.{accepts_peer, is_pinning}
use next_path.Sync.Peers.{equal}
use next_path.Sync.Pinning.{IsPinned, accepts_peer_iff, same→equal}
use next_path.Sync.Starting.{
  Setting, TlsConfig, not_configured, not_loaded, configured, Started, idle, refused, listening,
  cert_file, key_file, fingerprint_of, get_tls_config, custom_fingerprints, strict_tls, pin,
  start_with, start_server, start_manager, default_token, fingerprint_var,
}
use next_path.Text.{codes, is_empty}

module _ (s : Setting) where
  -- A certificate that loads is at least one.
  abbrev pub LoadsSome : Type 0
  LoadsSome = (certs : List Bytes) → s.load (cert_file s) (key_file s) ≡ some certs → certs ≢ []

  -- The digest of the node's own certificate.
  abbrev pub IsOwn : Bytes → Type 0
  IsOwn fp =
      (cert : Bytes) × (rest : List Bytes) × (s.load (cert_file s) (key_file s)
        ≡ some (cert ∷ rest))
      × (fp ≡ s.sha256 cert)

  -- The fingerprints are those of the environment, or, where its text is blank and certificates are
  -- pinned, the one of the own certificate.
  abbrev pub Pins : List Bytes → List Bytes → Type 0
  Pins given fps =
      (fps ≡ given)
      ⊎ ((is_empty (s.trim (s.variable fingerprint_var)) ≡ true)
          × ((fp : Bytes) × (fps ≡ fp ∷ []) × IsOwn fp))

  pub record Guards (fps : List Bytes) : Type 0 where
    pub token : s.variable (codes "NEXTPATH_SYNC_TOKEN") ≢ []
    pub changed : s.variable (codes "NEXTPATH_SYNC_TOKEN") ≢ default_token
    pub pins : Pins (custom_fingerprints s) fps
    pub takes :
        is_pinning (strict_tls s) ≡ true
        → (trusted : Bool) (hash : Option Bytes)
        → (accepts_peer (strict_tls s) fps trusted hash ≡ true) ↔ IsPinned fps hash

  abbrev read_listening : List Bytes → Started → List Bytes
  read_listening other idle = other
  read_listening other refused = other
  read_listening other (listening fps) = fps

  -- What a start with a server passed.
  abbrev pub Passes : Bytes → List Bytes → List Bytes → Type 0
  Passes auth_token given fps =
      (certs : List Bytes) × (s.load (cert_file s) (key_file s) ≡ some certs)
      × (pin s (fingerprint_of s certs) given ≡ some fps)
      × ((is_empty auth_token || equal auth_token default_token) ≡ false)

  start_with-listens :
      (auth_token : Bytes) (given fps : List Bytes) (fingerprint : Option Bytes)
      → start_with s auth_token given fingerprint ≡ listening fps
      → (pin s fingerprint given ≡ some fps)
        × ((is_empty auth_token || equal auth_token default_token) ≡ false)
  unfolding start_with
  start_with-listens auth_token given fps fingerprint h =
      elim (Bool-cases (is_empty auth_token || equal auth_token default_token)) [
        | inl weak ↦ absurd (cc (rw weak at h))
        | inr strong ↦ elim (Option-cases (pin s fingerprint given)) [
          | inl gone ↦ absurd (cc (rw (strong, gone) at h))
          | inr (now, e) ↦ elim (Bool-cases s.listens) [
            | inl up ↦ (e ∙ ap some (ap (read_listening now) (rw (strong, e, up) at h)), strong)
            | inr down ↦ absurd (cc (rw (strong, e, down) at h))
          ]
        ]
      ]

  abbrev read_config : Option Bytes → TlsConfig → Option Bytes
  read_config other not_configured = other
  read_config other not_loaded = other
  read_config other (configured fingerprint) = fingerprint

  get_tls_config-configured :
      (fingerprint : Option Bytes)
      → get_tls_config s ≡ configured fingerprint
      → (certs : List Bytes) × (s.load (cert_file s) (key_file s) ≡ some certs)
        × (fingerprint_of s certs ≡ fingerprint)
  unfolding get_tls_config
  get_tls_config-configured fingerprint h = elim (Bool-cases (s.missing (cert_file s))) [
    | inl gone ↦ absurd (cc (rw gone at h))
    | inr there ↦ elim (Bool-cases (s.missing (key_file s))) [
      | inl gone ↦ absurd (cc (rw (there, gone) at h))
      | inr both ↦ elim (Option-cases (s.load (cert_file s) (key_file s))) [
        | inl bad ↦ absurd (cc (rw (there, both, bad) at h))
        | inr (certs, e) ↦ (certs, e, ap (read_config none) (rw (there, both, e) at h))
      ]
    ]
  ]

  start_server-config :
      (auth_token : Bytes) (given fps : List Bytes) (c : TlsConfig)
      → get_tls_config s ≡ c
      → start_server s auth_token given ≡ listening fps
      → (fingerprint : Option Bytes) × (c ≡ configured fingerprint)
        × (start_with s auth_token given fingerprint ≡ listening fps)
  unfolding start_server
  start_server-config auth_token given fps not_configured e h =
      absurd (cc (rw (start_server, e) at h))
  start_server-config auth_token given fps not_loaded e h = absurd (cc (rw (start_server, e) at h))
  start_server-config auth_token given fps (configured fingerprint) e h =
      (fingerprint, refl, rw (start_server, e) at h)

  start_server-Passes :
      (auth_token : Bytes) (given fps : List Bytes)
      → start_server s auth_token given ≡ listening fps
      → Passes auth_token given fps
  start_server-Passes auth_token given fps h =
      let (fingerprint, e, started) =
        start_server-config auth_token given fps (get_tls_config s) refl h in
      let (certs, loaded, own) = get_tls_config-configured fingerprint e in
      let (pinned, strong) =
        start_with-listens auth_token given fps (fingerprint_of s certs) (rw own started) in
      (certs, loaded, pinned, strong)

  -- What the tests on fingerprints leave.
  pin-Pins :
      (certs given fps : List Bytes)
      → s.load (cert_file s) (key_file s) ≡ some certs
      → certs ≢ []
      → pin s (fingerprint_of s certs) given ≡ some fps
      → Pins given fps × (is_pinning (strict_tls s) ≡ true → fps ≢ [])
  unfolding pin fingerprint_of
  pin-Pins [] given fps loaded full h = absurd (full refl)
  pin-Pins (cert ∷ certs) (fp ∷ given) fps loaded full h =
      let is : fp ∷ given ≡ fps = elim (Bool-cases (is_pinning (strict_tls s))) [
        | inr free ↦ some-injective _ _ (rw free at h)
        | inl pins ↦ elim (Bool-cases (is_empty (s.trim (s.variable fingerprint_var)))) [
          | inr text ↦ some-injective _ _ (rw (pins, text, counted given) at h)
          | inl blank ↦ some-injective _ _ (rw (pins, blank, counted given) at h)
        ]
      ] in
      (inl (sym is), λ p e. absurd (cc))
    where
      counted : (rest : List Bytes) → (length (fp ∷ rest) == 0) ≡ false
      counted rest = ground arith
  pin-Pins (cert ∷ certs) [] fps loaded full h =
      let text = s.trim (s.variable fingerprint_var) in
      elim (Bool-cases (is_pinning (strict_tls s))) [
        | inr free ↦ (inl (sym (some-injective _ _ (rw free at h))), λ pins. absurd (cc))
        | inl pins ↦ elim (Bool-cases (is_empty text)) [
          | inr bad ↦ absurd (cc (rw (pins, bad) at h))
          | inl blank ↦
              let is : s.sha256 cert ∷ [] ≡ fps = some-injective _ _ (rw (pins, blank) at h) in
              (
                inr (blank, (s.sha256 cert, sym is, (cert, certs, loaded, refl))),
                λ p e. absurd (cc),
              )
        ]
      ]

  strong_token :
      (t : Bytes) → (is_empty t || equal t default_token) ≡ false → (t ≢ []) × (t ≢ default_token)
  strong_token t h = (
    λ e. absurd (cc (rw e at h)),
    λ e. let weak = same→equal t default_token e in absurd (ground arith),
  )

  -- A new manager whose server is started, in any environment, where tls.LoadX509KeyPair gives at least
  -- one certificate. Its token is neither empty nor the one of the example. Its fingerprints are the
  -- valid ones of the environment, or the one of its own certificate alone, where the environment's text
  -- is blank. Where certificates are pinned, its dials take a peer exactly if the digest of the peer's
  -- first certificate is one of the fingerprints.
  pub start_manager-Guards :
      (fps : List Bytes) → LoadsSome → start_manager s ≡ listening fps → Guards fps
  unfolding start_manager
  start_manager-Guards fps some_cert h =
      let auth_token = s.variable (codes "NEXTPATH_SYNC_TOKEN") in
      let (certs, loaded, pinned, strong) =
        start_server-Passes auth_token (custom_fingerprints s) fps h in
      let (pins, full) =
        pin-Pins certs (custom_fingerprints s) fps loaded (some_cert certs loaded) pinned in
      record {
        token = (strong_token _ strong).0;
        changed = (strong_token _ strong).1;
        pins = pins;
        takes = λ p trusted hash.
            let (to, from) = accepts_peer_iff (strict_tls s) fps trusted hash p in
            (
              λ h. elim (to h) [ inl nothing ↦ absurd (full p nothing) | inr pinned ↦ pinned ],
              λ pinned. from (inr pinned),
            );
      }
