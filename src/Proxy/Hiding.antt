-- ===== src/Proxy/Hiding.antt =====
-- What filterRRs and patchSVCBValues in internal/dnsengine/proxy.go leave of the real addresses.
use next_path.Alloc.{IpText}
use next_path.Base.Map
use next_path.Base.Map.{Map}
use next_path.Base.{
  Option, Bool-cases, ℕ, ◌≤◌, Bool, true, false, List, [], ◌∷◌, none, some, ◌≡◌, ◌≢◌, ◌⊎◌, inl, inr,
  refl, arith, min, if◌then◌else◌, All, Option-cases,
}
use next_path.Net.{Bytes, IpKey, IpKey-discrete, ipv4, to_ip_key, to4, zero16}
use next_path.Proxy.Collecting.{Settled}
use next_path.Proxy.{
  SvcbKeyValue, ipv4_hint, ipv6_hint, rest, Rr, a, aaaa, svcb, signature, other, lookup,
  patch_hints, patch_svcb_values, filter_rr, filter_rrs,
}

module _ (max_ttl : ℕ) (enable : Bool) (m4 m6 : Map IpText Bytes) where
  -- One of the fake addresses.
  abbrev pub IsFake : Map IpText Bytes → Bytes → Type 0
  IsFake m ip = (k : IpKey) × (Map.get IpKey-discrete k m ≡ some ip)

  abbrev pub HidesHint : SvcbKeyValue → Type 0
  HidesHint (ipv4_hint ips) = All (IsFake m4) ips
  HidesHint (ipv6_hint ips) = (enable ≡ true) × All (IsFake m6) ips
  HidesHint (rest n) = Unit

  -- A record of an answer: a fake address with a short time to live, or one that is never mapped.
  abbrev pub Hides : Rr → Type 0
  Hides (a ttl ip) =
      (IsFake m4 ip × (ttl ≤ max_ttl)) ⊎ (to4 ip ≡ none) ⊎ (to_ip_key ip ≡ to_ip_key (ipv4 0 0 0 0))
  Hides (aaaa ttl ip) =
      (enable ≡ true)
      × ((IsFake m6 ip × (ttl ≤ max_ttl)) ⊎ (to4 ip ≢ none) ⊎ (to_ip_key ip ≡ to_ip_key zero16))
  Hides (svcb ttl kvs) = (ttl ≤ max_ttl) × All HidesHint kvs
  Hides (signature n) = ⊥
  Hides (other n) = Unit

  patch_hints-All : (m : Map IpText Bytes) (ips : List Bytes) → All (IsFake m) (patch_hints m ips)
  unfolding patch_hints
  patch_hints-All m [] = tt
  patch_hints-All m (ip ∷ ips) = elim (Option-cases (lookup ip m)) [
    | inl e ↦ rw (e, patch_hints) (patch_hints-All m ips)
    | inr (fake, e) ↦ rw (e, patch_hints) ((to_ip_key ip, e), patch_hints-All m ips)
  ]

  if_kept :
      (b : Bool) (kv : SvcbKeyValue) (kvs : List SvcbKeyValue)
      → (b ≡ true → HidesHint kv)
      → All HidesHint kvs
      → All HidesHint (if b then kv ∷ kvs else kvs)
  if_kept true kv kvs h hs = (h refl, hs)
  if_kept false kv kvs h hs = hs

  patch_svcb_values-All :
      (kvs : List SvcbKeyValue) → All HidesHint (patch_svcb_values m4 m6 enable kvs)
  unfolding patch_svcb_values
  patch_svcb_values-All [] = tt
  patch_svcb_values-All (ipv4_hint ips ∷ kvs) = (patch_hints-All m4 ips, patch_svcb_values-All kvs)
  patch_svcb_values-All (ipv6_hint ips ∷ kvs) =
      if_kept enable (ipv6_hint (patch_hints m6 ips)) _ (λ on. (on, patch_hints-All m6 ips))
        (patch_svcb_values-All kvs)
  patch_svcb_values-All (rest n ∷ kvs) = (tt, patch_svcb_values-All kvs)

  Kept : Option Rr → Type 0
  Kept none = Unit
  Kept (some rr) = Hides rr

  least : (ttl : ℕ) → min ttl max_ttl ≤ max_ttl
  least ttl = omega arith

  filter_rr-Kept : (rr : Rr) → Settled m4 m6 enable rr → Kept (filter_rr max_ttl enable m4 m6 rr)
  unfolding filter_rr Kept
  filter_rr-Kept (a ttl ip) h = elim (Option-cases (lookup ip m4)) [
    | inr (fake, e) ↦ rw (e, filter_rr) (inl ((to_ip_key ip, e), least ttl))
    | inl e ↦ rw (e, filter_rr) (elim h [ inl mapped ↦ absurd (mapped e) | inr never ↦ inr never ])
  ]
  filter_rr-Kept (aaaa ttl ip) h = elim (Bool-cases enable) [
    | inr off ↦ rw (off, filter_rr) tt
    | inl on ↦ elim (Option-cases (lookup ip m6)) [
      | inr (fake, e) ↦ rw (on, e, filter_rr) (refl, inl ((to_ip_key ip, e), least ttl))
      | inl e ↦
          rw (on, e, filter_rr)
            (
              refl,
              elim h [
                | inl off ↦ absurd (cc)
                | inr (inl mapped) ↦ absurd (mapped e)
                | inr (inr never) ↦ inr never
              ],
            )
    ]
  ]
  filter_rr-Kept (svcb ttl kvs) h = (least ttl, patch_svcb_values-All kvs)
  filter_rr-Kept (signature n) h = tt
  filter_rr-Kept (other n) h = tt

  -- Of settled records, filterRRs leaves no real address.
  pub filter_rrs-Hides :
      (rrs : List Rr)
      → All (Settled m4 m6 enable) rrs
      → All Hides (filter_rrs max_ttl enable m4 m6 rrs)
  unfolding filter_rrs Kept
  filter_rrs-Hides [] h = tt
  filter_rrs-Hides (rr ∷ rrs) (h, hs) = elim (Option-cases (filter_rr max_ttl enable m4 m6 rr)) [
    | inl dropped ↦ rw (dropped, filter_rrs) (filter_rrs-Hides rrs hs)
    | inr (kept, e) ↦ rw (e, filter_rrs) (rw e at (filter_rr-Kept rr h), filter_rrs-Hides rrs hs)
  ]
