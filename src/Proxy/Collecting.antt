-- ===== src/Proxy/Collecting.antt =====
-- The addresses that handleDNSRequest in internal/dnsengine/proxy.go collects from a message.
use mathlib.Core.Bool.{Bool, true, false}
use next_path.Alloc.{IpText}
use next_path.Base.Map.{Map}
use next_path.Base.{
  subst, List, [], ◌∷◌, ◌++◌, none, some, ◌≡◌, ◌≢◌, ◌⊎◌, inl, inr, refl, sym, ◌∙◌, if_neg, length,
  All, Bool-cases, Option-cases,
}
use next_path.Net.Keys.{to_ip_key_v4, to4-bytes}
use next_path.Net.{Bytes, IpKey-discrete, IsIp, ipv4, to_ip_key, to4, zero16}
use next_path.Proxy.{
  SvcbKeyValue, ipv4_hint, ipv6_hint, rest, Rr, a, aaaa, svcb, signature, other, Reals, ip_equal,
  holds, add_v4, add_v6, add_all, extract_hints, collect_ips, collect_all, lookup,
}

-- The addresses of a record, as the dns package unpacks them.
abbrev pub HintIps : SvcbKeyValue → Type 0
HintIps (ipv4_hint ips) = All IsIp ips
HintIps (ipv6_hint ips) = All IsIp ips
HintIps (rest n) = Unit

abbrev pub RrIps : Rr → Type 0
RrIps (a ttl ip) = IsIp ip
RrIps (aaaa ttl ip) = IsIp ip
RrIps (svcb ttl kvs) = All HintIps kvs
RrIps (signature n) = Unit
RrIps (other n) = Unit

All-append_back :
    (P : Bytes → Type 0) (xs : List Bytes) (y : Bytes) → All P (xs ++ y ∷ []) → All P xs × P y
All-append_back P [] y (h, t) = (tt, h)
All-append_back P (x ∷ xs) y (h, hs) =
    let (front, last) = All-append_back P xs y hs in ((h, front), last)

to4_short : (b : Bytes) → length b ≡ 4 → to4 b ≡ some b
unfolding to4
to4_short b h = rw h refl

pub to4-key : (ip b : Bytes) → IsIp ip → to4 ip ≡ some b → (to_ip_key b ≡ to_ip_key ip) × IsIp b
to4-key ip b h e =
    let (wide, bytes) = to4-bytes ip b h e in
    (
      to_ip_key_v4 b b (to4_short b wide) ∙ sym (to_ip_key_v4 ip b e),
      record { width = inl wide; bytes = bytes },
    )

equal_keys : (x y : Bytes) → ip_equal x y ≡ true → to_ip_key x ≡ to_ip_key y
equal_keys x y h = elim (IpKey-discrete (to_ip_key x) (to_ip_key y)) [
  | yes e ↦ e
  | no n ↦ absurd (cc (rw (if_neg _ n) at h))
]

-- A pair of lists whose addresses two maps have.
module _ (m4 m6 : Map IpText Bytes) where
  abbrev pub Mapped : Map IpText Bytes → Bytes → Type 0
  Mapped m ip = lookup ip m ≢ none

  abbrev pub Good : Reals → Type 0
  Good rs = All (Mapped m4) rs.v4 × All (Mapped m6) rs.v6

  -- An address that is mapped, or that is no IPv4 address, or 0.0.0.0.
  abbrev pub Settled4 : Bytes → Type 0
  Settled4 ip = Mapped m4 ip ⊎ (to4 ip ≡ none) ⊎ (to_ip_key ip ≡ to_ip_key (ipv4 0 0 0 0))

  -- An address that is mapped, or is an IPv4 address, or the unspecified one.
  abbrev pub Settled6 : Bytes → Type 0
  Settled6 ip = Mapped m6 ip ⊎ (to4 ip ≢ none) ⊎ (to_ip_key ip ≡ to_ip_key zero16)

  abbrev pub Settled : Bool → Rr → Type 0
  Settled enable (a ttl ip) = Settled4 ip
  Settled enable (aaaa ttl ip) = (enable ≡ false) ⊎ Settled6 ip
  Settled enable (svcb ttl kvs) = Unit
  Settled enable (signature n) = Unit
  Settled enable (other n) = Unit

  same_key :
      (m : Map IpText Bytes) (x y : Bytes) → to_ip_key x ≡ to_ip_key y → Mapped m x → Mapped m y
  same_key m x y e h n = h (rw e n)

  holds-Mapped :
      (m : Map IpText Bytes) (ip : Bytes) (xs : List Bytes)
      → holds ip xs ≡ true
      → All (Mapped m) xs
      → Mapped m ip
  unfolding holds
  holds-Mapped m ip [] h all = absurd (cc)
  holds-Mapped m ip (x ∷ xs) h (here, all) = elim (Bool-cases (ip_equal x ip)) [
    | inl e ↦ same_key m x ip (equal_keys x ip e) here
    | inr n ↦ holds-Mapped m ip xs (rw n at h) all
  ]

  add_v4-back : (ip : Bytes) (rs : Reals) → IsIp ip → Good (add_v4 ip rs) → Good rs × Settled4 ip
  unfolding add_v4
  add_v4-back ip rs v good = elim (Option-cases (to4 ip)) [
    | inl e ↦
        let same : add_v4 ip rs ≡ rs = rw (e, add_v4) refl in (subst Good same good, inr (inl e))
    | inr (b, e) ↦
        let (key, whole) = to4-key ip b v e in
        elim (Bool-cases (ip_equal b (ipv4 0 0 0 0))) [
          | inl zero ↦
              let same : add_v4 ip rs ≡ rs = rw (e, zero, add_v4) refl in
              (subst Good same good, inr (inr (sym key ∙ equal_keys b (ipv4 0 0 0 0) zero)))
          | inr nonzero ↦ elim (Bool-cases (holds b rs.v4)) [
            | inl old ↦
                let same : add_v4 ip rs ≡ rs = rw (e, nonzero, old, add_v4) refl in
                let (four, six) = subst Good same good in
                ((four, six), inl (same_key m4 b ip key (holds-Mapped m4 b rs.v4 old four)))
            | inr new ↦
                let added : add_v4 ip rs ≡ record rs { v4 = rs.v4 ++ b ∷ [] } =
                  rw (e, nonzero, new, add_v4) refl in
                let (four, six) = subst Good added good in
                let (front, last) = All-append_back (Mapped m4) rs.v4 b four in
                ((front, six), inl (same_key m4 b ip key last))
          ]
        ]
  ]

  add_v6-back :
      (enable : Bool) (ip : Bytes) (rs : Reals)
      → Good (add_v6 enable ip rs)
      → Good rs × ((enable ≡ false) ⊎ Settled6 ip)
  unfolding add_v6
  add_v6-back false ip rs good = (good, inl refl)
  add_v6-back true ip rs good = elim (Option-cases (to4 ip)) [
    | inr (b, e) ↦
        let same : add_v6 true ip rs ≡ rs = rw e refl in
        (subst Good same good, inr (inr (inl (λ n. absurd (cc)))))
    | inl e ↦ elim (Bool-cases (ip_equal ip zero16)) [
      | inl zero ↦
          let same : add_v6 true ip rs ≡ rs = rw (e, zero) refl in
          (subst Good same good, inr (inr (inr (equal_keys ip zero16 zero))))
      | inr nonzero ↦ elim (Bool-cases (holds ip rs.v6)) [
        | inl old ↦
            let same : add_v6 true ip rs ≡ rs = rw (e, nonzero, old) refl in
            let (four, six) = subst Good same good in
            ((four, six), inr (inl (holds-Mapped m6 ip rs.v6 old six)))
        | inr new ↦
            let added : add_v6 true ip rs ≡ record rs { v6 = rs.v6 ++ ip ∷ [] } =
              rw (e, nonzero, new) refl in
            let (four, six) = subst Good added good in
            let (front, last) = All-append_back (Mapped m6) rs.v6 ip six in
            ((four, front), inr (inl last))
      ]
    ]
  ]

  add_all4-back :
      (ips : List Bytes) (rs : Reals) → All IsIp ips → Good (add_all add_v4 ips rs) → Good rs
  unfolding add_all
  add_all4-back [] rs v good = good
  add_all4-back (ip ∷ ips) rs (v, vs) good =
      (add_v4-back ip rs v (add_all4-back ips (add_v4 ip rs) vs good)).0

  add_all6-back :
      (enable : Bool) (ips : List Bytes) (rs : Reals)
      → Good (add_all (add_v6 enable) ips rs)
      → Good rs
  unfolding add_all
  add_all6-back enable [] rs good = good
  add_all6-back enable (ip ∷ ips) rs good =
      (add_v6-back enable ip rs (add_all6-back enable ips (add_v6 enable ip rs) good)).0

  extract_hints-back :
      (enable : Bool) (kvs : List SvcbKeyValue) (rs : Reals)
      → All HintIps kvs
      → Good (extract_hints enable kvs rs)
      → Good rs
  unfolding extract_hints
  extract_hints-back enable [] rs v good = good
  extract_hints-back enable (ipv4_hint ips ∷ kvs) rs (v, vs) good =
      add_all4-back ips rs v (extract_hints-back enable kvs (add_all add_v4 ips rs) vs good)
  extract_hints-back true (ipv6_hint ips ∷ kvs) rs (v, vs) good =
      add_all6-back true ips rs (extract_hints-back true kvs (add_all (add_v6 true) ips rs) vs good)
  extract_hints-back false (ipv6_hint ips ∷ kvs) rs (v, vs) good =
      extract_hints-back false kvs rs vs good
  extract_hints-back enable (rest n ∷ kvs) rs (v, vs) good =
      extract_hints-back enable kvs rs vs good

  collect_ips-back :
      (enable : Bool) (rr : Rr) (rs : Reals)
      → RrIps rr
      → Good (collect_ips enable rr rs)
      → Good rs × Settled enable rr
  unfolding collect_ips
  collect_ips-back enable (a ttl ip) rs v good = add_v4-back ip rs v good
  collect_ips-back enable (aaaa ttl ip) rs v good = add_v6-back enable ip rs good
  collect_ips-back enable (svcb ttl kvs) rs v good = (extract_hints-back enable kvs rs v good, tt)
  collect_ips-back enable (signature n) rs v good = (good, tt)
  collect_ips-back enable (other n) rs v good = (good, tt)

  -- If the maps have every address that was collected, every record is settled.
  pub collect_all-Settled :
      (enable : Bool) (rrs : List Rr) (rs : Reals)
      → All RrIps rrs
      → Good (collect_all enable rrs rs)
      → Good rs × All (Settled enable) rrs
  unfolding collect_all
  collect_all-Settled enable [] rs v good = (good, tt)
  collect_all-Settled enable (rr ∷ rrs) rs (v, vs) good =
      let (before, later) = collect_all-Settled enable rrs (collect_ips enable rr rs) vs good in
      let (here, settled) = collect_ips-back enable rr rs v before in (here, (settled, later))
