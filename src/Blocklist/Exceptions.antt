-- ===== src/Blocklist/Exceptions.antt =====
-- What the zones of CompileLists in internal/parser/compiler.go block, and what they never block.
use mathlib.Core.List.Memᴰ
use mathlib.Core.List.{Memᴰ}
use next_path.Base.{
  true, false, List, [], ◌∷◌, ◌++◌, ◌≡◌, ◌≢◌, ◌⊎◌, inl, inr, sym, ap, All, All-append, Bool-cases,
}
use next_path.Blocklist.Zones.{
  names_of, add_keys, zone, strip_prefixes_map, proxy_exceptions, proxy_zone, within,
  external_exceptions, internal_exceptions, all_exceptions, adblock_zone,
}
use next_path.Domains.Collapsing.{All-collapse_domains}
use next_path.Domains.Zone.{
  Named, included-Named, excepted-Member, add_key-Member, All-add_key, Member-has_key, All-right,
  All-members,
}
use next_path.Domains.{DomainRule, has_key, included, excepted, without, collapse_domains}
use next_path.Names.{strip_prefix}
use next_path.Net.{Bytes}

module _ (N : Bytes → Type 0) where
  without-All :
      (exc ds : List Bytes)
      → All (λ d. (has_key d exc ≡ true) ⊎ N d) ds
      → All (λ d. (has_key d exc ≡ false) × N d) (without exc ds)
  unfolding without
  without-All exc [] h = tt
  without-All exc (d ∷ ds) (h, hs) = elim (Bool-cases (has_key d exc)) [
    | inl bad ↦ rw bad (without-All exc ds hs)
    | inr good ↦ rw good ((good, elim h [ inl e ↦ absurd (cc) | inr n ↦ n ]), without-All exc ds hs)
  ]

  zone-All :
      (inc exc : List Bytes) → All N inc → All (λ d. (has_key d exc ≡ false) × N d) (zone inc exc)
  unfolding zone
  zone-All inc exc h =
      let P : Bytes → Type 0 = λ d. (has_key d exc ≡ true) ⊎ N d in
      without-All exc (collapse_domains (inc ++ exc)) (
        All-collapse_domains P (inc ++ exc) (
          All-append P inc exc (All-right N (λ d. has_key d exc ≡ true) inc h)
            (All-members P exc (λ d m. inl (Member-has_key d exc m)))))

names_of-Member :
    (r : DomainRule) (rs : List DomainRule) (ds : List Bytes)
    → Memᴰ r rs
    → Memᴰ r.domain (names_of rs ds)
unfolding names_of
names_of-Member r [] ds m = absurd (Memᴰ.not-nil m)
names_of-Member r (q ∷ rs) ds m = elim (Memᴰ.cases_cons m) [
  | inl e ↦ add_key-Member q.domain r.domain _ (inl (ap (λ (x : DomainRule). x.domain) e))
  | inr later ↦ add_key-Member q.domain r.domain _ (inr (names_of-Member r rs ds later))
]

names_of_rest :
    (d : Bytes) (rs : List DomainRule) (ds : List Bytes) → Memᴰ d ds → Memᴰ d (names_of rs ds)
unfolding names_of
names_of_rest d [] ds m = m
names_of_rest d (q ∷ rs) ds m = add_key-Member q.domain d _ (inr (names_of_rest d rs ds m))

add_keys-Member :
    (d : Bytes) (src ds : List Bytes) → Memᴰ d src ⊎ Memᴰ d ds → Memᴰ d (add_keys src ds)
unfolding add_keys
add_keys-Member d [] ds (inl m) = absurd (Memᴰ.not-nil m)
add_keys-Member d [] ds (inr m) = m
add_keys-Member d (e ∷ src) ds (inr m) =
    add_key-Member e d _ (inr (add_keys-Member d src ds (inr m)))
add_keys-Member d (e ∷ src) ds (inl m) = elim (Memᴰ.cases_cons m) [
  | inl s ↦ add_key-Member e d _ (inl s)
  | inr later ↦ add_key-Member e d _ (inr (add_keys-Member d src ds (inl later)))
]

-- A name of a set is within another or not.
split-Member :
    (d : Bytes) (lookup ds : List Bytes)
    → Memᴰ d ds
    → Memᴰ d (within lookup ds) ⊎ Memᴰ d (without lookup ds)
unfolding within without
split-Member d lookup [] m = absurd (Memᴰ.not-nil m)
split-Member d lookup (e ∷ ds) m = elim (Bool-cases (has_key e lookup)) [
  | inl known ↦ rw known (elim (Memᴰ.cases_cons m) [
    | inl s ↦ inl (Memᴰ.head s)
    | inr later ↦ elim (split-Member d lookup ds later) [
      | inl w ↦ inl (Memᴰ.tail w)
      | inr n ↦ inr n
    ]
  ])
  | inr new ↦ rw new (elim (Memᴰ.cases_cons m) [
    | inl s ↦ inr (Memᴰ.head s)
    | inr later ↦ elim (split-Member d lookup ds later) [
      | inl w ↦ inl w
      | inr n ↦ inr (Memᴰ.tail n)
    ]
  ])
]

-- No rule of the list has the name.
abbrev pub NoRule : List DomainRule → Bytes → Type 0
NoRule rs d = (r : DomainRule) → Memᴰ r rs → r.domain ≢ d

abbrev pub NoException : List DomainRule → Bytes → Type 0
NoException rs d = (r : DomainRule) → Memᴰ r rs → r.is_ex ≡ true → r.domain ≢ d

apart : (e d : Bytes) (exc : List Bytes) → has_key d exc ≡ false → Memᴰ e exc → e ≢ d
apart e d exc h m s = absurd (cc (Member-has_key d exc (Memᴰ.cast (sym s) m)))

All-imp : (P Q : Bytes → Type 0) (ds : List Bytes) → ((d : Bytes) → P d → Q d) → All P ds → All Q ds
All-imp P Q [] f h = tt
All-imp P Q (d ∷ ds) f (h, hs) = (f d h, All-imp P Q ds f hs)

-- Every name of adblock.rpz is named by a rule of one of the two ad lists that is no exception, by no
-- exception of them, and by no rule of remove-hosts.
pub adblock_zone-Named :
    (har hae ex_g : List DomainRule)
    → All
        (λ d. Named (har ++ hae) d × NoException (har ++ hae) d × NoRule ex_g d)
        (adblock_zone har hae ex_g).domains
unfolding adblock_zone all_exceptions external_exceptions internal_exceptions
adblock_zone-Named har hae ex_g =
    let rules = har ++ hae in
    let known = names_of hae [] in
    let exc = all_exceptions har hae ex_g in
    All-imp (λ d. (has_key d exc ≡ false) × Named rules d) _ _
      (λ d (free, named). (
        named,
        λ r m ex s.
            apart r.domain d exc free
              (elim (split-Member r.domain known (excepted rules) (excepted-Member r rules m ex)) [
                | inl w ↦ add_keys-Member r.domain (within known (excepted rules)) _ (inl w)
                | inr n ↦
                    add_keys-Member r.domain (within known (excepted rules)) _
                      (inr (add_keys-Member r.domain (without known (excepted rules)) _ (inl n)))
              ])
              s,
        λ r m s.
            apart r.domain d exc free
              (add_keys-Member r.domain (within known (excepted rules)) _ (
                inr (
                  add_keys-Member r.domain (without known (excepted rules)) _
                    (inr (names_of-Member r ex_g [] m)))))
              s,
      ))
      (zone-All (Named rules) (included rules) exc (included-Named rules rules (λ r m. m)))

-- The name of a rule that is no exception, without the prefix that is stripped.
abbrev pub StripsTo : (Bytes → Bytes) → List DomainRule → Bytes → Type 0
StripsTo to_lower rules d =
    (r : DomainRule) × Memᴰ r rules × (r.is_ex ≡ false) × (strip_prefix to_lower r.domain ≡ d)

strip_prefixes_map-All :
    (to_lower : Bytes → Bytes) (rules : List DomainRule) (ds : List Bytes)
    → All (Named rules) ds
    → All (StripsTo to_lower rules) (strip_prefixes_map to_lower ds)
unfolding strip_prefixes_map
strip_prefixes_map-All to_lower rules [] h = tt
strip_prefixes_map-All to_lower rules (d ∷ ds) ((r, m, e, s), hs) =
    All-add_key (StripsTo to_lower rules) _ _ (r, m, e, ap (strip_prefix to_lower) s)
      (strip_prefixes_map-All to_lower rules ds hs)

-- Every name of proxy.rpz is what stripPrefix makes of the name of a rule of include-hosts that is no
-- exception. No exception of that list names it, and no rule of exclude-hosts or remove-hosts.
pub proxy_zone-StripsTo :
    (to_lower : Bytes → Bytes) (hpr ex_p_only ex_g : List DomainRule)
    → All
        (λ d. StripsTo to_lower hpr d × NoException hpr d × NoRule ex_p_only d × NoRule ex_g d)
        (proxy_zone to_lower hpr ex_p_only ex_g).domains
unfolding proxy_zone proxy_exceptions
proxy_zone-StripsTo to_lower hpr ex_p_only ex_g =
    let exc = proxy_exceptions hpr ex_p_only ex_g in
    let only = names_of ex_p_only (excepted hpr) in
    All-imp (λ d. (has_key d exc ≡ false) × StripsTo to_lower hpr d) _ _
      (λ d (free, strips). (
        strips,
        λ r m ex s.
            apart r.domain d exc free
              (names_of_rest r.domain ex_g only
                (names_of_rest r.domain ex_p_only (excepted hpr) (excepted-Member r hpr m ex)))
              s,
        λ r m s.
            apart r.domain d exc free
              (names_of_rest r.domain ex_g only (names_of-Member r ex_p_only (excepted hpr) m)) s,
        λ r m s. apart r.domain d exc free (names_of-Member r ex_g only m) s,
      ))
      (zone-All (StripsTo to_lower hpr) (strip_prefixes_map to_lower (included hpr)) exc
        (strip_prefixes_map-All to_lower hpr (included hpr) (included-Named hpr hpr (λ r m. m))))
