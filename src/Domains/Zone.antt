-- ===== src/Domains/Zone.antt =====
-- buildSimpleRPZ in internal/parser/compiler.go.
use mathlib.Core.List.Memᴰ
use mathlib.Core.List.{Memᴰ}
use next_path.Base.{
  true, false, List, [], ◌∷◌, ◌++◌, ◌≡◌, ◌⊎◌, inl, inr, refl, sym, ap, ◌∙◌, if_pos, if_neg, All,
  All-append, Bool-cases,
}
use next_path.Domains.Collapsing.{Covered, collapse_domains-Covered, All-collapse_domains}
use next_path.Domains.{
  DomainRule, has_key, add_key, included, excepted, without, collapse_domains, build_simple_rpz,
}
use next_path.Net.{Bytes, Bytes-discrete}

has_key-Member : (d : Bytes) (ds : List Bytes) → has_key d ds ≡ true → Memᴰ d ds
unfolding has_key
has_key-Member d [] h = absurd (cc)
has_key-Member d (e ∷ es) h = elim (Bytes-discrete d e) [
  | yes s ↦ Memᴰ.head s
  | no n ↦ Memᴰ.tail (has_key-Member d es (rw (if_neg _ n) at h))
]

pub add_key-Member : (d x : Bytes) (ds : List Bytes) → (x ≡ d) ⊎ Memᴰ x ds → Memᴰ x (add_key d ds)
unfolding add_key
add_key-Member d x ds h = elim (Bool-cases (has_key d ds)) [
  | inr new ↦ rw new (elim h [ inl s ↦ Memᴰ.head s | inr m ↦ Memᴰ.tail m ])
  | inl old ↦ rw old (elim h [ inl s ↦ Memᴰ.cast s (has_key-Member d ds old) | inr m ↦ m ])
]

pub All-add_key :
    (P : Bytes → Type 0) (d : Bytes) (ds : List Bytes) → P d → All P ds → All P (add_key d ds)
unfolding add_key
All-add_key P d ds h hs = elim (Bool-cases (has_key d ds)) [
  | inl old ↦ rw old hs
  | inr new ↦ rw new (h, hs)
]

included-Member :
    (r : DomainRule) (rules : List DomainRule)
    → Memᴰ r rules
    → r.is_ex ≡ false
    → Memᴰ r.domain (included rules)
unfolding included
included-Member r [] m h = absurd (Memᴰ.not-nil m)
included-Member r (q ∷ rules) m h = elim (Memᴰ.cases_cons m) [
  | inl s ↦
      rw (sym (ap (λ (x : DomainRule). x.is_ex) s) ∙ h)
        (add_key-Member q.domain r.domain _ (inl (ap (λ (x : DomainRule). x.domain) s)))
  | inr m' ↦ elim (Bool-cases q.is_ex) [
    | inl e ↦ rw e (included-Member r rules m' h)
    | inr e ↦ rw e (add_key-Member q.domain r.domain _ (inr (included-Member r rules m' h)))
  ]
]

pub excepted-Member :
    (r : DomainRule) (rules : List DomainRule)
    → Memᴰ r rules
    → r.is_ex ≡ true
    → Memᴰ r.domain (excepted rules)
unfolding excepted
excepted-Member r [] m h = absurd (Memᴰ.not-nil m)
excepted-Member r (q ∷ rules) m h = elim (Memᴰ.cases_cons m) [
  | inl s ↦
      rw (sym (ap (λ (x : DomainRule). x.is_ex) s) ∙ h)
        (add_key-Member q.domain r.domain _ (inl (ap (λ (x : DomainRule). x.domain) s)))
  | inr m' ↦ elim (Bool-cases q.is_ex) [
    | inr e ↦ rw e (excepted-Member r rules m' h)
    | inl e ↦ rw e (add_key-Member q.domain r.domain _ (inr (excepted-Member r rules m' h)))
  ]
]

without-Member :
    (exc ds : List Bytes) (d : Bytes) → Memᴰ d ds → Memᴰ d exc ⊎ Memᴰ d (without exc ds)
unfolding without
without-Member exc [] d m = absurd (Memᴰ.not-nil m)
without-Member exc (e ∷ es) d m = elim (Bool-cases (has_key e exc)) [
  | inl bad ↦ rw bad (elim (Memᴰ.cases_cons m) [
    | inl s ↦ inl (Memᴰ.cast s (has_key-Member e exc bad))
    | inr m' ↦ without-Member exc es d m'
  ])
  | inr good ↦ rw good (elim (Memᴰ.cases_cons m) [
    | inl s ↦ inr (Memᴰ.head s)
    | inr m' ↦ elim (without-Member exc es d m') [ inl x ↦ inl x | inr k ↦ inr (Memᴰ.tail k) ]
  ])
]

-- Every name that a rule includes is in the zone or under a name of the zone, or is an exception or
-- under one. Every exception is in the list of exceptions or under a name of it.
pub build_simple_rpz-Covered :
    (rules : List DomainRule) (r : DomainRule)
    → Memᴰ r rules
    → ((r.is_ex ≡ false)
        → Covered r.domain (build_simple_rpz rules).0 ⊎ Covered r.domain (excepted rules))
      × ((r.is_ex ≡ true) → Covered r.domain (build_simple_rpz rules).1)
unfolding build_simple_rpz
build_simple_rpz-Covered rules r m = (
  λ h. sorted_out r.domain (
      collapse_domains-Covered r.domain (included rules ++ excepted rules)
        (Memᴰ.append_left (excepted rules) (included-Member r rules m h))),
  λ h. collapse_domains-Covered r.domain (excepted rules) (excepted-Member r rules m h),
)
  where
    sorted_out :
        (d : Bytes)
        → Covered d (collapse_domains (included rules ++ excepted rules))
        → Covered d (without (excepted rules) (collapse_domains (included rules ++ excepted rules)))
          ⊎ Covered d (excepted rules)
    sorted_out d (inl k) = elim (without-Member (excepted rules) _ d k) [
      | inl x ↦ inr (inl x)
      | inr n ↦ inl (inl n)
    ]
    sorted_out d (inr (e, k, u)) = elim (without-Member (excepted rules) _ e k) [
      | inl x ↦ inr (inr (e, x, u))
      | inr n ↦ inl (inr (e, n, u))
    ]

module _ (rules : List DomainRule) where
  -- A rule names it that is no exception.
  abbrev pub Named : Bytes → Type 0
  Named d = (r : DomainRule) × Memᴰ r rules × (r.is_ex ≡ false) × (r.domain ≡ d)

  pub included-Named :
      (rs : List DomainRule)
      → ((r : DomainRule) → Memᴰ r rs → Memᴰ r rules)
      → All Named (included rs)
  unfolding included
  included-Named [] sub = tt
  included-Named (r ∷ rs) sub = elim (Bool-cases r.is_ex) [
    | inl e ↦ rw e (included-Named rs (λ q m. sub q (Memᴰ.tail m)))
    | inr e ↦ rw e (
        All-add_key Named r.domain (included rs) (r, sub r (Memᴰ.head refl), e, refl)
          (included-Named rs (λ q m. sub q (Memᴰ.tail m))))
  ]

  All-without :
      (exc ds : List Bytes)
      → All (λ d. (has_key d exc ≡ true) ⊎ Named d) ds
      → All (λ d. (has_key d exc ≡ false) × Named d) (without exc ds)
  unfolding without
  All-without exc [] h = tt
  All-without exc (d ∷ ds) (h, hs) = elim (Bool-cases (has_key d exc)) [
    | inl bad ↦ rw bad (All-without exc ds hs)
    | inr good ↦ rw good ((good, elim h [ inl e ↦ absurd (cc) | inr n ↦ n ]), All-without exc ds hs)
  ]

pub Member-has_key : (d : Bytes) (ds : List Bytes) → Memᴰ d ds → has_key d ds ≡ true
unfolding has_key
Member-has_key d [] m = absurd (Memᴰ.not-nil m)
Member-has_key d (e ∷ es) m = elim (Bytes-discrete d e) [
  | yes s ↦ rw (if_pos _ s) refl
  | no n ↦
      rw (if_neg _ n)
        (elim (Memᴰ.cases_cons m) [ inl s ↦ absurd (n s) | inr m' ↦ Member-has_key d es m' ])
]

pub All-right : (P Q : Bytes → Type 0) (ds : List Bytes) → All P ds → All (λ d. Q d ⊎ P d) ds
All-right P Q [] h = tt
All-right P Q (d ∷ ds) (h, hs) = (inr h, All-right P Q ds hs)

pub All-members :
    (P : Bytes → Type 0) (ds : List Bytes) → ((d : Bytes) → Memᴰ d ds → P d) → All P ds
All-members P [] h = tt
All-members P (d ∷ ds) h = (h d (Memᴰ.head refl), All-members P ds (λ e m. h e (Memᴰ.tail m)))

-- Every name of the zone is named by a rule that is no exception, and by none that is one.
pub build_simple_rpz-Named :
    (rules : List DomainRule)
    → All (λ d. (has_key d (excepted rules) ≡ false) × Named rules d) (build_simple_rpz rules).0
unfolding build_simple_rpz
build_simple_rpz-Named rules =
    let exc = excepted rules in
    let P : Bytes → Type 0 = λ d. (has_key d exc ≡ true) ⊎ Named rules d in
    All-without rules exc (collapse_domains (included rules ++ exc)) (
      All-collapse_domains P (included rules ++ exc) (
        All-append P (included rules) exc
          (All-right (Named rules) (λ d. has_key d exc ≡ true) (included rules)
            (included-Named rules rules (λ r m. m)))
          (All-members P exc (λ d m. inl (Member-has_key d exc m)))))
