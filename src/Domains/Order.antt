-- ===== src/Domains/Order.antt =====
-- The order of domainSorter in internal/parser/compiler.go, and sorting by it.
use next_path.Base.{
  true, false, List, [], ◌∷◌, ◌≡◌, ◌⊎◌, inl, inr, refl, arith, All, Bool-cases, reverse,
}
use mathlib.Core.List.Memᴰ
use mathlib.Core.List.{Memᴰ}
use next_path.Domains.{less_from, less, insert_domain, sort_domains}
use next_path.Net.{Bytes}

less_from_asym : (a b : Bytes) → less_from a b ≡ true → less_from b a ≡ false
unfolding less_from
less_from_asym [] [] h = refl
less_from_asym [] (y ∷ b) h = refl
less_from_asym (x ∷ a) [] h = absurd (cc)
less_from_asym (x ∷ a) (y ∷ b) h = ground (arith, less_from_asym a b)

less_from_trans :
    (a b c : Bytes) → less_from b a ≡ false → less_from c b ≡ false → less_from c a ≡ false
unfolding less_from
less_from_trans [] b [] h k = refl
less_from_trans [] b (z ∷ c) h k = refl
less_from_trans (x ∷ a) [] c h k = absurd (cc)
less_from_trans (x ∷ a) (y ∷ b) [] h k = absurd (cc)
less_from_trans (x ∷ a) (y ∷ b) (z ∷ c) h k = ground (arith, less_from_trans a b c)

-- No name is less than one before it.
abbrev pub Sorted : List Bytes → Type 0
Sorted [] = Unit
Sorted (d ∷ ds) = All (λ e. less e d ≡ false) ds × Sorted ds

All-above :
    (d e : Bytes) (es : List Bytes)
    → less e d ≡ false
    → All (λ x. less x e ≡ false) es
    → All (λ x. less x d ≡ false) es
All-above d e [] h hs = tt
All-above d e (x ∷ xs) h (k, ks) =
    (less_from_trans (reverse d) (reverse e) (reverse x) h k, All-above d e xs h ks)

All-insert_domain :
    (P : Bytes → Type 0) (d : Bytes) (es : List Bytes) → P d → All P es → All P (insert_domain d es)
unfolding insert_domain
All-insert_domain P d [] h hs = (h, tt)
All-insert_domain P d (e ∷ es) h (k, ks) = elim (Bool-cases (less e d)) [
  | inl lt ↦ rw lt (k, All-insert_domain P d es h ks)
  | inr ge ↦ rw ge (h, (k, ks))
]

insert_domain-Sorted : (d : Bytes) (es : List Bytes) → Sorted es → Sorted (insert_domain d es)
unfolding insert_domain
insert_domain-Sorted d [] h = (tt, tt)
insert_domain-Sorted d (e ∷ es) (h, hs) = elim (Bool-cases (less e d)) [
  | inl lt ↦ rw lt (
    All-insert_domain (λ x. less x e ≡ false) d es (less_from_asym (reverse e) (reverse d) lt) h,
    insert_domain-Sorted d es hs,
  )
  | inr ge ↦ rw ge ((ge, All-above d e es ge h), (h, hs))
]

pub sort_domains-Sorted : (ds : List Bytes) → Sorted (sort_domains ds)
unfolding sort_domains
sort_domains-Sorted [] = tt
sort_domains-Sorted (d ∷ ds) = insert_domain-Sorted d (sort_domains ds) (sort_domains-Sorted ds)

insert_domain-Member :
    (d : Bytes) (es : List Bytes) (x : Bytes) → (x ≡ d) ⊎ Memᴰ x es → Memᴰ x (insert_domain d es)
unfolding insert_domain
insert_domain-Member d [] x (inl h) = Memᴰ.head h
insert_domain-Member d [] x (inr m) = absurd (Memᴰ.not-nil m)
insert_domain-Member d (e ∷ es) x h = elim (Bool-cases (less e d)) [
  | inr ge ↦ rw ge (elim h [ inl s ↦ Memᴰ.head s | inr m ↦ Memᴰ.tail m ])
  | inl lt ↦ rw lt (elim h [
    | inl s ↦ Memᴰ.tail (insert_domain-Member d es x (inl s))
    | inr m ↦ elim (Memᴰ.cases_cons m) [
      | inl s ↦ Memᴰ.head s
      | inr m' ↦ Memᴰ.tail (insert_domain-Member d es x (inr m'))
    ]
  ])
]

-- Sorting loses no name.
pub sort_domains-Member : (ds : List Bytes) (x : Bytes) → Memᴰ x ds → Memᴰ x (sort_domains ds)
unfolding sort_domains
sort_domains-Member [] x m = m
sort_domains-Member (d ∷ ds) x m =
    insert_domain-Member d (sort_domains ds) x
      (elim (Memᴰ.cases_cons m) [ inl s ↦ inl s | inr m' ↦ inr (sort_domains-Member ds x m') ])

-- Sorting keeps what holds of each name.
pub All-sort_domains : (P : Bytes → Type 0) (ds : List Bytes) → All P ds → All P (sort_domains ds)
unfolding sort_domains
All-sort_domains P [] h = tt
All-sort_domains P (d ∷ ds) (h, hs) =
    All-insert_domain P d (sort_domains ds) h (All-sort_domains P ds hs)
