-- ===== src/Netlink/Recovery.antt =====
-- ReadExistingMappings of internal/netlink/nftables.go, and the loop of main in
-- cmd/nextpath-engine/main.go that puts what it read into the pool. What the netlink library answers
-- for each of the two sets is a parameter.
use next_path.Alloc.{IpText}
use next_path.Base.Map
use next_path.Base.Map.{Map}
use next_path.Base.{
  ℕ, ◌+◌, Bool, true, List, [], ◌∷◌, Option, none, some, ◌≡◌, ◌≢◌, ◌⊎◌, inl, inr, refl, sym, ◌∙◌,
  arith, All, Bool-cases, if◌then◌else◌,
}
use next_path.Net.Keys.{IsKey, to_ip_key-to_ip}
use next_path.Net.{Bytes, IpKey, IpKey-discrete, IsIp, to_ip, to_ip_key}
use next_path.Pool.Adding.{add_mapping-Decides, add_mapping-IsValid}
use next_path.Pool.Claiming.{Decides, wins, beats_real, beats_fake}
use next_path.Pool.Invariant.{IsValid}
use next_path.Pool.Views.{fake_of, real_of}
use next_path.Pool.{IpPool, add_mapping}
use next_path.Sync.Receiving.{Unchanged-fake_of}
use next_path.Text.{contains_text}
use mathlib.Core.List.{Memᴰ}

-- An element of a set as the kernel has it.
pub record Element : Type 0 where
  pub key : Bytes
  pub val : Bytes
  pub expires : ℕ

pub data Reply : Type 0 where
  listed : List Element → Reply
  failed : Bytes → Reply

pub record MappingRecovery : Type 0 where
  pub real_ip : Bytes
  pub expires : ℕ

-- `no such file or directory`.
abbrev no_such_file : Bytes
no_such_file =
    110 ∷ 111 ∷ 32 ∷ 115 ∷ 117 ∷ 99 ∷ 104 ∷ 32 ∷ 102 ∷ 105 ∷ 108 ∷ 101 ∷ 32 ∷ 111 ∷ 114 ∷ 32 ∷ 100
    ∷ 105 ∷ 114 ∷ 101 ∷ 99 ∷ 116 ∷ 111 ∷ 114 ∷ 121 ∷ []

unfoldable pub put_elements : List Element → Map IpText MappingRecovery → Map IpText MappingRecovery
put_elements [] m = m
put_elements (el ∷ els) m = put_elements els (
    Map.put IpKey-discrete (to_ip_key el.key) (record { real_ip = el.val; expires = el.expires }) m)

-- What one set adds; none is an error, and a set that does not exist is none.
unfoldable pub read_set : Reply → Map IpText MappingRecovery → Option (Map IpText MappingRecovery)
read_set (listed els) m = some (put_elements els m)
read_set (failed e) m = if contains_text e no_such_file then some m else none

unfoldable pub read_existing_mappings :
    Bool → Bool → Reply → Reply → Option (Map IpText MappingRecovery)
unfolding read_set
read_existing_mappings connected enable v4 v6 =
    if connected
    then (elim (read_set v4 []) [ none ↦ none | some m ↦ if enable then read_set v6 m else some m ])
    else none

-- The loop: `now` is the reading of the wall clock in each round.
unfoldable pub recover : (IpText → ℕ) → Map IpText MappingRecovery → IpPool → IpPool
recover now [] p = p
recover now ((text, r) ∷ m) p =
    recover now m (add_mapping r.real_ip (to_ip text) 0 (now text + r.expires) p).0

abbrev real_key : IpText × MappingRecovery → IpKey
real_key e = to_ip_key e.1.real_ip

abbrev pub HasKeys : IpText × MappingRecovery → Type 0
HasKeys e = IsKey e.0 × IsIp e.1.real_ip

-- Neither address of the entry is mapped.
abbrev pub IsFree : IpPool → IpText × MappingRecovery → Type 0
IsFree p e = (real_of p e.0 ≡ none) × (fake_of p (real_key e) ≡ none)

abbrev pub Differs : IpKey → IpKey → IpText × MappingRecovery → Type 0
Differs k f e = (k ≢ real_key e) × (f ≢ e.0)

-- No address stands twice.
abbrev pub Apart : Map IpText MappingRecovery → Type 0
Apart [] = Unit
Apart (e ∷ m) = All (Differs (real_key e) e.0) m × Apart m

-- Every entry is mapped, and what is mapped was so before or is an entry.
pub record Restored (p : IpPool) (m : Map IpText MappingRecovery) (q : IpPool) : Type 0 where
  pub valid : IsValid q
  pub all : All (λ e. fake_of q (real_key e) ≡ some e.0) m
  pub from :
      (k f : IpKey)
      → fake_of q k ≡ some f
      → (fake_of p k ≡ some f)
        ⊎ ((e : IpText × MappingRecovery) × Memᴰ e m × (k ≡ real_key e) × (f ≡ e.0))

module _ (p : IpPool) (e : IpText × MappingRecovery) (t : ℕ) (valid : IsValid p)
    (keys : HasKeys e) where
  added : IpPool
  added = (add_mapping e.1.real_ip (to_ip e.0) 0 t p).0

  added-IsValid : IsValid added
  unfolding added
  added-IsValid = add_mapping-IsValid p e.1.real_ip (to_ip e.0) 0 t valid keys.1

  added-Decides :
      Decides p
        (real_key e)
        e.0
        0
        t
        (wins p (real_key e) e.0 0)
        (add_mapping e.1.real_ip (to_ip e.0) 0 t p)
  added-Decides =
      let d = add_mapping-Decides p e.1.real_ip (to_ip e.0) 0 t valid keys.1 in
      rw (to_ip_key-to_ip e.0 keys.0) at d

  added_keeps : (k f : IpKey) → fake_of p k ≡ some f → Differs k f e → fake_of added k ≡ some f
  unfolding added
  added_keeps k f h (other, free) = elim (Bool-cases (wins p (real_key e) e.0 0)) [
    | inl won ↦ ground (arith, (added-Decides.binds won).fakes k)
    | inr lost ↦ Unchanged-fake_of p _ (added-Decides.keeps lost) k ∙ h
  ]

  added_from :
      (k f : IpKey)
      → fake_of added k ≡ some f
      → (fake_of p k ≡ some f) ⊎ ((k ≡ real_key e) × (f ≡ e.0))
  unfolding added
  added_from k f h = elim (Bool-cases (wins p (real_key e) e.0 0)) [
    | inr lost ↦ inl (sym (Unchanged-fake_of p _ (added-Decides.keeps lost) k) ∙ h)
    | inl won ↦
        let b = added-Decides.binds won in
        elim (IpKey-discrete k (real_key e)) [
          | yes here ↦ inr (here, ground (arith, b.fakes k))
          | no other ↦ inl (ground (arith, b.fakes k))
        ]
  ]

  module _ (free : IsFree p e) where
    added_wins : wins p (real_key e) e.0 0 ≡ true
    unfolding wins beats_real beats_fake
    added_wins = rw (free.0, free.1) refl

    added_here : fake_of added (real_key e) ≡ some e.0
    unfolding added
    added_here = ground (arith, (added-Decides.binds added_wins).fakes (real_key e))

    added-IsFree :
        (m : Map IpText MappingRecovery)
        → All (Differs (real_key e) e.0) m
        → All (IsFree p) m
        → All (IsFree added) m
    unfolding added
    added-IsFree [] h free_m = tt
    added-IsFree (d ∷ m) ((other, away), h) ((a, b), free_m) =
        let bound = added-Decides.binds added_wins in
        (
          (ground (arith, bound.reals d.0), ground (arith, bound.fakes (real_key d))),
          added-IsFree m h free_m,
        )

module _ (now : IpText → ℕ) where
  recover_keeps :
      (m : Map IpText MappingRecovery) (p : IpPool) (k f : IpKey)
      → IsValid p
      → All HasKeys m
      → fake_of p k ≡ some f
      → All (Differs k f) m
      → fake_of (recover now m p) k ≡ some f
  unfolding recover added
  recover_keeps [] p k f valid keys h away = h
  recover_keeps (e ∷ m) p k f valid (key, keys) h (away, aways) =
      let t = now e.0 + e.1.expires in
      recover_keeps m (added p e t valid key) k f (added-IsValid p e t valid key) keys
        (added_keeps p e t valid key k f h away) aways

  -- The loop of main on a valid pool, with mappings none of whose addresses stands twice or is mapped
  -- yet, real ones of four or sixteen bytes and fake ones given by well-formed keys: the pool stays
  -- valid, every one of the mappings is in it afterwards, and nothing else that was not mapped before.
  pub recover-Restored :
      (m : Map IpText MappingRecovery) (p : IpPool)
      → IsValid p
      → All HasKeys m
      → Apart m
      → All (IsFree p) m
      → Restored p m (recover now m p)
  unfolding recover added
  recover-Restored [] p valid keys apart free = record {
    valid = valid;
    all = tt;
    from = λ k f h. inl h;
  }
  recover-Restored (e ∷ m) p valid (key, keys) (away, apart) (free, frees) =
      let t = now e.0 + e.1.expires in
      let q = added p e t valid key in
      let ok = added-IsValid p e t valid key in
      let rest =
        recover-Restored m q ok keys apart (added-IsFree p e t valid key free m away frees) in
      record {
        valid = rest.valid;
        all = (
          recover_keeps m q (real_key e) e.0 ok keys (added_here p e t valid key free) away,
          rest.all,
        );
        from = λ k f h. elim (rest.from k f h) [
          | inr (d, there, a, b) ↦ inr (d, Memᴰ.tail there, a, b)
          | inl old ↦ elim (added_from p e t valid key k f old) [
            | inl before ↦ inl before
            | inr (a, b) ↦ inr (e, Memᴰ.head refl, a, b)
          ]
        ];
      }
