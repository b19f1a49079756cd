-- ===== src/Alloc/Tracking.antt =====
-- One round and the roll-back of GetFakeIPsForReals in internal/dnsengine/ippool.go: what a call
-- has noted of its own new mappings.
use next_path.Alloc.Round.{IsReady, Rounds}
use next_path.Alloc.{done, Given, MappingInfo, roll_back}
use next_path.Base.Map
use next_path.Base.Map.{Map}
use next_path.Base.{
  [], ◌∷◌, none, some, ◌≡◌, ◌≢◌, refl, sym, ◌∙◌, ◌⊎◌, inl, inr, ite, arith, if_pos, if_neg, All,
}
use next_path.Net.Keys.{IsKey, to_ip_key-to_ip}
use next_path.Net.{Bytes, IpKey, IpKey-discrete, to_ip_key, to_ip}
use next_path.Pool.Invariant.{IsValid}
use next_path.Pool.Removing.{Removes, remove_key-Removes}
use next_path.Pool.Views.{key_index, fake_of}
use next_path.Pool.{IpPool, find, remove_mapping}

-- Every answer is the fake address that its real one has.
abbrev pub Agrees : IpPool → Given → Type 0
Agrees p g =
    (k : IpKey) (ip : Bytes) → find k g.result ≡ some ip → fake_of p k ≡ some (to_ip_key ip)

-- An answer stays in a call's result.
abbrev pub Grows : Given → Given → Type 0
Grows g h = (k : IpKey) → find k g.result ≢ none → find k h.result ≢ none

-- What is mapped now was mapped at the start of the call or is noted as new.
abbrev pub Tracks : IpPool → IpPool → Map IpKey MappingInfo → Type 0
Tracks p q m =
    (k f : IpKey)
    → fake_of q k ≡ some f
    → (fake_of p k ≡ some f)
      ⊎ ((info : MappingInfo) × (find k m ≡ some info) × (f ≡ to_ip_key info.ip))

abbrev pub Keyed : Map IpKey MappingInfo → Type 0
Keyed m = All (λ e. IsKey e.0) m

Keyed-delete :
    (k : IpKey) (m : Map IpKey MappingInfo) → Keyed m → Keyed (Map.delete IpKey-discrete k m)
unfolding Map.delete
Keyed-delete k [] h = tt
Keyed-delete k ((j, v) ∷ m) (h, hs) = elim (IpKey-discrete k j) [
  | yes e ↦ rw (if_pos _ e) (Keyed-delete k m hs)
  | no n ↦ rw (if_neg _ n) (h, Keyed-delete k m hs)
]

Keyed-put :
    (k : IpKey) (v : MappingInfo) (m : Map IpKey MappingInfo)
    → IsKey k
    → Keyed m
    → Keyed (Map.put IpKey-discrete k v m)
unfolding Map.put
Keyed-put k v m h hs = (h, Keyed-delete k m hs)

module _ (p q : IpPool) (rk : IpKey) (g h : Given) (round : Rounds p rk g (done q h)) where
  round-result :
      (k : IpKey) (ip : Bytes)
      → h.result ≡ Map.put IpKey-discrete rk ip g.result
      → find k h.result ≡ ite (IpKey-discrete k rk) (some ip) (find k g.result)
  round-result k ip put = rw put (Map.get-put IpKey-discrete k rk ip g.result)

  pub round-Agrees : Agrees p g → Agrees q h
  round-Agrees agrees k ip e =
      let (ready, others, (got, has, put, kind)) = round in
      ground (arith, agrees k ip, others k, has, round-result k got put)

  pub round-Grows : Grows g h
  round-Grows k n =
      let (ready, others, (got, has, put, kind)) = round in ground (arith, round-result k got put)

  pub round-has : find rk h.result ≢ none
  round-has =
      let (ready, others, (got, has, put, kind)) = round in ground (arith, round-result rk got put)

  pub round-Keyed : IsKey rk → Keyed g.new_mappings → Keyed h.new_mappings
  round-Keyed key hs =
      let (ready, others, (got, has, put, kind)) = round in
      elim kind [
        | inl (e, old) ↦ rw e hs
        | inr (v, e) ↦ rw e (Keyed-put rk _ g.new_mappings key hs)
      ]

  pub round-Tracks :
      (start : IpPool) → Tracks start p g.new_mappings → Tracks start q h.new_mappings
  round-Tracks start t k f e =
      let (ready, others, (got, has, put, kind)) = round in
      elim (IpKey-discrete k rk) [
        | no n ↦ elim kind [
          | inl (m, old) ↦ rw m (t k f (sym (others k n) ∙ e))
          | inr (v, m) ↦
              rw (m, Map.get-put IpKey-discrete k rk _ g.new_mappings, if_neg _ n)
                (t k f (sym (others k n) ∙ e))
        ]
        | yes same ↦ elim kind [
          | inl (m, old) ↦ rw m (t k f (cc))
          | inr (v, m) ↦
              rw (m, Map.get-put IpKey-discrete k rk _ g.new_mappings, if_pos _ same)
                (inr (_, refl, cc))
        ]
      ]

-- The roll-back takes out each new mapping.
module _ (start : IpPool) where
  Tracks-removed :
      (q q' : IpPool) (text : IpKey) (info : MappingInfo) (m : Map IpKey MappingInfo)
      → Removes q q' text (to_ip_key info.ip)
      → Tracks start q ((text, info) ∷ m)
      → Tracks start q' m
  unfolding Map.get
  Tracks-removed q q' text info m r t k f e = elim (t k f (r.from k f e)) [
    | inl old ↦ inl old
    | inr (new, has, same) ↦ elim (IpKey-discrete k text) [
      | no n ↦ inr (new, rw (if_neg _ n) at has, same)
      | yes here ↦
          let is : some info ≡ some new = rw (if_pos _ here) at has in absurd (r.parted (cc))
    ]
  ]

  pub IsReady-removed :
      (q q' : IpPool) (rk fk : IpKey) → Removes q q' rk fk → IsReady q → IsReady q'
  IsReady-removed q q' rk fk r h = record {
    valid = r.valid;
    keyed = λ k f e. h.keyed k f (r.from k f e);
    start6 = rw r.start6 h.start6;
    wide6 = rw r.start6 h.wide6;
  }

  pub remove_text :
      (q : IpPool) (text : IpKey) (ip : Bytes)
      → IsValid q
      → IsKey text
      → Removes q (remove_mapping (to_ip text) ip q) text (to_ip_key ip)
  unfolding remove_mapping key_index
  remove_text q text ip valid key =
      rw (to_ip_key-to_ip text key) (remove_key-Removes q text (to_ip_key ip) valid)

  pub roll_back-Tracks :
      (m : Map IpKey MappingInfo) (q : IpPool)
      → IsReady q
      → Keyed m
      → Tracks start q m
      → IsReady (roll_back m q)
        × ((k f : IpKey) → fake_of (roll_back m q) k ≡ some f → fake_of start k ≡ some f)
  unfolding roll_back Map.get
  roll_back-Tracks [] q ready keyed t =
      (ready, λ k f e. elim (t k f e) [ inl old ↦ old | inr (new, has, same) ↦ absurd (cc) ])
  roll_back-Tracks ((text, info) ∷ m) q ready (key, keyed) t =
      let r = remove_text q text info.ip ready.valid key in
      roll_back-Tracks m (remove_mapping (to_ip text) info.ip q) (IsReady-removed q _ _ _ r ready)
        keyed (Tracks-removed q _ text info m r t)
