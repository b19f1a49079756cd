-- ===== src/Netlink/Input.antt =====
-- What the rules of InitStructure in internal/netlink/nftables.go let in. A chain is read as nft
-- documents it: its rules are tried in order, and the first that accepts or drops a packet ends it.
use next_path.Base.{
  Bool, true, false, not, List, [], ◌∷◌, ◌++◌, Option, none, some, ◌≡◌, ◌≢◌, ◌⊎◌, inl, inr, refl,
  sym, All, All-append,
}
use next_path.Netlink.Rules.{
  Family, Protocol, udp, tcp, v4, v6, Rule, hook, lo_accept, established_accept, deny_drop,
  outside_drop, Settings, when, outside_family, outside_family, outside_rules, peer_rules,
  sync_rules, input_rules,
}
use Prim.Native.String.{String}
use mathlib.Core.List.Memᴰ
use mathlib.Core.List.{Memᴰ}

pub data Verdict : Type 0 where
  accept : Verdict
  drop : Verdict

unfoldable pub first_verdict : (Rule → Option Verdict) → List Rule → Option Verdict
first_verdict decide [] = none
first_verdict decide (r ∷ rs) = elim (decide r) [ some v ↦ some v | none ↦ first_verdict decide rs ]

-- What the rules do with one packet that is not let in by its interface or its connection.
pub record Judges (decide : Rule → Option Verdict) : Type 0 where
  pub hooks : (s : String) → decide (hook s) ≡ none
  pub no_lo : decide lo_accept ≡ none
  pub no_connection : decide established_accept ≡ none
  pub denies : (f : Family) → decide (deny_drop f) ≢ some accept
  pub drops :
      (f : Family) (p : Protocol) (port : String) → decide (outside_drop f p port) ≢ some accept

module _ (decide : Rule → Option Verdict) where
  abbrev Lets : Rule → Type 0
  Lets r = decide r ≢ some accept

  cases : (o : Option Verdict) → o ≢ some accept → (o ≡ none) ⊎ (o ≡ some drop)
  cases none n = inl refl
  cases (some drop) n = inr refl
  cases (some accept) n = absurd (n refl)

  skip :
      (r : Rule) (rest : List Rule)
      → Lets r
      → first_verdict decide rest ≡ some drop
      → first_verdict decide (r ∷ rest) ≡ some drop
  unfolding first_verdict
  skip r rest lets h = elim (cases (decide r) lets) [
    | inl e ↦ rw (e, first_verdict) h
    | inr e ↦ rw (e, first_verdict) refl
  ]

  skips :
      (before rest : List Rule)
      → All Lets before
      → first_verdict decide rest ≡ some drop
      → first_verdict decide (before ++ rest) ≡ some drop
  skips [] rest lets h = h
  skips (r ∷ before) rest (here, lets) h = skip r (before ++ rest) here (skips before rest lets h)

  -- Before a rule that drops, no rule accepts.
  drop_among :
      (before rest : List Rule)
      → All Lets before
      → (r : Rule) → Memᴰ r before
      → decide r ≡ some drop
      → first_verdict decide (before ++ rest) ≡ some drop
  unfolding first_verdict
  drop_among [] rest lets r m d = absurd (Memᴰ.not-nil m)
  drop_among (b ∷ before) rest (here, lets) r m d = elim (Memᴰ.cases_cons m) [
    | inl e ↦ rw (sym e, d, first_verdict) refl
    | inr later ↦ skip b (before ++ rest) here (drop_among before rest lets r later d)
  ]

  All-when : (b : Bool) (rules : List Rule) → All Lets rules → All Lets (when b rules)
  All-when true rules h = h
  All-when false rules h = tt

  All-none : (rules : List Rule) → All (λ r. decide r ≡ none) rules → All Lets rules
  All-none [] h = tt
  All-none (r ∷ rules) (e, h) = (λ a. absurd (cc), All-none rules h)

  module _ (s : Settings) (j : Judges decide) where
    outside_family-All : (f : Family) → All Lets (outside_family s f)
    unfolding outside_family
    outside_family-All f =
        let doh : All Lets (when s.custom_doh (outside_drop f tcp s.doh_port ∷ [])) =
          All-when s.custom_doh (outside_drop f tcp s.doh_port ∷ [])
            (j.drops f tcp s.doh_port, tt) in
        (j.drops f udp "53", (j.drops f tcp "53", doh))

    outside_rules-All : All Lets (outside_rules s)
    unfolding outside_rules
    outside_rules-All =
        All-when (not s.public_dns)
          (outside_family s v4 ++ when s.enable_ipv6 (outside_family s v6))
          (All-append Lets (outside_family s v4) (when s.enable_ipv6 (outside_family s v6))
            (outside_family-All v4)
            (All-when s.enable_ipv6 (outside_family s v6) (outside_family-All v6)))

    sync_rules-All : All Lets (sync_rules s)
    unfolding sync_rules
    sync_rules-All = (
      j.drops v4 tcp s.sync_port,
      All-when s.enable_ipv6 (outside_drop v6 tcp s.sync_port ∷ [])
          (j.drops v6 tcp s.sync_port, tt),
    )

    -- Whatever the rules do with a packet, as long as those on its interface and its connection do
    -- not decide, no rule for a peer accepts it, and no rule that drops accepts: the input chain drops
    -- the packet if one of its rules for outside addresses does, on DNS and DoH where these are not
    -- public, or on the port of the synchronisation.
    pub input_rules-shut :
        All (λ r. decide r ≡ none) (peer_rules s)
        → (r : Rule) → Memᴰ r (outside_rules s ++ sync_rules s)
        → decide r ≡ some drop
        → first_verdict decide (input_rules s) ≡ some drop
    unfolding input_rules
    input_rules-shut peers r m d = skip _ _ (quiet (j.hooks _)) (
        skip _ _ (quiet j.no_lo) (
          skip _ _ (quiet j.no_connection) (
            skip _ _ (j.denies v4) (
              skips (when s.enable_ipv6 (deny_drop v6 ∷ [])) _
                (All-when s.enable_ipv6 (deny_drop v6 ∷ []) (j.denies v6, tt))
                (elim (Memᴰ.append_cases (outside_rules s) m) [
                  | inl outside ↦ drop_among (outside_rules s) _ outside_rules-All r outside d
                  | inr sync ↦ skips (outside_rules s) _ outside_rules-All (
                      skips (peer_rules s) _ (All-none _ peers)
                        (drop_among (sync_rules s) _ sync_rules-All r sync d))
                ])))))
      where
        quiet : {r : Rule} → decide r ≡ none → Lets r
        quiet e a = absurd (cc)
