-- ===== src/Netlink/Elements.antt =====
-- What flushBatchLocked in internal/netlink/nftables.go sends to the kernel.
use next_path.Base.{
  ℕ, Bool, true, false, ◌||◌, List, [], ◌∷◌, ◌≡◌, ◌⊎◌, inl, inr, refl, length, All, Bool-cases,
  Option-cases,
}
use next_path.Net.Keys.{to4-bytes, to16-IsIp}
use next_path.Net.{Bytes, IsIp, to4, to16}
use next_path.Netlink.{MappingOp, SetElement, ToAdd, collect, collect_op, to4_or_nil, is_ipv6}
use next_path.Text.{is_empty}

abbrev pub HasWidth : ℕ → SetElement → Type 0
HasWidth n el = (length el.key ≡ n) × (length el.val ≡ n)

abbrev pub HasIps : MappingOp → Type 0
HasIps op = IsIp op.fake_ip × IsIp op.real_ip

-- Elements of the width of their set, and none of IPv6 where it is off.
abbrev pub Fits : Bool → ToAdd → Type 0
Fits enable els =
    All (HasWidth 4) els.v4 × All (HasWidth 16) els.v6 × ((enable ≡ true) ⊎ (els.v6 ≡ []))

either_empty :
    (a b : Bytes) → (is_empty a || is_empty b) ≡ false → (is_empty a ≡ false) × (is_empty b ≡ false)
either_empty (x ∷ a) (y ∷ b) h = (refl, refl)
either_empty [] b h = absurd (cc)
either_empty (x ∷ a) [] h = absurd (cc)

-- The four bytes, where they are no nil.
to4_or_nil-length :
    (ip : Bytes) → IsIp ip → is_empty (to4_or_nil ip) ≡ false → length (to4_or_nil ip) ≡ 4
unfolding to4_or_nil
to4_or_nil-length ip h n = elim (Option-cases (to4 ip)) [
  | inl e ↦ absurd (cc (rw (e, to4_or_nil) at n))
  | inr (b, e) ↦ rw (e, to4_or_nil) (to4-bytes ip b h e).0
]

collect_op-Fits :
    (enable : Bool) (op : MappingOp) (rest : ToAdd)
    → HasIps op
    → Fits enable rest
    → Fits enable (collect_op enable op rest)
unfolding collect_op
collect_op-Fits enable op rest (fake, real) (four, six, off) =
    elim (Bool-cases (is_ipv6 op.fake_ip)) [
      | inl v6 ↦ elim (Bool-cases enable) [
        | inr disabled ↦ rw (v6, disabled) (four, six, rw disabled at off)
        | inl enabled ↦
            elim (Bool-cases (is_empty (to16 op.fake_ip) || is_empty (to16 op.real_ip))) [
              | inl bad ↦ rw (v6, enabled, bad) (four, six, inl refl)
              | inr good ↦
                  rw (v6, enabled, good)
                    (
                      four,
                      (((to16-IsIp op.fake_ip fake).1, (to16-IsIp op.real_ip real).1), six),
                      inl refl,
                    )
            ]
      ]
      | inr v4 ↦
          elim (Bool-cases (is_empty (to4_or_nil op.fake_ip) || is_empty (to4_or_nil op.real_ip))) [
            | inl bad ↦ rw (v4, bad) (four, six, off)
            | inr good ↦
                let (key, val) =
                  either_empty (to4_or_nil op.fake_ip) (to4_or_nil op.real_ip) good in
                rw (v4, good)
                  (
                    (
                      (
                        to4_or_nil-length op.fake_ip fake key,
                        to4_or_nil-length op.real_ip real val,
                      ),
                      four,
                    ),
                    six,
                    off,
                  )
          ]
    ]

-- Of operations on addresses, flushBatchLocked adds elements whose key and value have four bytes to
-- the IPv4 map, elements whose key and value have sixteen to the IPv6 map, and none to the latter
-- where IPv6 is off.
pub collect-Fits :
    (enable : Bool) (ops : List MappingOp) → All HasIps ops → Fits enable (collect enable ops)
unfolding collect
collect-Fits enable [] h = (tt, tt, inr refl)
collect-Fits enable (op ∷ ops) (h, hs) =
    collect_op-Fits enable op (collect enable ops) h (collect-Fits enable ops hs)
