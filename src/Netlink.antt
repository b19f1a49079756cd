-- ===== src/Netlink.antt =====
-- NFTClient of internal/netlink/nftables.go: the batches that it sends to the kernel. The netlink
-- library and the kernel behind it are the parameter `Kernel`. A nil address is the empty list.
pub mod Worker
pub mod Order
pub mod Elements
pub mod Answers
pub mod Deny
pub mod Rules
pub mod Setup
pub mod Input
pub mod Recovery
use next_path.Base.{
  ℕ, zero, suc, Bool, true, false, not, ◌&&◌, ◌||◌, List, [], ◌∷◌, Option, none, some, ltb,
  if◌then◌else◌, length,
}
use next_path.Net.{Bytes, to4, to16}
use next_path.Text.{is_empty, contains_text}

pub record SetElement : Type 0 where
  pub key : Bytes
  pub val : Bytes
  pub timeout : ℕ

-- The calls of `nftables.Conn`; an error is its text. `add_elements true` is for the set `v6_map`.
pub record Kernel : Type 1 where
  pub State : Type 0
  pub add_elements : Bool → List SetElement → State → State × Option Bytes
  pub flush : State → State × Option Bytes
  pub connect : State → State × Bool

-- The `done` channel is left out: AddMapping, the only sender, always gives one.
pub record MappingOp : Type 0 where
  pub fake_ip : Bytes
  pub real_ip : Bytes
  pub timeout : ℕ

pub data NftError : Type 0 where
  not_connected : NftError
  v4_failed : Bytes → NftError
  v6_failed : Bytes → NftError
  flush_failed : Bytes → NftError

-- `file exists`.
abbrev pub file_exists : Bytes
file_exists = 102 ∷ 105 ∷ 108 ∷ 101 ∷ 32 ∷ 101 ∷ 120 ∷ 105 ∷ 115 ∷ 116 ∷ 115 ∷ []

-- `strings.Contains(err.Error(), "file exists")`: the texts that wrap the library's do not hold it.
unfoldable pub is_file_exists : NftError → Bool
is_file_exists not_connected = false
is_file_exists (v4_failed e) = contains_text e file_exists
is_file_exists (v6_failed e) = contains_text e file_exists
is_file_exists (flush_failed e) = contains_text e file_exists

-- `v4ToAdd` and `v6ToAdd`.
pub record ToAdd : Type 0 where
  pub v4 : List SetElement
  pub v6 : List SetElement

unfoldable pub to4_or_nil : Bytes → Bytes
to4_or_nil ip = elim (to4 ip) [ none ↦ [] | some b ↦ b ]

unfoldable pub is_ipv6 : Bytes → Bool
is_ipv6 ip = elim (to4 ip) [ none ↦ true | some b ↦ false ]

-- One round of the loop, where `rest` is what the rounds after it collect.
unfoldable pub collect_op : Bool → MappingOp → ToAdd → ToAdd
collect_op enable op rest =
    let v6 = is_ipv6 op.fake_ip in
    let key = if v6 then to16 op.fake_ip else to4_or_nil op.fake_ip in
    let val = if v6 then to16 op.real_ip else to4_or_nil op.real_ip in
    let el : SetElement = record { key = key; val = val; timeout = op.timeout } in
    if v6 && not enable
    then rest
    else if is_empty key || is_empty val
    then rest
    else if v6
    then record rest { v6 = el ∷ rest.v6 }
    else record rest { v4 = el ∷ rest.v4 }

unfoldable pub collect : Bool → List MappingOp → ToAdd
unfolding collect_op
collect enable [] = record { v4 = []; v6 = [] }
collect enable (op ∷ ops) = collect_op enable op (collect enable ops)

module _ (k : Kernel) where
  -- `connected` is `c.conn != nil`.
  pub record NftClient : Type 0 where
    pub kernel : k.State
    pub connected : Bool
    pub enable_ipv6 : Bool

  -- A call of the library that is made only if `needed`, and what follows where it does not fail.
  unfoldable pub call :
      Bool
      → (k.State → k.State × Option Bytes)
      → (Bytes → NftError)
      → (k.State → k.State × Option NftError)
      → k.State
      → k.State × Option NftError
  call false op wrap next s = next s
  call true op wrap next s =
      let (t, err) = op s in elim err [ some e ↦ (t, some (wrap e)) | none ↦ next t ]

  -- The three calls.
  unfoldable pub send : Bool → ToAdd → k.State → k.State × Option NftError
  unfolding call
  send enable els =
      let some4 = not (none_of els.v4) in
      let some6 = not (none_of els.v6) in
      call some4 (k.add_elements false els.v4) v4_failed (
        call (enable && some6) (k.add_elements true els.v6) v6_failed
          (call (some4 || some6) k.flush flush_failed (λ s. (s, none))))
    where
      none_of : List SetElement → Bool
      none_of [] = true
      none_of (x ∷ xs) = false

  unfoldable pub flush_batch_locked : List MappingOp → NftClient → NftClient × Option NftError
  flush_batch_locked batch c =
      let (s, err) = send c.enable_ipv6 (collect c.enable_ipv6 batch) c.kernel in
      if c.connected then (record c { kernel = s }, err) else (c, some not_connected)

  -- The attempts of `reconnectLocked`.
  unfoldable pub attempts : ℕ → k.State → k.State × Bool
  attempts zero s = (s, false)
  attempts (suc n) s = let (t, ok) = k.connect s in if ok then (t, true) else attempts n t

  unfoldable pub reconnect_locked : NftClient → NftClient × Bool
  reconnect_locked c =
      let (s, ok) = attempts 5 c.kernel in (record c { kernel = s; connected = ok }, ok)

  -- The second try of a batch, after a reconnection.
  unfoldable pub retry : List MappingOp → NftError → NftClient × Bool → NftClient × Option NftError
  retry batch err (c, false) = (c, some err)
  retry batch err (c, true) =
      let (d, failed) = flush_batch_locked batch c in
      elim failed [
        | none ↦ (d, none)
        | some again ↦ (d, if is_file_exists again then none else some again)
      ]

  -- `flush` of the worker, with `finalErr`.
  unfoldable pub flush_worker : List MappingOp → NftClient → NftClient × Option NftError
  flush_worker batch c =
      let (d, failed) = flush_batch_locked batch c in
      elim failed [
        | none ↦ (d, none)
        | some err ↦ if is_file_exists err then (d, none) else retry batch err (reconnect_locked d)
      ]
