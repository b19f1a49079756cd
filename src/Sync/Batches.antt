-- ===== src/Sync/Batches.antt =====
-- sendAllMappingsToConn and BroadcastMappings of internal/dnsengine/sync.go. The writer of a
-- connection empties its channel at its own pace, so what a put meets is a parameter.
use next_path.Base.{
  ℕ, suc, ◌≤◌, ◌<◌, Bool, true, false, List, [], ◌∷◌, ◌++◌, append_assoc, ◌≡◌, ◌≢◌, ◌⊎◌, inl, inr,
  refl, subst, sym, ap, ◌∙◌, arith, leb, if◌then◌else◌, length, length-append, All, Bool-cases,
}
use next_path.Pool.{Mapping}

-- What the attempt to put a message meets: room in the channel, a full channel, or a connection that
-- is closed already.
pub data Offer : Type 0 where
  room : Offer
  full : Offer
  was_closed : Offer

-- The messages that went into the channel, and whether the connection was closed for a full one.
pub record Sent : Type 0 where
  pub batches : List (List Mapping)
  pub closes : Bool

abbrev pub batch_size : ℕ
batch_size = 1000

-- `rest` is what follows where there is room.
unfoldable pub put_batch : Offer → List Mapping → Sent → Sent
put_batch room batch rest = record rest { batches = batch ∷ rest.batches }
put_batch full batch rest = record { batches = []; closes = true }
put_batch was_closed batch rest = record { batches = []; closes = false }

abbrev nothing : Sent
nothing = record { batches = []; closes = false }

-- The last batch.
unfoldable pub put_last : Offer → List Mapping → Sent
put_last offer [] = nothing
put_last offer (m ∷ ms) = put_batch offer (m ∷ ms) nothing

-- The loop: `n` messages were offered before.
unfoldable pub send_from : (ℕ → Offer) → ℕ → List Mapping → List Mapping → Sent
send_from offers n batch [] = put_last (offers n) batch
send_from offers n batch (m ∷ ms) =
    let more = send_from offers n (batch ++ m ∷ []) ms in
    let next = send_from offers (suc n) [] ms in
    if leb batch_size (length (batch ++ m ∷ []))
    then put_batch (offers n) (batch ++ m ∷ []) next
    else more

unfoldable pub send_all_mappings : (ℕ → Offer) → List Mapping → Sent
send_all_mappings offers ms = send_from offers 0 [] ms

unfoldable pub joined : List (List Mapping) → List Mapping
joined [] = []
joined (b ∷ bs) = b ++ joined bs

abbrev pub IsBatch : List Mapping → Type 0
IsBatch b = (0 < length b) × (length b ≤ batch_size)

-- The batches are a front part of the mappings: all of them, unless an attempt met no room.
abbrev pub Delivers : (ℕ → Offer) → List Mapping → Sent → Type 0
Delivers offers ms s =
    All IsBatch s.batches
    × ((rest : List Mapping) × (ms ≡ joined s.batches ++ rest)
        × ((rest ≡ []) ⊎ ((n : ℕ) × (offers n ≢ room))))

put_batch-Delivers :
    (offers : ℕ → Offer) (n : ℕ) (offer : Offer) (batch ms : List Mapping) (s : Sent)
    → offers n ≡ offer
    → IsBatch batch
    → Delivers offers ms s
    → Delivers offers (batch ++ ms) (put_batch offer batch s)
unfolding put_batch joined
put_batch-Delivers offers n room batch ms s e b (bs, (rest, whole, end)) =
    let split : batch ++ ms ≡ (batch ++ joined s.batches) ++ rest =
      ap (λ (q : List Mapping). batch ++ q) whole
      ∙ sym (append_assoc batch (joined s.batches) rest) in
    ((b, bs), (rest, split, end))
put_batch-Delivers offers n full batch ms s e b h =
    (tt, (batch ++ ms, refl, inr (n, λ r. absurd (cc))))
put_batch-Delivers offers n was_closed batch ms s e b h =
    (tt, (batch ++ ms, refl, inr (n, λ r. absurd (cc))))

nothing-Delivers : (offers : ℕ → Offer) → Delivers offers [] nothing
unfolding joined
nothing-Delivers offers = (tt, ([], refl, inl refl))

send_from-Delivers :
    (offers : ℕ → Offer) (n : ℕ) (batch ms : List Mapping)
    → length batch < batch_size
    → Delivers offers (batch ++ ms) (send_from offers n batch ms)
unfolding send_from put_last
send_from-Delivers offers n [] [] h = nothing-Delivers offers
send_from-Delivers offers n (m ∷ batch) [] h =
    put_batch-Delivers offers n (offers n) (m ∷ batch) [] nothing refl (omega arith, omega arith)
      (nothing-Delivers offers)
send_from-Delivers offers n batch (m ∷ ms) h =
    let whole = batch ++ m ∷ [] in
    let longer = length-append batch (m ∷ []) in
    let same : whole ++ ms ≡ batch ++ m ∷ ms = append_assoc batch (m ∷ []) ms in
    let next = send_from offers (suc n) [] ms in
    elim (Bool-cases (leb batch_size (length whole))) [
      | inl filled ↦
          rw (filled, send_from)
            (subst (λ all. Delivers offers all (put_batch (offers n) whole next)) same
              (put_batch-Delivers offers n (offers n) whole ms next refl
                (ground (arith, longer), omega (arith, longer))
                (send_from-Delivers offers (suc n) [] ms (omega arith))))
      | inr short ↦
          rw (short, send_from)
            (subst (λ all. Delivers offers all (send_from offers n whole ms)) same
              (send_from-Delivers offers n whole ms (ground arith)))
    ]

-- sendAllMappingsToConn sends batches of 1 to 1000 mappings which in their order are a front part of
-- the mappings, and all of them unless one of its puts met a full channel or a closed connection.
pub send_all_mappings-Delivers :
    (offers : ℕ → Offer) (ms : List Mapping) → Delivers offers ms (send_all_mappings offers ms)
unfolding send_all_mappings
send_all_mappings-Delivers offers ms = send_from-Delivers offers 0 [] ms (omega arith)

-- `BroadcastMappings`: which connections get the message, by their pointers, and which are closed
-- because their channel is full.
unfoldable pub broadcast_to : (ℕ → Offer) → List ℕ → List ℕ × List ℕ
broadcast_to offers [] = ([], [])
broadcast_to offers (c ∷ cs) =
    let (got, closed) = broadcast_to offers cs in
    elim (offers c) [
      | room ↦ (c ∷ got, closed)
      | full ↦ (got, c ∷ closed)
      | was_closed ↦ (got, closed)
    ]

unfoldable pub broadcast_mappings : (ℕ → Offer) → List Mapping → List ℕ → List ℕ × List ℕ
broadcast_mappings offers [] conns = ([], [])
broadcast_mappings offers (m ∷ ms) conns = broadcast_to offers conns
