-- ===== src/Alloc/Sorting.antt =====
-- The order in which GetFakeIPsForReals of internal/dnsengine/ippool.go takes its addresses.
use next_path.Alloc.{insert_real, sort_reals}
use next_path.Base.{List, [], ◌∷◌, Ordering, All}
use next_path.Net.{Bytes, bytes_compare, to16}

-- Sorting keeps the addresses.
module _ (P : Bytes → Type 0) where
  inserted :
      (x y : Bytes) (ys zs : List Bytes) (o : Ordering)
      → P x
      → P y
      → All P ys
      → All P zs
      → All P (elim o [ Ordering.lt ↦ y ∷ zs | _ ↦ x ∷ y ∷ ys ])
  inserted x y ys zs Ordering.lt h g gs hs = (g, hs)
  inserted x y ys zs Ordering.eq h g gs hs = (h, (g, gs))
  inserted x y ys zs Ordering.gt h g gs hs = (h, (g, gs))

  inserted_back :
      (x y : Bytes) (ys zs : List Bytes) (o : Ordering)
      → (All P zs → P x × All P ys)
      → All P (elim o [ Ordering.lt ↦ y ∷ zs | _ ↦ x ∷ y ∷ ys ])
      → P x × All P (y ∷ ys)
  inserted_back x y ys zs Ordering.lt k (g, hs) = let (h, gs) = k hs in (h, (g, gs))
  inserted_back x y ys zs Ordering.eq k (h, (g, gs)) = (h, (g, gs))
  inserted_back x y ys zs Ordering.gt k (h, (g, gs)) = (h, (g, gs))

  All-insert_real : (x : Bytes) (xs : List Bytes) → P x → All P xs → All P (insert_real x xs)
  unfolding insert_real
  All-insert_real x [] h hs = (h, tt)
  All-insert_real x (y ∷ ys) h (g, gs) =
      inserted x y ys (insert_real x ys) (bytes_compare (to16 y) (to16 x)) h g gs
        (All-insert_real x ys h gs)

  pub All-sort_reals : (xs : List Bytes) → All P xs → All P (sort_reals xs)
  unfolding sort_reals
  All-sort_reals [] h = tt
  All-sort_reals (x ∷ xs) (h, hs) = All-insert_real x (sort_reals xs) h (All-sort_reals xs hs)

  All-insert_real_back : (x : Bytes) (xs : List Bytes) → All P (insert_real x xs) → P x × All P xs
  unfolding insert_real
  All-insert_real_back x [] h = h
  All-insert_real_back x (y ∷ ys) h =
      inserted_back x y ys (insert_real x ys) (bytes_compare (to16 y) (to16 x))
        (All-insert_real_back x ys) h

  pub All-sort_reals_back : (xs : List Bytes) → All P (sort_reals xs) → All P xs
  unfolding sort_reals
  All-sort_reals_back [] h = tt
  All-sort_reals_back (x ∷ xs) h =
      let (here, rest) = All-insert_real_back x (sort_reals xs) h in
      (here, All-sort_reals_back xs rest)
