-- ===== src/Map/Size.antt =====
-- The number of entries after each operation.
use hermesmq.Prelude.{ℕ, ◌+◌, ◌≤◌, ◌<◌, [], ◌∷◌, Bool, true, none, some, ◌≡◌, refl, arith, length}
use hermesmq.Ord.{Ord}
use hermesmq.Map.Sorted.{IsSorted, AllEntries, AllEntries-imp, get-above}
use Prim.Native.Nat.Ordering.{lt}
use hermesmq.Map.{Map, get, has, insert, retain, remove, map_values}

module _ {ℓ κ} {K : Type ℓ} {V : Type κ} ⦃o : Ord K⦄ where
  pub length-retain-le : (p : K → V → Bool) (m : Map K V) → length (retain p m) ≤ length m
  unfolding retain
  length-retain-le p [] = omega arith
  length-retain-le p ((j, w) ∷ m) = ground (arith, length-retain-le p m)

  pub length-remove-le : (k : K) (m : Map K V) → length (remove k m) ≤ length m
  unfolding remove
  length-remove-le k m = length-retain-le _ m

  -- Removing a key that is there makes the map smaller.
  pub length-remove-lt : (k : K) (m : Map K V) → has k m ≡ true → length (remove k m) < length m
  unfolding get remove retain
  length-remove-lt k [] h = ground arith
  length-remove-lt k ((j, w) ∷ m) h = ground (arith, length-remove-le k m, length-remove-lt k m)

  -- Inserting adds one entry, unless the key is there.
  pub length-insert-le : (k : K) (v : V) (m : Map K V) → length (insert k v m) ≤ length m + 1
  unfolding insert
  length-insert-le k v [] = omega arith
  length-insert-le k v ((j, w) ∷ m) = ground (arith, length-insert-le k v m)

  pub length-map_values : (f : V → V) (m : Map K V) → length (map_values f m) ≡ length m
  unfolding map_values
  length-map_values f [] = refl
  length-map_values f ((j, w) ∷ m) = omega (arith, length-map_values f m)

  -- Inserting a new key adds one entry.
  pub length-insert_new :
      (k : K) (v : V) (m : Map K V) → get k m ≡ none → length (insert k v m) ≡ length m + 1
  unfolding insert get
  length-insert_new k v [] h = omega arith
  length-insert_new k v ((j, w) ∷ m) h = ground (arith, length-insert_new k v m)

  remove-above : (k : K) (m : Map K V) → AllEntries (λ j _. o.cmp k j ≡ lt) m → remove k m ≡ m
  unfolding remove retain
  remove-above k [] a = refl
  remove-above k ((j, w) ∷ m) a = ground (arith, remove-above k m a.1)

  -- Removing a key that is there takes one entry away.
  pub length-remove :
      (k : K) (m : Map K V) → IsSorted m → has k m ≡ true → length (remove k m) + 1 ≡ length m
  unfolding remove retain get
  length-remove k [] s h = ground arith
  length-remove k ((j, w) ∷ m) s h =
      ground (arith, o.eq_of_cmp k j, length-remove k m s.1, remove-above k m)

module _ {ℓ κ} {K : Type ℓ} {V : Type κ} ⦃o : Ord K⦄ where
  -- Inserting a key that is there keeps the number of entries.
  pub length-insert_old :
      (k : K) (v : V) (m : Map K V) → IsSorted m → has k m ≡ true → length (insert k v m) ≡ length m
  unfolding insert get
  length-insert_old k v [] s h = ground arith
  length-insert_old k v ((j, w) ∷ m) s h = ground (
    arith,
    o.eq_of_cmp k j,
    length-insert_old k v m s.1,
    λ (h : o.cmp k j ≡ lt). get-above k m (AllEntries-imp (λ i _. o.cmp_trans k j i h) m s.0),
  )

  pub length-le-insert : (k : K) (v : V) (m : Map K V) → length m ≤ length (insert k v m)
  unfolding insert
  length-le-insert k v [] = omega arith
  length-le-insert k v ((j, w) ∷ m) = ground (arith, length-le-insert k v m)

module _ {ℓ κ} {K : Type ℓ} {V : Type κ} (f : V → ℕ) where
  -- the sum of a measure over the values
  unfoldable pub total : Map K V → ℕ
  total [] = 0
  total ((j, w) ∷ m) = f w + total m

module _ {ℓ κ} {K : Type ℓ} {V : Type κ} ⦃o : Ord K⦄ (f : V → ℕ) where
  -- Inserting exchanges what the key had for the new value.
  pub total-insert :
      (k : K) (v : V) (m : Map K V)
      → IsSorted m
      → total f (insert k v m) + (elim (get k m) [ none ↦ 0 | some w ↦ f w ]) ≡ total f m + f v
  unfolding insert get total
  total-insert k v [] s = omega arith
  total-insert k v ((j, w) ∷ m) s = ground (
    arith,
    o.eq_of_cmp k j,
    total-insert k v m s.1,
    λ (h : o.cmp k j ≡ lt). get-above k m (AllEntries-imp (λ i _. o.cmp_trans k j i h) m s.0),
  )
