-- ===== src/Map/Lookup.antt =====
-- What a lookup sees after each operation.
use hermesmq.Prelude.{[], ◌∷◌, Bool, true, not, none, some, if◌then◌else◌, ◌≡◌, refl, arith}
use hermesmq.Ord.{Ord}
use hermesmq.Map.{Map, get, insert, retain, remove, range_from, same, before}

module _ {ℓ} {K : Type ℓ} ⦃o : Ord K⦄ where
  pub same_self : (k : K) → same k k ≡ true
  same_self k = ground (arith, o.cmp_self k)

  pub eq_of_same : (k j : K) → same k j ≡ true → k ≡ j
  eq_of_same k j h = ground (arith, o.eq_of_cmp k j)

  pub same_comm : (k j : K) → same k j ≡ same j k
  same_comm k j = ground (arith, o.cmp_flip k j)

module _ {ℓ κ} {K : Type ℓ} {V : Type κ} ⦃o : Ord K⦄ where
  pub get-insert :
      (j k : K) (v : V) (m : Map K V)
      → get j (insert k v m) ≡ (if same j k then some v else get j m)
  unfolding get insert
  get-insert j k v [] = refl
  get-insert j k v ((i, w) ∷ m) =
      ground (arith, o.eq_of_cmp k i, o.eq_of_cmp j i, o.eq_of_cmp j k, get-insert j k v m)

  -- A test on the key alone filters the lookup.
  pub get-retain_key :
      (p : K → Bool) (j : K) (m : Map K V)
      → get j (retain (λ i _. p i) m) ≡ (if p j then get j m else none)
  unfolding get retain
  get-retain_key p j [] = ground arith
  get-retain_key p j ((i, w) ∷ m) = ground (arith, o.eq_of_cmp j i, get-retain_key p j m)

  pub get-remove :
      (j k : K) (m : Map K V) → get j (remove k m) ≡ (if same k j then none else get j m)
  unfolding remove
  get-remove j k m = ground (arith, get-retain_key (λ i. not (same k i)) j m)

  pub get-range_from :
      (j k : K) (m : Map K V) → get j (range_from k m) ≡ (if before j k then none else get j m)
  unfolding range_from
  get-range_from j k m = ground (arith, get-retain_key (λ i. not (before i k)) j m)
