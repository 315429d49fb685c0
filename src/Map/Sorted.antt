-- ===== src/Map/Sorted.antt =====
-- Key order: every operation keeps it, and with it a filter on values is seen by lookups.
use Prim.Native.Nat.Ordering.{lt}
use hermesmq.Prelude.{[], ◌∷◌, Bool, none, some, if◌then◌else◌, ◌≡◌, refl, arith}
use hermesmq.Ord.{Ord}
use hermesmq.Map.{Map, get, insert, retain, remove, range_from, map_values}

module _ {ℓ κ} {K : Type ℓ} {V : Type κ} where
  -- Every entry satisfies the predicate.
  abbrev pub AllEntries {μ} : (K → V → Type μ) → Map K V → Type μ
  AllEntries P [] = Unit
  AllEntries P ((k, v) ∷ m) = P k v × AllEntries P m

  pub AllEntries-imp {μ ν} :
      {P : K → V → Type μ} {Q : K → V → Type ν}
      → ((k : K) (v : V) → P k v → Q k v)
      → (m : Map K V) → AllEntries P m
      → AllEntries Q m
  AllEntries-imp f [] a = tt
  AllEntries-imp f ((k, v) ∷ m) a = (f k v a.0, AllEntries-imp f m a.1)

  pub AllEntries-retain {μ} :
      (P : K → V → Type μ) (p : K → V → Bool) (m : Map K V)
      → AllEntries P m
      → AllEntries P (retain p m)
  unfolding retain
  AllEntries-retain P p [] a = tt
  AllEntries-retain P p ((k, v) ∷ m) a = ground (arith, AllEntries-retain P p m a.1)

module _ {ℓ κ} {K : Type ℓ} {V : Type κ} ⦃o : Ord K⦄ where
  abbrev pub IsSorted : Map K V → Type 0
  IsSorted [] = Unit
  IsSorted ((k, v) ∷ m) = AllEntries (λ j _. o.cmp k j ≡ lt) m × IsSorted m

  pub AllEntries-insert {μ} :
      (P : K → V → Type μ) (k : K) (v : V) (m : Map K V)
      → P k v
      → AllEntries P m
      → AllEntries P (insert k v m)
  unfolding insert
  AllEntries-insert P k v [] p a = (p, tt)
  AllEntries-insert P k v ((j, w) ∷ m) p a = ground (arith, AllEntries-insert P k v m p a.1)

  -- An entry that a lookup finds satisfies what all satisfy.
  pub AllEntries-get {μ} :
      (P : K → V → Type μ) (m : Map K V) (k : K) (v : V) → AllEntries P m → get k m ≡ some v → P k v
  unfolding get
  AllEntries-get P [] k v a h = absurd (ground arith)
  AllEntries-get P ((j, w) ∷ m) k v a h =
      ground (arith, o.eq_of_cmp k j, AllEntries-get P m k v a.1)

  pub insert-IsSorted : (k : K) (v : V) (m : Map K V) → IsSorted m → IsSorted (insert k v m)
  unfolding insert
  insert-IsSorted k v [] s = (tt, tt)
  insert-IsSorted k v ((j, w) ∷ m) s = ground (
    arith,
    o.eq_of_cmp k j,
    o.cmp_flip k j,
    insert-IsSorted k v m s.1,
    AllEntries-insert (λ i _. o.cmp j i ≡ lt) k v m,
    λ (h : o.cmp k j ≡ lt). AllEntries-imp (λ i _. o.cmp_trans k j i h) m s.0,
  )

  pub retain-IsSorted : (p : K → V → Bool) (m : Map K V) → IsSorted m → IsSorted (retain p m)
  unfolding retain
  retain-IsSorted p [] s = tt
  retain-IsSorted p ((j, w) ∷ m) s =
      ground (arith, retain-IsSorted p m s.1, AllEntries-retain (λ i _. o.cmp j i ≡ lt) p m s.0)

  pub remove-IsSorted : (k : K) (m : Map K V) → IsSorted m → IsSorted (remove k m)
  unfolding remove
  remove-IsSorted k m s = retain-IsSorted _ m s

  pub range_from-IsSorted : (k : K) (m : Map K V) → IsSorted m → IsSorted (range_from k m)
  unfolding range_from
  range_from-IsSorted k m s = retain-IsSorted _ m s

  -- A key below all others is not among them.
  pub get-above : (k : K) (m : Map K V) → AllEntries (λ j _. o.cmp k j ≡ lt) m → get k m ≡ none
  unfolding get
  get-above k [] a = refl
  get-above k ((j, w) ∷ m) a = ground (arith, get-above k m a.1)

  -- A filter keeps exactly the entries that pass.
  pub get-retain :
      (p : K → V → Bool) (k : K) (m : Map K V)
      → IsSorted m
      → get k (retain p m)
        ≡ elim (get k m) [ none ↦ none | some v ↦ if p k v then some v else none ]
  unfolding get retain
  get-retain p k [] s = refl
  get-retain p k ((j, w) ∷ m) s =
      ground (arith, o.eq_of_cmp k j, get-retain p k m s.1, get-above j m s.0)

  -- What every lookup finds, all entries satisfy.
  pub AllEntries-of_get {μ} :
      (P : K → V → Type μ) (m : Map K V)
      → IsSorted m
      → ((k : K) (v : V) → get k m ≡ some v → P k v)
      → AllEntries P m
  unfolding get
  AllEntries-of_get P [] s f = tt
  AllEntries-of_get P ((j, w) ∷ m) s f = (
    f j w (ground (arith, o.cmp_self j)),
    AllEntries-of_get P m s.1 (λ k v h. f k v (ground (arith, o.eq_of_cmp k j, get-above j m s.0))),
  )

module _ {ℓ κ} {K : Type ℓ} {V : Type κ} ⦃o : Ord K⦄ where
  pub AllEntries-map_values {μ} :
      (P : K → V → Type μ) (f : V → V) (m : Map K V)
      → ((k : K) (v : V) → P k v → P k (f v))
      → AllEntries P m
      → AllEntries P (map_values f m)
  unfolding map_values
  AllEntries-map_values P f [] g a = tt
  AllEntries-map_values P f ((j, w) ∷ m) g a = (g j w a.0, AllEntries-map_values P f m g a.1)

  AllKeys-map_values :
      (P : K → Type 0) (f : V → V) (m : Map K V)
      → AllEntries (λ k _. P k) m
      → AllEntries (λ k _. P k) (map_values f m)
  unfolding map_values
  AllKeys-map_values P f [] a = tt
  AllKeys-map_values P f ((j, w) ∷ m) a = (a.0, AllKeys-map_values P f m a.1)

  pub map_values-IsSorted : (f : V → V) (m : Map K V) → IsSorted m → IsSorted (map_values f m)
  unfolding map_values
  map_values-IsSorted f [] s = tt
  map_values-IsSorted f ((j, w) ∷ m) s =
      (AllKeys-map_values (λ i. o.cmp j i ≡ lt) f m s.0, map_values-IsSorted f m s.1)

  pub get-map_values :
      (f : V → V) (k : K) (m : Map K V)
      → get k (map_values f m) ≡ elim (get k m) [ none ↦ none | some v ↦ some (f v) ]
  unfolding get map_values
  get-map_values f k [] = refl
  get-map_values f k ((j, w) ∷ m) = ground (arith, get-map_values f k m)
