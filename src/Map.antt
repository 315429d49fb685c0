-- ===== src/Map.antt =====
-- The standard library's `BTreeMap` and `BTreeSet`, as lists of entries in key order.
pub mod Lookup
pub mod Sorted
pub mod Size
pub mod Extensional
use Prim.Native.Nat.Ordering.{lt, eq, gt}
use hermesmq.Prelude.{
  ℕ, List, [], ◌∷◌, Bool, true, false, not, Option, none, some, if◌then◌else◌, is_some, map,
}
use hermesmq.Ord.{Ord}

abbrev pub Map {ℓ κ} : Type ℓ → Type κ → Type (ℓ ⊔ κ)
Map K V = List (K × V)

-- `BTreeSet`
abbrev pub Set {ℓ} : Type ℓ → Type ℓ
Set K = Map K (Unit {0})

module _ {ℓ} {K : Type ℓ} ⦃o : Ord K⦄ where
  -- `j` is the key `k`.
  abbrev pub same : K → K → Bool
  same k j = elim (o.cmp k j) [ eq ↦ true | _ ↦ false ]

  -- `k` is less than `j`.
  abbrev pub before : K → K → Bool
  before k j = elim (o.cmp k j) [ lt ↦ true | _ ↦ false ]

module _ {ℓ κ} {K : Type ℓ} {V : Type κ} where
  unfoldable pub retain : (K → V → Bool) → Map K V → Map K V
  retain p [] = []
  retain p ((j, v) ∷ m) = let rest = retain p m in if p j v then (j, v) ∷ rest else rest

module _ {ℓ κ} {K : Type ℓ} {V : Type κ} ⦃o : Ord K⦄ where
  unfoldable pub get : K → Map K V → Option V
  get k [] = none
  get k ((j, v) ∷ m) = if same k j then some v else get k m

  -- `contains_key`, and `contains` of a set
  abbrev pub has : K → Map K V → Bool
  has k m = is_some (get k m)

  -- `insert` replaces the value of a key that is there.
  unfoldable pub insert : K → V → Map K V → Map K V
  insert k v [] = (k, v) ∷ []
  insert k v ((j, w) ∷ m) = elim (o.cmp k j) [
    | lt ↦ (k, v) ∷ (j, w) ∷ m
    | eq ↦ (k, v) ∷ m
    | gt ↦ (j, w) ∷ insert k v m
  ]

  unfoldable pub remove : K → Map K V → Map K V
  unfolding retain
  remove k = retain (λ j _. not (same k j))

  -- the part from a key on: `range(k..)`, and what `split_off(&k)` returns
  unfoldable pub range_from : K → Map K V → Map K V
  unfolding retain
  range_from k = retain (λ j _. not (before j k))

module _ {ℓ κ} {K : Type ℓ} {V : Type κ} where
  abbrev pub keys : Map K V → List K
  keys = map (λ e. e.0)

  -- `keys().next()`
  abbrev pub first_key : Map K V → Option K
  first_key [] = none
  first_key (e ∷ m) = some e.0

  -- `keys().next_back()`
  unfoldable pub last_key : Map K V → Option K
  last_key [] = none
  last_key (e ∷ []) = some e.0
  last_key (e ∷ f ∷ m) = last_key (f ∷ m)

  -- `values_mut()`, each value changed by `f`
  unfoldable pub map_values : (V → V) → Map K V → Map K V
  map_values f [] = []
  map_values f ((j, v) ∷ m) = (j, f v) ∷ map_values f m
