-- ===== src/Ord.antt =====
-- The total orders by which a `BTreeMap` keeps its keys: numbers, byte strings and pairs.
use Prim.Native.Nat.{compare, Ordering}
use Prim.Native.Nat.Ordering.{lt, eq, gt}
use hermesmq.Prelude.{ℕ, ◌≡◌, refl, List, [], ◌∷◌, Bool, true, false, arith}

-- `Ordering::reverse`.
abbrev pub flip : Ordering → Ordering
flip lt = gt
flip eq = eq
flip gt = lt

-- `Ordering::then`.
abbrev pub and_then : Ordering → Ordering → Ordering
and_then eq next = next
and_then lt next = lt
and_then gt next = gt

pub record Ord {ℓ} (K : Type ℓ) : Type ℓ where
  pub cmp : K → K → Ordering
  pub cmp_self : (a : K) → cmp a a ≡ eq
  pub eq_of_cmp : (a b : K) → cmp a b ≡ eq → a ≡ b
  pub cmp_flip : (a b : K) → cmp b a ≡ flip (cmp a b)
  pub cmp_trans : (a b c : K) → cmp a b ≡ lt → cmp b c ≡ lt → cmp a c ≡ lt

pub nat_cmp_self : (a : ℕ) → compare a a ≡ eq
nat_cmp_self a = ground arith

pub nat_eq_of_cmp : (a b : ℕ) → compare a b ≡ eq → a ≡ b
nat_eq_of_cmp a b h = ground arith

pub nat_cmp_flip : (a b : ℕ) → compare b a ≡ flip (compare a b)
nat_cmp_flip a b = ground arith

pub nat_cmp_trans : (a b c : ℕ) → compare a b ≡ lt → compare b c ≡ lt → compare a c ≡ lt
nat_cmp_trans a b c h k = ground arith

instance abbrev pub nat_ord : Ord ℕ
nat_ord = record {
  cmp = compare;
  cmp_self = nat_cmp_self;
  eq_of_cmp = nat_eq_of_cmp;
  cmp_flip = nat_cmp_flip;
  cmp_trans = nat_cmp_trans;
}

-- `false` comes before `true`.
abbrev pub bool_cmp : Bool → Bool → Ordering
bool_cmp true true = eq
bool_cmp true false = gt
bool_cmp false true = lt
bool_cmp false false = eq

pub bool_cmp_self : (a : Bool) → bool_cmp a a ≡ eq
bool_cmp_self true = refl
bool_cmp_self false = refl

pub bool_eq_of_cmp : (a b : Bool) → bool_cmp a b ≡ eq → a ≡ b
bool_eq_of_cmp a b h = ground arith

pub bool_cmp-flip : (a b : Bool) → bool_cmp b a ≡ flip (bool_cmp a b)
bool_cmp-flip a b = ground arith

pub bool_cmp_trans : (a b c : Bool) → bool_cmp a b ≡ lt → bool_cmp b c ≡ lt → bool_cmp a c ≡ lt
bool_cmp_trans a b c h k = ground arith

instance abbrev pub bool_ord : Ord Bool
bool_ord = record {
  cmp = bool_cmp;
  cmp_self = bool_cmp_self;
  eq_of_cmp = bool_eq_of_cmp;
  cmp_flip = bool_cmp-flip;
  cmp_trans = bool_cmp_trans;
}

module _ {ℓ κ} {A : Type ℓ} {B : Type κ} ⦃a : Ord A⦄ ⦃b : Ord B⦄ where
  abbrev pub pair_cmp : A × B → A × B → Ordering
  pair_cmp x y = and_then (a.cmp x.0 y.0) (b.cmp x.1 y.1)

  pub pair_cmp_self : (x : A × B) → pair_cmp x x ≡ eq
  pair_cmp_self x = ground (arith, a.cmp_self x.0, b.cmp_self x.1)

  pub pair_eq_of_cmp : (x y : A × B) → pair_cmp x y ≡ eq → x ≡ y
  pair_eq_of_cmp x y h = ground (arith, a.eq_of_cmp x.0 y.0, b.eq_of_cmp x.1 y.1)

  pub pair_cmp-flip : (x y : A × B) → pair_cmp y x ≡ flip (pair_cmp x y)
  pair_cmp-flip x y = ground (arith, a.cmp_flip x.0 y.0, b.cmp_flip x.1 y.1)

  pub pair_cmp_trans : (x y z : A × B) → pair_cmp x y ≡ lt → pair_cmp y z ≡ lt → pair_cmp x z ≡ lt
  pair_cmp_trans x y z h k = ground (
    arith,
    a.eq_of_cmp x.0 y.0,
    a.eq_of_cmp y.0 z.0,
    a.cmp_self x.0,
    a.cmp_trans x.0 y.0 z.0,
    b.cmp_trans x.1 y.1 z.1,
  )

  instance abbrev pub pair_ord : Ord (A × B)
  pair_ord = record {
    cmp = pair_cmp;
    cmp_self = pair_cmp_self;
    eq_of_cmp = pair_eq_of_cmp;
    cmp_flip = pair_cmp-flip;
    cmp_trans = pair_cmp_trans;
  }

module _ {ℓ} {A : Type ℓ} ⦃o : Ord A⦄ where
  -- The order of slices and strings: the first difference decides, a prefix comes first.
  unfoldable pub list_cmp : List A → List A → Ordering
  list_cmp [] [] = eq
  list_cmp [] (y ∷ ys) = lt
  list_cmp (x ∷ xs) [] = gt
  list_cmp (x ∷ xs) (y ∷ ys) = and_then (o.cmp x y) (list_cmp xs ys)

  pub list_cmp_self : (xs : List A) → list_cmp xs xs ≡ eq
  unfolding list_cmp
  list_cmp_self [] = refl
  list_cmp_self (x ∷ xs) = ground (arith, o.cmp_self x, list_cmp_self xs)

  pub list_eq_of_cmp : (xs ys : List A) → list_cmp xs ys ≡ eq → xs ≡ ys
  unfolding list_cmp
  list_eq_of_cmp [] [] h = refl
  list_eq_of_cmp [] (y ∷ ys) h = ground arith
  list_eq_of_cmp (x ∷ xs) [] h = ground arith
  list_eq_of_cmp (x ∷ xs) (y ∷ ys) h = ground (arith, o.eq_of_cmp x y, list_eq_of_cmp xs ys)

  pub list_cmp-flip : (xs ys : List A) → list_cmp ys xs ≡ flip (list_cmp xs ys)
  unfolding list_cmp
  list_cmp-flip [] [] = refl
  list_cmp-flip [] (y ∷ ys) = refl
  list_cmp-flip (x ∷ xs) [] = refl
  list_cmp-flip (x ∷ xs) (y ∷ ys) = ground (arith, o.cmp_flip x y, list_cmp-flip xs ys)

  pub list_cmp_trans :
      (xs ys zs : List A) → list_cmp xs ys ≡ lt → list_cmp ys zs ≡ lt → list_cmp xs zs ≡ lt
  unfolding list_cmp
  list_cmp_trans [] [] zs h k = ground arith
  list_cmp_trans [] (y ∷ ys) [] h k = ground arith
  list_cmp_trans [] (y ∷ ys) (z ∷ zs) h k = refl
  list_cmp_trans (x ∷ xs) [] zs h k = ground arith
  list_cmp_trans (x ∷ xs) (y ∷ ys) [] h k = ground arith
  list_cmp_trans (x ∷ xs) (y ∷ ys) (z ∷ zs) h k = ground (
    arith,
    o.eq_of_cmp x y,
    o.eq_of_cmp y z,
    o.cmp_self x,
    o.cmp_trans x y z,
    list_cmp_trans xs ys zs,
  )

  instance abbrev pub list_ord : Ord (List A)
  list_ord = record {
    cmp = list_cmp;
    cmp_self = list_cmp_self;
    eq_of_cmp = list_eq_of_cmp;
    cmp_flip = list_cmp-flip;
    cmp_trans = list_cmp_trans;
  }
