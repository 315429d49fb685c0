-- ===== src/Map/Extensional.antt =====
-- Two maps in key order that answer every lookup alike are the same list.
use Prim.Native.Nat.Ordering.{lt}
use hermesmq.Prelude.{[], ◌∷◌, some, ◌≡◌, refl, arith}
use hermesmq.Ord.{Ord}
use hermesmq.Map.{Map, get, map_values, last_key, first_key}
use hermesmq.Map.Sorted.{IsSorted, AllEntries, AllEntries-imp, get-above}

module _ {ℓ κ} {K : Type ℓ} {V : Type κ} ⦃o : Ord K⦄ where
  abbrev Agrees : Map K V → Map K V → Type (ℓ ⊔ κ)
  Agrees m n = (k : K) → get k m ≡ get k n

  heads_agree :
      (k j : K) (v w : V) (m n : Map K V)
      → IsSorted ((k, v) ∷ m)
      → IsSorted ((j, w) ∷ n)
      → Agrees ((k, v) ∷ m) ((j, w) ∷ n)
      → (k ≡ j) × (v ≡ w)
  unfolding get
  heads_agree k j v w m n s t a = ground (
    arith,
    a k,
    a j,
    o.cmp_self k,
    o.cmp_self j,
    o.eq_of_cmp k j,
    o.cmp_flip k j,
    λ (h : o.cmp k j ≡ lt). get-above k n (AllEntries-imp (λ i _. o.cmp_trans k j i h) n t.0),
    λ (h : o.cmp j k ≡ lt). get-above j m (AllEntries-imp (λ i _. o.cmp_trans j k i h) m s.0),
  )

  tails_agree :
      (k j : K) (v w : V) (m n : Map K V)
      → IsSorted ((k, v) ∷ m)
      → IsSorted ((j, w) ∷ n)
      → k ≡ j
      → v ≡ w
      → Agrees ((k, v) ∷ m) ((j, w) ∷ n)
      → Agrees m n
  unfolding get
  tails_agree k j v w m n s t p q a i =
      ground (arith, a i, o.eq_of_cmp i k, o.eq_of_cmp i j, get-above k m s.0, get-above j n t.0)

  pub extensional : (m n : Map K V) → IsSorted m → IsSorted n → Agrees m n → m ≡ n
  extensional [] [] s t a = refl
  extensional [] ((j, w) ∷ n) s t a = absurd (unfold get in ground (arith, a j, o.cmp_self j))
  extensional ((k, v) ∷ m) [] s t a = absurd (unfold get in ground (arith, a k, o.cmp_self k))
  extensional ((k, v) ∷ m) ((j, w) ∷ n) s t a =
      let (p, q) = heads_agree k j v w m n s t a in
      let r = extensional m n s.1 t.1 (tails_agree k j v w m n s t p q a) in cc

  -- Changing each value to itself changes nothing.
  pub map_values-id : (f : V → V) (m : Map K V) → AllEntries (λ _ v. f v ≡ v) m → map_values f m ≡ m
  unfolding map_values
  map_values-id f [] a = refl
  map_values-id f ((k, v) ∷ m) a = let r = map_values-id f m a.1 in cc (a.0)

  -- The greatest key is the key of an entry.
  pub last_key-AllEntries {μ} :
      (P : K → Type μ) (m : Map K V) (k : K) → AllEntries (λ j _. P j) m → last_key m ≡ some k → P k
  unfolding last_key
  last_key-AllEntries P [] k a h = absurd (ground arith)
  last_key-AllEntries P (e ∷ []) k a h = ground arith
  last_key-AllEntries P (e ∷ f ∷ m) k a h = last_key-AllEntries P (f ∷ m) k a.1 h

  pub first_key-AllEntries {μ} :
      (P : K → Type μ) (m : Map K V) (k : K)
      → AllEntries (λ j _. P j) m
      → first_key m ≡ some k
      → P k
  first_key-AllEntries P [] k a h = absurd (ground arith)
  first_key-AllEntries P (e ∷ m) k a h = ground arith
