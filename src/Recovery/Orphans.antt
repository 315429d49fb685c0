-- ===== src/Recovery/Orphans.antt =====
-- What `recover_consistency` does to a log whose prefix was lost.
use hermesmq.Prelude.{
  ℕ, ◌≤◌, ◌<◌, [], ◌∷◌, false, Option, none, some, ◌≡◌, refl, arith, ltb, ◌==◌, Bool-cases,
  Option-cases, inl, inr, subst,
}
use hermesmq.Ord.{nat_ord, list_ord, list_cmp}
use hermesmq.Map.{Map, get, first_key, last_key}
use hermesmq.Map.Lookup.{get-remove}
use hermesmq.Map.Sorted.{IsSorted}
use hermesmq.Types.{Name}
use hermesmq.Store.{
  Redb, IsLawful, Disk, first_log_index, last_log_index, purge_log_upto, remove_log_keys,
  delete_meta, read_committed, get_meta, key_committed,
}
use hermesmq.Store.Contents.{get-purge_log_upto}
use hermesmq.Log.{key_purged}
use hermesmq.Recovery.{base_next, purge_all, drop_orphaned}

-- No key lies above the last one.
last_key-greatest :
    {V : Type 0} (m : Map ℕ V) (k l : ℕ) (v : V)
    → IsSorted m
    → get k m ≡ some v
    → last_key m ≡ some l
    → k ≤ l
unfolding get last_key
last_key-greatest [] k l v s e f = ground arith
last_key-greatest ((j, w) ∷ []) k l v s e f = ground arith
last_key-greatest ((j, w) ∷ (i, u) ∷ m) k l v s e f =
    let below : j < i = ground (arith, s.0.0) in
    let head = last_key-greatest ((i, u) ∷ m) i l u s.1 (ground arith) f in
    elim (Bool-cases (k == j)) [
      | inl h ↦ ground (arith, head)
      | inr h ↦ last_key-greatest ((i, u) ∷ m) k l v s.1 (ground arith) f
    ]

-- The first key has a value.
get-first_key :
    {V : Type 0} (m : Map ℕ V) (k : ℕ) → first_key m ≡ some k → (v : V) × (get k m ≡ some v)
unfolding get
get-first_key [] k e = ground arith
get-first_key ((j, w) ∷ m) k e = (w, ground arith)

last_key-none : {V : Type 0} (m : Map ℕ V) → last_key m ≡ none → first_key m ≡ none
unfolding last_key
last_key-none [] e = refl
last_key-none ((j, w) ∷ []) e = ground arith
last_key-none ((j, w) ∷ (i, u) ∷ m) e = ground (arith, last_key-none ((i, u) ∷ m) e)

-- The log is empty, or starts where replay begins or before.
abbrev pub StartsBy : ℕ → Option ℕ → Type 0
StartsBy base none = Unit
StartsBy base (some first) = first ≤ base

module _ (L : Redb ℕ) (M : Redb Name) (log_lawful : IsLawful L) (meta_lawful : IsLawful M) where
  -- Everything up to the last entry is everything.
  purged_empty :
      (d : Disk L M) (last : ℕ)
      → IsSorted (L.entries d.log)
      → last_log_index L M d ≡ some last
      → first_log_index L M (purge_log_upto L M last d) ≡ none
  unfolding last_log_index first_log_index
  purged_empty d last s e =
      elim (Option-cases (first_key (L.entries (purge_log_upto L M last d).log))) [
        | inl h ↦ h
        | inr (k, h) ↦
            let (v, g) = get-first_key (L.entries (purge_log_upto L M last d).log) k h in
            let purged = get-purge_log_upto L M log_lawful k last d in
            let found : get k (L.entries d.log) ≡ some v = ground (arith, purged, g) in
            let le = last_key-greatest (L.entries d.log) k last v s found e in
            absurd (ground (arith, purged, g, le))
      ]

  purge_all-empty :
      (d : Disk L M) → IsSorted (L.entries d.log) → first_log_index L M (purge_all L M d) ≡ none
  unfolding purge_all first_log_index last_log_index
  purge_all-empty d s = elim (Option-cases (last_log_index L M d)) [
    | inl h ↦ rw (purge_all, h) (last_key-none (L.entries d.log) h)
    | inr (last, h) ↦ rw (purge_all, h) (purged_empty d last s h)
  ]

  pub drop_orphaned-StartsBy :
      (snapshot : Option ℕ) (d : Disk L M)
      → IsSorted (L.entries d.log)
      → StartsBy (base_next L M snapshot) (first_log_index L M (drop_orphaned L M snapshot d))
  unfolding drop_orphaned first_log_index
  drop_orphaned-StartsBy snapshot d s = elim (Option-cases (first_log_index L M d)) [
    | inl h ↦ rw (drop_orphaned, h, h) tt
    | inr (first, h) ↦ elim (Bool-cases (ltb (base_next L M snapshot) first)) [
      | inl k ↦
          let gone : first_log_index L M (delete_meta L M key_purged (purge_all L M d)) ≡ none =
            unfold first_log_index delete_meta in purge_all-empty d s in
          rw (drop_orphaned, h, k, gone) tt
      | inr k ↦ rw (drop_orphaned, h, k, h) (ground arith)
    ]
  ]

  pub drop_orphaned-id :
      (snapshot : Option ℕ) (d : Disk L M)
      → StartsBy (base_next L M snapshot) (first_log_index L M d)
      → drop_orphaned L M snapshot d ≡ d
  unfolding drop_orphaned
  drop_orphaned-id snapshot d s = elim (Option-cases (first_log_index L M d)) [
    | inl h ↦ rw (drop_orphaned, h) refl
    | inr (first, h) ↦
        let starts : first ≤ base_next L M snapshot =
          subst (StartsBy (base_next L M snapshot)) h s in
        let stays : ltb (base_next L M snapshot) first ≡ false = ground arith in
        rw (drop_orphaned, h, stays) refl
  ]

  purge_all-meta : (d : Disk L M) → (purge_all L M d).meta ≡ d.meta
  unfolding purge_all purge_log_upto remove_log_keys
  purge_all-meta d = elim (Option-cases (last_log_index L M d)) [
    | inl h ↦ rw (purge_all, h) refl
    | inr (last, h) ↦ rw (purge_all, h) refl
  ]

  pub read_committed-drop_orphaned :
      (snapshot : Option ℕ) (d : Disk L M)
      → read_committed L M (drop_orphaned L M snapshot d) ≡ read_committed L M d
  unfolding drop_orphaned read_committed get_meta delete_meta list_cmp
  read_committed-drop_orphaned snapshot d = elim (Option-cases (first_log_index L M d)) [
    | inl h ↦ rw (drop_orphaned, h) refl
    | inr (first, h) ↦ elim (Bool-cases (ltb (base_next L M snapshot) first)) [
      | inl k ↦
          rw
            (
              drop_orphaned,
              h,
              k,
              meta_lawful.entries-delete key_purged (purge_all L M d).meta,
              get-remove key_committed key_purged (M.entries (purge_all L M d).meta),
              purge_all-meta d,
            )
            refl
      | inr k ↦ rw (drop_orphaned, h, k) refl
    ]
  ]
