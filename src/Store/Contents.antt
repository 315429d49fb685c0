-- ===== src/Store/Contents.antt =====
-- What the log table holds after each operation.
use hermesmq.Prelude.{
  ℕ, List, [], ◌∷◌, Bool, true, false, ◌&&◌, Option, none, some, ◌≡◌, refl, arith, if◌then◌else◌,
  leb, ◌==◌,
}
use hermesmq.Ord.{nat_ord, list_ord}
use hermesmq.Map.{Map, get, has, retain, keys}
use hermesmq.Map.Lookup.{get-insert, get-remove}
use hermesmq.Types.{Name, Bytes}
use hermesmq.Store.{
  Redb, IsLawful, Disk, remove_keys, insert_entries, remove_log_keys, append_log, truncate_log_from,
  purge_log_upto,
}

-- The value that a list of writes leaves at an index: that of the last one.
unfoldable pub last_write : ℕ → List (ℕ × Bytes) → Option Bytes → Option Bytes
last_write i [] old = old
last_write i ((index, bytes) ∷ es) old = last_write i es (if i == index then some bytes else old)

unfoldable pub listed : ℕ → List ℕ → Bool
listed i [] = false
listed i (k ∷ ks) = let rest = listed i ks in if i == k then true else rest

-- A lookup finds the key of what a filter on keys lists.
listed-keys :
    (p : ℕ → Bool) (i : ℕ) (m : Map ℕ Bytes)
    → listed i (keys (retain (λ k _. p k) m)) ≡ p i && has i m
unfolding listed retain get
listed-keys p i [] = ground arith
listed-keys p i ((k, b) ∷ m) = ground (arith, listed-keys p i m)

module _ (L : Redb ℕ) (M : Redb Name) (lawful : IsLawful L) where
  get-insert_entries :
      (i : ℕ) (es : List (ℕ × Bytes)) (t : L.Table)
      → get i (L.entries (insert_entries L M es t)) ≡ last_write i es (get i (L.entries t))
  unfolding insert_entries last_write
  get-insert_entries i [] t = refl
  get-insert_entries i ((index, bytes) ∷ es) t =
      rw
        (
          get-insert_entries i es (L.put index bytes t),
          lawful.entries-put index bytes t,
          get-insert i index bytes (L.entries t),
        )
        (ground arith)

  get-remove_keys :
      (i : ℕ) (ks : List ℕ) (t : L.Table)
      → get i (L.entries (remove_keys L M ks t))
        ≡ (if listed i ks then none else get i (L.entries t))
  unfolding remove_keys listed
  get-remove_keys i [] t = refl
  get-remove_keys i (k ∷ ks) t =
      rw
        (
          get-remove_keys i ks (L.delete k t),
          lawful.entries-delete k t,
          get-remove i k (L.entries t),
        )
        (ground arith)

  pub get-append_log :
      (i : ℕ) (es : List (ℕ × Bytes)) (d : Disk L M)
      → get i (L.entries (append_log L M es d).log) ≡ last_write i es (get i (L.entries d.log))
  unfolding append_log
  get-append_log i es d = get-insert_entries i es d.log

  -- After `truncate_log_from`, exactly the entries below the index are left.
  pub get-truncate_log_from :
      (i index : ℕ) (d : Disk L M)
      → get i (L.entries (truncate_log_from L M index d).log)
        ≡ (if leb index i then none else get i (L.entries d.log))
  unfolding truncate_log_from remove_log_keys
  get-truncate_log_from i index d =
      rw
        (
          get-remove_keys i (keys (retain (λ k _. leb index k) (L.entries d.log))) d.log,
          listed-keys (λ k. leb index k) i (L.entries d.log),
        )
        (ground arith)

  -- After `purge_log_upto`, exactly the entries above the index are left.
  pub get-purge_log_upto :
      (i index : ℕ) (d : Disk L M)
      → get i (L.entries (purge_log_upto L M index d).log)
        ≡ (if leb i index then none else get i (L.entries d.log))
  unfolding purge_log_upto remove_log_keys
  get-purge_log_upto i index d =
      rw
        (
          get-remove_keys i (keys (retain (λ k _. leb k index) (L.entries d.log))) d.log,
          listed-keys (λ k. leb k index) i (L.entries d.log),
        )
        (ground arith)
