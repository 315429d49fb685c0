-- ===== src/Store.antt =====
-- crates/hermesmq-core/src/storage.rs: the two tables of a node's database. redb is a parameter: a
-- table with its entries in key order. The failure of a redb call, which every operation returns at
-- once, is not modelled here; Log models a failed write of a batch.
pub mod Contents
use hermesmq.Prelude.{
  ℕ, List, [], ◌∷◌, Bool, true, false, ◌&&◌, Option, none, some, ◌≡◌, if◌then◌else◌, ltb, leb, ◌==◌,
}
use hermesmq.Ord.{Ord, nat_ord, list_ord}
use hermesmq.Map.{Map, get, insert, remove, retain, keys, first_key, last_key}
use hermesmq.Types.{Name, Bytes}

-- A redb table.
pub record Redb (K : Type 0) : Type 1 where
  pub Table : Type 0
  pub entries : Table → Map K Bytes
  pub put : K → Bytes → Table → Table
  pub delete : K → Table → Table

pub record IsLawful {K : Type 0} ⦃o : Ord K⦄ (R : Redb K) : Type 0 where
  pub entries-put :
      (k : K) (v : Bytes) (t : R.Table) → R.entries (R.put k v t) ≡ insert k v (R.entries t)
  pub entries-delete : (k : K) (t : R.Table) → R.entries (R.delete k t) ≡ remove k (R.entries t)

-- The bytes of "sys:vote" and "sys:committed".
abbrev pub key_vote : Name
key_vote = 115 ∷ 121 ∷ 115 ∷ 58 ∷ 118 ∷ 111 ∷ 116 ∷ 101 ∷ []

abbrev pub key_committed : Name
key_committed = 115 ∷ 121 ∷ 115 ∷ 58 ∷ 99 ∷ 111 ∷ 109 ∷ 109 ∷ 105 ∷ 116 ∷ 116 ∷ 101 ∷ 100 ∷ []

-- `RedbStore`: the tables `raft_log` and `meta`.
pub record Disk (L : Redb ℕ) (M : Redb Name) : Type 0 where
  pub log : L.Table
  pub meta : M.Table

-- `str::starts_with`
unfoldable pub starts_with : Name → Name → Bool
starts_with key [] = true
starts_with [] (x ∷ prefix) = false
starts_with (y ∷ key) (x ∷ prefix) = y == x && starts_with key prefix

module _ (L : Redb ℕ) (M : Redb Name) where
  -- The loops over the keys and the entries of one transaction.
  unfoldable pub remove_keys : List ℕ → L.Table → L.Table
  remove_keys [] t = t
  remove_keys (key ∷ ks) t = remove_keys ks (L.delete key t)

  unfoldable pub insert_entries : List (ℕ × Bytes) → L.Table → L.Table
  insert_entries [] t = t
  insert_entries ((index, bytes) ∷ es) t = insert_entries es (L.put index bytes t)

  unfoldable pub remove_log_keys : List ℕ → Disk L M → Disk L M
  remove_log_keys ks d = record d { log = remove_keys ks d.log }

  unfoldable pub append_log : List (ℕ × Bytes) → Disk L M → Disk L M
  append_log es d = record d { log = insert_entries es d.log }

  unfoldable pub read_log : ℕ → ℕ → Disk L M → Map ℕ Bytes
  read_log start end d = retain (λ k _. leb start k && ltb k end) (L.entries d.log)

  unfoldable pub truncate_log_from : ℕ → Disk L M → Disk L M
  truncate_log_from index d =
      remove_log_keys (keys (retain (λ k _. leb index k) (L.entries d.log))) d

  unfoldable pub purge_log_upto : ℕ → Disk L M → Disk L M
  purge_log_upto index d = remove_log_keys (keys (retain (λ k _. leb k index) (L.entries d.log))) d

  unfoldable pub first_log_index : Disk L M → Option ℕ
  first_log_index d = first_key (L.entries d.log)

  unfoldable pub last_log_index : Disk L M → Option ℕ
  last_log_index d = last_key (L.entries d.log)

  unfoldable pub put_meta : Name → Bytes → Disk L M → Disk L M
  put_meta key value d = record d { meta = M.put key value d.meta }

  unfoldable pub get_meta : Name → Disk L M → Option Bytes
  get_meta key d = get key (M.entries d.meta)

  unfoldable pub delete_meta : Name → Disk L M → Disk L M
  delete_meta key d = record d { meta = M.delete key d.meta }

  unfoldable pub scan_prefix : Name → Disk L M → Map Name Bytes
  scan_prefix prefix d = retain (λ key _. starts_with key prefix) (M.entries d.meta)

  unfoldable pub save_vote : Bytes → Disk L M → Disk L M
  save_vote vote d = put_meta key_vote vote d

  unfoldable pub read_vote : Disk L M → Option Bytes
  read_vote d = get_meta key_vote d

  unfoldable pub save_committed : Bytes → Disk L M → Disk L M
  save_committed committed d = put_meta key_committed committed d

  unfoldable pub read_committed : Disk L M → Option Bytes
  read_committed d = get_meta key_committed d
