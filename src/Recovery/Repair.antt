-- ===== src/Recovery/Repair.antt =====
-- After `recover_consistency` the disk is one from which openraft can start.
use hermesmq.Prelude.{
  ℕ, ◌≤◌, false, Option, none, some, ◌≡◌, refl, arith, Bool-cases, Option-cases, inl, inr, subst,
  sym, ◌∙◌,
}
use hermesmq.Ord.{nat_ord, list_ord}
use hermesmq.Map.Lookup.{get-remove, same_self}
use hermesmq.Map.Sorted.{IsSorted}
use hermesmq.Types.{Name, Bytes}
use hermesmq.Store.{
  Redb, IsLawful, Disk, first_log_index, delete_meta, read_committed, get_meta, key_committed,
}
use hermesmq.Log.{Codec}
use hermesmq.Recovery.{
  base_next, drop_orphaned, reachable, is_unbacked, drop_unbacked, recover_consistency,
}
use hermesmq.Recovery.Orphans.{
  StartsBy, drop_orphaned-StartsBy, drop_orphaned-id, read_committed-drop_orphaned,
}

module _ (L : Redb ℕ) (M : Redb Name) (log_lawful : IsLawful L) (meta_lawful : IsLawful M) where
  module _ (LogId : Type 0) (index : LogId → ℕ) (marks : Codec (Option LogId))
      (snapshot : Option ℕ) where
    -- openraft finds the log where replay begins, and nothing committed past what can be served.
    pub record IsRecovered (d : Disk L M) : Type 0 where
      pub starts : StartsBy (base_next L M snapshot) (first_log_index L M d)
      pub served :
          (b : Bytes) (c : LogId)
          → read_committed L M d ≡ some b
          → marks.dec b ≡ some (some c)
          → (r : ℕ) × ((reachable L M snapshot d ≡ some r) × (index c ≤ r))

    -- a run that may fail
    abbrev Recovered : Option (Disk L M) → Type 0
    Recovered none = Unit
    Recovered (some d) = IsRecovered d

    backed :
        (o : Option ℕ) (i : ℕ) → is_unbacked L M o i ≡ false → (r : ℕ) × ((o ≡ some r) × (i ≤ r))
    backed none i u = absurd (ground arith)
    backed (some r) i u = (r, (refl, ground arith))

    committed_gone : (d : Disk L M) → read_committed L M (delete_meta L M key_committed d) ≡ none
    unfolding read_committed get_meta delete_meta
    committed_gone d =
        rw
          (
            meta_lawful.entries-delete key_committed d.meta,
            get-remove key_committed key_committed (M.entries d.meta),
            same_self key_committed,
          )
          refl

    drop_unbacked-Recovered :
        (d : Disk L M)
        → StartsBy (base_next L M snapshot) (first_log_index L M d)
        → Recovered (drop_unbacked L M LogId index marks snapshot d)
    unfolding drop_unbacked
    drop_unbacked-Recovered d s = elim (Option-cases (read_committed L M d)) [
      | inl h ↦
          rw (drop_unbacked, h) (record { starts = s; served = λ b c e f. absurd (ground arith) })
      | inr (b, h) ↦ elim (Option-cases (marks.dec b)) [
        | inl k ↦ rw (drop_unbacked, h, k) tt
        | inr (m, k) ↦ decided b m h k
      ]
    ]
      where
        decided :
            (b : Bytes) (m : Option LogId)
            → read_committed L M d ≡ some b
            → marks.dec b ≡ some m
            → Recovered (drop_unbacked L M LogId index marks snapshot d)
        decided b none h k =
            rw (drop_unbacked, h, k)
              (record { starts = s; served = λ b' c e f. absurd (ground (arith, h, k, e, f)) })
        decided b (some c) h k =
            elim (Bool-cases (is_unbacked L M (reachable L M snapshot d) (index c))) [
              | inl u ↦
                  rw (drop_unbacked, h, k, u)
                    (record {
                      starts = unfold first_log_index delete_meta in s;
                      served = λ b' c' e f. absurd (ground (arith, committed_gone d));
                    })
              | inr u ↦
                  rw (drop_unbacked, h, k, u)
                    (record {
                      starts = s;
                      served = λ b' c' e f.
                          let bytes : b ≡ b' = ground (arith, h, e) in
                          let same : c ≡ c' = ground (arith, bytes, k, f) in
                          subst
                            (λ x. (r : ℕ) × ((reachable L M snapshot d ≡ some r) × (index x ≤ r)))
                            same (backed (reachable L M snapshot d) (index c) u);
                    })
            ]

    -- The committed record, if there is one, can be decoded.
    abbrev pub IsReadable : Disk L M → Type 0
    IsReadable d =
        (b : Bytes) → read_committed L M d ≡ some b → (m : Option LogId) × (marks.dec b ≡ some m)

    drop_unbacked-some :
        (d : Disk L M)
        → IsReadable d
        → (r : Disk L M) × (drop_unbacked L M LogId index marks snapshot d ≡ some r)
    unfolding drop_unbacked
    drop_unbacked-some d f = elim (Option-cases (read_committed L M d)) [
      | inl h ↦ (d, rw (drop_unbacked, h) refl)
      | inr (b, h) ↦ let (m, k) = f b h in decided b m h k
    ]
      where
        decided :
            (b : Bytes) (m : Option LogId)
            → read_committed L M d ≡ some b
            → marks.dec b ≡ some m
            → (r : Disk L M) × (drop_unbacked L M LogId index marks snapshot d ≡ some r)
        decided b none h k = (d, rw (drop_unbacked, h, k) refl)
        decided b (some c) h k =
            elim (Bool-cases (is_unbacked L M (reachable L M snapshot d) (index c))) [
              | inl u ↦ (delete_meta L M key_committed d, rw (drop_unbacked, h, k, u) refl)
              | inr u ↦ (d, rw (drop_unbacked, h, k, u) refl)
            ]

    -- If the log's entries are in order and the committed record, where there is one, can be decoded,
    -- then `recover_consistency` returns a disk whose log is empty or starts where replay begins or
    -- before, and whose committed position, if one is left, is at most the snapshot's or the last
    -- entry's.
    pub recover_consistency-IsRecovered :
        (d : Disk L M)
        → IsSorted (L.entries d.log)
        → IsReadable d
        → (r : Disk L M) × ((recover_consistency L M LogId index marks (some snapshot) d ≡ some r)
            × IsRecovered r)
    unfolding recover_consistency
    recover_consistency-IsRecovered d s f =
        let dropped = drop_orphaned L M snapshot d in
        let (r, e) = drop_unbacked-some dropped (λ b h.
          f b (sym (read_committed-drop_orphaned L M log_lawful meta_lawful snapshot d) ∙ h)) in
        (
          r,
          (
            e,
            subst Recovered e (
                drop_unbacked-Recovered dropped
                  (drop_orphaned-StartsBy L M log_lawful meta_lawful snapshot d s)),
          ),
        )

    -- A disk from which openraft can start is left as it is, if its committed record, where there is
    -- one, can be decoded: `recover_consistency` does nothing to a healthy store, nor a second time.
    pub recover_consistency-id :
        (d : Disk L M)
        → IsRecovered d
        → IsReadable d
        → recover_consistency L M LogId index marks (some snapshot) d ≡ some d
    unfolding recover_consistency drop_unbacked
    recover_consistency-id d v f =
        rw (drop_orphaned-id L M log_lawful meta_lawful snapshot d v.starts)
          (elim (Option-cases (read_committed L M d)) [
            | inl h ↦ rw (drop_unbacked, h) refl
            | inr (b, h) ↦ let (m, k) = f b h in kept b m h k
          ])
      where
        kept :
            (b : Bytes) (m : Option LogId)
            → read_committed L M d ≡ some b
            → marks.dec b ≡ some m
            → drop_unbacked L M LogId index marks snapshot d ≡ some d
        kept b none h k = rw (drop_unbacked, h, k) refl
        kept b (some c) h k =
            let (r, (e, l)) = v.served b c h k in
            let backed_by : is_unbacked L M (reachable L M snapshot d) (index c) ≡ false =
              rw e (ground arith) in
            rw (drop_unbacked, h, k, backed_by) refl
