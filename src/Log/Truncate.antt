-- ===== src/Log/Truncate.antt =====
-- What a reader finds after the log was cut.
use hermesmq.Prelude.{
  ℕ, none, ◌≡◌, refl, arith, if◌then◌else◌, ltb, leb, Bool-cases, inl, inr, true, false,
}
use hermesmq.Ord.{nat_ord}
use hermesmq.Map.Lookup.{get-retain_key}
use hermesmq.Types.{Name}
use hermesmq.Store.{Redb, IsLawful}
use hermesmq.Store.Contents.{get-truncate_log_from}
use hermesmq.Log.{LogStore, truncate_flushed}
use hermesmq.Log.Events.{visible}

-- After `truncate` a reader finds nothing at the index or above, and what it found below, wherever the
-- entries were kept.
pub visible-truncate_flushed :
    (L : Redb ℕ) (M : Redb Name) (lawful : IsLawful L) (i index : ℕ) (s : LogStore L M)
    → visible L M i (truncate_flushed L M index s) ≡ (if leb index i then none else visible L M i s)
unfolding visible truncate_flushed
visible-truncate_flushed L M lawful i index s =
    rw
      (
        get-retain_key (λ k. ltb k index) i s.pending,
        get-truncate_log_from L M lawful i index s.disk,
      )
      (elim (Bool-cases (leb index i)) [
        | inl h ↦ let out : ltb i index ≡ false = ground arith in rw (h, out) refl
        | inr h ↦ let kept : ltb i index ≡ true = ground arith in rw (h, kept) refl
      ])
