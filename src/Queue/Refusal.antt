-- ===== src/Queue/Refusal.antt =====
-- Refused requests, and the limits on the number of topics.
use hermesmq.Prelude.{[], ◌∷◌, Option, none, some, ◌≡◌, refl}
use hermesmq.Ord.{nat_ord, list_ord}
use hermesmq.Types.{AppRequest, AppResponse, Reason, rejected}
use hermesmq.Limits.{check_consumer}
use hermesmq.Queue.{Queue, check_topic, check_produce, guarded, apply}

guarded-rejected :
    (check : Option Reason) (q : Queue) (r : Queue × AppResponse) (reason : Reason)
    → ((s : Reason) → r.1 ≡ rejected s → ⊥)
    → (guarded check q r).1 ≡ rejected reason
    → (guarded check q r).0 ≡ q
guarded-rejected none q r reason never h = absurd (never reason h)
guarded-rejected (some s) q r reason never h = refl

-- A request that is answered by a refusal has changed nothing, a batch included.
pub apply-rejected :
    (req : AppRequest) (q : Queue) (reason : Reason)
    → (apply req q).1 ≡ rejected reason
    → (apply req q).0 ≡ q
unfolding apply
apply-rejected (AppRequest.create_topic topic) q reason h =
    guarded-rejected (check_topic topic q) q _ reason (λ s e. cc) h
apply-rejected (AppRequest.produce item) q reason h =
    guarded-rejected (check_produce (item ∷ []) q) q _ reason (λ s e. cc) h
apply-rejected (AppRequest.produce_many items) q reason h =
    guarded-rejected (check_produce items q) q _ reason (λ s e. cc) h
apply-rejected (AppRequest.poll topic group max visibility ts_ms) q reason h =
    guarded-rejected (check_consumer topic group) q _ reason (λ s e. cc) h
apply-rejected (AppRequest.poll_auto topic group max visibility ts_ms) q reason h =
    guarded-rejected (check_consumer topic group) q _ reason (λ s e. cc) h
apply-rejected (AppRequest.commit_offset topic group offset) q reason h =
    guarded-rejected (check_consumer topic group) q _ reason (λ s e. cc) h
apply-rejected (AppRequest.commit_offset_at topic group offset ts_ms) q reason h =
    guarded-rejected (check_consumer topic group) q _ reason (λ s e. cc) h
apply-rejected (AppRequest.set_rate_limit topic rate burst) q reason h =
    guarded-rejected (check_topic topic q) q _ reason (λ s e. cc) h
apply-rejected (AppRequest.set_retention topic max_messages max_age_ms) q reason h =
    guarded-rejected (check_topic topic q) q _ reason (λ s e. cc) h
apply-rejected _ q reason h = absurd (cc)
