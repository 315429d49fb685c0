-- ===== src/Client/Checks.antt =====
-- The port turns away exactly the requests that the queue would refuse.
use hermesmq.Prelude.{Option, none, some, ◌≡◌, refl, arith}
use hermesmq.Ord.{list_ord, nat_ord}
use hermesmq.Types.{Name, ContentType, raw, text, json, msg_pack, Reason}
use hermesmq.Limits.{check_name, check_consumer}
use hermesmq.Queue.{Queue, topic_admits, check_topic}
use hermesmq.Client.{
  check_len, check_names, check_new_topic, ct_from_u32, ct_to_u32, resp_error, of_reason, Response,
  ErrorText, error,
}

-- What a reader of an answer learns of a refusal: its text.
abbrev pub text_of : Option Response → Option ErrorText
text_of none = none
text_of (some (error e)) = some e.message
text_of (some _) = none

abbrev pub text_of_reason : Option Reason → Option ErrorText
text_of_reason none = none
text_of_reason (some reason) = some (of_reason reason)

-- `check_names` turns a consumer's request away when `check_consumer` of the queue refuses it and only
-- then, with the same text.
pub check_names-check_consumer :
    (topic group : Name)
    → text_of (check_names topic group) ≡ text_of_reason (check_consumer topic group)
unfolding check_names check_len check_consumer resp_error
check_names-check_consumer topic group = ground arith

-- `check_new_topic` turns a request away when `check_topic` of the queue refuses its topic and only
-- then, with the same text.
pub check_new_topic-check_topic :
    (topic : Name) (q : Queue)
    → text_of (check_new_topic topic q) ≡ text_of_reason (check_topic topic q)
unfolding check_new_topic check_names check_len check_topic check_name resp_error topic_admits
check_new_topic-check_topic topic q = ground arith

pub ct_from-ct_to : (c : ContentType) → ct_from_u32 (ct_to_u32 c) ≡ c
unfolding ct_from_u32 ct_to_u32
ct_from-ct_to raw = refl
ct_from-ct_to text = refl
ct_from-ct_to json = refl
ct_from-ct_to msg_pack = refl
