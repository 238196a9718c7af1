-- ===== src/Tests/Encodings.antt =====
-- Encodings and hashes, at concrete values.
use digital_ocean_assignment.Base.{
  ◌≡◌, ◌↔◌, refl, String, Option, none, some, ok, if◌then◌else◌, ltb, length, arith, eq_iff,
}
use digital_ocean_assignment.Base.Int.{pos}
use digital_ocean_assignment.Base.Utf8.{Bytes, bytes}
use digital_ocean_assignment.Json.{marshal_string}
use digital_ocean_assignment.Db.Sql.{order_by}
use digital_ocean_assignment.Service.JobPayload.{marshal_payload, new_job_payload}
use digital_ocean_assignment.Service.Task.Encoding.{new_job_process_task_injective}
use digital_ocean_assignment.Service.Idempotency.{
  leaf, object, no_field, field, Decoded, Value, scalar, number, text, null, payload, raw_message,
  canonical_leaf, canonical_json, compute_idempotency_hash, canonical, marshal_scalar,
}
use digital_ocean_assignment.Service.Idempotency.Order.{
  Same, leaves, objects, fields, no_fields, swapped, chained, SameLeaf, SameDecoded, same, read,
  compute_idempotency_hash-Same,
}
use digital_ocean_assignment.Service.Idempotency.Total.{Leaves, compute_idempotency_hash-Leaves}
use digital_ocean_assignment.Handler.Http.{RegisterJobRequest}
use digital_ocean_assignment.Handler.Jobs.{payload_of, request_hash}
use digital_ocean_assignment.Handler.Jobs.Hashes.{request_hash_lem}
use digital_ocean_assignment.Tests.Fixtures.{job_one, id_of}
use digital_ocean_assignment.Tests.Requests.{reminder}

abbrev event_id : String
event_id = id_of 7

new_job_process_task_injective_example : (job_one.id ≡ job_one.id) × (event_id ≡ event_id)
new_job_process_task_injective_example =
    new_job_process_task_injective job_one.id job_one.id event_id event_id refl

-- A reader that knows two texts, which differ in the order of the members.
abbrev one_two : Decoded
one_two = object (field "a" (leaf (number (bytes "1"))) (field "b" (leaf (text "x")) no_field))

abbrev two_one : Decoded
two_one = object (field "b" (leaf (text "x")) (field "a" (leaf (number (bytes "1"))) no_field))

abbrev reader : Bytes → Option Decoded
reader bs =
    if ltb (length bs) 15 then none else if ltb (length bs) 16 then some one_two else some two_one

-- A stand-in for the digest.
abbrev digest : Bytes → String
digest bs = if ltb (length bs) 20 then "short" else "long"

abbrev with_raw : Bytes → Value
with_raw bs =
    object (field "meta" (leaf (raw_message bs)) (field "id" (leaf (scalar null)) no_field))

abbrev raw_with : Bytes → Value
raw_with bs =
    object (field "id" (leaf (scalar null)) (field "meta" (leaf (raw_message bs)) no_field))

abbrev spaced : Bytes
spaced = bytes "{\"b\":\"x\", \"a\":1}"

abbrev compact : Bytes
compact = bytes "{\"a\":1,\"b\":\"x\"}"

canonical_text :
    canonical_json reader (with_raw spaced)
    ≡ ok (bytes "{\"id\":null,\"meta\":{\"a\":1,\"b\":\"x\"}}")
unfolding canonical_json canonical_leaf canonical marshal_scalar bytes order_by marshal_string
canonical_text = refl

same_members : SameDecoded two_one one_two
same_members = objects (swapped "b" "a" _ _ _ (λ e. ground (arith, eq_iff "b" "a", e)))

Same-with_raw : Same (SameLeaf reader) (with_raw spaced) (raw_with compact)
unfolding bytes
Same-with_raw = objects (
    chained
      (fields "meta" (leaves (read _ _ _ _ two_one one_two refl refl same_members))
        (fields "id" (leaves (same (scalar null))) no_fields))
      (swapped "meta" "id" _ _ _ (λ e. ground (arith, eq_iff "meta" "id", e))))

compute_idempotency_hash-Same_example :
    compute_idempotency_hash reader digest (with_raw spaced)
    ≡ compute_idempotency_hash reader digest (raw_with compact)
compute_idempotency_hash-Same_example =
    compute_idempotency_hash-Same reader digest (with_raw spaced) (raw_with compact) Same-with_raw

with_raw-Leaves : Leaves (canonical_leaf reader) (with_raw spaced)
unfolding Leaves canonical_leaf canonical marshal_scalar bytes order_by marshal_string
with_raw-Leaves = ((_, refl), ((_, refl), tt))

compute_idempotency_hash-Leaves_example :
    (bs : Bytes) × (canonical_json reader (with_raw spaced) ≡ ok bs)
    × (compute_idempotency_hash reader digest (with_raw spaced) ≡ ok (digest bs))
compute_idempotency_hash-Leaves_example =
    compute_idempotency_hash-Leaves reader digest (with_raw spaced) with_raw-Leaves

abbrev reminder_one : RegisterJobRequest
reminder_one = record reminder { version = some (pos 1) }

same_encoding : marshal_payload (payload_of reminder) ≡ marshal_payload (payload_of reminder_one)
unfolding new_job_payload
same_encoding = refl

-- A version that is left out counts as 1.
request_hash_lem_example :
    (compute_idempotency_hash reader digest (leaf (payload (payload_of reminder)))
      ≡ ok (request_hash digest (payload_of reminder)))
    × ((request_hash digest (payload_of reminder) ≡ request_hash digest (payload_of reminder_one))
        ↔ (payload_of reminder ≡ payload_of reminder_one))
request_hash_lem_example = request_hash_lem reader digest reminder reminder_one (λ e. same_encoding)
