-- ===== src/Handler/Jobs/Hashes.antt =====
-- handler/routes.go, POST /jobs: when two requests count as the same.
use digital_ocean_assignment.Base.{◌≡◌, ◌↔◌, refl, ap, String, Option, ok}
use digital_ocean_assignment.Base.Utf8.{Bytes}
use digital_ocean_assignment.Service.JobPayload.{marshal_payload}
use digital_ocean_assignment.Service.JobPayload.Encoding.{marshal_payload_injective}
use digital_ocean_assignment.Service.Idempotency.{
  leaf, payload, Decoded, canonical, canonical_leaf, canonical_json, compute_idempotency_hash,
}
use digital_ocean_assignment.Handler.Http.{RegisterJobRequest}
use digital_ocean_assignment.Handler.Jobs.{payload_of, request_hash}

-- The digests of two byte slices collide only if the slices are the same.
abbrev pub Apart : (Bytes → String) → Bytes → Bytes → Type 0
Apart sha256_hex xs ys = sha256_hex xs ≡ sha256_hex ys → xs ≡ ys

-- The handler's hash of a request is that of `ComputeIdempotencyHash`, which does not fail, and
-- two requests have the same hash exactly when their payloads are equal, if the digest does not
-- collide on the encodings of these two.
pub request_hash_lem :
    (unmarshal : Bytes → Option Decoded) (sha256_hex : Bytes → String)
    (req req' : RegisterJobRequest)
    → Apart sha256_hex (marshal_payload (payload_of req)) (marshal_payload (payload_of req'))
    → (compute_idempotency_hash unmarshal sha256_hex (leaf (payload (payload_of req)))
        ≡ ok (request_hash sha256_hex (payload_of req)))
      × ((request_hash sha256_hex (payload_of req) ≡ request_hash sha256_hex (payload_of req'))
          ↔ (payload_of req ≡ payload_of req'))
unfolding request_hash compute_idempotency_hash canonical_json canonical canonical_leaf
request_hash_lem unmarshal sha256_hex req req' apart = (
  refl,
  (
    (λ e. marshal_payload_injective (payload_of req) (payload_of req') (apart e)),
    ap (request_hash sha256_hex),
  ),
)
