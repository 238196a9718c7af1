-- ===== src/Service/JobPayload/Encoding.antt =====
-- service/job_payload.go: the encoding of a payload and its fields.
use digital_ocean_assignment.Base.{◌≡◌}
use digital_ocean_assignment.Json.Members.{next_string, next_int, last_int, object_members}
use digital_ocean_assignment.Service.JobPayload.{JobPayload, marshal_payload}

-- Two payloads with the same encoding are the same payload.
pub marshal_payload_injective : (p q : JobPayload) → marshal_payload p ≡ marshal_payload q → p ≡ q
unfolding marshal_payload
marshal_payload_injective p q e =
    let (t, e1) = next_string "type" p.type q.type _ _ _ _ (object_members _ _ e) in
    let (n, e2) = next_string "name" p.name q.name _ _ _ _ e1 in
    let (u, e3) = next_string "webhook_url" p.webhook_url q.webhook_url _ _ _ _ e2 in
    let (v, e4) = next_int "version" p.version q.version _ _ _ _ e3 in
    let (m, e5) = next_int "max_retries" p.max_retries q.max_retries _ _ _ _ e4 in
    let s = last_int "timeout_seconds" p.timeout_seconds q.timeout_seconds e5 in
    λ i. record {
      type = t i;
      name = n i;
      webhook_url = u i;
      version = v i;
      max_retries = m i;
      timeout_seconds = s i;
    }
