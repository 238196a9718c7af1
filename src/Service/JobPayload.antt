-- ===== src/Service/JobPayload.antt =====
-- service/job_payload.go, and the encoding of the payload by encoding/json.
pub mod Encoding
use digital_ocean_assignment.Base.{String, Option, none, some, [], ◌∷◌, if◌then◌else◌}
use digital_ocean_assignment.Base.Int.{ℤ, pos, ltb_ℤ}
use digital_ocean_assignment.Base.Utf8.{Bytes}
use digital_ocean_assignment.Json.{marshal_string, marshal_int, marshal_object}

pub record JobPayload : Type 0 where
  pub type : String
  pub name : String
  pub webhook_url : String
  pub version : ℤ
  pub max_retries : ℤ
  pub timeout_seconds : ℤ

-- `if p != nil && *p > 0 { field = *p }`, over the field's value.
abbrev pub positive_or : ℤ → Option ℤ → ℤ
positive_or old none = old
positive_or old (some n) = if ltb_ℤ (pos 0) n then n else old

unfoldable pub new_job_payload :
    (job_type name webhook_url : String) (version max_retries timeout_seconds : Option ℤ)
    → JobPayload
new_job_payload job_type name webhook_url version max_retries timeout_seconds = record {
  type = job_type;
  name = name;
  webhook_url = webhook_url;
  version = positive_or (pos 1) version;
  max_retries = positive_or (pos 5) max_retries;
  timeout_seconds = positive_or (pos 15) timeout_seconds;
}

-- json.Marshal of the struct writes the fields in the order of their declaration.
unfoldable pub marshal_payload : JobPayload → Bytes
marshal_payload p = marshal_object (
    ("type", marshal_string p.type)
    ∷ ("name", marshal_string p.name)
    ∷ ("webhook_url", marshal_string p.webhook_url)
    ∷ ("version", marshal_int p.version)
    ∷ ("max_retries", marshal_int p.max_retries)
    ∷ ("timeout_seconds", marshal_int p.timeout_seconds)
    ∷ [])
