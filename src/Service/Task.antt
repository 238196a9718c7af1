-- ===== src/Service/Task.antt =====
-- service/task.go. An `asynq.Task` is its type and its payload.
pub mod Encoding
use digital_ocean_assignment.Base.{String, Option, [], ◌∷◌, Result, ok}
use digital_ocean_assignment.Base.Utf8.{Bytes}
use digital_ocean_assignment.Json.{marshal_string, marshal_object}

abbrev pub type_job_process : String
type_job_process = "job:process"

pub record JobProcessPayload : Type 0 where
  pub job_id : String
  pub outbox_id : String

pub record Task : Type 0 where
  pub type : String
  pub payload : Bytes

-- json.Marshal of the struct.
unfoldable pub marshal_task_payload : JobProcessPayload → Bytes
marshal_task_payload p =
    marshal_object
      (("job_id", marshal_string p.job_id) ∷ ("outbox_id", marshal_string p.outbox_id) ∷ [])

-- Two strings can always be encoded.
unfoldable pub new_job_process_task : (job_id outbox_id : String) → Result Task
unfolding marshal_task_payload
new_job_process_task job_id outbox_id = ok (record {
  type = type_job_process;
  payload = marshal_task_payload (record { job_id = job_id; outbox_id = outbox_id });
})

-- The reader of encoding/json at this struct is a parameter.
abbrev pub Unmarshal : Type 0
Unmarshal = Bytes → Option JobProcessPayload

unfoldable pub parse_job_process_payload : Unmarshal → Task → Option JobProcessPayload
parse_job_process_payload unmarshal task = unmarshal task.payload
