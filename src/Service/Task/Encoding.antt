-- ===== src/Service/Task/Encoding.antt =====
-- service/task.go: the payload of a task and what it is made of.
use digital_ocean_assignment.Base.{◌≡◌, String, Result, ok, ap, []}
use digital_ocean_assignment.Base.Utf8.{Bytes}
use digital_ocean_assignment.Json.Members.{next_string, last_string, object_members}
use digital_ocean_assignment.Service.Task.{Task, marshal_task_payload, new_job_process_task}

abbrev payload_of : Result Task → Bytes
payload_of (ok task) = task.payload
payload_of _ = []

-- Two calls of `new_job_process_task` that make the same task were given the same job and the
-- same event.
pub new_job_process_task_injective :
    (job job' event event' : String)
    → new_job_process_task job event ≡ new_job_process_task job' event'
    → (job ≡ job') × (event ≡ event')
unfolding new_job_process_task marshal_task_payload
new_job_process_task_injective job job' event event' e =
    let (j, e1) = next_string "job_id" job job' _ _ _ _ (object_members _ _ (ap payload_of e)) in
    (j, last_string "outbox_id" event event' e1)
