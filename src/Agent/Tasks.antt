-- ===== src/Agent/Tasks.antt =====
-- internal/agent/taskqueue.go: the queue of tasks. The JSON of a task is a parameter whose decoder inverts
-- its encoder where that does not fail; a priority is the number of the source shifted by 2^63, which keeps the order; a time is a
-- number of nanoseconds, and 0 the zero time, and the difference of two times fits into a Duration; a task's input and the fields that no operation reads are one value. The
-- queue's mutex makes each section between lock and unlock one step, and waiting is not modelled: a
-- dequeue on an empty queue returns `none`.
pub mod Heap
pub mod Stored
mod Examples
use agent_native_db.Prelude.{
  ℕ, ◌+◌, ◌-◌, ◌/◌, Bool, true, false, ◌&&◌, ◌||◌, not, ◌≡◌, Option, none, some, List, [], ◌∷◌,
  ◌++◌, ◌==◌, ◌^◌, ◌%◌, leb, take, if◌then◌else◌,
}
use agent_native_db.Bytes.{Bytes, codes, eq_bytes}
use agent_native_db.Storage.KeyEncode.{
  prefix_system, encode_key, encode_index_key, decode_index_id, prefix_range,
}
use agent_native_db.Storage.Engine.{Engine}
use agent_native_db.Agent.Tasks.Heap.{Task, heap_push, heap_pop}

abbrev pub pending : Bytes
pending = codes "pending"

abbrev pub running : Bytes
running = codes "running"

abbrev pub completed : Bytes
completed = codes "completed"

abbrev pub failed : Bytes
failed = codes "failed"

abbrev pub cancelled : Bytes
cancelled = codes "cancelled"

-- encoding/json on tasks; `none` is an error, as for an input that JSON does not have.
pub record TaskJson : Type 0 where
  pub of_task : Task → Option Bytes
  pub to_task : Bytes → Option Task
  pub to_task-of_task : (t : Task) (bytes : Bytes) → of_task t ≡ some bytes → to_task bytes ≡ some t

unfoldable pub task_key : Bytes → Bytes
unfolding encode_key
task_key id = encode_key prefix_system (codes "task:" ++ id)

abbrev pub agent_field : Bytes → Bytes
agent_field agent_id = codes "agenttask:" ++ agent_id

-- A task with what Enqueue fills in: a new id, the status, the time.
unfoldable pub filled : Bytes → ℕ → Task → Task
filled new_id now t = record t {
  id = if eq_bytes t.id [] then new_id else t.id;
  status = if eq_bytes t.status [] then pending else t.status;
  created_at = if t.created_at == 0 then now else t.created_at;
}

abbrev pub started_task : ℕ → Task → Task
started_task now t = record t { status = running; started_at = now }

-- uint64(d.Milliseconds()) of the difference of two times, which is negative where the clock was set
-- back.
unfoldable pub milliseconds : ℕ → ℕ → ℕ
milliseconds now start =
    if leb start now then (now - start) / 10 ^ 6 else (2 ^ 64 - (start - now) / 10 ^ 6) % 2 ^ 64

-- An empty result is nil, and an empty reason none.
unfoldable pub ended_task : ℕ → Bytes → Bytes → Bytes → Task → Task
unfolding milliseconds
ended_task now status result reason t = record t {
  status = status;
  ended_at = some now;
  result = if eq_bytes result [] then t.result else result;
  error = if eq_bytes reason [] then t.error else reason;
  duration_ms =
      if eq_bytes status completed && not (t.started_at == 0)
      then milliseconds now t.started_at
      else t.duration_ms;
}

module _ (j : TaskJson) (e : Engine) where
  pub record TaskQueue : Type 0 where
    pub db : e.Store
    pub pq : List Task
    pub closed : Bool

  -- The error of the index is dropped; `none` is that of the JSON or of the write of the task.
  unfoldable pub save_task : e.Store → Task → Option e.Store
  unfolding task_key encode_index_key
  save_task s t = elim (j.of_task t) [
    | none ↦ none
    | some json ↦ elim (e.set s (task_key t.id) json) [
      | none ↦ none
      | some s' ↦
          if eq_bytes t.agent_id []
          then some s'
          else elim (e.set s' (encode_index_key prefix_system (agent_field t.agent_id) t.id)
              (1 ∷ [])) [ none ↦ some s' | some s'' ↦ some s'' ]
    ]
  ]

  unfoldable pub get_task : e.Store → Bytes → Option Task
  unfolding task_key
  get_task s id = elim (e.get s (task_key id)) [ none ↦ none | some bytes ↦ j.to_task bytes ]

  -- false is an error
  unfoldable pub enqueue : Bytes → ℕ → TaskQueue → Task → TaskQueue × Bool
  unfolding save_task filled heap_push
  enqueue new_id now q t = elim (save_task q.db (filled new_id now t)) [
    | none ↦ (q, false)
    | some s ↦ (record q { db = s; pq = heap_push q.pq (filled new_id now t) }, true)
  ]

  or_same : e.Store → Option e.Store → e.Store
  or_same s none = s
  or_same s (some s') = s'

  unfoldable pub dequeue : ℕ → TaskQueue → TaskQueue × Option Task
  unfolding save_task heap_pop or_same
  dequeue now q = elim (heap_pop q.pq) [
    | none ↦ (q, none)
    | some (t, rest) ↦ (
      record q { db = or_same q.db (save_task q.db (started_task now t)); pq = rest },
      some (started_task now t),
    )
  ]

  unfoldable pub update_status : ℕ → TaskQueue → Bytes → Bytes → Bytes → Bytes → TaskQueue × Bool
  unfolding get_task save_task ended_task
  update_status now q id status result reason = elim (get_task q.db id) [
    | none ↦ (q, false)
    | some t ↦ elim (save_task q.db (ended_task now status result reason t)) [
      | none ↦ (q, false)
      | some s ↦ (record q { db = s }, true)
    ]
  ]

  unfoldable pub complete : ℕ → TaskQueue → Bytes → Bytes → TaskQueue × Bool
  unfolding update_status
  complete now q id result = update_status now q id completed result []

  unfoldable pub fail : ℕ → TaskQueue → Bytes → Bytes → TaskQueue × Bool
  unfolding update_status
  fail now q id reason = update_status now q id failed [] reason

  unfoldable pub cancel : ℕ → TaskQueue → Bytes → TaskQueue × Bool
  unfolding update_status
  cancel now q id = update_status now q id cancelled [] []

  -- The tasks behind the keys of a scan; an empty status is any.
  tasks_at : e.Store → Bytes → List (Bytes × Bytes) → List Task
  unfolding get_task
  tasks_at s status [] = []
  tasks_at s status ((k, v) ∷ items) =
      let later = tasks_at s status items in
      elim (get_task s (decode_index_id k)) [
        | none ↦ later
        | some t ↦
            if not (eq_bytes status []) && not (eq_bytes t.status status) then later else t ∷ later
      ]

  unfoldable pub list_by_agent : e.Store → Bytes → Bytes → ℕ → Option (List Task)
  unfolding tasks_at encode_index_key prefix_range
  list_by_agent s agent_id status limit =
      elim (e.scan s (prefix_range (encode_index_key prefix_system (agent_field agent_id) []))) [
        | none ↦ none
        | some items ↦ some (tasks_at s status (if limit == 0 then items else take limit items))
      ]

  unfoldable pub close : TaskQueue → TaskQueue
  close q = record q { closed = true }
