-- ===== src/Agent/Tasks/Examples.antt =====
-- The queue of tasks at concrete inputs, with a serialisation of tasks.
use agent_native_db.Prelude.{
  ℕ, zero, suc, ◌≡◌, refl, true, false, Option, none, some, [], ◌∷◌, if◌then◌else◌,
}
use agent_native_db.Bytes.{Bytes, codes, eq_bytes}
use agent_native_db.Storage.Engine.Memory.{Writes, engine}
use agent_native_db.Raft.Command.Format.{
  with_length, first_part, behind_part, first_part-with_length, behind_part-with_length,
}
use agent_native_db.Agent.Tasks.Heap.{Task, heap_pop}
use agent_native_db.Agent.Tasks.{
  TaskJson, TaskQueue, filled, get_task, save_task, enqueue, started_task, dequeue, ended_task,
  cancel, cancelled,
}
use agent_native_db.Agent.Tasks.Stored.{get_task-enqueue, cancelled-runs}

write_end : Option ℕ → ℕ
write_end none = 0
write_end (some n) = suc n

read_end : ℕ → Option ℕ
read_end zero = none
read_end (suc n) = some n

read-write_end : (o : Option ℕ) → read_end (write_end o) ≡ o
unfolding read_end write_end
read-write_end none = refl
read-write_end (some n) = refl

write_task : Task → Bytes
write_task t =
    t.priority
    ∷ t.duration_ms
    ∷ t.created_at
    ∷ t.started_at
    ∷ write_end t.ended_at
    ∷ with_length t.id (
        with_length t.agent_id (
          with_length t.status
            (with_length t.result (with_length t.error (with_length t.rest [])))))

read_task : Bytes → Option Task
read_task (priority ∷ duration ∷ created ∷ started ∷ ended ∷ a) =
    let b = behind_part a in
    let c = behind_part b in
    let d = behind_part c in
    let f = behind_part d in
    some (record {
      id = first_part a;
      agent_id = first_part b;
      priority = priority;
      status = first_part c;
      result = first_part d;
      error = first_part f;
      duration_ms = duration;
      created_at = created;
      started_at = started;
      ended_at = read_end ended;
      rest = first_part (behind_part f);
    })
read_task _ = none

read-write_task : (t : Task) → read_task (write_task t) ≡ some t
unfolding read_task write_task
read-write_task t = simp (first_part-with_length, behind_part-with_length, read-write_end)

task_format : TaskJson
unfolding write_task read_task with_length first_part behind_part write_end read_end
task_format = record {
  of_task = λ t. some (write_task t);
  to_task = read_task;
  to_task-of_task = λ t bytes h. cc (h, read-write_task t);
}

abbrev mail : Task
mail = record {
  id = codes "m";
  agent_id = codes "a";
  priority = 5;
  status = [];
  result = [];
  error = [];
  duration_ms = 0;
  created_at = 0;
  started_at = 0;
  ended_at = none;
  rest = [];
}

abbrev no_tasks : TaskQueue task_format engine
no_tasks = record { db = []; pq = []; closed = false }

one_task : TaskQueue task_format engine
one_task = (enqueue task_format engine (codes "n") 7 no_tasks mail).0

one_task-enqueued : enqueue task_format engine (codes "n") 7 no_tasks mail ≡ (one_task, true)
unfolding enqueue eq_bytes one_task task_format
one_task-enqueued = refl

abbrev waiting_mail : Task
waiting_mail = record mail { status = codes "pending"; created_at = 7 }

get_task-enqueue_example : get_task task_format engine one_task.db (codes "m") ≡ (
    if eq_bytes (filled (codes "n") 7 mail).id (codes "m")
    then some (filled (codes "n") 7 mail)
    else get_task task_format engine [] (codes "m"))
get_task-enqueue_example =
    get_task-enqueue task_format engine (codes "n") (codes "m") 7 no_tasks one_task mail
      one_task-enqueued

after_cancel : TaskQueue task_format engine
after_cancel = (cancel task_format engine 8 one_task (codes "m")).0

cancel-ok : cancel task_format engine 8 one_task (codes "m") ≡ (after_cancel, true)
unfolding cancel agent_native_db.Storage.Engine.Memory.find one_task enqueue eq_bytes task_format
    after_cancel
cancel-ok = refl

after_start : Writes
after_start = elim (save_task task_format engine after_cancel.db (started_task 9 waiting_mail)) [
  | none ↦ []
  | some s ↦ s
]

start-saved :
    save_task task_format engine after_cancel.db (started_task 9 waiting_mail) ≡ some after_start
unfolding save_task eq_bytes after_start task_format
start-saved = refl

one_task-pops : heap_pop one_task.pq ≡ some (waiting_mail, [])
unfolding heap_pop one_task enqueue eq_bytes task_format
one_task-pops = refl

one_task-there : get_task task_format engine one_task.db (codes "m") ≡ some waiting_mail
unfolding get_task agent_native_db.Storage.Engine.Memory.find one_task enqueue eq_bytes task_format
one_task-there = refl

cancelled-runs_example :
    ((dequeue task_format engine 9 after_cancel).1 ≡ some (started_task 9 waiting_mail))
    × (get_task task_format engine after_cancel.db (codes "m")
        ≡ some (ended_task 8 cancelled [] [] waiting_mail))
    × (get_task task_format engine (dequeue task_format engine 9 after_cancel).0.db (codes "m")
        ≡ some (started_task 9 waiting_mail))
cancelled-runs_example =
    cancelled-runs task_format engine 8 9 one_task after_cancel waiting_mail (codes "m") []
      after_start one_task-pops one_task-there refl cancel-ok start-saved
