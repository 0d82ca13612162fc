-- ===== src/Agent/Tasks/Stored.antt =====
-- What the store has of a task behind each operation.
use agent_native_db.Prelude.{
  ℕ, ◌≡◌, refl, sym, ap, ◌∙◌, inl, inr, true, false, some, List, [], ◌∷◌, arith, Bool-cases,
  Option-cases, if◌then◌else◌,
}
use agent_native_db.Bytes.{Bytes, eq_bytes}
use agent_native_db.Bytes.Lex.{eq_bytes_iff}
use agent_native_db.Storage.Engine.{Engine}
use agent_native_db.Storage.KeyEncode.{prefix_system, encode_key, encode_index_key}
use agent_native_db.Agent.Tasks.Heap.{Task, heap_pop}
use agent_native_db.Agent.Tasks.{
  TaskJson, TaskQueue, task_key, agent_field, filled, save_task, get_task, enqueue, started_task,
  dequeue, ended_task, update_status, cancel, cancelled,
}

eq_bytes-task_key : (a b : Bytes) → eq_bytes (task_key a) (task_key b) ≡ eq_bytes a b
unfolding task_key encode_key eq_bytes
eq_bytes-task_key a b = refl

eq_bytes-agent_key :
    (a id b : Bytes)
    → eq_bytes (encode_index_key prefix_system (agent_field a) id) (task_key b) ≡ false
unfolding task_key encode_key encode_index_key eq_bytes
eq_bytes-agent_key a id b = refl

module _ (j : TaskJson) (e : Engine) where
  -- A task that is saved is the one under its id, and the tasks under other ids stay.
  get_task-save_task :
      (s s' : e.Store) (t : Task) (id : Bytes)
      → save_task j e s t ≡ some s'
      → get_task j e s' id ≡ (if eq_bytes t.id id then some t else get_task j e s id)
  unfolding save_task get_task
  get_task-save_task s s' t id h = elim (Option-cases (j.of_task t)) [
    | inl unmade ↦ absurd (ground (arith, h, unmade))
    | inr (json, made) ↦ elim (Option-cases (e.set s (task_key t.id) json)) [
      | inl fails ↦ absurd (ground (arith, h, made, fails))
      | inr (s1, first) ↦
          let at = e.get-set s s1 (task_key t.id) json (task_key id) first in
          elim (Bool-cases (eq_bytes t.agent_id [])) [
            | inl nobody ↦ ground (
              arith,
              h,
              first,
              nobody,
              at,
              eq_bytes-task_key t.id id,
              made,
              j.to_task-of_task t json made,
            )
            | inr agent ↦
                elim (Option-cases (
                  e.set s1 (encode_index_key prefix_system (agent_field t.agent_id) t.id)
                    (1 ∷ []))) [
                      | inl dropped ↦ ground (
                        arith,
                        h,
                        first,
                        agent,
                        dropped,
                        at,
                        eq_bytes-task_key t.id id,
                        made,
                        j.to_task-of_task t json made,
                      )
                      | inr (s2, second) ↦
                          let after =
                            e.get-set s1 s2
                              (encode_index_key prefix_system (agent_field t.agent_id) t.id)
                              (1 ∷ []) (task_key id) second in
                          ground (
                            arith,
                            h,
                            first,
                            agent,
                            second,
                            at,
                            after,
                            eq_bytes-agent_key t.agent_id t.id id,
                            eq_bytes-task_key t.id id,
                            made,
                            j.to_task-of_task t json made,
                          )
                    ]
          ]
    ]
  ]

  -- A task that was enqueued is found under its id, with what Enqueue fills in, and the tasks under other
  -- ids stay.
  pub get_task-enqueue :
      (new_id id : Bytes) (now : ℕ) (q q' : TaskQueue j e) (t : Task)
      → enqueue j e new_id now q t ≡ (q', true)
      → get_task j e q'.db id ≡ (
          if eq_bytes ((filled new_id now t).id) id
          then some (filled new_id now t)
          else get_task j e q.db id)
  unfolding enqueue
  get_task-enqueue new_id id now q q' t h =
      elim (Option-cases (save_task j e q.db (filled new_id now t))) [
        | inl fails ↦ absurd (ground (arith, h, fails))
        | inr (s, saved) ↦
            let same : s ≡ q'.db = ground (arith, h, saved) in
            ap (λ (s : e.Store). get_task j e s id) (sym same)
            ∙ get_task-save_task q.db s (filled new_id now t) id saved
      ]

  -- Complete, Fail and Cancel find a task that is stored under its id, and leave it with its end; the
  -- tasks under other ids and the queue stay.
  pub update_status-stored :
      (now : ℕ) (q q' : TaskQueue j e) (t : Task) (id other status result reason : Bytes)
      → get_task j e q.db id ≡ some t
      → t.id ≡ id
      → update_status j e now q id status result reason ≡ (q', true)
      → (get_task j e q'.db other ≡ (
          if eq_bytes id other
          then some (ended_task now status result reason t)
          else get_task j e q.db other))
        × (q'.pq ≡ q.pq)
  unfolding update_status
  update_status-stored now q q' t id other status result reason there at h =
      elim (Option-cases (save_task j e q.db (ended_task now status result reason t))) [
        | inl fails ↦ absurd (ground (arith, h, there, fails))
        | inr (s, saved) ↦
            let same : s ≡ q'.db = ground (arith, h, there, saved) in
            let kept : (ended_task now status result reason t).id ≡ id = unfold ended_task in at in
            (
              ap (λ (s : e.Store). get_task j e s other) (sym same)
                  ∙ get_task-save_task q.db s (ended_task now status result reason t) other saved
                  ∙ ap
                      (λ (i : Bytes).
                        if eq_bytes i other
                        then some (ended_task now status result reason t)
                        else get_task j e q.db other)
                      kept,
              ground (arith, h, there, saved),
            )
      ]

  -- A task that was cancelled stays in the queue: where it is the one that the queue would hand out, it is
  -- handed out as running, and the store has it as running again, if the store does not fail.
  pub cancelled-runs :
      (now later : ℕ) (q q' : TaskQueue j e) (t : Task) (id : Bytes) (waiting : List Task)
      (s : e.Store)
      → heap_pop q.pq ≡ some (t, waiting)
      → get_task j e q.db id ≡ some t
      → t.id ≡ id
      → cancel j e now q id ≡ (q', true)
      → save_task j e q'.db (started_task later t) ≡ some s
      → ((dequeue j e later q').1 ≡ some (started_task later t))
        × (get_task j e q'.db id ≡ some (ended_task now cancelled [] [] t))
        × (get_task j e (dequeue j e later q').0.db id ≡ some (started_task later t))
  unfolding cancel dequeue
  cancelled-runs now later q q' t id waiting s first there at h saved =
      let (stored, same) = update_status-stored now q q' t id id cancelled [] [] there at h in
      let pops : heap_pop q'.pq ≡ some (t, waiting) = ap heap_pop same ∙ first in
      (
        rw (dequeue, pops) refl,
        stored ∙ ground (arith, eq_bytes_iff id id),
        rw (dequeue, pops, saved)
            (get_task-save_task q'.db s (started_task later t) id saved
              ∙ ground (arith, eq_bytes_iff t.id id, at)),
      )
