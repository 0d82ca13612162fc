-- ===== src/Agent/Tasks/Heap.antt =====
-- internal/agent/taskqueue.go: tasks and their priority queue, with the Push and Pop of container/heap.
use agent_native_db.Prelude.{
  ℕ, zero, suc, ◌+◌, ◌-◌, ◌*◌, ◌/◌, Bool, false, ◌&&◌, Option, none, some, List, [], ◌∷◌, ◌++◌,
  ◌==◌, ltb, leb, length, take, if◌then◌else◌,
}
use agent_native_db.Bytes.{Bytes}

pub record Task : Type 0 where
  pub id : Bytes
  pub agent_id : Bytes
  pub priority : ℕ
  pub status : Bytes
  pub result : Bytes
  pub error : Bytes
  pub duration_ms : ℕ
  pub created_at : ℕ
  pub started_at : ℕ
  pub ended_at : Option ℕ
  -- Name, Description, Input and DependsOn
  pub rest : Bytes

get_elem? : List Task → ℕ → Option Task
get_elem? [] n = none
get_elem? (t ∷ ts) zero = some t
get_elem? (t ∷ ts) (suc n) = get_elem? ts n

set_elem : List Task → ℕ → Task → List Task
set_elem [] n x = []
set_elem (t ∷ ts) zero x = x ∷ ts
set_elem (t ∷ ts) (suc n) x = t ∷ set_elem ts n x

-- Less(i, j), for indexes in the queue.
unfoldable pub less : List Task → ℕ → ℕ → Bool
unfolding get_elem?
less pq i j = elim (get_elem? pq i) [
  | none ↦ false
  | some a ↦ elim (get_elem? pq j) [ none ↦ false | some b ↦ ltb a.priority b.priority ]
]

unfoldable pub swap : List Task → ℕ → ℕ → List Task
unfolding get_elem? set_elem
swap pq i j = elim (get_elem? pq i) [
  | none ↦ pq
  | some a ↦ elim (get_elem? pq j) [ none ↦ pq | some b ↦ set_elem (set_elem pq i b) j a ]
]

-- The loops of container/heap; the fuel is the number of tasks, and each round moves to a parent or to a
-- child.
unfoldable pub up : ℕ → List Task → ℕ → List Task
unfolding less swap
up zero pq j = pq
up (suc fuel) pq j =
    let i = (j - 1) / 2 in
    let rest = up fuel (swap pq i j) i in if j == 0 then pq else if less pq j i then rest else pq

unfoldable pub down : ℕ → List Task → ℕ → ℕ → List Task
unfolding less swap
down zero pq i n = pq
down (suc fuel) pq i n =
    let left = 2 * i + 1 in
    let child = if ltb (left + 1) n && less pq (left + 1) left then left + 1 else left in
    let rest = down fuel (swap pq i child) child n in
    if leb n left then pq else if less pq child i then rest else pq

unfoldable pub heap_push : List Task → Task → List Task
unfolding up
heap_push pq t = up (suc (length pq)) (pq ++ t ∷ []) (length pq)

-- `none` is an empty queue
unfoldable pub heap_pop : List Task → Option (Task × List Task)
unfolding down swap get_elem?
heap_pop pq =
    let n = length pq - 1 in
    let settled = down (length pq) (swap pq 0 n) 0 n in
    elim (get_elem? settled n) [ none ↦ none | some t ↦ some (t, take n settled) ]
