-- ===== src/Agent/Permission/Examples.antt =====
-- Roles and permissions at concrete inputs.
use agent_native_db.Prelude.{◌≡◌, ◌↔◌, refl, true, [], ◌∷◌}
use agent_native_db.Bytes.{Bytes, codes}
use agent_native_db.Storage.Engine.Memory.{engine}
use agent_native_db.Agent.Permission.{
  PermJson, PermRole, Manager, roles_of, evaluate, assign_role, revoke_role, perm_role_observer,
}
use agent_native_db.Agent.Permission.Rules.{Reason, evaluate_iff}
use agent_native_db.Agent.Permission.Saved.{IsSaved, creates, call, call-IsSaved}

-- The names and the times stand for the JSON.
abbrev json : PermJson
json = record { of_role = λ r. r.name; of_names = λ ns. [] }

abbrev audit : Bytes
audit = codes "audit"

abbrev read : Bytes
read = codes "read"

abbrev observer : PermRole
observer = record {
  name = perm_role_observer;
  description = [];
  permissions = record { resource = audit; action = read; scope = [] } ∷ [];
  created_at = 1;
  updated_at = 1;
}

abbrev agent : Bytes
agent = codes "agent"

abbrev empty : Manager engine
empty = record { store = []; roles = []; agents = [] }

abbrev manager : Manager engine
manager = record empty { roles = (perm_role_observer, observer) ∷ [] }

evaluate_iff_example :
    (evaluate manager agent audit read [] ≡ true)
    ↔ Reason manager.roles (roles_of manager agent) audit read []
evaluate_iff_example = evaluate_iff manager agent audit read []

assigns-ok : (assign_role json manager agent perm_role_observer).1 ≡ true
unfolding assign_role agent_native_db.Bytes.eq_bytes
assigns-ok = refl

empty-IsSaved : IsSaved json empty
unfolding agent_native_db.Bytes.Map.lookup agent_native_db.Storage.Engine.Memory.find roles_of
empty-IsSaved = record { roles = λ n. refl; names = λ a. refl }

creates-ok : (call json empty (creates 1 observer)).1 ≡ true
unfolding call agent_native_db.Agent.Permission.create_role agent_native_db.Bytes.eq_bytes
creates-ok = refl

call-IsSaved_example : IsSaved json (call json empty (creates 1 observer)).0
call-IsSaved_example = call-IsSaved json empty (creates 1 observer) empty-IsSaved creates-ok
