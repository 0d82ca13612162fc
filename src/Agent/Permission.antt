-- ===== src/Agent/Permission.antt =====
-- internal/agent/permission.go: roles, their assignment to agents, and the test of a permission. The
-- JSON of a role and of a list of names is a parameter; neither fails to be written. Each lock section
-- with the write behind it is one step, and the audit of a test is not modelled.
pub mod Rules
pub mod Roles
pub mod Saved
mod Examples
use agent_native_db.Prelude.{
  ℕ, Bool, true, false, ◌&&◌, ◌||◌, Option, none, some, List, [], ◌∷◌, ◌++◌, ◌==◌, if◌then◌else◌,
}
use agent_native_db.Bytes.{Bytes, codes, eq_bytes, has_prefix}
use agent_native_db.Bytes.Map.{Map, lookup, insert, erase, get_or}
use agent_native_db.Storage.KeyEncode.{encode_key, prefix_system}
use agent_native_db.Storage.Engine.{Engine}

pub record Permission : Type 0 where
  pub resource : Bytes
  pub action : Bytes
  pub scope : Bytes

-- A time is a number, and 0 is the zero time.
pub record PermRole : Type 0 where
  pub name : Bytes
  pub description : Bytes
  pub permissions : List Permission
  pub created_at : ℕ
  pub updated_at : ℕ

abbrev pub wildcard : Bytes
wildcard = 42 ∷ []

abbrev pub action_admin : Bytes
action_admin = codes "admin"

abbrev pub perm_role_admin : Bytes
perm_role_admin = codes "admin"

abbrev pub perm_role_observer : Bytes
perm_role_observer = codes "observer"

unfoldable pub match_resource : Bytes → Bytes → Bool
match_resource pattern want = eq_bytes pattern wildcard || eq_bytes pattern want

unfoldable pub match_action : Bytes → Bytes → Bool
match_action pattern want =
    if eq_bytes pattern wildcard || eq_bytes pattern want
    then true
    else eq_bytes pattern action_admin

-- The pattern without the `*` that it ends in, if it does.
star_stem : Bytes → Option Bytes
star_stem [] = none
star_stem (c ∷ []) = if c == 42 then some [] else none
star_stem (c ∷ d ∷ r) = elim (star_stem (d ∷ r)) [ none ↦ none | some p ↦ some (c ∷ p) ]

unfoldable pub match_scope : Bytes → Bytes → Bool
unfolding star_stem
match_scope pattern want =
    if eq_bytes pattern [] || eq_bytes pattern wildcard
    then true
    else elim (star_stem pattern) [ some p ↦ has_prefix want p | none ↦ eq_bytes pattern want ]

unfoldable pub matches : Permission → Bytes → Bytes → Bytes → Bool
unfolding match_resource match_action match_scope
matches perm resource action scope =
    match_resource perm.resource resource
    && (match_action perm.action action && match_scope perm.scope scope)

-- The loop over the permissions of a role.
any_matches : List Permission → Bytes → Bytes → Bytes → Bool
unfolding matches
any_matches [] resource action scope = false
any_matches (perm ∷ perms) resource action scope =
    let rest = any_matches perms resource action scope in
    if matches perm resource action scope then true else rest

-- The loop over the names of roles; a name without a role is skipped.
any_role : Map PermRole → List Bytes → Bytes → Bytes → Bytes → Bool
unfolding any_matches lookup
any_role roles [] resource action scope = false
any_role roles (name ∷ names) resource action scope =
    let rest = any_role roles names resource action scope in
    elim (lookup name roles) [
      | none ↦ rest
      | some role ↦ if any_matches role.permissions resource action scope then true else rest
    ]

unfoldable pub role_key : Bytes → Bytes
unfolding encode_key
role_key name = encode_key prefix_system (codes "role:" ++ name)

unfoldable pub agent_roles_key : Bytes → Bytes
unfolding encode_key
agent_roles_key agent = encode_key prefix_system (codes "agentrole:" ++ agent)

pub record PermJson : Type 0 where
  pub of_role : PermRole → Bytes
  pub of_names : List Bytes → Bytes

pub record Manager (e : Engine) : Type 0 where
  pub store : e.Store
  pub roles : Map PermRole
  pub agents : Map (List Bytes)

-- Is the name among the roles?
has_name : Bytes → List Bytes → Bool
has_name name [] = false
has_name name (r ∷ rs) = let rest = has_name name rs in if eq_bytes r name then true else rest

-- The roles but for a name.
without : Bytes → List Bytes → List Bytes
without name [] = []
without name (r ∷ rs) = let rest = without name rs in if eq_bytes r name then rest else r ∷ rest

module _ {e : Engine} where
  unfoldable pub roles_of : Manager e → Bytes → List Bytes
  unfolding get_or
  roles_of m agent = get_or [] agent m.agents

  unfoldable pub evaluate : Manager e → Bytes → Bytes → Bytes → Bytes → Bool
  unfolding any_role roles_of
  evaluate m agent resource action scope = any_role m.roles (roles_of m agent) resource action scope

  unfoldable pub get_role : Manager e → Bytes → Option PermRole
  get_role m name = lookup name m.roles

-- The operations that write return the manager, and false for an error.
module _ (j : PermJson) {e : Engine} where
  -- CreateRole at a time.
  unfoldable pub create_role : Manager e → ℕ → PermRole → Manager e × Bool
  create_role m now role =
      let r = record role {
        created_at = if role.created_at == 0 then now else role.created_at;
        updated_at = now;
      } in
      if eq_bytes role.name []
      then (m, false)
      else elim (e.set m.store (role_key role.name) (j.of_role r)) [
        | none ↦ (m, false)
        | some s ↦ (record m { store = s; roles = insert role.name r m.roles }, true)
      ]

  unfoldable pub delete_role : Manager e → Bytes → Manager e × Bool
  delete_role m name = elim (e.delete_key m.store (role_key name)) [
    | none ↦ (m, false)
    | some s ↦ (record m { store = s; roles = erase name m.roles }, true)
  ]

  with_store : Manager e → Option e.Store → Manager e × Bool
  with_store m none = (m, false)
  with_store m (some s) = (record m { store = s }, true)

  put_agent_roles : Manager e → Bytes → List Bytes → Manager e × Bool
  unfolding with_store
  put_agent_roles m agent [] = with_store m (e.delete_key m.store (agent_roles_key agent))
  put_agent_roles m agent (r ∷ rs) =
      with_store m (e.set m.store (agent_roles_key agent) (j.of_names (r ∷ rs)))

  -- The change in memory, and then the write.
  set_roles : Manager e → Bytes → List Bytes → Manager e × Bool
  unfolding put_agent_roles
  set_roles m agent names =
      put_agent_roles (record m { agents = insert agent names m.agents }) agent names

  unfoldable pub assign_role : Manager e → Bytes → Bytes → Manager e × Bool
  unfolding has_name set_roles roles_of
  assign_role m agent role =
      if eq_bytes agent [] || eq_bytes role [] then (m, false) else elim (lookup role m.roles) [
        | none ↦ (m, false)
        | some r ↦
            if has_name role (roles_of m agent)
            then (m, true)
            else set_roles m agent (roles_of m agent ++ (role ∷ []))
      ]

  unfoldable pub revoke_role : Manager e → Bytes → Bytes → Manager e × Bool
  unfolding without set_roles roles_of
  revoke_role m agent role = set_roles m agent (without role (roles_of m agent))
