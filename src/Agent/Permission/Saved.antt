-- ===== src/Agent/Permission/Saved.antt =====
-- The store holds the roles and the assignments that are in memory.
use agent_native_db.Prelude.{
  ◌≡◌, refl, inl, inr, Bool, true, false, Option, none, some, List, [], ◌∷◌, ◌++◌, ◌||◌, ◌==◌,
  arith, Option-cases, Bool-cases, if◌then◌else◌, ℕ,
}
use agent_native_db.Bytes.{Bytes, eq_bytes}
use agent_native_db.Bytes.Map.{lookup, insert, get_or-insert, lookup-insert, lookup-erase}
use agent_native_db.Storage.KeyEncode.{encode_key}
use agent_native_db.Storage.Engine.{Engine}
use agent_native_db.Agent.Permission.{
  PermJson, PermRole, Manager, role_key, agent_roles_key, has_name, without, with_store,
  put_agent_roles, set_roles, roles_of, create_role, delete_role, assign_role, revoke_role,
}

-- What the store holds for the roles of an agent: nothing where there are none.
abbrev pub saved_names : PermJson → List Bytes → Option Bytes
saved_names j [] = none
saved_names j (r ∷ rs) = some (j.of_names (r ∷ rs))

abbrev pub saved_role : PermJson → Option PermRole → Option Bytes
saved_role j none = none
saved_role j (some r) = some (j.of_role r)

pub record IsSaved (j : PermJson) {e : Engine} (m : Manager e) : Type 0 where
  pub roles : (name : Bytes) → e.get m.store (role_key name) ≡ saved_role j (lookup name m.roles)
  pub names :
      (agent : Bytes) → e.get m.store (agent_roles_key agent) ≡ saved_names j (roles_of m agent)

eq_bytes-role_key :
    (a b : Bytes)
    → (eq_bytes (role_key a) (role_key b) ≡ eq_bytes a b)
      × (eq_bytes (agent_roles_key a) (agent_roles_key b) ≡ eq_bytes a b)
      × (eq_bytes (role_key a) (agent_roles_key b) ≡ false)
      × (eq_bytes (agent_roles_key a) (role_key b) ≡ false)
unfolding role_key agent_roles_key eq_bytes encode_key
eq_bytes-role_key a b = (refl, refl, refl, refl)

module _ (j : PermJson) {e : Engine} where
  pub create_role-IsSaved :
      (m : Manager e) (now : ℕ) (role : PermRole)
      → IsSaved j m
      → IsSaved j (create_role j m now role).0
  unfolding create_role
  create_role-IsSaved m now role v = elim (Bool-cases (eq_bytes role.name [])) [
    | inl bad ↦ rw bad v
    | inr good ↦
        let r : PermRole = record role {
          created_at = if role.created_at == 0 then now else role.created_at;
          updated_at = now;
        } in
        elim (Option-cases (e.set m.store (role_key role.name) (j.of_role r))) [
          | inl failed ↦ rw (good, failed) v
          | inr (s, stored) ↦
              rw (good, stored)
                (record {
                  roles = λ name. ground (
                    arith,
                    e.get-set m.store s (role_key role.name) (j.of_role r) (role_key name) stored,
                    eq_bytes-role_key role.name name,
                    lookup-insert role.name name r m.roles,
                    v.roles name,
                  );
                  names = λ agent.
                      unfold roles_of in
                      ground (
                        arith,
                        e.get-set m.store s (role_key role.name) (j.of_role r)
                            (agent_roles_key agent) stored,
                        eq_bytes-role_key role.name agent,
                        v.names agent,
                      );
                })
        ]
  ]

  pub delete_role-IsSaved :
      (m : Manager e) (name : Bytes) → IsSaved j m → IsSaved j (delete_role j m name).0
  unfolding delete_role
  delete_role-IsSaved m name v = elim (Option-cases (e.delete_key m.store (role_key name))) [
    | inl failed ↦ rw (failed, delete_role) v
    | inr (s, gone) ↦
        rw (gone, delete_role)
          (record {
            roles = λ n. ground (
              arith,
              e.get-delete_key m.store s (role_key name) (role_key n) gone,
              eq_bytes-role_key name n,
              lookup-erase name n m.roles,
              v.roles n,
            );
            names = λ agent.
                unfold roles_of in
                ground (
                  arith,
                  e.get-delete_key m.store s (role_key name) (agent_roles_key agent) gone,
                  eq_bytes-role_key name agent,
                  v.names agent,
                );
          })
  ]

  -- The store behind a write that went well.
  wrote :
      (m : Manager e) (o : Option e.Store)
      → (with_store j m o).1 ≡ true
      → (s : e.Store) × (o ≡ some s) × ((with_store j m o).0 ≡ record m { store = s })
  unfolding with_store
  wrote m none h = cc
  wrote m (some s) h = (s, refl, refl)

  -- What a list of roles that is written leaves in the store.
  put-lem :
      (m : Manager e) (agent : Bytes) (names : List Bytes)
      → (put_agent_roles j m agent names).1 ≡ true
      → (s : e.Store) × ((put_agent_roles j m agent names).0 ≡ record m { store = s })
        × ((k : Bytes)
            → e.get s k ≡ (
                if eq_bytes (agent_roles_key agent) k
                then saved_names j names
                else e.get m.store k))
  unfolding put_agent_roles
  put-lem m agent [] h =
      let (s, gone, same) = wrote m (e.delete_key m.store (agent_roles_key agent)) h in
      (s, same, λ k. e.get-delete_key m.store s (agent_roles_key agent) k gone)
  put-lem m agent (n ∷ names) h =
      let (s, stored, same) =
        wrote m (e.set m.store (agent_roles_key agent) (j.of_names (n ∷ names))) h in
      (s, same, λ k. e.get-set m.store s (agent_roles_key agent) (j.of_names (n ∷ names)) k stored)

  set_roles-IsSaved :
      (m : Manager e) (agent : Bytes) (names : List Bytes)
      → IsSaved j m
      → (set_roles j m agent names).1 ≡ true
      → IsSaved j (set_roles j m agent names).0
  unfolding set_roles
  set_roles-IsSaved m agent names v h =
      let (s, same, held) =
        put-lem (record m { agents = insert agent names m.agents }) agent names h in
      rw same (record {
        roles = λ n. ground (arith, held (role_key n), eq_bytes-role_key agent n, v.roles n);
        names = λ a.
            unfold roles_of in
            ground (
              arith,
              held (agent_roles_key a),
              eq_bytes-role_key agent a,
              get_or-insert [] agent a names m.agents,
              v.names a,
            );
      })

  assign_role-IsSaved :
      (m : Manager e) (agent role : Bytes)
      → IsSaved j m
      → (assign_role j m agent role).1 ≡ true
      → IsSaved j (assign_role j m agent role).0
  unfolding assign_role
  assign_role-IsSaved m agent role v h = elim (Bool-cases (eq_bytes agent [] || eq_bytes role [])) [
    | inl bad ↦ rw bad v
    | inr good ↦ elim (Option-cases (lookup role m.roles)) [
      | inl gone ↦ rw (good, gone) v
      | inr (x, there) ↦ elim (Bool-cases (has_name role (roles_of m agent))) [
        | inl had ↦ rw (good, there, had) v
        | inr new ↦
            rw (good, there, new)
              (set_roles-IsSaved m agent (roles_of m agent ++ (role ∷ [])) v
                (rw (good, there, new, assign_role) at h))
      ]
    ]
  ]

  revoke_role-IsSaved :
      (m : Manager e) (agent role : Bytes)
      → IsSaved j m
      → (revoke_role j m agent role).1 ≡ true
      → IsSaved j (revoke_role j m agent role).0
  unfolding revoke_role
  revoke_role-IsSaved m agent role v h =
      set_roles-IsSaved m agent (without role (roles_of m agent)) v h

-- A call of the manager that writes.
pub data Call : Type 0 where
  creates : ℕ → PermRole → Call
  deletes : Bytes → Call
  assigns revokes : Bytes → Bytes → Call

module _ (j : PermJson) {e : Engine} where
  unfoldable pub call : Manager e → Call → Manager e × Bool
  call m (creates now role) = create_role j m now role
  call m (deletes name) = delete_role j m name
  call m (assigns agent role) = assign_role j m agent role
  call m (revokes agent role) = revoke_role j m agent role

  -- A call that reports no error leaves in the store exactly the roles and the assignments that are in
  -- memory behind it, if the store held exactly those in memory before it.
  pub call-IsSaved :
      (m : Manager e) (c : Call) → IsSaved j m → (call m c).1 ≡ true → IsSaved j (call m c).0
  unfolding call
  call-IsSaved m (creates now role) v h = create_role-IsSaved j m now role v
  call-IsSaved m (deletes name) v h = delete_role-IsSaved j m name v
  call-IsSaved m (assigns agent role) v h = assign_role-IsSaved j m agent role v h
  call-IsSaved m (revokes agent role) v h = revoke_role-IsSaved j m agent role v h
