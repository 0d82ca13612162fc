-- ===== src/Agent/Permission/Roles.antt =====
-- The roles of the agents behind an assignment and a revocation.
use agent_native_db.Prelude.{
  ◌≡◌, ◌≢◌, refl, subst, ◌∙◌, sym, ◌↔◌, ◌⊎◌, inl, inr, true, Option, none, some, List, [], ◌∷◌,
  ◌++◌, In, arith, Option-cases, Bool-cases, ◌||◌, if◌then◌else◌,
}
use agent_native_db.Bytes.{Bytes, eq_bytes}
use agent_native_db.Bytes.Lex.{eq_bytes_iff}
use agent_native_db.Bytes.Map.{lookup, insert, get_or-insert}
use agent_native_db.Storage.Engine.{Engine}
use agent_native_db.Agent.Permission.{
  PermJson, Manager, agent_roles_key, has_name, without, roles_of, with_store, put_agent_roles,
  set_roles, assign_role, revoke_role,
}

has_name_iff : (name : Bytes) (names : List Bytes) → (has_name name names ≡ true) ↔ In name names
unfolding has_name
has_name_iff name [] = ((λ h. cc), (λ h. elim h [ ]))
has_name_iff name (r ∷ rs) = ground (arith, eq_bytes_iff r name, has_name_iff name rs)

In-without :
    (name r : Bytes) (names : List Bytes) → In r (without name names) ↔ (In r names × (r ≢ name))
unfolding without
In-without name r [] = ((λ h. elim h [ ]), (λ h. h.0))
In-without name r (n ∷ names) = elim (Bool-cases (eq_bytes n name)) [
  | inl hit ↦
      let e = (eq_bytes_iff n name).0 hit in
      rw hit (
        (λ h. let (i, ne) = (In-without name r names).0 h in (inr i, ne)),
        (λ h. elim (h.0) [
          | inl here ↦ absurd (h.1 (here ∙ e))
          | inr i ↦ (In-without name r names).1 (i, h.1)
        ]),
      )
  | inr miss ↦ rw miss (
    (λ h. elim h [
      | inl here ↦ (inl here, λ e. cc (miss, (eq_bytes_iff n name).1 (sym here ∙ e)))
      | inr i ↦ (let (i', ne) = (In-without name r names).0 i in (inr i', ne))
    ]),
    (λ h. elim (h.0) [ inl here ↦ inl here | inr i ↦ inr ((In-without name r names).1 (i, h.1)) ]),
  )
]

In-snoc : (r x : Bytes) (names : List Bytes) → In r (names ++ (x ∷ [])) ↔ (In r names ⊎ (r ≡ x))
In-snoc r x [] = (
  (λ h. elim h [ inl e ↦ inr e | inr i ↦ inl i ]),
  (λ h. elim h [ inl i ↦ inr i | inr e ↦ inl e ]),
)
In-snoc r x (n ∷ names) = ground (arith, In-snoc r x names)

module _ (j : PermJson) {e : Engine} where
  agents-with_store : (m : Manager e) (o : Option e.Store) → (with_store j m o).0.agents ≡ m.agents
  unfolding with_store
  agents-with_store m none = refl
  agents-with_store m (some s) = refl

  agents-put :
      (m : Manager e) (agent : Bytes) (names : List Bytes)
      → (put_agent_roles j m agent names).0.agents ≡ m.agents
  unfolding put_agent_roles
  agents-put m agent [] = agents-with_store m (e.delete_key m.store (agent_roles_key agent))
  agents-put m agent (n ∷ names) =
      agents-with_store m (e.set m.store (agent_roles_key agent) (j.of_names (n ∷ names)))

  roles_of-set_roles :
      (m : Manager e) (agent a : Bytes) (names : List Bytes)
      → roles_of (set_roles j m agent names).0 a
        ≡ (if eq_bytes agent a then names else roles_of m a)
  unfolding set_roles roles_of
  roles_of-set_roles m agent a names =
      rw (agents-put (record m { agents = insert agent names m.agents }) agent names)
        (get_or-insert [] agent a names m.agents)

  -- After a revocation, whether its write failed or not, the agent has not the role, and otherwise all
  -- agents have exactly the roles that they had.
  pub revoked :
      (m : Manager e) (agent role a r : Bytes)
      → In r (roles_of (revoke_role j m agent role).0 a)
        ↔ (In r (roles_of m a) × (¬ ((a ≡ agent) × (r ≡ role))))
  unfolding revoke_role
  revoked m agent role a r = elim (Bool-cases (eq_bytes agent a)) [
    | inl same ↦
        let here = (eq_bytes_iff agent a).0 same in
        let left = In-without role r (roles_of m agent) in
        rw (roles_of-set_roles m agent a (without role (roles_of m agent)), same, ← here)
          ((λ h. ((left.0 h).0, λ p. (left.0 h).1 p.1)), (λ h. left.1 (h.0, λ x. h.1 (refl, x))))
    | inr other ↦
        let away : ¬ (a ≡ agent) = λ x. cc (other, (eq_bytes_iff agent a).1 (sym x)) in
        rw (roles_of-set_roles m agent a (without role (roles_of m agent)), other)
          ((λ h. (h, λ p. away p.0)), (λ h. h.0))
  ]

  snoc_assigned :
      (m : Manager e) (agent role a r : Bytes)
      → In r (roles_of (set_roles j m agent (roles_of m agent ++ (role ∷ []))).0 a)
        ↔ (In r (roles_of m a) ⊎ ((a ≡ agent) × (r ≡ role)))
  snoc_assigned m agent role a r = elim (Bool-cases (eq_bytes agent a)) [
    | inl same ↦
        let here = (eq_bytes_iff agent a).0 same in
        let added = In-snoc r role (roles_of m agent) in
        rw (roles_of-set_roles m agent a (roles_of m agent ++ (role ∷ [])), same, ← here)
          (
            (λ h. elim (added.0 h) [ inl i ↦ inl i | inr x ↦ inr (refl, x) ]),
            (λ h. added.1 (elim h [ inl i ↦ inl i | inr p ↦ inr (p.1) ])),
          )
    | inr other ↦
        let away : ¬ (a ≡ agent) = λ x. cc (other, (eq_bytes_iff agent a).1 (sym x)) in
        rw (roles_of-set_roles m agent a (roles_of m agent ++ (role ∷ [])), other)
          ((λ h. inl h), (λ h. elim h [ inl i ↦ i | inr p ↦ absurd (away p.0) ]))
  ]

  there_already :
      (m : Manager e) (agent role a r : Bytes)
      → In role (roles_of m agent)
      → In r (roles_of m a) ↔ (In r (roles_of m a) ⊎ ((a ≡ agent) × (r ≡ role)))
  there_already m agent role a r i = (
    (λ h. inl h),
    (λ h. elim h [
      | inl k ↦ k
      | inr p ↦
          subst (λ (x : Bytes). In x (roles_of m a)) (sym p.1)
            (subst (λ (x : Bytes). In role (roles_of m x)) (sym p.0) i)
    ]),
  )

  -- After an assignment without an error the agent has the role, and otherwise all agents have exactly
  -- the roles that they had.
  pub assigned :
      (m : Manager e) (agent role a r : Bytes)
      → (assign_role j m agent role).1 ≡ true
      → In r (roles_of (assign_role j m agent role).0 a)
        ↔ (In r (roles_of m a) ⊎ ((a ≡ agent) × (r ≡ role)))
  unfolding assign_role
  assigned m agent role a r h = elim (Bool-cases (eq_bytes agent [] || eq_bytes role [])) [
    | inl bad ↦ cc (rw (bad, assign_role) at h)
    | inr good ↦ elim (Option-cases (lookup role m.roles)) [
      | inl gone ↦ cc (rw (good, gone, assign_role) at h)
      | inr (x, there) ↦ elim (Bool-cases (has_name role (roles_of m agent))) [
        | inl had ↦
            rw (good, there, had)
              (there_already m agent role a r ((has_name_iff role (roles_of m agent)).0 had))
        | inr new ↦ rw (good, there, new) (snoc_assigned m agent role a r)
      ]
    ]
  ]
