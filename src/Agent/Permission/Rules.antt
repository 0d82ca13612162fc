-- ===== src/Agent/Permission/Rules.antt =====
-- What evaluate allows.
use agent_native_db.Prelude.{
  ◌≡◌, refl, subst, ◌∙◌, sym, ◌↔◌, ◌⊎◌, inl, inr, true, some, List, [], ◌∷◌, ◌++◌, In, arith,
  Option-cases, Bool-cases,
}
use agent_native_db.Bytes.{Bytes, eq_bytes, has_prefix}
use agent_native_db.Bytes.Lex.{eq_bytes_iff, has_prefix-append, append_of_has_prefix}
use agent_native_db.Bytes.Map.{Map, lookup}
use agent_native_db.Storage.Engine.{Engine}
use agent_native_db.Agent.Permission.{
  Permission, PermRole, Manager, wildcard, action_admin, match_resource, match_action, star_stem,
  match_scope, matches, any_matches, any_role, roles_of, evaluate,
}

-- A scope is covered by a pattern that is empty, that is the scope, or that is a prefix of it with a
-- `*` behind it.
abbrev pub CoversScope : Bytes → Bytes → Type 0
CoversScope pattern want =
    (pattern ≡ [])
    ⊎ ((pattern ≡ want) ⊎ ((p : Bytes) × (r : Bytes) × (pattern ≡ p ++ wildcard) × (want ≡ p ++ r)))

-- The permission covers the resource, the action and the scope.
pub record Covers (perm : Permission) (resource action scope : Bytes) : Type 0 where
  pub resources : (perm.resource ≡ wildcard) ⊎ (perm.resource ≡ resource)
  pub actions : (perm.action ≡ wildcard) ⊎ ((perm.action ≡ action) ⊎ (perm.action ≡ action_admin))
  pub scopes : CoversScope perm.scope scope

star_stem-some : (c p : Bytes) → star_stem c ≡ some p → c ≡ p ++ wildcard
unfolding star_stem
star_stem-some [] p h = cc
star_stem-some (c ∷ []) p h = ground arith
star_stem-some (c ∷ d ∷ r) [] h = ground arith
star_stem-some (c ∷ d ∷ r) (q ∷ p) h = ground (arith, star_stem-some (d ∷ r) p)

star_stem-append : (p : Bytes) → star_stem (p ++ wildcard) ≡ some p
unfolding star_stem
star_stem-append [] = refl
star_stem-append (c ∷ []) = refl
star_stem-append (c ∷ d ∷ p) = rw (star_stem-append (d ∷ p)) refl

covered : (pattern want : Bytes) → match_scope pattern want ≡ true → CoversScope pattern want
unfolding match_scope
covered pattern want h = elim (Bool-cases (eq_bytes pattern [])) [
  | inl e ↦ inl ((eq_bytes_iff pattern []).0 e)
  | inr ne ↦ elim (Option-cases (star_stem pattern)) [
    | inl whole ↦
        ground
          (arith, eq_bytes_iff pattern wildcard, eq_bytes_iff pattern want, star_stem-append [])
    | inr (p, e) ↦ elim (Bool-cases (eq_bytes pattern wildcard)) [
      | inl star ↦ inr (inr ([], want, (eq_bytes_iff pattern wildcard).0 star, refl))
      | inr no_star ↦
          let (r, w) = append_of_has_prefix want p (ground arith) in
          inr (inr (p, r, star_stem-some pattern p e, w))
    ]
  ]
]

matched : (pattern want : Bytes) → CoversScope pattern want → match_scope pattern want ≡ true
unfolding match_scope
matched pattern want (inl e) = ground (arith, eq_bytes_iff pattern [])
matched pattern want (inr (inl e)) = elim (Option-cases (star_stem pattern)) [
  | inl whole ↦ ground (arith, eq_bytes_iff pattern want)
  | inr (p, s) ↦
      let at_start : has_prefix want p ≡ true =
        rw (sym e ∙ star_stem-some pattern p s) (has_prefix-append p wildcard) in
      ground arith
]
matched pattern want (inr (inr (p, r, e, w))) =
    let stem : star_stem pattern ≡ some p = rw e (star_stem-append p) in
    let at_start : has_prefix want p ≡ true = rw w (has_prefix-append p r) in ground arith

matches_iff :
    (perm : Permission) (resource action scope : Bytes)
    → (matches perm resource action scope ≡ true) ↔ Covers perm resource action scope
unfolding matches match_resource match_action
matches_iff perm resource action scope = (
  (λ h. record {
    resources =
        ground (arith, eq_bytes_iff perm.resource wildcard, eq_bytes_iff perm.resource resource);
    actions = ground (
      arith,
      eq_bytes_iff perm.action wildcard,
      eq_bytes_iff perm.action action,
      eq_bytes_iff perm.action action_admin,
    );
    scopes = covered perm.scope scope (ground arith);
  }),
  (λ c. ground (
    arith,
    c.resources,
    c.actions,
    matched perm.scope scope c.scopes,
    eq_bytes_iff perm.resource wildcard,
    eq_bytes_iff perm.resource resource,
    eq_bytes_iff perm.action wildcard,
    eq_bytes_iff perm.action action,
    eq_bytes_iff perm.action action_admin,
  )),
)

any_matches_iff :
    (perms : List Permission) (resource action scope : Bytes)
    → (any_matches perms resource action scope ≡ true)
      ↔ ((perm : Permission) × In perm perms × Covers perm resource action scope)
unfolding any_matches
any_matches_iff perms resource action scope = (to perms, from perms)
  where
    to :
        (perms : List Permission)
        → any_matches perms resource action scope ≡ true
        → (perm : Permission) × In perm perms × Covers perm resource action scope
    to [] h = cc
    to (perm ∷ perms) h = elim (Bool-cases (matches perm resource action scope)) [
      | inl e ↦ (perm, inl refl, (matches_iff perm resource action scope).0 e)
      | inr ne ↦ let (p, i, c) = to perms (ground arith) in (p, inr i, c)
    ]

    from :
        (perms : List Permission)
        → (perm : Permission) × In perm perms × Covers perm resource action scope
        → any_matches perms resource action scope ≡ true
    from [] (p, i, c) = elim i [ ]
    from (perm ∷ perms) (p, inl e, c) =
        let good : matches perm resource action scope ≡ true =
          subst (λ (x : Permission). matches x resource action scope ≡ true) e
            ((matches_iff p resource action scope).1 c) in
        ground arith
    from (perm ∷ perms) (p, inr i, c) = ground (arith, from perms (p, i, c))

-- Why a request is allowed: a name with a role, and a permission of the role that covers the request.
pub record Reason (roles : Map PermRole) (names : List Bytes) (resource action scope : Bytes)
    : Type 0 where
  pub name : Bytes
  pub assigned : In name names
  pub role : PermRole
  pub there : lookup name roles ≡ some role
  pub perm : Permission
  pub listed : In perm role.permissions
  pub covers : Covers perm resource action scope

module _ (roles : Map PermRole) (resource action scope : Bytes) where
  reason :
      (names : List Bytes)
      → any_role roles names resource action scope ≡ true
      → Reason roles names resource action scope
  unfolding any_role
  reason [] h = cc
  reason (name ∷ names) h = elim (Bool-cases (any_role roles names resource action scope)) [
    | inl later ↦
        let r = reason names later in
        record {
          name = r.name;
          assigned = inr r.assigned;
          role = r.role;
          there = r.there;
          perm = r.perm;
          listed = r.listed;
          covers = r.covers;
        }
    | inr not_later ↦ elim (Option-cases (lookup name roles)) [
      | inl gone ↦ ground arith
      | inr (role, there) ↦
          let (perm, listed, covers) =
            (any_matches_iff role.permissions resource action scope).0 (ground arith) in
          record {
            name = name;
            assigned = inl refl;
            role = role;
            there = there;
            perm = perm;
            listed = listed;
            covers = covers;
          }
    ]
  ]

  allowed_by :
      (names : List Bytes) (name : Bytes) (role : PermRole)
      → In name names
      → lookup name roles ≡ some role
      → any_matches role.permissions resource action scope ≡ true
      → any_role roles names resource action scope ≡ true
  unfolding any_role
  allowed_by [] name role i h m = elim i [ ]
  allowed_by (n ∷ names) name role (inl e) h m =
      let there : lookup n roles ≡ some role = rw (← e) h in ground (arith, there)
  allowed_by (n ∷ names) name role (inr i) h m =
      ground (arith, allowed_by names name role i h m, Option-cases (lookup n roles))

-- A request is allowed exactly when one of the roles of the agent exists and has a permission that
-- covers the resource, the action and the scope.
pub evaluate_iff :
    {e : Engine} (m : Manager e) (agent resource action scope : Bytes)
    → (evaluate m agent resource action scope ≡ true)
      ↔ Reason m.roles (roles_of m agent) resource action scope
unfolding evaluate
evaluate_iff m agent resource action scope = (
  reason m.roles resource action scope (roles_of m agent),
  (λ r.
      allowed_by m.roles resource action scope (roles_of m agent) r.name r.role r.assigned r.there (
        (any_matches_iff r.role.permissions resource action scope).1 (r.perm, r.listed, r.covers))),
)
