-- ===== src/Seed/Runtime.antt =====
-- The catalog of scripts/init_db.py and `KubernetesRuntime._apply_sync` of
-- src/aegis_services/action_executor/runtime.py: what the schemas require is what the runtime reads.
use aegis_project.Prelude.{
  sym, ap, ◌∙◌, str_eq, eq_iff, ◌≡◌, inl, inr, refl, String, true, some, List, [], ◌∷◌, All,
  Bool-cases, Option-cases,
}
use aegis_project.Prelude.Int.{ℤ}
use aegis_project.Json.{Json, Fields, get, get_or, has}
use aegis_project.Security.Params.{
  valid, iterate, holds_key, missing_keys, verdict, check_required, validate_action_params,
}
use aegis_project.Store.{Env, ActionCatalogRow}
use aegis_project.Executor.Runtime.{
  ActionResult, Attempt, done, raised, Patch, KubeApi, namespace_of, int_of, apply_sync,
}
use mathlib.Core.Path.{subst}
use aegis_project.Executor.Saga.{get_action}
use aegis_project.Seed.{requires, text_items, seed_actions}

abbrev HasKey : Fields → String → Type 0
HasKey params k = (v : Json) × (get k params ≡ some v)

has-HasKey : (k : String) (params : Fields) → has k params ≡ true → HasKey params k
unfolding has
has-HasKey k params h = elim (Option-cases (get k params)) [
  | inl e ↦ absurd (cc (rw e at h))
  | inr (v, e) ↦ (v, e)
]

no_missing :
    (params : Fields) (ks : List String)
    → verdict (missing_keys params (text_items ks)) ≡ valid
    → All (HasKey params) ks
unfolding missing_keys holds_key
no_missing params [] h = tt
no_missing params (k ∷ ks) h = elim (Bool-cases (has k params)) [
  | inl e ↦ (has-HasKey k params e, no_missing params ks (rw e at h))
  | inr e ↦ absurd (cc (rw e at h))
]

-- Parameters that pass the check of a schema have every key that it requires.
pub requires-HasKey :
    (params : Fields) (ks : List String)
    → validate_action_params (Json.obj params) (requires (text_items ks)) ≡ valid
    → All (HasKey params) ks
unfolding validate_action_params check_required get_or get iterate
requires-HasKey params ks h = no_missing params ks h

-- What holds of all rows holds of the one that is found under a name, which has this name.
get_action-All :
    (P : ActionCatalogRow → Type 0) (name : String) (rows : List ActionCatalogRow)
    (row : ActionCatalogRow)
    → All P rows
    → get_action name rows ≡ some row
    → (row.name ≡ name) × P row
unfolding get_action
get_action-All P name [] row h e = absurd (cc e)
get_action-All P name (r ∷ rs) row (h, hs) e = elim (Bool-cases (str_eq r.name name)) [
  | inl t ↦
      let found : r ≡ row = cc (rw t at e) in
      (
        ap (λ (a : ActionCatalogRow). a.name) (sym found) ∙ (eq_iff r.name name).0 t,
        subst P found h,
      )
  | inr t ↦ get_action-All P name rs row hs (rw t at e)
]

-- A call that returns with success.
abbrev pub Succeeds : {T : Type 0} → Attempt (ActionResult × T) → Type 0
Succeeds (done (r, t)) = r.ok ≡ true
Succeeds (raised e) = ⊥

module _ (env : Env) (kube : KubeApi) (params : Fields) (cluster : kube.Cluster) where
  -- Parameters that pass the check of the action's schema let the runtime apply it.
  abbrev pub IsApplicable : ActionCatalogRow → Type 0
  IsApplicable row =
      validate_action_params (Json.obj params) row.params_schema ≡ valid
      → Succeeds (apply_sync env kube row.name params cluster)

module _ (env : Env) (kube : KubeApi) (params : Fields) (cluster : kube.Cluster)
    (patches : (d ns : Json) (p : Patch) (c : kube.Cluster)
      → (c' : kube.Cluster) × (kube.patch d ns p c ≡ done c'))
    (counts : (v : Json) → get "replicas" params ≡ some v → (n : ℤ) × (int_of env v ≡ done n)) where
  restart-Succeeds :
      HasKey params "deployment"
      → Succeeds (apply_sync env kube "restart_deployment" params cluster)
  unfolding apply_sync
  restart-Succeeds (d, e) =
      let (c, p) = patches d (namespace_of params) Patch.restarted_at cluster in
      rw (apply_sync, e, p) refl

  scale-Succeeds :
      HasKey params "deployment"
      → HasKey params "replicas"
      → Succeeds (apply_sync env kube "scale_replicas" params cluster)
  unfolding apply_sync
  scale-Succeeds (d, e) (v, f) =
      let (n, k) = counts v f in
      let (c, p) = patches d (namespace_of params) (Patch.replicas n) cluster in
      rw (apply_sync, f, k, e, p) refl

  revision-Succeeds :
      HasKey params "deployment" → Succeeds (apply_sync env kube "rollback_revision" params cluster)
  unfolding apply_sync
  revision-Succeeds (d, e) =
      let (c, p) = patches d (namespace_of params) Patch.rollback_annotation cluster in
      rw (apply_sync, e, p) refl

  seed_actions-IsApplicable : All (IsApplicable env kube params cluster) seed_actions
  unfolding apply_sync
  seed_actions-IsApplicable =
      let deployed = requires-HasKey params ("namespace" ∷ "deployment" ∷ []) in
      let scaled = requires-HasKey params ("namespace" ∷ "deployment" ∷ "replicas" ∷ []) in
      (
        λ h. restart-Succeeds (deployed h).1.0,
        (
          λ h. scale-Succeeds (scaled h).1.0 (scaled h).1.1.0,
          (λ h. revision-Succeeds (deployed h).1.0, (λ h. refl, tt)),
        ),
      )

  -- Of a cluster that takes every patch, and parameters with a number under "replicas" where that
  -- key is given: when the executor finds an action of this name in the seeded catalog and the
  -- parameters pass the check against its schema, then the Kubernetes runtime knows the action,
  -- finds all the keys that it reads, and returns with success.
  pub seeded_action-Succeeds :
      (name : String) (row : ActionCatalogRow)
      → get_action name seed_actions ≡ some row
      → validate_action_params (Json.obj params) row.params_schema ≡ valid
      → Succeeds (apply_sync env kube name params cluster)
  seeded_action-Succeeds name row found h =
      let (same, applies) =
        get_action-All (IsApplicable env kube params cluster) name seed_actions row
          seed_actions-IsApplicable found in
      subst (λ n. Succeeds (apply_sync env kube n params cluster)) same (applies h)
