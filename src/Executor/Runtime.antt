-- ===== src/Executor/Runtime.antt =====
-- src/aegis_services/action_executor/runtime.py: the adapters that act on the infrastructure.
use aegis_project.Prelude.{
  ℕ, String, Bool, true, false, not, Option, none, some, List, ◌∷◌, str_eq, if◌then◌else◌,
}
use aegis_project.Prelude.Int.{ℤ}
use aegis_project.Json.{Json, Fields, get, get_or, json_eq, to_int, truthy, or_default}
use aegis_project.Schemas.{◌⧺◌}
use aegis_project.Security.Signing.{Crypto, Capability, is_valid}
use aegis_project.Store.{Env}

pub record ActionResult : Type 0 where
  pub ok : Bool
  pub detail : String

-- `ActionRuntime`: the wall clock's reading, the action, its parameters and the capability, on a
-- target that it may change.
pub record Runtime (c : Crypto) : Type 1 where
  pub Target : Type 0
  pub apply : ℕ → String → Fields → Capability c → Target → ActionResult × Target

-- `params.get("namespace", "default")`
abbrev pub namespace_of : Fields → Json
namespace_of params = get_or "namespace" (Json.text "default") params

-- `_scope_ok`
unfoldable pub scope_ok : {c : Crypto} → Fields → Capability c → Bool
unfolding json_eq get_or
scope_ok params cap = json_eq (namespace_of params) cap.namespace

abbrev pub failure : {T : Type 0} → String → T → ActionResult × T
failure detail t = (record { ok = false; detail = detail }, t)

abbrev pub success : {T : Type 0} → String → T → ActionResult × T
success detail t = (record { ok = true; detail = detail }, t)

module _ (env : Env) where
  -- The target of a dry run: the actions that it has logged, the latest first.
  abbrev pub DryLog : Type 0
  DryLog = List (String × Fields)

  -- `DryRunRuntime.apply`
  unfoldable pub dry_apply :
      ℕ → String → Fields → Capability env.crypto → DryLog → ActionResult × DryLog
  unfolding scope_ok is_valid get
  dry_apply now action params cap log =
      if not (is_valid env.crypto now cap)
      then failure "capability invalid/expired" log
      else if not (scope_ok params cap)
      then failure
          ("namespace "
            ⧺ env.show (or_default Json.null (get "namespace" params))
            ⧺ " outside capability scope")
          log
      else if truthy (or_default Json.null (get "_force_fail" params))
      then failure "forced failure (fault injection)" log
      else success ("dry-run ok: " ⧺ action ⧺ "(" ⧺ env.show (Json.obj params) ⧺ ")")
          ((action, params) ∷ log)

  abbrev pub dry_run : Runtime env.crypto
  dry_run = record { Target = DryLog; apply = dry_apply }

-- A call that may raise, with the exception's text.
pub data Attempt (A : Type 0) : Type 0 where
  done : A → Attempt A
  raised : String → Attempt A

infixl 5 ◌>>=◌
abbrev pub ◌>>=◌ : {A B : Type 0} → Attempt A → (A → Attempt B) → Attempt B
done a >>= f = f a
raised e >>= f = raised e

-- The body of a patch.
pub data Patch : Type 0 where
  restarted_at : Patch
  rollback_annotation : Patch
  replicas : ℤ → Patch

-- The Kubernetes client: a patch of a deployment in a namespace, which may raise.
pub record KubeApi : Type 1 where
  pub Cluster : Type 0
  pub patch : Json → Json → Patch → Cluster → Attempt Cluster

-- `params[k]`
abbrev pub required : String → Option Json → Attempt Json
required k none = raised ("'" ⧺ k ⧺ "'")
required k (some v) = done v

unfoldable pub int_of : Env → Json → Attempt ℤ
unfolding to_int
int_of env v = elim (to_int env.parse_int v) [ none ↦ raised "int()" | some z ↦ done z ]

module _ (env : Env) (kube : KubeApi) where
  -- `KubernetesRuntime._apply_sync`
  unfoldable pub apply_sync : String → Fields → kube.Cluster → Attempt (ActionResult × kube.Cluster)
  unfolding get
  apply_sync action params cluster =
      if str_eq action "restart_deployment"
      then (do
        d ← required "deployment" (get "deployment" params)
        c ← kube.patch d (namespace_of params) Patch.restarted_at cluster
        done (success ("restarted " ⧺ env.show d) c))
      else if str_eq action "scale_replicas"
      then (do
        r ← required "replicas" (get "replicas" params)
        n ← int_of env r
        d ← required "deployment" (get "deployment" params)
        c ← kube.patch d (namespace_of params) (Patch.replicas n) cluster
        done (success ("scaled " ⧺ env.show d ⧺ " to " ⧺ env.show r) c))
      else if str_eq action "rollback_revision"
      then (do
        d ← required "deployment" (get "deployment" params)
        c ← kube.patch d (namespace_of params) Patch.rollback_annotation cluster
        done (success ("rollback requested for " ⧺ env.show d) c))
      else if str_eq action "clear_cache"
      then done (
          success
            ("cache " ⧺ env.show (or_default Json.null (get "cache" params)) ⧺ " flush signalled")
            cluster)
      else done (failure ("unknown action " ⧺ action) cluster)

  -- `except Exception`: a raise is a failed result, on the cluster as it was before the call.
  abbrev pub caught :
      String → kube.Cluster → Attempt (ActionResult × kube.Cluster) → ActionResult × kube.Cluster
  caught action cluster (done r) = r
  caught action cluster (raised e) = failure (action ⧺ " failed: " ⧺ e) cluster

  -- `KubernetesRuntime.apply`
  unfoldable pub kube_apply :
      ℕ → String → Fields → Capability env.crypto → kube.Cluster → ActionResult × kube.Cluster
  unfolding apply_sync scope_ok is_valid
  kube_apply now action params cap cluster =
      if not (is_valid env.crypto now cap)
      then failure "capability invalid/expired" cluster
      else if not (scope_ok params cap)
      then failure "namespace outside capability scope" cluster
      else caught action cluster (apply_sync action params cluster)

  abbrev pub kubernetes : Runtime env.crypto
  kubernetes = record { Target = kube.Cluster; apply = kube_apply }

-- `get_runtime`, on whether AEGIS_K8S_ENABLED is "true" and on the client when it can be configured.
unfoldable pub get_runtime : (env : Env) → Bool → Option KubeApi → Runtime env.crypto
get_runtime env true (some kube) = kubernetes env kube
get_runtime env true none = dry_run env
get_runtime env false o = dry_run env
