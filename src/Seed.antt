-- ===== src/Seed.antt =====
-- scripts/init_db.py: the catalog and the policy that a new database gets.
pub mod Laws
pub mod Runtime
use aegis_project.Prelude.{
  String, Bool, true, false, Option, none, some, List, [], ◌∷◌, ◌++◌, str_eq, find,
}
use aegis_project.Json.{Json, Items, nil, cons, Fields, end, field}
use aegis_project.Store.{Env, Db, ActionCatalogRow, PolicyRow}
use aegis_project.Executor.Saga.{get_action}

-- A JSON schema that only requires keys.
abbrev pub requires : Items → Fields
requires keys = field "type" (Json.text "object") (field "required" (Json.arr keys) end)

abbrev pub text_items : List String → Items
text_items [] = nil
text_items (s ∷ ss) = cons (Json.text s) (text_items ss)

-- `SEED_ACTIONS`; `enabled` is true by the default of its column.
abbrev pub seed_actions : List ActionCatalogRow
seed_actions =
    record {
      name = "restart_deployment";
      description = "Roll-restart a Kubernetes deployment";
      params_schema = requires (text_items ("namespace" ∷ "deployment" ∷ []));
      risk_tier = "low";
      requires_approval = false;
      rollback_action = none;
      enabled = true;
    }
    ∷ record {
      name = "scale_replicas";
      description = "Scale a deployment's replica count";
      params_schema = requires (text_items ("namespace" ∷ "deployment" ∷ "replicas" ∷ []));
      risk_tier = "medium";
      requires_approval = true;
      rollback_action = some "scale_replicas";
      enabled = true;
    }
    ∷ record {
      name = "rollback_revision";
      description = "Roll back a deployment to its previous revision";
      params_schema = requires (text_items ("namespace" ∷ "deployment" ∷ []));
      risk_tier = "high";
      requires_approval = true;
      rollback_action = none;
      enabled = true;
    }
    ∷ record {
      name = "clear_cache";
      description = "Flush an application cache namespace";
      params_schema = requires (text_items ("namespace" ∷ "cache" ∷ []));
      risk_tier = "low";
      requires_approval = false;
      rollback_action = none;
      enabled = true;
    }
    ∷ []

-- The body of the loop, on what `session.get` found.
abbrev pub add_missing :
    ActionCatalogRow → Option ActionCatalogRow → List ActionCatalogRow → List ActionCatalogRow
add_missing spec none rows = rows ++ spec ∷ []
add_missing spec (some r) rows = rows

unfoldable pub seed_catalog : List ActionCatalogRow → List ActionCatalogRow → List ActionCatalogRow
seed_catalog [] rows = rows
seed_catalog (spec ∷ specs) rows =
    seed_catalog specs (add_missing spec (get_action spec.name rows) rows)

unfoldable pub seed_policy : List PolicyRow → List PolicyRow
seed_policy [] = record { environment = "local"; mode = "suggest" } ∷ []
seed_policy (p ∷ ps) = p ∷ ps

-- `main`, on a database whose tables exist.
unfoldable pub init_db : {env : Env} → Db env → Db env
unfolding seed_catalog seed_policy
init_db db = record db {
  catalog = seed_catalog seed_actions db.catalog;
  policies = seed_policy db.policies;
}
