-- ===== src/Seed/Laws.antt =====
-- scripts/init_db.py run again, and what its catalog makes of the actions that the offline model
-- recommends.
use aegis_project.Prelude.{
  ◌≡◌, inl, inr, refl, String, true, ◌||◌, Option, none, some, List, [], ◌∷◌, ◌++◌, All, str_eq,
  eq_refl, Bool-cases,
}
use aegis_project.Json.{Json, Fields}
use aegis_project.Texts.{contains}
use aegis_project.Store.{Env, Db, ActionCatalogRow, PolicyRow}
use aegis_project.Security.Params.{valid, validate_action_params}
use aegis_project.Executor.Saga.{get_action}
use aegis_project.LanguageModel.{action_of, recommended_action}
use aegis_project.Seed.{seed_actions, add_missing, seed_catalog, seed_policy, init_db}

get_action-append :
    (name : String) (xs ys : List ActionCatalogRow) {r : ActionCatalogRow}
    → get_action name xs ≡ some r
    → get_action name (xs ++ ys) ≡ some r
unfolding get_action
get_action-append name [] ys h = absurd (cc h)
get_action-append name (x ∷ xs) ys h = elim (Bool-cases (str_eq x.name name)) [
  | inl e ↦ rw e (rw e at h)
  | inr e ↦ rw e (get_action-append name xs ys (rw e at h))
]

add_missing-keeps :
    (spec : ActionCatalogRow) (o : Option ActionCatalogRow) (name : String)
    (rows : List ActionCatalogRow) {r : ActionCatalogRow}
    → get_action name rows ≡ some r
    → get_action name (add_missing spec o rows) ≡ some r
add_missing-keeps spec none name rows h = get_action-append name rows (spec ∷ []) h
add_missing-keeps spec (some s) name rows h = h

-- An action that is in the catalog stays there as it is.
pub seed_catalog-keeps :
    (specs : List ActionCatalogRow) (name : String) (rows : List ActionCatalogRow)
    {r : ActionCatalogRow}
    → get_action name rows ≡ some r
    → get_action name (seed_catalog specs rows) ≡ some r
unfolding seed_catalog
seed_catalog-keeps [] name rows h = h
seed_catalog-keeps (spec ∷ specs) name rows h =
    seed_catalog-keeps specs name (add_missing spec (get_action spec.name rows) rows)
      (add_missing-keeps spec (get_action spec.name rows) name rows h)

abbrev IsListed : List ActionCatalogRow → ActionCatalogRow → Type 0
IsListed rows spec = (r : ActionCatalogRow) × (get_action spec.name rows ≡ some r)

appended-IsListed :
    (spec : ActionCatalogRow) (rows : List ActionCatalogRow)
    → get_action spec.name rows ≡ none
    → get_action spec.name (rows ++ spec ∷ []) ≡ some spec
unfolding get_action
appended-IsListed spec [] h = rw (eq_refl spec.name) refl
appended-IsListed spec (x ∷ xs) h = elim (Bool-cases (str_eq x.name spec.name)) [
  | inl e ↦ absurd (cc (rw e at h))
  | inr e ↦ rw e (appended-IsListed spec xs (rw e at h))
]

add_missing-IsListed :
    (spec : ActionCatalogRow) (rows : List ActionCatalogRow) (o : Option ActionCatalogRow)
    → get_action spec.name rows ≡ o
    → IsListed (add_missing spec o rows) spec
add_missing-IsListed spec rows none e = (spec, appended-IsListed spec rows e)
add_missing-IsListed spec rows (some r) e = (r, e)

seed_catalog-IsListed :
    (specs rows : List ActionCatalogRow) → All (IsListed (seed_catalog specs rows)) specs
unfolding seed_catalog
seed_catalog-IsListed [] rows = tt
seed_catalog-IsListed (spec ∷ specs) rows =
    let rows' = add_missing spec (get_action spec.name rows) rows in
    let (r, h) = add_missing-IsListed spec rows (get_action spec.name rows) refl in
    ((r, seed_catalog-keeps specs spec.name rows' h), seed_catalog-IsListed specs rows')

listed_unchanged :
    (specs rows : List ActionCatalogRow)
    → All (IsListed rows) specs
    → seed_catalog specs rows ≡ rows
unfolding seed_catalog
listed_unchanged [] rows h = refl
listed_unchanged (spec ∷ specs) rows ((r, e), h) = rw e (listed_unchanged specs rows h)

seed_policy-twice : (ps : List PolicyRow) → seed_policy (seed_policy ps) ≡ seed_policy ps
unfolding seed_policy
seed_policy-twice [] = refl
seed_policy-twice (p ∷ ps) = refl

-- A second run of the script changes nothing, whatever the database held before the first.
pub init_db-init_db : {env : Env} (db : Db env) → init_db (init_db db) ≡ init_db db
unfolding init_db
init_db-init_db db =
    rw
      (
        listed_unchanged seed_actions _ (seed_catalog-IsListed seed_actions db.catalog),
        seed_policy-twice db.policies,
      )
      refl

-- An action with parameters that the executor finds enabled in the catalog and whose parameters
-- pass the check against its schema.
abbrev pub IsAccepted : List ActionCatalogRow → Json → Type 0
IsAccepted rows action =
    (name : String) × (params : Fields) × (row : ActionCatalogRow) × (action
      ≡ action_of name params)
    × (get_action name rows ≡ some row)
    × (row.enabled ≡ true)
    × (validate_action_params (Json.obj params) row.params_schema ≡ valid)

-- Whatever the description, the one action that the offline model recommends is accepted by the
-- catalog that the script gives to a database without one.
pub recommended_action-IsAccepted :
    {env : Env} (db : Db env) (low : String)
    → db.catalog ≡ []
    → IsAccepted (init_db db).catalog (recommended_action low)
unfolding init_db seed_catalog get_action recommended_action validate_action_params
recommended_action-IsAccepted db low h =
    elim (Bool-cases (contains "deployment" low || contains "pod" low || contains "restart" low)) [
      | inl e ↦ rw (h, e) (_, _, _, refl, refl, refl, refl)
      | inr e ↦ elim (Bool-cases (contains "scale" low || contains "exhausted" low)) [
        | inl f ↦ rw (h, e, f) (_, _, _, refl, refl, refl, refl)
        | inr f ↦ rw (h, e, f) (_, _, _, refl, refl, refl, refl)
      ]
    ]
