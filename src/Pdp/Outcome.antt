-- ===== src/Pdp/Outcome.antt =====
-- When `decide` of src/aegis_services/policy_approval/app.py decides, and what it leaves when not.
use aegis_project.Prelude.{
  ℕ, ◌≡◌, inl, inr, refl, String, Bool, true, false, Option, none, some, [], arith, Option-cases,
}
use aegis_project.Store.{Env, Db, IncidentRow, proposed, PlanRow, Decision}
use aegis_project.Store.Lookup.{get_row}
use aegis_project.Http.{Response, ok}
use aegis_project.Pdp.Decide.{
  parse_decision, status_after, fencing_of, record_decision, requests, decide_fenced, decide_plan,
  decide,
}

abbrev pub plan_id_of : PlanRow → ℕ
plan_id_of p = p.id

abbrev pub incident_id_of : IncidentRow → ℕ
incident_id_of i = i.id

abbrev pub is_ok : {A : Type 0} → Response A → Bool
is_ok (ok a) = true
is_ok _ = false

module _ (env : Env) where
  -- All that a request must meet to be decided.
  pub record IsDecidable (plan_id : ℕ) (text : String) (db : Db env) (plan : PlanRow)
      (decision : Decision) (fencing : ℕ) : Type 0 where
    pub parsed : parse_decision text ≡ some decision
    pub found : get_row plan_id_of plan_id db.plans ≡ some plan
    pub open_plan : plan.status ≡ proposed
    pub fenced : fencing_of (get_row incident_id_of plan.incident_id db.incidents) ≡ some fencing

  decide_fenced_cases :
      (plan : PlanRow) (decision : Decision) (approver : String) (o : Option ℕ) (db : Db env)
      → (is_ok (decide_fenced env plan decision approver o db).0 ≡ false
          → ((decide_fenced env plan decision approver o db).1 ≡ db)
            × ((decide_fenced env plan decision approver o db).2 ≡ []))
        × (is_ok (decide_fenced env plan decision approver o db).0 ≡ true → (f : ℕ) × (o ≡ some f))
  unfolding decide_fenced
  decide_fenced_cases plan decision approver none db = (λ _. (refl, refl), λ h. absurd (cc h))
  decide_fenced_cases plan decision approver (some f) db = (λ h. absurd (cc h), λ _. (f, refl))

  -- A request that is answered with an error leaves the database as it was and publishes nothing.
  pub decide_atomic :
      (plan_id : ℕ) (text approver : String) (db : Db env)
      → is_ok (decide env plan_id text approver db).0 ≡ false
      → ((decide env plan_id text approver db).1 ≡ db)
        × ((decide env plan_id text approver db).2 ≡ [])
  unfolding decide
  decide_atomic plan_id text approver db h = elim (Option-cases (parse_decision text)) [
    | inl e ↦ ground arith
    | inr (d, e) ↦ elim (Option-cases (get_row plan_id_of plan_id db.plans)) [
      | inl g ↦ ground arith
      | inr (p, g) ↦ ground (
        arith,
        decide_fenced_cases p d approver
            (fencing_of (get_row incident_id_of p.incident_id db.incidents)) db,
      )
    ]
  ]

  pub decide_decidable :
      (plan_id : ℕ) (text approver : String) (db : Db env) (plan : PlanRow) (decision : Decision)
      (fencing : ℕ)
      → IsDecidable plan_id text db plan decision fencing
      → decide env plan_id text approver db ≡ (
        ok (status_after decision),
        record_decision env plan decision approver fencing db,
        requests env plan decision approver fencing,
      )
  unfolding decide decide_fenced
  decide_decidable plan_id text approver db plan decision fencing d = ground arith

  decide_fenced_ok :
      (plan : PlanRow) (decision : Decision) (approver : String) (o : Option ℕ) (db : Db env)
      → is_ok (decide_fenced env plan decision approver o db).0 ≡ true
      → (f : ℕ) × (o ≡ some f)
  decide_fenced_ok plan decision approver o db = (decide_fenced_cases plan decision approver o db).1

  -- The request behind a decision.
  pub record IsDecided (plan_id : ℕ) (text : String) (db : Db env) : Type 0 where
    pub plan : PlanRow
    pub decision : Decision
    pub fencing : ℕ
    pub why : IsDecidable plan_id text db plan decision fencing

  IsDecided-of_plan :
      (plan_id : ℕ) (text approver : String) (db : Db env) (d : Decision) (p : PlanRow)
      → parse_decision text ≡ some d
      → get_row plan_id_of plan_id db.plans ≡ some p
      → is_ok (decide_plan env (some p) d approver db).0 ≡ true
      → IsDecided plan_id text db
  unfolding decide_plan
  IsDecided-of_plan plan_id text approver db d p e g h =
      let o = fencing_of (get_row incident_id_of p.incident_id db.incidents) in
      let is_open : p.status ≡ proposed = ground arith in
      let (f, fenced) = decide_fenced_ok p d approver o db (ground arith) in
      record {
        plan = p;
        decision = d;
        fencing = f;
        why = record { parsed = e; found = g; open_plan = is_open; fenced = fenced };
      }

  pub decide_ok :
      (plan_id : ℕ) (text approver : String) (db : Db env)
      → is_ok (decide env plan_id text approver db).0 ≡ true
      → IsDecided plan_id text db
  decide_ok plan_id text approver db h = elim (Option-cases (parse_decision text)) [
    | inl e ↦ absurd (unfold decide in ground arith)
    | inr (d, e) ↦ elim (Option-cases (get_row plan_id_of plan_id db.plans)) [
      | inl g ↦ absurd (unfold decide in ground arith)
      | inr (p, g) ↦
          IsDecided-of_plan plan_id text approver db d p e g (unfold decide in ground arith)
    ]
  ]
