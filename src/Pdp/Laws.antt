-- ===== src/Pdp/Laws.antt =====
-- The decisions of src/aegis_services/policy_approval/app.py: what is written and published, and
-- that a plan is decided once.
use aegis_project.Prelude.{
  ℕ, suc, ◌≤◌, ◌≡◌, ◌≢◌, inl, inr, refl, String, true, some, List, [], ◌∷◌, ◌++◌, arith, ◌==◌,
  if◌then◌else◌, Bool-cases,
}
use aegis_project.Security.Signing.{IsSound, verify_approval, sign_approval}
use aegis_project.Security.Laws.{verify-sign}
use aegis_project.Store.{Env, Db, proposed, PlanRow, Decision, approve, reject, ApprovalRow}
use aegis_project.Store.Lookup.{get_row, get_row-update_row, get_row-key}
use aegis_project.Http.{ok, http}
use aegis_project.Pdp.Decide.{
  parse_decision, status_after, approval_record, record_decision, requests, approved_event, decide,
}
use aegis_project.Pdp.Outcome.{
  plan_id_of, is_ok, IsDecidable, decide_atomic, decide_decidable, decide_ok,
}

module _ (env : Env) where
  -- The approvals of a plan.
  abbrev pub approvals_of : ℕ → List (ApprovalRow env.crypto.Digest) → ℕ
  approvals_of id [] = 0
  approvals_of id (a ∷ as') =
      if a.plan_id == id then suc (approvals_of id as') else approvals_of id as'

  -- What is left of the database when a decision is recorded: all but three tables.
  abbrev pub SameElse : Db env → Db env → Type 0
  SameElse a b =
      (a.incidents ≡ b.incidents)
      × (a.signals ≡ b.signals)
      × (a.catalog ≡ b.catalog)
      × (a.policies ≡ b.policies)
      × (a.steps ≡ b.steps)
      × (a.ledger ≡ b.ledger)
      × (a.snapshots ≡ b.snapshots)

  -- The one approval that a decision adds.
  abbrev pub new_approval : PlanRow → Decision → String → ℕ → ApprovalRow env.crypto.Digest
  new_approval plan decision approver fencing = record {
    plan_id = plan.id;
    incident_id = plan.incident_id;
    decision = decision;
    approver = approver;
    fencing_token = fencing;
    signature =
        sign_approval env.crypto
          (approval_record plan.id plan.incident_id decision approver fencing);
  }

  -- The plan tables afterwards, read at any key.
  plans_after :
      (plan_id : ℕ) (text approver : String) (db : Db env) (plan : PlanRow) (decision : Decision)
      (fencing : ℕ)
      → IsDecidable env plan_id text db plan decision fencing
      → (j : ℕ)
      → get_row plan_id_of j (record_decision env plan decision approver fencing db).plans ≡ (
          if plan_id == j
          then some (record plan { status = status_after decision })
          else get_row plan_id_of j db.plans)
  unfolding record_decision
  plans_after plan_id text approver db plan decision fencing d j =
      let change : PlanRow → PlanRow = λ p. record p { status = status_after decision } in
      ground (
        arith,
        get_row-key plan_id_of plan_id db.plans d.found,
        d.found,
        get_row-update_row plan_id_of plan.id j change db.plans (λ _. refl),
      )

  -- A decidable request answers with the plan's new status, appends one approval row, sets the
  -- status of this plan and of no other, leaves all tables but approvals, plans and the audit log
  -- alone, and publishes one event that carries the signed record if the plan is approved, and
  -- nothing if it is rejected; the row's signature verifies for the approval record.
  pub decide_effects :
      (sound : IsSound env.crypto) (plan_id : ℕ) (text approver : String) (db : Db env)
      (plan : PlanRow) (decision : Decision) (fencing : ℕ)
      → IsDecidable env plan_id text db plan decision fencing
      → let (r, db', out) = decide env plan_id text approver db in
        let row = new_approval plan decision approver fencing in
        (r ≡ ok (status_after decision))
        × (db'.approvals ≡ db.approvals ++ row ∷ [])
        × (verify_approval env.crypto
              (approval_record plan_id plan.incident_id decision approver fencing)
              row.signature
            ≡ true)
        × (get_row plan_id_of plan_id db'.plans
            ≡ some (record plan { status = status_after decision }))
        × ((j : ℕ) → j ≢ plan_id → get_row plan_id_of j db'.plans ≡ get_row plan_id_of j db.plans)
        × SameElse db' db
        × (decision ≡ approve → out ≡ approved_event env plan approver fencing ∷ [])
        × (decision ≡ reject → out ≡ [])
  unfolding record_decision requests
  decide_effects sound plan_id text approver db plan decision fencing d =
      let same : plan.id ≡ plan_id = get_row-key plan_id_of plan_id db.plans d.found in
      let after = plans_after plan_id text approver db plan decision fencing d in
      rw (decide_decidable env plan_id text approver db plan decision fencing d) (
        refl,
        refl,
        rw same (verify-sign env.crypto sound _),
        ground (arith, after plan_id),
        λ j ne. ground (arith, after j),
        (refl, refl, refl, refl, refl, refl, refl),
        λ e. rw e,
        λ e. rw e,
      )

  decide_closed :
      (plan_id : ℕ) (text approver : String) (db : Db env) (d : Decision) (p : PlanRow)
      → parse_decision text ≡ some d
      → get_row plan_id_of plan_id db.plans ≡ some p
      → p.status ≢ proposed
      → decide env plan_id text approver db ≡ (http 409, db, [])
  unfolding decide
  decide_closed plan_id text approver db d p e g h = ground arith

  status_after-ne_proposed : (d : Decision) → status_after d ≢ proposed
  status_after-ne_proposed approve e = cc
  status_after-ne_proposed reject e = cc

  -- Once a plan has been decided, every later request on it that names a decision is answered
  -- with 409, leaves the database as it is and publishes nothing.
  pub decide_once :
      (plan_id : ℕ) (text approver : String) (db : Db env) (again other : String) (d : Decision)
      → is_ok (decide env plan_id text approver db).0 ≡ true
      → parse_decision again ≡ some d
      → let db' = (decide env plan_id text approver db).1 in
        decide env plan_id again other db' ≡ (http 409, db', [])
  decide_once plan_id text approver db again other d h e =
      let done = decide_ok env plan_id text approver db h in
      let after =
        plans_after plan_id text approver db done.plan done.decision done.fencing done.why in
      rw
        (decide_decidable env plan_id text approver db done.plan done.decision done.fencing
          done.why)
        (decide_closed plan_id again other
          (record_decision env done.plan done.decision approver done.fencing db) d
          (record done.plan { status = status_after done.decision }) e
          (ground (arith, after plan_id)) (status_after-ne_proposed done.decision))

  -- A database in which a proposed plan has no approval, and no plan has two.
  pub record DecidedOnce (db : Db env) : Type 0 where
    pub open_plans :
        (id : ℕ) (p : PlanRow)
        → get_row plan_id_of id db.plans ≡ some p
        → p.status ≡ proposed
        → approvals_of id db.approvals ≡ 0
    pub at_most_one : (id : ℕ) → approvals_of id db.approvals ≤ 1

  approvals_of-append :
      (id : ℕ) (xs : List (ApprovalRow env.crypto.Digest)) (a : ApprovalRow env.crypto.Digest)
      → approvals_of id (xs ++ a ∷ [])
        ≡ (if a.plan_id == id then suc (approvals_of id xs) else approvals_of id xs)
  approvals_of-append id [] a = refl
  approvals_of-append id (x ∷ xs) a = ground (arith, approvals_of-append id xs a)

  recorded-DecidedOnce :
      (plan_id : ℕ) (text approver : String) (db : Db env) (plan : PlanRow) (decision : Decision)
      (fencing : ℕ)
      → IsDecidable env plan_id text db plan decision fencing
      → DecidedOnce db
      → DecidedOnce (record_decision env plan decision approver fencing db)
  unfolding record_decision
  recorded-DecidedOnce plan_id text approver db plan decision fencing d v =
      let same : plan.id ≡ plan_id = get_row-key plan_id_of plan_id db.plans d.found in
      let row = new_approval plan decision approver fencing in
      let none_yet = v.open_plans plan_id plan d.found d.open_plan in
      record {
        open_plans = λ id p g o. ground (
          arith,
          status_after-ne_proposed decision,
          v.open_plans id p,
          plans_after plan_id text approver db plan decision fencing d id,
          approvals_of-append id db.approvals row,
        );
        at_most_one = λ id.
            ground (arith, none_yet, v.at_most_one id, approvals_of-append id db.approvals row);
      }

  decide-DecidedOnce :
      (plan_id : ℕ) (text approver : String) (db : Db env)
      → DecidedOnce db
      → DecidedOnce (decide env plan_id text approver db).1
  decide-DecidedOnce plan_id text approver db v =
      elim (Bool-cases (is_ok (decide env plan_id text approver db).0)) [
        | inl good ↦
            let done = decide_ok env plan_id text approver db good in
            rw
              (decide_decidable env plan_id text approver db done.plan done.decision done.fencing
                done.why)
              (recorded-DecidedOnce plan_id text approver db done.plan done.decision done.fencing
                done.why v)
        | inr bad ↦ rw ((decide_atomic env plan_id text approver db bad).0) v
      ]

  -- Requests to the decision endpoint, one after the other: plan, decision and approver.
  unfoldable pub decide_all : List (ℕ × String × String) → Db env → Db env
  decide_all [] db = db
  decide_all ((plan_id, text, approver) ∷ rest) db =
      decide_all rest (decide env plan_id text approver db).1

  -- From a database in which no proposed plan has an approval and no plan has two, whatever
  -- requests are made of the decision endpoint, no plan ever has two approvals and none that is
  -- still proposed has one.
  pub decide_all-DecidedOnce :
      (requests : List (ℕ × String × String)) (db : Db env)
      → DecidedOnce db
      → DecidedOnce (decide_all requests db)
  unfolding decide_all
  decide_all-DecidedOnce [] db v = v
  decide_all-DecidedOnce ((plan_id, text, approver) ∷ rest) db v =
      decide_all-DecidedOnce rest (decide env plan_id text approver db).1
        (decide-DecidedOnce plan_id text approver db v)
