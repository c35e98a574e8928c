-- ===== src/System/Decisions.antt =====
-- What a decision of the decision point makes of the approvals, the audit log and the requests.
use aegis_project.Prelude.{
  ℕ, ◌≡◌, inl, inr, refl, String, Bool, true, List, [], ◌∷◌, ◌++◌, any, arith, All, Bool-cases,
}
use aegis_project.Json.{get}
use aegis_project.Audit.Laws.{IsValid, append_audit-IsValid}
use aegis_project.Events.{IncidentEvent}
use aegis_project.Store.{Env, Db, PlanRow, Decision, approve, reject}
use aegis_project.Pdp.Decide.{record_decision, requests, approved_event, decide}
use aegis_project.Pdp.Outcome.{is_ok, decide_atomic, decide_ok, decide_decidable}
use aegis_project.Detection.Fencing.{tokens}
use aegis_project.System.Approvals.{has_approval, Governs}

module _ {A : Type 0} (p : A → Bool) where
  any-append_left : (xs ys : List A) → any p xs ≡ true → any p (xs ++ ys) ≡ true
  any-append_left [] ys h = absurd (cc h)
  any-append_left (x ∷ xs) ys h = elim (Bool-cases (p x)) [
    | inl e ↦ rw e refl
    | inr e ↦ ground (arith, any-append_left xs ys)
  ]

  any-append_right : (xs ys : List A) → any p ys ≡ true → any p (xs ++ ys) ≡ true
  any-append_right [] ys h = h
  any-append_right (x ∷ xs) ys h = elim (Bool-cases (p x)) [
    | inl e ↦ rw e refl
    | inr e ↦ rw e (any-append_right xs ys h)
  ]

module _ (env : Env) where
  -- The approvals only grow, the audit log stays valid, and what is requested was approved.
  pub record Decides (db db' : Db env) (events : List (IncidentEvent env.crypto.Digest))
      : Type 0 where
    pub keeps : (n : ℕ) → has_approval n db.approvals ≡ true → has_approval n db'.approvals ≡ true
    pub audit_valid : IsValid env.hasher db.audit → IsValid env.hasher db'.audit
    pub same_tokens : tokens env db'.incidents ≡ tokens env db.incidents
    pub governed : All (Governs db'.approvals) events

  Decides-none : (db : Db env) → Decides db db []
  Decides-none db = record {
    keeps = λ n h. h;
    audit_valid = λ v. v;
    same_tokens = refl;
    governed = tt;
  }

  requests-Governs :
      (plan : PlanRow) (decision : Decision) (approver : String) (fencing : ℕ) (db : Db env)
      → All
          (Governs (record_decision env plan decision approver fencing db).approvals)
          (requests env plan decision approver fencing)
  unfolding requests approved_event record_decision get
  requests-Governs plan approve approver fencing db =
      ((plan.id, refl, any-append_right _ db.approvals _ (ground arith)), tt)
  requests-Governs plan reject approver fencing db = tt

  record_decision-Decides :
      (plan : PlanRow) (decision : Decision) (approver : String) (fencing : ℕ) (db : Db env)
      → Decides db
          (record_decision env plan decision approver fencing db)
          (requests env plan decision approver fencing)
  unfolding record_decision
  record_decision-Decides plan decision approver fencing db = record {
    keeps = λ n. any-append_left _ db.approvals _;
    audit_valid = append_audit-IsValid env.hasher _ db.audit;
    same_tokens = refl;
    governed = requests-Governs plan decision approver fencing db;
  }

  -- Every decision, the refused ones included, keeps the approvals and requests what is approved.
  pub decide-Decides :
      (plan_id : ℕ) (text approver : String) (db : Db env)
      → let r = decide env plan_id text approver db in Decides db r.1 r.2
  decide-Decides plan_id text approver db =
      elim (Bool-cases (is_ok (decide env plan_id text approver db).0)) [
        | inl h ↦
            let d = decide_ok env plan_id text approver db h in
            rw (decide_decidable env plan_id text approver db d.plan d.decision d.fencing d.why)
              (record_decision-Decides d.plan d.decision approver d.fencing db)
        | inr h ↦
            let (same, nothing) = decide_atomic env plan_id text approver db h in
            rw (same, nothing) (Decides-none db)
      ]
