-- ===== src/Executor/Gate.antt =====
-- Which events pass the checks of `handle_approved` (src/aegis_services/action_executor/worker.py).
use aegis_project.Prelude.{
  ℕ, ◌≡◌, ◌≢◌, ◌⊎◌, inl, inr, refl, ap, String, true, Option, none, some, arith, Option-cases,
  Bool-cases,
}
use aegis_project.Prelude.Int.{ℤ, pos}
use aegis_project.Json.{Json, Fields, get, get_or, int_eq}
use aegis_project.Events.{IncidentEvent, IncidentEventType}
use aegis_project.Security.Signing.{IsSound, sign_approval}
use aegis_project.Security.Laws.{verify-sign, verify_other, SameKeys}
use aegis_project.Store.{Env, IncidentRow, PlanRow, Decision}
use aegis_project.Store.Lookup.{get_row}
use aegis_project.Pdp.Decide.{approval_record}
use aegis_project.Executor.Runtime.{Runtime}
use aegis_project.Executor.State.{State, Clocks}
use aegis_project.Executor.Worker.{
  current_token, verified, event_record, record_token, escalate, execute_plan, check_token,
  load_plan, check_approval, handle_approved,
}

pub int_eq→eq : (a b : ℤ) → int_eq a b ≡ true → a ≡ b
int_eq→eq a b h = ground arith

pub int_eq_refl : (a : ℤ) → int_eq a a ≡ true
int_eq_refl a = ground arith

module _ {env : Env} {rt : Runtime env.crypto} where
  -- All that an event must meet for its plan to be executed.
  pub record IsAuthorized (e : IncidentEvent env.crypto.Digest) (s : State env rt) : Type 0 where
    pub plan_id : ℕ
    pub plan : PlanRow
    pub inc : IncidentRow
    pub approved_type : e.event_type ≡ IncidentEventType.approved
    pub names_plan : get "plan_id" e.payload ≡ some (Json.uuid plan_id)
    pub signed : verified env (event_record env e) e.signature ≡ true
    pub plan_found : get_row (λ (p : PlanRow). p.id) plan_id s.db.plans ≡ some plan
    pub incident_found : get_row (λ (i : IncidentRow). i.id) e.incident_id s.db.incidents ≡ some inc
    pub token_current : record_token env (event_record env e) ≡ some (current_token inc)

  -- What a refused event leaves alone.
  abbrev pub Untouched : State env rt → State env rt → Type 0
  Untouched s t = (t.target ≡ s.target) × (t.db ≡ s.db) × (t.breaker ≡ s.breaker)

module _ (env : Env) (rt : Runtime env.crypto) (clocks : Clocks) where
  escalate-Untouched :
      (incident_id : ℕ) (reason : String) (s : State env rt)
      → Untouched s (escalate env rt clocks incident_id reason s)
  unfolding escalate
  escalate-Untouched incident_id reason s = (refl, refl, refl)

  token_or_refused :
      (o : Option ℤ) (inc : IncidentRow) (plan_id : ℕ) (e : IncidentEvent env.crypto.Digest)
      (s : State env rt)
      → (o ≡ some (current_token inc))
        ⊎ Untouched s (check_token env rt clocks o inc e.incident_id plan_id e s).1
  unfolding check_token
  token_or_refused none inc plan_id e s = inr (refl, refl, refl)
  token_or_refused (some t) inc plan_id e s = elim (Bool-cases (int_eq t (current_token inc))) [
    | inl same ↦ inl (ap some (int_eq→eq t (current_token inc) same))
    | inr stale ↦ inr (rw stale (escalate-Untouched e.incident_id _ s))
  ]

  approval_or_refused :
      (plan_id : ℕ) (e : IncidentEvent env.crypto.Digest) (s : State env rt)
      → e.event_type ≡ IncidentEventType.approved
      → get "plan_id" e.payload ≡ some (Json.uuid plan_id)
      → IsAuthorized e s
        ⊎ Untouched s (check_approval env rt clocks (some (Json.uuid plan_id)) e s).1
  unfolding check_approval load_plan
  approval_or_refused plan_id e s typed named =
      let plans = get_row (λ (p : PlanRow). p.id) plan_id s.db.plans in
      let incs = get_row (λ (i : IncidentRow). i.id) e.incident_id s.db.incidents in
      elim (Bool-cases (verified env (event_record env e) e.signature)) [
        | inr bad ↦ inr (rw bad (escalate-Untouched e.incident_id _ s))
        | inl good ↦ elim (Option-cases plans) [
          | inl gone ↦ inr (rw (good, gone) (refl, refl, refl))
          | inr (plan, p) ↦ elim (Option-cases incs) [
            | inl gone ↦ inr (rw (good, p, gone) (refl, refl, refl))
            | inr (inc, i) ↦
                elim (token_or_refused (record_token env (event_record env e)) inc plan_id e s) [
                  | inl current ↦ inl (record {
                    plan_id = plan_id;
                    plan = plan;
                    inc = inc;
                    approved_type = typed;
                    names_plan = named;
                    signed = good;
                    plan_found = p;
                    incident_found = i;
                    token_current = current;
                  })
                  | inr refused ↦ inr (rw (good, p, i) refused)
                ]
          ]
        ]
      ]

  named_or_refused :
      (o : Option Json) (e : IncidentEvent env.crypto.Digest) (s : State env rt)
      → get "plan_id" e.payload ≡ o
      → e.event_type ≡ IncidentEventType.approved
      → IsAuthorized e s ⊎ Untouched s (check_approval env rt clocks o e s).1
  named_or_refused (some (Json.uuid plan_id)) e s named typed =
      approval_or_refused plan_id e s typed named
  named_or_refused _ e s named typed = inr (unfold check_approval in (refl, refl, refl))

  is_approved :
      (t : IncidentEventType) → (t ≡ IncidentEventType.approved) ⊎ (t ≢ IncidentEventType.approved)
  is_approved IncidentEventType.approved = inl refl
  is_approved _ = inr (λ h. cc h)

  -- An event either meets every check (it is an approval that names an existing plan, its incident
  -- exists, the signature verifies for the record that it carries, and that record's token is the
  -- incident's current one), or the handler leaves the target, the database and the breaker
  -- exactly as they were.
  pub IsAuthorized-or_Untouched :
      (e : IncidentEvent env.crypto.Digest) (s : State env rt)
      → IsAuthorized e s ⊎ Untouched s (handle_approved env rt clocks e s).1
  unfolding handle_approved
  IsAuthorized-or_Untouched e s = elim (is_approved e.event_type) [
    | inl typed ↦ elim (named_or_refused (get "plan_id" e.payload) e s refl typed) [
      | inl ok ↦ inl ok
      | inr kept ↦ inr (ground (arith, kept))
    ]
    | inr other ↦ inr (ground arith)
  ]

  -- The token of any record that holds the same as an approval record is the approval's.
  token_of_same :
      (r : Fields) (plan_id incident_id : ℕ) (d : Decision) (approver : String) (f : ℕ)
      → SameKeys r (approval_record plan_id incident_id d approver f)
      → record_token env (some r) ≡ some (pos f)
  unfolding record_token approval_record
  token_of_same r plan_id incident_id d approver f same = rw (same "fencing_token") refl

  token_of_verified :
      (sound : IsSound env.crypto) (o : Option Fields) (signature : Option env.crypto.Digest)
      (plan_id incident_id : ℕ) (d : Decision) (approver : String) (f : ℕ) (t : ℤ)
      → signature
        ≡ some (sign_approval env.crypto (approval_record plan_id incident_id d approver f))
      → verified env o signature ≡ true
      → record_token env o ≡ some t
      → t ≡ pos f
  unfolding verified
  token_of_verified sound none signature plan_id incident_id d approver f t signed v token =
      absurd (cc v)
  token_of_verified sound (some r) signature plan_id incident_id d approver f t signed v token =
      let same =
        verify_other env.crypto sound (approval_record plan_id incident_id d approver f) r
          (rw signed at v) in
      cc (token, token_of_same r plan_id incident_id d approver f same)

  -- If an event that meets the checks carries the signature of an approval record, then the
  -- incident that it names has exactly the approval's token: an approval made under a token that
  -- was superseded is never executed, whatever record the event shows.
  pub authorized_token :
      (sound : IsSound env.crypto) (e : IncidentEvent env.crypto.Digest) (s : State env rt)
      (a : IsAuthorized e s) (plan_id incident_id : ℕ) (d : Decision) (approver : String) (f : ℕ)
      → e.signature
        ≡ some (sign_approval env.crypto (approval_record plan_id incident_id d approver f))
      → current_token a.inc ≡ pos f
  authorized_token sound e s a plan_id incident_id d approver f signed =
      token_of_verified sound (event_record env e) e.signature plan_id incident_id d approver f
        (current_token a.inc) signed a.signed a.token_current

  -- The checks compare neither the plan nor the decision: an event that carries a record signed
  -- for any plan and any decision, under the current token of the incident, has whatever plan it
  -- names executed.
  pub signed_for_another :
      (sound : IsSound env.crypto) (e : IncidentEvent env.crypto.Digest) (s : State env rt)
      (named signed_plan incident_id : ℕ) (d : Decision) (approver : String) (f : ℕ)
      (plan : PlanRow) (inc : IncidentRow)
      → e.event_type ≡ IncidentEventType.approved
      → get "plan_id" e.payload ≡ some (Json.uuid named)
      → get "record" e.payload
        ≡ some (Json.obj (approval_record signed_plan incident_id d approver f))
      → e.signature
        ≡ some (sign_approval env.crypto (approval_record signed_plan incident_id d approver f))
      → get_row (λ (p : PlanRow). p.id) named s.db.plans ≡ some plan
      → get_row (λ (i : IncidentRow). i.id) e.incident_id s.db.incidents ≡ some inc
      → current_token inc ≡ pos f
      → handle_approved env rt clocks e s ≡ execute_plan env rt clocks inc e.incident_id named e s
  unfolding handle_approved check_approval load_plan check_token verified get_or
  signed_for_another sound e s named signed_plan incident_id d approver f plan inc typed names shown
        signature p i token =
      let signed = approval_record signed_plan incident_id d approver f in
      let rec : event_record env e ≡ some signed = rw (get_or, shown) in
      let good : verified env (event_record env e) e.signature ≡ true =
        rw (rec, signature) (verify-sign env.crypto sound signed) in
      let read : record_token env (event_record env e) ≡ some (pos f) =
        rw rec (token_of_same signed signed_plan incident_id d approver f (λ k. refl)) in
      rw (typed, names, good, p, i, read, token, int_eq_refl)
