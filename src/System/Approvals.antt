-- ===== src/System/Approvals.antt =====
-- Which events the approvals stand behind, and what the action executor makes of such an event.
use mathlib.Core.List.{append_assoc}
use mathlib.Core.Path.{subst}
use aegis_project.Prelude.{
  ℕ, ◌≡◌, ◌⊎◌, inl, inr, refl, sym, ◌∙◌, String, Bool, true, false, ◌&&◌, Option, none, some, List,
  [], ◌∷◌, ◌++◌, any, ◌==◌, All, All-map,
}
use aegis_project.Prelude.Int.{ℤ}
use aegis_project.Json.{Json, Fields, get}
use aegis_project.Events.{IncidentEvent, IncidentEventType}
use aegis_project.Store.{Env, Db, IncidentRow, PlanRow, ApprovalRow, Decision, approve, reject}
use aegis_project.Executor.Runtime.{Runtime}
use aegis_project.Executor.State.{State, Clocks, publish}
use aegis_project.Executor.Worker.{
  Handled, returned, handle_approved, check_approval, load_plan, check_token, execute_plan,
  escalate,
}
use aegis_project.Executor.Outcome.{Concluded, execute_plan-Concluded}
use aegis_project.System.Frame.{
  Stable, Stable-refl, QuietAt, Advance, Advance-none, Advance-one, if_either,
}
use aegis_project.System.Executions.{execute_plan-Stable}

abbrev pub is_approval : Decision → Bool
is_approval approve = true
is_approval reject = false

-- Some approval row approves the plan.
abbrev pub has_approval : {D : Type 0} → ℕ → List (ApprovalRow D) → Bool
has_approval n rows = any (λ a. a.plan_id == n && is_approval a.decision) rows

-- The data of an event names a plan that was approved.
abbrev pub NamesApproved : {D : Type 0} → List (ApprovalRow D) → Fields → Type 0
NamesApproved rows payload =
    (n : ℕ) × (get "plan_id" payload ≡ some (Json.uuid n)) × (has_approval n rows ≡ true)

abbrev pub GovernsAt : {D : Type 0} → List (ApprovalRow D) → IncidentEventType → Fields → Type 0
GovernsAt rows IncidentEventType.approved payload = NamesApproved rows payload
GovernsAt rows IncidentEventType.executing payload = NamesApproved rows payload
GovernsAt rows _ payload = Unit

-- An event that says that a plan is approved or being executed names an approved plan.
abbrev pub Governs : {D : Type 0} → List (ApprovalRow D) → IncidentEvent D → Type 0
Governs rows e = GovernsAt rows e.event_type e.payload

module _ {D : Type 0} where
  pub quiet_at :
      (rows : List (ApprovalRow D)) (t : IncidentEventType) (payload : Fields)
      → QuietAt t
      → GovernsAt rows t payload
  quiet_at rows IncidentEventType.approved payload h = absurd h
  quiet_at rows IncidentEventType.executing payload h = absurd h
  quiet_at rows _ payload h = tt

  module _ (rows rows' : List (ApprovalRow D))
      (keeps : (n : ℕ) → has_approval n rows ≡ true → has_approval n rows' ≡ true) where
    still_at :
        (t : IncidentEventType) (payload : Fields)
        → GovernsAt rows t payload
        → GovernsAt rows' t payload
    still_at IncidentEventType.approved payload (n, h, k) = (n, h, keeps n k)
    still_at IncidentEventType.executing payload (n, h, k) = (n, h, keeps n k)
    still_at _ payload h = tt

    pub still-Governs :
        (events : List (IncidentEvent D)) → All (Governs rows) events → All (Governs rows') events
    still-Governs events h = All-map (λ e. still_at e.event_type e.payload) events h

module _ (env : Env) (rt : Runtime env.crypto) (clocks : Clocks) where
  -- What the handler of an event does: it publishes governed events, and it changes the target
  -- only if the event names an approved plan.
  pub record Acts (payload : Fields) (s s' : State env rt) : Type 0 where
    pub advance : Advance Stable (Governs s.db.approvals) s.db s'.db s.bus s'.bus
    pub on_target : (s'.target ≡ s.target) ⊎ NamesApproved s.db.approvals payload

  Acts-none : (payload : Fields) (s : State env rt) → Acts payload s s
  Acts-none payload s = record {
    advance = Advance-none (Stable-refl s.db) refl;
    on_target = inl refl;
  }

  escalate-Acts :
      (payload : Fields) (id : ℕ) (reason : String) (s : State env rt)
      → Acts payload s (escalate env rt clocks id reason s)
  unfolding escalate publish
  escalate-Acts payload id reason s = record {
    advance = Advance-one _ (Stable-refl s.db) refl tt;
    on_target = inl refl;
  }

  of_type :
      (rows : List (ApprovalRow env.crypto.Digest)) (t : IncidentEventType)
      (e : IncidentEvent env.crypto.Digest)
      → e.event_type ≡ t
      → GovernsAt rows t e.payload
      → Governs rows e
  of_type rows t e typed h = subst (λ u. GovernsAt rows u e.payload) (sym typed) h

  Concluded-Advance :
      (s : State env rt) (start : IncidentEvent env.crypto.Digest) (db : Db env) (h : Handled)
      (bus : List (IncidentEvent env.crypto.Digest))
      → Stable s.db db
      → Governs s.db.approvals start
      → Concluded env rt clocks (s.bus ++ start ∷ []) h bus
      → Advance Stable (Governs s.db.approvals) s.db db s.bus bus
  Concluded-Advance s start db h bus f g (Concluded.resolved e b typed eq) = record {
    related = f;
    published = start ∷ e ∷ [];
    on_bus = eq ∙ append_assoc s.bus (start ∷ []) (e ∷ []);
    kind = (g, (of_type s.db.approvals IncidentEventType.resolved e typed tt, tt));
  }
  Concluded-Advance s start db h bus f g (Concluded.escalated e b typed eq) = record {
    related = f;
    published = start ∷ e ∷ [];
    on_bus = eq ∙ append_assoc s.bus (start ∷ []) (e ∷ []);
    kind = (g, (of_type s.db.approvals IncidentEventType.escalated e typed tt, tt));
  }
  Concluded-Advance s start db h bus f g (Concluded.crashed_at b eq) = Advance-one start f eq g

  execute_plan-Acts :
      (inc : IncidentRow) (id n : ℕ) (e : IncidentEvent env.crypto.Digest) (s : State env rt)
      → (get "plan_id" e.payload ≡ some (Json.uuid n)) × (has_approval n s.db.approvals ≡ true)
      → Acts e.payload s (execute_plan env rt clocks inc id n e s).1
  execute_plan-Acts inc id n e s (k, h) =
      let (start, typed, at, names, ends) = execute_plan-Concluded env rt clocks inc id n e s in
      record {
        advance =
            Concluded-Advance s start _ _ _ (execute_plan-Stable env rt clocks inc id n e s)
              (of_type s.db.approvals IncidentEventType.executing start typed (n, names, h)) ends;
        on_target = inr (n, k, h);
      }

  check_token-Acts :
      (o : Option ℤ) (inc : IncidentRow) (id n : ℕ) (e : IncidentEvent env.crypto.Digest)
      (s : State env rt)
      → (get "plan_id" e.payload ≡ some (Json.uuid n)) × (has_approval n s.db.approvals ≡ true)
      → Acts e.payload s (check_token env rt clocks o inc id n e s).1
  unfolding check_token
  check_token-Acts none inc id n e s h = Acts-none e.payload s
  check_token-Acts (some t) inc id n e s h =
      if_either (λ (r : Handled × State env rt). Acts e.payload s r.1) _ _ _
        (execute_plan-Acts inc id n e s h) (escalate-Acts e.payload id _ s)

  load_plan-Acts :
      (p : Option PlanRow) (i : Option IncidentRow) (id n : ℕ) (e : IncidentEvent env.crypto.Digest)
      (s : State env rt)
      → (get "plan_id" e.payload ≡ some (Json.uuid n)) × (has_approval n s.db.approvals ≡ true)
      → Acts e.payload s (load_plan env rt clocks p i id n e s).1
  unfolding load_plan
  load_plan-Acts (some p) (some i) id n e s h = check_token-Acts _ i id n e s h
  load_plan-Acts (some p) none id n e s h = Acts-none e.payload s
  load_plan-Acts none i id n e s h = Acts-none e.payload s

  check_approval-Acts :
      (e : IncidentEvent env.crypto.Digest) (s : State env rt)
      → NamesApproved s.db.approvals e.payload
      → Acts e.payload s (check_approval env rt clocks (get "plan_id" e.payload) e s).1
  unfolding check_approval
  check_approval-Acts e s (n, names, h) =
      subst (λ o. Acts e.payload s (check_approval env rt clocks o e s).1) (sym names)
        (if_either (λ (r : Handled × State env rt). Acts e.payload s r.1) _ _ _
          (load_plan-Acts _ _ e.incident_id n e s (names, h))
          (escalate-Acts e.payload e.incident_id _ s))

  handle-Acts :
      (t : IncidentEventType) (e : IncidentEvent env.crypto.Digest)
      (checked : Handled × State env rt) (s : State env rt)
      → GovernsAt s.db.approvals t e.payload
      → (NamesApproved s.db.approvals e.payload → Acts e.payload s checked.1)
      → let r : Handled × State env rt = elim t [
        | IncidentEventType.approved ↦ checked
        | _ ↦ (returned, s)
      ] in
        Acts e.payload s r.1
  handle-Acts IncidentEventType.approved e checked s h k = k h
  handle-Acts _ e checked s h k = Acts-none e.payload s

  -- An event that the approvals stand behind makes the executor publish only such events.
  pub handle_approved-Acts :
      (e : IncidentEvent env.crypto.Digest) (s : State env rt)
      → Governs s.db.approvals e
      → Acts e.payload s (handle_approved env rt clocks e s).1
  unfolding handle_approved
  handle_approved-Acts e s h = handle-Acts e.event_type e _ s h (check_approval-Acts e s)
