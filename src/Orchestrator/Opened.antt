-- ===== src/Orchestrator/Opened.antt =====
-- What `handle_opened` of src/aegis_services/orchestrator/worker.py leaves: every run that returns
-- publishes one event, and the rows go with it; one whose publish fails leaves the rows.
use mathlib.Core.Path.{subst}
use aegis_project.Prelude.{
  ℕ, ◌≡◌, ◌⊎◌, refl, sym, ap, Bool, ◌∙◌, String, true, false, not, Option, none, some, List, [],
  ◌∷◌, ◌++◌,
}
use aegis_project.Prelude.Int.{ltb_ℤ}
use aegis_project.Json.{Json}
use aegis_project.Schemas.{severity_value}
use aegis_project.Events.{IncidentEvent, IncidentEventType}
use aegis_project.Store.{Env, Db, IncidentRow}
use aegis_project.Store.Lookup.{get_row}
use aegis_project.Orchestrator.State.{IncidentState, initial_state}
use aegis_project.Orchestrator.Agents.{Deps, Context}
use aegis_project.Orchestrator.Graph.{or_zero, or_false, autonomy_confidence, run_graph}
use aegis_project.Orchestrator.Rows.{gives_up, Fresh}
use aegis_project.Orchestrator.Persist.{Written}
use aegis_project.Orchestrator.Ensures.{Holds}
use aegis_project.Orchestrator.Workflow.{Ended, run_graph-Ended}
use aegis_project.Orchestrator.Load.{load_incident, risk_tier_map}
use aegis_project.Orchestrator.Worker.{
  State, Limits, Handled, handle_opened, orchestrate, finish_run, persist_and_emit, publish_after,
  emit, after_run, new_context,
}
use aegis_project.Orchestrator.Outcome.{Escalated, Proposed, Emitted, persist-Emitted}

module _ (env : Env) (fresh : Fresh) (deps : Deps) (limits : Limits)
    (event : IncidentEvent env.crypto.Digest) (s : State env) where
  -- The result of a run on an incident: a raise that wrote and published nothing; the rows of a
  -- state in which the workflow ended and, where the broker takes it, the event that goes with
  -- them; or the same rows without the event, where the broker does not, and a raise.
  pub data Driven (s0 : IncidentState) (t : State env) : Handled → Type 0 where
    failed : t.db ≡ s.db → t.bus ≡ s.bus → Driven s0 t Handled.raised
    unpublished :
        (final : IncidentState) (out : IncidentEvent env.crypto.Digest)
        → fresh.delivers ≡ false
        → Ended s0 final
        → t.bus ≡ s.bus
        → Escalated env fresh event.incident_id event final s.db t.db out
          ⊎ Proposed env fresh event.incident_id event final s.db t.db out
        → Driven s0 t Handled.raised
    driven :
        (final : IncidentState) (out : IncidentEvent env.crypto.Digest)
        → fresh.delivers ≡ true
        → Ended s0 final
        → t.bus ≡ s.bus ++ out ∷ []
        → Escalated env fresh event.incident_id event final s.db t.db out
          ⊎ Proposed env fresh event.incident_id event final s.db t.db out
        → Driven s0 t Handled.returned

  publish_after-Driven :
      (s0 final : IncidentState) (s' : State env) (db' : Db env)
      (out : IncidentEvent env.crypto.Digest) (b : Bool)
      → fresh.delivers ≡ b
      → s'.bus ≡ s.bus
      → Ended s0 final
      → Escalated env fresh event.incident_id event final s.db db' out
        ⊎ Proposed env fresh event.incident_id event final s.db db' out
      → let r = publish_after env fresh b out (record s' { db = db' }) in Driven s0 r.1 r.0
  publish_after-Driven s0 final s' db' out true e same_bus ended h =
      Driven.driven final out e ended (rw same_bus) h
  publish_after-Driven s0 final s' db' out false e same_bus ended h =
      Driven.unpublished final out e ended same_bus h

  emit-Driven :
      (s0 final : IncidentState) (s' : State env) (w : Written env fresh)
      → s'.db ≡ s.db
      → s'.bus ≡ s.bus
      → Ended s0 final
      → Emitted env fresh event.incident_id event final s.db w
      → Driven s0 (emit env fresh w s').1 (emit env fresh w s').0
  emit-Driven s0 final s' none same_db same_bus ended h = Driven.failed same_db same_bus
  emit-Driven s0 final s' (some (db', out)) same_db same_bus ended h =
      publish_after-Driven s0 final s' db' out fresh.delivers refl same_bus ended h

  finish_run-Driven :
      (s0 : IncidentState) (tiers : List (String × String)) (o : Option IncidentState) (c : Context)
      → Holds (Ended s0) o
      → let r = finish_run env fresh deps limits event.incident_id event tiers (o, c) s in
        Driven s0 r.1 r.0
  unfolding finish_run persist_and_emit after_run
  finish_run-Driven s0 tiers none c h = Driven.failed refl refl
  finish_run-Driven s0 tiers (some final) c h =
      emit-Driven s0 final (after_run env fresh deps limits c s) _ refl refl h
        (persist-Emitted env fresh event.incident_id event final s.db tiers)

  opened_branch :
      {A : Type 0} (t : IncidentEventType) (run skip : A)
      → t ≡ IncidentEventType.opened
      → (elim t [ IncidentEventType.opened ↦ run | _ ↦ skip ]) ≡ run
  opened_branch t run skip e = rw e refl

  on_opened :
      (inc : IncidentRow)
      → event.event_type ≡ IncidentEventType.opened
      → get_row (λ (i : IncidentRow). i.id) event.incident_id s.db.incidents ≡ some inc
      → let s0 =
          initial_state event.incident_id inc.fencing_token inc.title inc.services
            (Json.text (severity_value inc.severity)) in
        handle_opened env fresh deps limits event s
        ≡ finish_run env fresh deps limits event.incident_id event
            (risk_tier_map env s.db)
            (run_graph deps s0 (new_context env fresh deps limits s))
            s
  unfolding handle_opened load_incident orchestrate
  on_opened inc typed found =
      opened_branch event.event_type
        (orchestrate env fresh deps limits (load_incident env event.incident_id s.db) event s)
        (Handled.returned, s) typed
      ∙ rw (found, orchestrate) refl

  -- The handler of an opened incident that exists either raises, having written and published
  -- nothing, or commits the rows of a state in which the workflow ended. If that state gives up,
  -- no plan changes and its event escalates; if not, the incident is left with exactly one plan,
  -- still to be decided and with its steps numbered from 0, no other incident's plans change, and
  -- its event proposes that plan. Then, if the broker takes that event, exactly this one is
  -- published and the handler returns; if not, it raises with the rows written and nothing
  -- published.
  pub handle_opened-Driven :
      (inc : IncidentRow)
      → event.event_type ≡ IncidentEventType.opened
      → get_row (λ (i : IncidentRow). i.id) event.incident_id s.db.incidents ≡ some inc
      → let r = handle_opened env fresh deps limits event s in
        Driven
          (initial_state event.incident_id inc.fencing_token inc.title inc.services
            (Json.text (severity_value inc.severity)))
          r.1
          r.0
  handle_opened-Driven inc typed found =
      let s0 =
        initial_state event.incident_id inc.fencing_token inc.title inc.services
          (Json.text (severity_value inc.severity)) in
      let c = new_context env fresh deps limits s in
      subst (λ (p : Handled × State env). Driven s0 p.1 p.0) (sym (on_opened inc typed found))
        (finish_run-Driven s0 (risk_tier_map env s.db) (run_graph deps s0 c).0
          (run_graph deps s0 c).1 (run_graph-Ended deps s0 c))

module _ (env : Env) (fresh : Fresh) (id : ℕ) (event : IncidentEvent env.crypto.Digest)
    (final : IncidentState) (db db' : Db env) (out : IncidentEvent env.crypto.Digest) where
  escalated-gives_up : final.escalated ≡ some true → gives_up final ≡ true
  unfolding gives_up
  escalated-gives_up e = rw e refl

  -- The plan of a workflow that ended is marked for autonomy only if the retrieved evidence had a
  -- precedent and the confidence is at least 0.7, and then it requires no approval; a plan that
  -- is not marked requires one.
  pub autonomous_plan :
      (s0 : IncidentState) (p : Proposed env fresh id event final db db' out)
      → Ended s0 final
      → (p.plan.autonomy_allowed ≡ true
          → (or_false final.has_precedent ≡ true)
            × (ltb_ℤ (or_zero final.confidence) autonomy_confidence ≡ false))
        × (p.plan.requires_approval ≡ not p.plan.autonomy_allowed)
  autonomous_plan s0 p (Ended.escalated d e same) = absurd (cc (p.kept, escalated-gives_up e))
  autonomous_plan s0 p (Ended.planned d cleared some_plan) = (
    λ h.
        let allowed : final.autonomy_allowed ≡ some true =
          allowed_of final.autonomy_allowed (sym p.autonomy ∙ h) in
        (cleared.with_precedent allowed, cleared.with_confidence allowed),
    p.approval ∙ rw cleared.approval (ap not (sym p.autonomy)),
  )
    where
      allowed_of : (o : Option Bool) → or_false o ≡ true → o ≡ some true
      allowed_of (some b) h = cc
      allowed_of none h = cc
