-- ===== src/System/Services.antt =====
-- What detection, the orchestrator and the decision point change of the database and publish.
use aegis_project.Prelude.{
  ◌+◌, Bool, true, false, ℕ, ◌≡◌, inl, inr, refl, String, Option, none, some, List, Option-cases,
}
use aegis_project.Json.{Json, Items, nil, or_default}
use aegis_project.Schemas.{Signal, Severity}
use aegis_project.Events.{SignalEvent, IncidentEvent, IncidentEventType}
use aegis_project.Store.{Env, Db, IncidentRow, SignalRow, PlanRow, PlanStepRow}
use aegis_project.Store.Lookup.{get_row}
use aegis_project.Detection.Topology.{Adjacency}
use aegis_project.Detection.Correlation.{CorrelationDecision}
use aegis_project.Detection.Worker.{
  State as DetectionState, Ending, end_session, attach_signal, open_incident, act_on, normalize,
  handle_signal,
}
use aegis_project.Detection.Laws.{signal_id_of, incident_id_of}
use aegis_project.Orchestrator.State.{IncidentState}
use aegis_project.Orchestrator.Agents.{Deps, Context}
use aegis_project.Orchestrator.Rows.{Fresh, gives_up, as_text, items_of}
use aegis_project.Orchestrator.Persist.{
  Written, write_escalation, escalated_event, write_plan, with_steps, propose, persist,
}
use aegis_project.Orchestrator.Worker.{
  State, Limits, Handled, publish_after, emit, persist_and_emit, after_run, finish_run, orchestrate,
  handle_opened,
}
use aegis_project.System.Frame.{
  Frame, Frame-refl, Frame-audit, Stable, Stable-refl, Stable-audit, IsQuiet, Advance, Advance-none,
  Advance-one, if_either,
}

module _ (env : Env) where
  end_session-Advance :
      (x : Ending) (db : Db env) (e : IncidentEvent env.crypto.Digest) (s : DetectionState env)
      → Frame s.db db
      → IsQuiet e
      → let t = (end_session env x db e s).1 in Advance Frame IsQuiet s.db t.db s.bus t.bus
  end_session-Advance Ending.completed db e s f q = Advance-one e f refl q
  end_session-Advance Ending.unpublished db e s f q = Advance-none (Frame-refl s.db) refl
  end_session-Advance Ending.uncommitted db e s f q = Advance-one e (Frame-refl s.db) refl q

  attach_signal-Advance :
      (now : ℕ) (event : SignalEvent) (signal : Signal) (r : IncidentRow) (s : DetectionState env)
      → let t = (attach_signal env now event signal r s).1 in
        Advance Frame IsQuiet s.db t.db s.bus t.bus
  unfolding attach_signal
  attach_signal-Advance now event signal r s =
      elim (Option-cases (get_row signal_id_of signal.signal_id s.db.signals)) [
        | inl e ↦ rw e (end_session-Advance s.ending _ _ s (Frame-audit _ s.db _ refl refl) tt)
        | inr (row, e) ↦ rw e (Advance-none (Frame-refl s.db) refl)
      ]

  open_incident-Advance :
      (now new_id : ℕ) (event : SignalEvent) (signal : Signal) (severity : Severity)
      (s : DetectionState env)
      → let t = (open_incident env now new_id event signal severity s).1 in
        Advance Frame IsQuiet s.db t.db s.bus t.bus
  unfolding open_incident
  open_incident-Advance now new_id event signal severity s =
      elim (Option-cases (get_row signal_id_of signal.signal_id s.db.signals)) [
        | inl e ↦ rw e (
            end_session-Advance s.ending _ _ (record s { last_token = s.last_token + 1 })
              (Frame-audit _ s.db _ refl refl) tt)
        | inr (row, e) ↦ rw e (Advance-none (Frame-refl s.db) refl)
      ]

  act_on-Advance :
      (now new_id : ℕ) (event : SignalEvent) (signal : Signal) (d : CorrelationDecision)
      (s : DetectionState env)
      → let t = (act_on env now new_id event signal d s).1 in
        Advance Frame IsQuiet s.db t.db s.bus t.bus
  unfolding act_on
  act_on-Advance now new_id event signal (CorrelationDecision.attach id severity) s =
      elim (Option-cases (get_row incident_id_of id s.db.incidents)) [
        | inl e ↦ rw (e, act_on) (open_incident-Advance now new_id event signal signal.severity s)
        | inr (r, e) ↦ rw (e, act_on) (attach_signal-Advance now event signal r s)
      ]
  act_on-Advance now new_id event signal (CorrelationDecision.open_new severity) s =
      open_incident-Advance now new_id event signal severity s

  -- The handler of a signal publishes no approval and no execution.
  pub handle_signal-Advance :
      (topology : Adjacency) (window now new_id : ℕ) (event : SignalEvent) (s : DetectionState env)
      → let t = (handle_signal env topology window now new_id (λ db. db) event s).1 in
        Advance Frame IsQuiet s.db t.db s.bus t.bus
  unfolding handle_signal
  handle_signal-Advance topology window now new_id event s =
      act_on-Advance now new_id event (normalize now event.signal) _ s

module _ (env : Env) (fresh : Fresh) where
  abbrev WrittenFrame : Db env → Written env fresh → Type 0
  WrittenFrame db none = Unit
  WrittenFrame db (some (db', out)) = Stable db db' × IsQuiet out

  with_steps-Frame :
      (id : ℕ) (event : IncidentEvent env.crypto.Digest) (final : IncidentState) (plan : PlanRow)
      (xs : Items) (db : Db env) (steps : Option (List PlanStepRow))
      → WrittenFrame db (with_steps env fresh id event final plan xs db steps)
  unfolding with_steps write_plan
  with_steps-Frame id event final plan xs db none = tt
  with_steps-Frame id event final plan xs db (some steps) = (Stable-audit _ db _ refl refl refl, tt)

  propose-Frame :
      (rationale : Option String) (xs : Option Items) (id : ℕ)
      (event : IncidentEvent env.crypto.Digest) (final : IncidentState)
      (tiers : List (String × String)) (db : Db env)
      → WrittenFrame db (propose env fresh rationale xs id event final tiers db)
  unfolding propose
  propose-Frame none xs id event final tiers db = tt
  propose-Frame (some r) none id event final tiers db = tt
  propose-Frame (some r) (some xs) id event final tiers db =
      with_steps-Frame id event final _ xs db _

  persist-Frame :
      (id : ℕ) (event : IncidentEvent env.crypto.Digest) (final : IncidentState)
      (tiers : List (String × String)) (db : Db env)
      → WrittenFrame db (persist env fresh id event final tiers db)
  unfolding persist write_escalation
  persist-Frame id event final tiers db =
      let rationale = as_text (or_default (Json.text "") final.rationale) in
      let steps = items_of (or_default (Json.arr nil) final.plan) in
      if_either (WrittenFrame db) (gives_up final)
        (some
          (write_escalation env fresh id event final db, escalated_event env fresh id event final))
        (propose env fresh rationale steps id event final tiers db)
        (Stable-audit _ db _ refl refl refl, tt)
        (propose-Frame rationale steps id event final tiers db)

  publish_after-Advance :
      (db : Db env) (out : IncidentEvent env.crypto.Digest) (s : State env) (b : Bool)
      → Stable db s.db
      → IsQuiet out
      → let t = (publish_after env fresh b out s).1 in Advance Stable IsQuiet db t.db s.bus t.bus
  publish_after-Advance db out s true f q = Advance-one out f refl q
  publish_after-Advance db out s false f q = Advance-none f refl

  emit-Advance :
      (db : Db env) (w : Written env fresh) (s : State env)
      → s.db ≡ db
      → WrittenFrame db w
      → let t = (emit env fresh w s).1 in Advance Stable IsQuiet db t.db s.bus t.bus
  emit-Advance db none s e h = Advance-none (rw e (Stable-refl db)) refl
  emit-Advance db (some (db', out)) s e (f, q) =
      publish_after-Advance db out (record s { db = db' }) fresh.delivers f q

  module _ (deps : Deps) (limits : Limits) where
    finish_run-Advance :
        (id : ℕ) (event : IncidentEvent env.crypto.Digest) (tiers : List (String × String))
        (o : Option IncidentState) (c : Context) (s : State env)
        → let t = (finish_run env fresh deps limits id event tiers (o, c) s).1 in
          Advance Stable IsQuiet s.db t.db s.bus t.bus
    unfolding finish_run persist_and_emit after_run
    finish_run-Advance id event tiers none c s = Advance-none (Stable-refl s.db) refl
    finish_run-Advance id event tiers (some final) c s =
        emit-Advance s.db _ (after_run env fresh deps limits c s) refl
          (persist-Frame id event final tiers s.db)

    orchestrate-Advance :
        (o : Option IncidentRow) (signals : List SignalRow)
        (event : IncidentEvent env.crypto.Digest) (s : State env)
        → let t = (orchestrate env fresh deps limits (o, signals) event s).1 in
          Advance Stable IsQuiet s.db t.db s.bus t.bus
    unfolding orchestrate
    orchestrate-Advance none signals event s = Advance-none (Stable-refl s.db) refl
    orchestrate-Advance (some inc) signals event s =
        finish_run-Advance event.incident_id event _ _ _ s

    on_type :
        (t : IncidentEventType) (s : State env) (ran : Handled × State env)
        → Advance Stable IsQuiet s.db ran.1.db s.bus ran.1.bus
        → let r : Handled × State env = elim t [
          | IncidentEventType.opened ↦ ran
          | _ ↦ (Handled.returned, s)
        ] in
          Advance Stable IsQuiet s.db r.1.db s.bus r.1.bus
    on_type IncidentEventType.opened s ran h = h
    on_type _ s ran h = Advance-none (Stable-refl s.db) refl

    -- The handler of an opened incident publishes no approval and no execution.
    pub handle_opened-Advance :
        (event : IncidentEvent env.crypto.Digest) (s : State env)
        → let t = (handle_opened env fresh deps limits event s).1 in
          Advance Stable IsQuiet s.db t.db s.bus t.bus
    unfolding handle_opened
    handle_opened-Advance event s = on_type event.event_type s _ (orchestrate-Advance _ _ event s)
