-- ===== src/System/Governed.antt =====
-- What holds of the services together after any sequence of steps.
use aegis_project.Prelude.{
  ℕ, ◌≡◌, ◌⊎◌, inl, inr, refl, ◌∙◌, String, Bool, true, false, List, [], ◌∷◌, ◌++◌, All, All-append,
  All-map, All-get_elem?, if◌then◌else◌,
}
use aegis_project.Json.{Fields}
use aegis_project.Audit.Laws.{IsValid}
use aegis_project.Events.{SignalEvent, IncidentEvent}
use aegis_project.Store.{Env, ApprovalRow}
use aegis_project.Detection.Topology.{Adjacency}
use aegis_project.Detection.Worker.{Ending, handle_signal}
use aegis_project.Orchestrator.Agents.{Deps}
use aegis_project.Orchestrator.Rows.{Fresh}
use aegis_project.Orchestrator.Worker.{Limits}
use aegis_project.Pdp.Decide.{decide}
use aegis_project.Executor.Runtime.{Runtime}
use aegis_project.Executor.State.{Clocks}
use aegis_project.Bus.Keeps.{poll_keeps}
use aegis_project.System.{
  World, System, Action, detection_state, after_detection, agent_state, action_state, consumer_at,
  on_opened, on_approved, step, run,
}
use aegis_project.System.Frame.{Frame, IsQuiet, Advance, Advance-Frame}
use aegis_project.System.Approvals.{
  NamesApproved, has_approval, Governs, handle_approved-Acts, quiet_at, still-Governs,
}
use aegis_project.System.Services.{handle_signal-Advance, handle_opened-Advance}
use aegis_project.System.Decisions.{decide-Decides}

module _ (env : Env) (rt : Runtime env.crypto) (start : rt.Target) where
  -- The target is as it was at the start, or some plan was approved.
  abbrev pub OnTarget : rt.Target → List (ApprovalRow env.crypto.Digest) → Type 0
  OnTarget t rows = (t ≡ start) ⊎ ((n : ℕ) × (has_approval n rows ≡ true))

  -- Every request and every execution that is announced names an approved plan, the target is as
  -- it was at the start or some plan was approved, and the audit log is valid.
  pub record IsGoverned (w : World env rt) : Type 0 where
    pub requests : All (Governs w.db.approvals) w.requested
    pub announced : All (Governs w.db.approvals) w.lifecycle
    pub on_target : OnTarget w.target w.db.approvals
    pub audit_valid : IsValid env.hasher w.db.audit

  OnTarget-keeps :
      (t t' : rt.Target) (rows : List (ApprovalRow env.crypto.Digest))
      → (t' ≡ t) ⊎ ((n : ℕ) × (has_approval n rows ≡ true))
      → OnTarget t rows
      → OnTarget t' rows
  OnTarget-keeps t t' rows (inl e) (inl h) = inl (e ∙ h)
  OnTarget-keeps t t' rows (inl e) (inr h) = inr h
  OnTarget-keeps t t' rows (inr k) h = inr k

  still-OnTarget :
      {t : rt.Target} (rows rows' : List (ApprovalRow env.crypto.Digest))
      → ((n : ℕ) → has_approval n rows ≡ true → has_approval n rows' ≡ true)
      → OnTarget t rows
      → OnTarget t rows'
  still-OnTarget rows rows' keeps (inl e) = inl e
  still-OnTarget rows rows' keeps (inr (n, h)) = inr (n, keeps n h)

  sent :
      (rows : List (ApprovalRow env.crypto.Digest))
      (events : List (IncidentEvent env.crypto.Digest)) (published : Bool)
      → All (Governs rows) events
      → All (Governs rows) (if published then events else [])
  sent rows events true h = h
  sent rows events false h = tt

  Advance-IsGoverned :
      (w w' : World env rt)
      → Advance Frame (Governs w.db.approvals) w.db w'.db w.lifecycle w'.lifecycle
      → w'.requested ≡ w.requested
      → (w'.target ≡ w.target) ⊎ ((n : ℕ) × (has_approval n w.db.approvals ≡ true))
      → IsGoverned w
      → IsGoverned w'
  Advance-IsGoverned w w' a same t h = record {
    requests = rw (a.related.same_approvals, same) h.requests;
    announced =
        rw (a.related.same_approvals, a.on_bus)
          (All-append (Governs w.db.approvals) w.lifecycle a.published h.announced a.kind);
    on_target =
        rw a.related.same_approvals
          (OnTarget-keeps w.target w'.target w.db.approvals t h.on_target);
    audit_valid = a.related.audit_valid h.audit_valid;
  }

  quiet-IsGoverned :
      (w w' : World env rt)
      → Advance Frame IsQuiet w.db w'.db w.lifecycle w'.lifecycle
      → w'.requested ≡ w.requested
      → w'.target ≡ w.target
      → IsGoverned w
      → IsGoverned w'
  quiet-IsGoverned w w' a same t h =
      Advance-IsGoverned w w'
        (record {
          related = a.related;
          published = a.published;
          on_bus = a.on_bus;
          kind = All-map (λ e. quiet_at w.db.approvals e.event_type e.payload) a.published a.kind;
        })
        same (inl t) h

  module _ (limits : Limits) (clocks : Clocks) (topology : Adjacency) (window_seconds : ℕ) where
    detection-IsGoverned :
        (ending : Ending) (now new_id : ℕ) (e : SignalEvent) (w : World env rt)
        → IsGoverned w
        → IsGoverned (
            after_detection env rt w
              (handle_signal env topology window_seconds now new_id
                (λ db. db)
                e
                (detection_state env rt ending w)).1)
    detection-IsGoverned ending now new_id e w =
        quiet-IsGoverned w _
          (handle_signal-Advance env topology window_seconds now new_id e
            (detection_state env rt ending w))
          refl refl

    on_opened-IsGoverned :
        (fresh : Fresh) (deps : Deps) (e : IncidentEvent env.crypto.Digest) (w : World env rt)
        → IsGoverned w
        → IsGoverned (on_opened env rt limits clocks fresh deps e w).1
    unfolding on_opened
    on_opened-IsGoverned fresh deps e w =
        quiet-IsGoverned w _
          (Advance-Frame (handle_opened-Advance env fresh deps limits e (agent_state env rt w)))
          refl refl

    some_plan :
        {A : Type 0} (rows : List (ApprovalRow env.crypto.Digest)) (payload : Fields)
        → A ⊎ NamesApproved rows payload
        → A ⊎ ((n : ℕ) × (has_approval n rows ≡ true))
    some_plan rows payload (inl a) = inl a
    some_plan rows payload (inr (n, names, h)) = inr (n, h)

    on_approved-IsGoverned :
        (e : IncidentEvent env.crypto.Digest) (w : World env rt)
        → Governs w.db.approvals e
        → IsGoverned w
        → IsGoverned (on_approved env rt limits clocks e w).1
    unfolding on_approved
    on_approved-IsGoverned e w g =
        let acts = handle_approved-Acts env rt clocks e (action_state env rt w) g in
        Advance-IsGoverned w _ (Advance-Frame acts.advance) refl
          (some_plan w.db.approvals e.payload acts.on_target)

    decision-IsGoverned :
        (plan_id : ℕ) (text approver : String) (published : Bool) (w : World env rt)
        → IsGoverned w
        → let r = decide env plan_id text approver w.db in
          IsGoverned
            (record w { db = r.1; requested = w.requested ++ (if published then r.2 else []) })
    decision-IsGoverned plan_id text approver published w h =
        let d = decide-Decides env plan_id text approver w.db in
        let db = (decide env plan_id text approver w.db).1 in
        record {
          requests =
              All-append (Governs db.approvals) w.requested _
                (still-Governs w.db.approvals db.approvals d.keeps w.requested h.requests)
                (sent db.approvals _ published d.governed);
          announced = still-Governs w.db.approvals db.approvals d.keeps w.lifecycle h.announced;
          on_target = still-OnTarget w.db.approvals db.approvals d.keeps h.on_target;
          audit_valid = d.audit_valid h.audit_valid;
        }

    pub step-IsGoverned :
        (a : Action) (s : System env rt)
        → IsGoverned s.world
        → IsGoverned (step env rt limits clocks topology window_seconds a s).world
    unfolding step
    step-IsGoverned (Action.signal ending now new_id e) s h =
        detection-IsGoverned ending now new_id e s.world h
    step-IsGoverned (Action.orchestrate commits fresh deps) s h =
        poll_keeps (on_opened env rt limits clocks fresh deps) IsGoverned commits
          (consumer_at env rt s.orchestrator s.world.lifecycle) s.world
          (λ e _. on_opened-IsGoverned fresh deps e s.world h) h
    step-IsGoverned (Action.decision plan_id text approver published) s h =
        decision-IsGoverned plan_id text approver published s.world h
    step-IsGoverned (Action.execute commits) s h =
        poll_keeps (on_approved env rt limits clocks) IsGoverned commits
          (consumer_at env rt s.executor s.world.requested) s.world
          (λ e at.
            on_approved-IsGoverned e s.world
              (All-get_elem? (Governs s.world.db.approvals) s.world.requested _ e h.requests at) h)
          h
    step-IsGoverned Action.restart_orchestrator s h = record {
      requests = h.requests;
      announced = h.announced;
      on_target = h.on_target;
      audit_valid = h.audit_valid;
    }
    step-IsGoverned Action.restart_executor s h = record {
      requests = h.requests;
      announced = h.announced;
      on_target = h.on_target;
      audit_valid = h.audit_valid;
    }

    -- From a world in which each event on the topics that says that a plan is approved or being
    -- executed names a plan with an approving row, the audit log is valid, and the target is as at
    -- the start unless some plan has such a row, every sequence of signals, consumed records,
    -- decisions, lost requests and restarts leads to such a world.
    pub run-IsGoverned :
        (actions : List Action) (s : System env rt)
        → IsGoverned s.world
        → IsGoverned (run env rt limits clocks topology window_seconds actions s).world
    unfolding run
    run-IsGoverned [] s h = h
    run-IsGoverned (a ∷ as') s h = run-IsGoverned as' _ (step-IsGoverned a s h)

    -- If both topics are empty at the start and the audit log is valid, then after any sequence of
    -- steps at whose end no plan has an approving row, the target is as it was at the start.
    pub unapproved_untouched :
        (actions : List Action) (s : System env rt)
        → s.world.requested ≡ []
        → s.world.lifecycle ≡ []
        → s.world.target ≡ start
        → IsValid env.hasher s.world.db.audit
        → let w = (run env rt limits clocks topology window_seconds actions s).world in
          ((n : ℕ) → has_approval n w.db.approvals ≡ false) → w.target ≡ start
    unapproved_untouched actions s no_requests no_events same valid none_approves =
        let g = run-IsGoverned actions s (record {
          requests = rw no_requests tt;
          announced = rw no_events tt;
          on_target = inl same;
          audit_valid = valid;
        }) in
        elim g.on_target [ inl e ↦ e | inr (n, h) ↦ absurd (cc (h, none_approves n)) ]
