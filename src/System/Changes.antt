-- ===== src/System/Changes.antt =====
-- Which steps of the services together change the target of the actions.
use aegis_project.Prelude.{ℕ, Bool, ◌≡◌, ◌⊎◌, inl, inr, refl, some, List, All-get_elem?, get_elem?}
use aegis_project.Events.{IncidentEvent}
use aegis_project.Store.{Env}
use aegis_project.Detection.Topology.{Adjacency}
use aegis_project.Orchestrator.Worker.{Limits}
use aegis_project.Executor.Runtime.{Runtime}
use aegis_project.Executor.State.{Clocks}
use aegis_project.Bus.Keeps.{poll_keeps}
use aegis_project.System.{
  World, System, Action, action_state, consumer_at, on_opened, on_approved, step, run,
}
use aegis_project.System.Approvals.{NamesApproved, Governs, handle_approved-Acts}
use aegis_project.System.Governed.{IsGoverned, run-IsGoverned}

module _ (env : Env) (rt : Runtime env.crypto) where
  -- The record that the executor handles next names a plan that was approved.
  abbrev pub IsApprovedNext : System env rt → Type 0
  IsApprovedNext s =
      (e : IncidentEvent env.crypto.Digest) × (get_elem? s.world.requested s.executor.position
        ≡ some e)
      × NamesApproved s.world.db.approvals e.payload

  module _ (start : rt.Target) (limits : Limits) (clocks : Clocks) (topology : Adjacency)
      (window_seconds : ℕ) where
    on_approved-target :
        (e : IncidentEvent env.crypto.Digest) (w : World env rt)
        → Governs w.db.approvals e
        → ((on_approved env rt limits clocks e w).1.target ≡ w.target)
          ⊎ NamesApproved w.db.approvals e.payload
    unfolding on_approved
    on_approved-target e w g =
        (handle_approved-Acts env rt clocks e (action_state env rt w) g).on_target

    -- What a step makes of the target.
    abbrev pub Explained : (Action) → System env rt → Type 0
    Explained a s =
        ((step env rt limits clocks topology window_seconds a s).world.target ≡ s.world.target)
        ⊎ ((commits : Bool) × (a ≡ Action.execute commits) × IsApprovedNext s)

    abbrev ExecutedNext : System env rt → Bool → Type 0
    ExecutedNext s b =
        (commits : Bool) × (Action.execute b ≡ Action.execute commits) × IsApprovedNext s

    execute-Explained :
        (commits : Bool) (s : System env rt)
        → IsGoverned env rt start s.world
        → Explained (Action.execute commits) s
    unfolding step
    execute-Explained commits s g =
        poll_keeps (on_approved env rt limits clocks)
          (λ w. (w.target ≡ s.world.target) ⊎ ExecutedNext s commits) commits
          (consumer_at env rt s.executor s.world.requested) s.world
          (λ e at. handled e at (
            on_approved-target e s.world
              (All-get_elem? (Governs s.world.db.approvals) s.world.requested _ e g.requests at)))
          (inl refl)
      where
        handled :
            (e : IncidentEvent env.crypto.Digest)
            → get_elem? s.world.requested s.executor.position ≡ some e
            → ((on_approved env rt limits clocks e s.world).1.target ≡ s.world.target)
              ⊎ NamesApproved s.world.db.approvals e.payload
            → ((on_approved env rt limits clocks e s.world).1.target ≡ s.world.target)
              ⊎ ExecutedNext s commits
        handled e at (inl same) = inl same
        handled e at (inr names) = inr (commits, refl, (e, at, names))

    step-Explained :
        (a : Action) (s : System env rt) → IsGoverned env rt start s.world → Explained a s
    unfolding step
    step-Explained (Action.signal ending now new_id e) s g = inl refl
    step-Explained (Action.orchestrate commits fresh deps) s g = inl (
        poll_keeps (on_opened env rt limits clocks fresh deps) (λ w. w.target ≡ s.world.target)
          commits (consumer_at env rt s.orchestrator s.world.lifecycle) s.world
          (λ e at. unfold on_opened in refl) refl)
    step-Explained (Action.decision plan_id text approver published) s g = inl refl
    step-Explained (Action.execute commits) s g = execute-Explained commits s g
    step-Explained Action.restart_orchestrator s g = inl refl
    step-Explained Action.restart_executor s g = inl refl

    -- At any point of any run from a governed world, the next step leaves the target as it is,
    -- unless it is a step of the executor whose next request names a plan with an approving row.
    pub target_changes_approved :
        (actions : List Action) (s : System env rt) (a : Action)
        → IsGoverned env rt start s.world
        → Explained a (run env rt limits clocks topology window_seconds actions s)
    target_changes_approved actions s a g =
        step-Explained a (run env rt limits clocks topology window_seconds actions s)
          (run-IsGoverned env rt start limits clocks topology window_seconds actions s g)
