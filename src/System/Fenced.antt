-- ===== src/System/Fenced.antt =====
-- The fencing tokens of the incidents in every state that the services reach together.
use aegis_project.Prelude.{ℕ, ◌≡◌, refl, List, [], ◌∷◌, All-get_elem?}
use aegis_project.Events.{IncidentEvent}
use aegis_project.Store.{Env}
use aegis_project.Detection.Topology.{Adjacency}
use aegis_project.Detection.Fencing.{tokens, IsFenced, handle_signal-IsFenced}
use aegis_project.Orchestrator.Agents.{Deps}
use aegis_project.Orchestrator.Rows.{Fresh}
use aegis_project.Orchestrator.Worker.{Limits}
use aegis_project.Executor.Runtime.{Runtime}
use aegis_project.Executor.State.{Clocks}
use aegis_project.System.{
  World, System, Action, detection_state, agent_state, action_state, consumer_at, on_opened,
  on_approved, step, run,
}
use aegis_project.System.Approvals.{Governs, handle_approved-Acts}
use aegis_project.System.Services.{handle_opened-Advance}
use aegis_project.System.Decisions.{decide-Decides}
use aegis_project.Bus.Keeps.{poll_keeps}
use aegis_project.Detection.Worker.{Ending}
use aegis_project.System.Governed.{IsGoverned, step-IsGoverned}

module _ (env : Env) (rt : Runtime env.crypto) where
  -- What detection keeps of the tokens, of the whole world.
  abbrev pub IsOrdered : World env rt → Type 0
  IsOrdered w = IsFenced env (detection_state env rt Ending.completed w)

  same-IsOrdered :
      (w w' : World env rt)
      → tokens env w'.db.incidents ≡ tokens env w.db.incidents
      → w'.last_token ≡ w.last_token
      → IsOrdered w
      → IsOrdered w'
  same-IsOrdered w w' same last f = record {
    drawn = rw (same, last) f.drawn;
    distinct = rw same f.distinct;
  }

  module _ (start : rt.Target) (limits : Limits) (clocks : Clocks) (topology : Adjacency)
      (window_seconds : ℕ) where
    on_opened-IsOrdered :
        (fresh : Fresh) (deps : Deps) (e : IncidentEvent env.crypto.Digest) (w : World env rt)
        → IsOrdered w
        → IsOrdered (on_opened env rt limits clocks fresh deps e w).1
    unfolding on_opened
    on_opened-IsOrdered fresh deps e w f =
        let a = handle_opened-Advance env fresh deps limits e (agent_state env rt w) in
        same-IsOrdered w (on_opened env rt limits clocks fresh deps e w).1 a.related.same_tokens
          refl f

    on_approved-IsOrdered :
        (e : IncidentEvent env.crypto.Digest) (w : World env rt)
        → Governs w.db.approvals e
        → IsOrdered w
        → IsOrdered (on_approved env rt limits clocks e w).1
    unfolding on_approved
    on_approved-IsOrdered e w g f =
        let acts = handle_approved-Acts env rt clocks e (action_state env rt w) g in
        same-IsOrdered w (on_approved env rt limits clocks e w).1 acts.advance.related.same_tokens
          refl f

    step-IsOrdered :
        (a : Action) (s : System env rt)
        → IsGoverned env rt start s.world
        → IsOrdered s.world
        → IsOrdered (step env rt limits clocks topology window_seconds a s).world
    unfolding step
    step-IsOrdered (Action.signal ending now new_id e) s g f =
        let t =
          handle_signal-IsFenced env topology window_seconds now new_id (λ db. db) e
            (detection_state env rt ending s.world)
            (record { drawn = f.drawn; distinct = f.distinct }) in
        record { drawn = t.drawn; distinct = t.distinct }
    step-IsOrdered (Action.orchestrate commits fresh deps) s g f =
        poll_keeps (on_opened env rt limits clocks fresh deps) IsOrdered commits
          (consumer_at env rt s.orchestrator s.world.lifecycle) s.world
          (λ e _. on_opened-IsOrdered fresh deps e s.world f) f
    step-IsOrdered (Action.decision plan_id text approver published) s g f =
        same-IsOrdered s.world
          (step env rt limits clocks topology window_seconds
            (Action.decision plan_id text approver published) s).world
          (decide-Decides env plan_id text approver s.world.db).same_tokens refl f
    step-IsOrdered (Action.execute commits) s g f =
        poll_keeps (on_approved env rt limits clocks) IsOrdered commits
          (consumer_at env rt s.executor s.world.requested) s.world
          (λ e at.
            on_approved-IsOrdered e s.world
              (All-get_elem? (Governs s.world.db.approvals) s.world.requested _ e g.requests at) f)
          f
    step-IsOrdered Action.restart_orchestrator s g f = record {
      drawn = f.drawn;
      distinct = f.distinct;
    }
    step-IsOrdered Action.restart_executor s g f = record { drawn = f.drawn; distinct = f.distinct }

    -- From a governed world whose tokens were drawn from the sequence and none twice, every
    -- sequence of steps of the services together leads to such a world: no two incidents ever
    -- have one fencing token.
    pub run-IsOrdered :
        (actions : List Action) (s : System env rt)
        → IsGoverned env rt start s.world
        → IsOrdered s.world
        → IsOrdered (run env rt limits clocks topology window_seconds actions s).world
    unfolding run
    run-IsOrdered [] s g f = f
    run-IsOrdered (a ∷ as') s g f =
        run-IsOrdered as' _
          (step-IsGoverned env rt start limits clocks topology window_seconds a s g)
          (step-IsOrdered a s g f)
