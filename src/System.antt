-- ===== src/System.antt =====
-- The services together: detection, the orchestrator, the decision point and the action executor
-- on one database, the topic `incidents.lifecycle` that they publish on and the orchestrator
-- consumes, and the topic `actions.requested` between the decision point and the executor, each of
-- one partition (`run` of src/aegis_services/orchestrator/worker.py and of
-- src/aegis_services/action_executor/worker.py, `decide` of src/aegis_services/policy_approval/app.py).
-- A handler runs as one step; a handler that raises, a commit of an offset that fails, a request that is lost between the commit and
-- the publication, and the restart of a consumer are steps too.
pub mod Frame
pub mod Executions
pub mod Approvals
pub mod Services
pub mod Decisions
pub mod Governed
pub mod Fenced
pub mod Changes
use aegis_project.Prelude.{ℕ, String, Bool, true, false, List, [], ◌∷◌, ◌++◌, if◌then◌else◌}
use aegis_project.Events.{SignalEvent, IncidentEvent}
use aegis_project.Reliability.Breaker.{Breaker, new_breaker}
use aegis_project.Store.{Env, Db}
use aegis_project.Detection.Topology.{Adjacency}
use aegis_project.Detection.Worker.{State as DetectionState, Ending, handle_signal}
use aegis_project.Orchestrator.Agents.{Deps}
use aegis_project.Orchestrator.Rows.{Fresh}
use aegis_project.Orchestrator.Worker.{
  State as AgentState, Handled as AgentHandled, Limits, handle_opened,
}
use aegis_project.Pdp.Decide.{decide}
use aegis_project.Executor.Runtime.{Runtime}
use aegis_project.Executor.State.{State as ActionState, Clocks}
use aegis_project.Executor.Worker.{Handled as ActionHandled, returned, failed, handle_approved}
use aegis_project.Bus.{Consumer, Handler, poll, restart}

module _ (env : Env) (rt : Runtime env.crypto) where
  -- What the handlers share and change: the database, the topics, the fencing sequence, the target
  -- of the actions, the breakers of the two workers and how often each of them read a clock.
  pub record World : Type 0 where
    pub db : Db env
    pub lifecycle : List (IncidentEvent env.crypto.Digest)
    pub requested : List (IncidentEvent env.crypto.Digest)
    pub last_token : ℕ
    pub target : rt.Target
    pub llm_breaker : Breaker
    pub rag_breaker : Breaker
    pub infra_breaker : Breaker
    pub agent_reads : ℕ
    pub action_reads : ℕ

-- Where a consumer group reads next, and what it has committed.
pub record Offsets : Type 0 where
  pub position : ℕ
  pub committed : ℕ

module _ (env : Env) (rt : Runtime env.crypto) where
  pub record System : Type 0 where
    pub world : World env rt
    pub orchestrator : Offsets
    pub executor : Offsets

-- What a step of the system does, with what the environment supplies to it: a signal reaches
-- detection, the orchestrator or the executor takes its next record (false where the commit behind
-- the handler raises, or the process ends before it and starts again next), a person decides on a plan
-- (false where the process ends between the commit and the publication), or a worker starts again
-- from its committed offset, with new breakers.
pub data Action : Type 0 where
  signal : Ending → ℕ → ℕ → SignalEvent → Action
  orchestrate : Bool → Fresh → Deps → Action
  decision : ℕ → String → String → Bool → Action
  execute : Bool → Action
  restart_orchestrator : Action
  restart_executor : Action

module _ (env : Env) (rt : Runtime env.crypto) where
  abbrev pub detection_state : Ending → World env rt → DetectionState env
  detection_state ending w = record {
    db = w.db;
    last_token = w.last_token;
    bus = w.lifecycle;
    ending = ending;
  }

  abbrev pub after_detection : World env rt → DetectionState env → World env rt
  after_detection w s = record w { db = s.db; last_token = s.last_token; lifecycle = s.bus }

  abbrev pub agent_state : World env rt → AgentState env
  agent_state w = record {
    db = w.db;
    breaker = w.llm_breaker;
    rag_breaker = w.rag_breaker;
    bus = w.lifecycle;
    reads = w.agent_reads;
  }

  abbrev pub after_agents : World env rt → AgentState env → World env rt
  after_agents w s = record w {
    db = s.db;
    llm_breaker = s.breaker;
    rag_breaker = s.rag_breaker;
    lifecycle = s.bus;
    agent_reads = s.reads;
  }

  abbrev pub action_state : World env rt → ActionState env rt
  action_state w = record {
    db = w.db;
    breaker = w.infra_breaker;
    target = w.target;
    bus = w.lifecycle;
    reads = w.action_reads;
  }

  abbrev pub after_actions : World env rt → ActionState env rt → World env rt
  after_actions w s = record w {
    db = s.db;
    infra_breaker = s.breaker;
    target = s.target;
    lifecycle = s.bus;
    action_reads = s.reads;
  }

  -- A consumer group on a topic.
  abbrev pub consumer_at :
      Offsets → List (IncidentEvent env.crypto.Digest) → Consumer (IncidentEvent env.crypto.Digest)
  consumer_at o log = record { log = log; position = o.position; committed = o.committed }

  abbrev pub offsets_of : Consumer (IncidentEvent env.crypto.Digest) → Offsets
  offsets_of c = record { position = c.position; committed = c.committed }

  abbrev agents_returned : AgentHandled → Bool
  agents_returned AgentHandled.returned = true
  agents_returned AgentHandled.raised = false

  abbrev actions_returned : ActionHandled → Bool
  actions_returned returned = true
  actions_returned failed = false

  module _ (limits : Limits) (clocks : Clocks) where
    -- The handler that the orchestrator's `run` gives to `consume`.
    unfoldable pub on_opened :
        Fresh → Deps → Handler (IncidentEvent env.crypto.Digest) (World env rt)
    on_opened fresh deps e w =
        let (h, s) = handle_opened env fresh deps limits e (agent_state w) in
        (agents_returned h, after_agents w s)

    -- The handler that the executor's `run` gives to `consume`.
    unfoldable pub on_approved : Handler (IncidentEvent env.crypto.Digest) (World env rt)
    on_approved e w =
        let (h, s) = handle_approved env rt clocks e (action_state w) in
        (actions_returned h, after_actions w s)

    module _ (topology : Adjacency) (window_seconds : ℕ) where
      unfoldable pub step : Action → System env rt → System env rt
      step (Action.signal ending now new_id e) s =
          let (h, t) =
            handle_signal env topology window_seconds now new_id (λ db. db) e
              (detection_state ending s.world) in
          record s { world = after_detection s.world t }
      step (Action.orchestrate commits fresh deps) s =
          let (c, w) =
            poll (on_opened fresh deps) commits
              (consumer_at s.orchestrator s.world.lifecycle, s.world) in
          record s { world = w; orchestrator = offsets_of c }
      step (Action.decision plan_id text approver published) s =
          let (answer, db, events) = decide env plan_id text approver s.world.db in
          record s {
            world = record s.world {
              db = db;
              requested = s.world.requested ++ (if published then events else []);
            };
          }
      step (Action.execute commits) s =
          let (c, w) =
            poll on_approved commits (consumer_at s.executor s.world.requested, s.world) in
          record s { world = w; executor = offsets_of c }
      step Action.restart_orchestrator s = record s {
        world = record s.world { llm_breaker = new_breaker 4 20; rag_breaker = new_breaker 4 20 };
        orchestrator = offsets_of (restart (consumer_at s.orchestrator s.world.lifecycle));
      }
      step Action.restart_executor s = record s {
        world = record s.world { infra_breaker = new_breaker 3 30 };
        executor = offsets_of (restart (consumer_at s.executor s.world.requested));
      }

      unfoldable pub run : List (Action) → System env rt → System env rt
      run [] s = s
      run (a ∷ as') s = run as' (step a s)
