-- ===== src/Knowledge/Laws.antt =====
-- What the closed loop of src/aegis_services/knowledge_ingestor/service.py remembers of the
-- incidents that src/aegis_services/action_executor/worker.py resolves, and what
-- src/aegis_services/rag_service then finds.
use aegis_project.Prelude.{
  ℕ, ◌≡◌, refl, ap, ◌∙◌, ◌⊎◌, inl, inr, String, true, false, Option, none, some, List, [], ◌∷◌,
  ◌++◌, map, All, str_eq, eq_iff, sort_by,
}
use aegis_project.Json.{Json, Fields, Items, nil, cons, get, get_or, or_default, put, field, end}
use aegis_project.Events.{IncidentEvent, IncidentEventType, plain_event}
use aegis_project.Store.{Env}
use aegis_project.Executor.Runtime.{Runtime}
use aegis_project.Executor.State.{State, Clocks, publish}
use aegis_project.Executor.Worker.{resolve}
use aegis_project.Retrieval.{
  Collection, EvidenceBundle, precedent_gate, precedent_threshold, retrieve, bundle_of,
  best_precedent, first_vector, best_passes, first_hit, higher_first,
}
use aegis_project.Rag.{knowledge_of}
use aegis_project.VectorStore.{
  Client, Point, ScoredPoint, Conditions, upsert, search, point_of, conditions, chunk_of,
}
use aegis_project.Knowledge.{
  Services, consume_resolved, ingest_resolved_incident, first_service, episode_text, store_episode,
  episode_payload, iterated_texts, join,
}

InItems : Json → Items → Type 0
InItems v nil = ⊥
InItems v (cons w ws) = (v ≡ w) ⊎ InItems v ws

-- A condition as the database documents it: the payload holds the value under the key, or a list
-- with the value.
abbrev pub Matches : Fields → String × Json → Type 0
unfolding InItems
Matches p (k, v) =
    (get k p ≡ some v) ⊎ ((vs : Items) × (get k p ≡ some (Json.arr vs)) × InItems v vs)

pub equal-Matches : (k : String) (v : Json) (p : Fields) → get k p ≡ some v → Matches p (k, v)
unfolding Matches
equal-Matches k v p e = inl e

abbrev pub MatchesAll : Option Conditions → Fields → Type 0
MatchesAll none p = Unit
MatchesAll (some cs) p = All (Matches p) cs

-- What the database documents: after an upsert a collection holds points that were upserted or
-- that it held, and a search gives hits on points of the collection that match the filter.
pub record ClientLaws (client : Client) : Type 1 where
  pub points : String → client.Stored → List (Point client.Vector)
  pub upsert_All :
      (P : Point client.Vector → Type 0) (c : String) (new : List (Point client.Vector))
      (stored : client.Stored)
      → All P new
      → All P (points c stored)
      → All P (points c (client.upsert c new stored))
  pub search_All :
      (P : Fields → Type 0) (c : String) (v : client.Vector) (f : Option Conditions) (limit : ℕ)
      (stored : client.Stored)
      → All (λ p. P p.payload) (points c stored)
      → All
          (λ (h : ScoredPoint). P h.payload × MatchesAll f h.payload)
          (client.search c v f limit stored)

abbrev pub IsUnknown : Fields → Type 0
IsUnknown p = get "service" p ≡ some (Json.text "unknown")

module _ (services : Services) (laws : ClientLaws services.client) where
  -- Every episode in the store names the service "unknown".
  unfoldable pub EpisodesUnknown : services.client.Stored → Type 0
  EpisodesUnknown stored =
      All (λ (p : Point services.client.Vector). IsUnknown p.payload)
        (laws.points "incidents_episodic" stored)

  -- The episode of an incident is the one point that an upsert adds, and its service is "unknown".
  abbrev pub StoredUnknown : ℕ → String → services.client.Stored → services.client.Stored → Type 0
  StoredUnknown incident_id occurred_at stored stored' =
      (p : Point services.client.Vector) × (p.point_id ≡ services.uuid_text incident_id)
      × IsUnknown p.payload
      × (get "resolved_at" p.payload ≡ some (Json.text occurred_at))
      × (stored' ≡ services.client.upsert "incidents_episodic" (p ∷ []) stored)

  store_episode-EpisodesUnknown :
      {D : Type 0} (e : IncidentEvent D) (occurred_at text : String) (v : services.client.Vector)
      (vs : List services.client.Vector) (stored : services.client.Stored)
      → EpisodesUnknown stored
      → (stored' : services.client.Stored) × (store_episode services e occurred_at text
            (some (Json.text "unknown"))
            (v ∷ vs)
            stored
          ≡ some stored')
        × StoredUnknown e.incident_id occurred_at stored stored'
        × EpisodesUnknown stored'
  unfolding EpisodesUnknown upsert store_episode episode_payload point_of get put
  store_episode-EpisodesUnknown e occurred_at text v vs stored h = (
    _,
    refl,
    (_, refl, refl, refl, refl),
    laws.upsert_All (λ p. IsUnknown p.payload) "incidents_episodic" _ stored (refl, tt) h,
  )

  consume-EpisodesUnknown :
      {D : Type 0} (e : IncidentEvent D) (occurred_at : String) (stored : services.client.Stored)
      → e.event_type ≡ IncidentEventType.resolved
      → get "services" e.payload ≡ none
      → ((text : String) → (v : services.client.Vector) × (services.embed (text ∷ []) ≡ v ∷ []))
      → EpisodesUnknown stored
      → (stored' : services.client.Stored) × (consume_resolved services e occurred_at stored
          ≡ some stored')
        × StoredUnknown e.incident_id occurred_at stored stored'
        × EpisodesUnknown stored'
  unfolding consume_resolved ingest_resolved_incident get_or first_service
  consume-EpisodesUnknown e occurred_at stored ht hs embeds h =
      let text = episode_text services e.payload "" in
      let (v, ev) = embeds text in
      let (stored', es, added, hs') =
        store_episode-EpisodesUnknown e occurred_at text v [] stored h in
      let ingested =
        ap
          (λ o. elim (iterated_texts services (or_default (Json.arr nil) o)) [
            | none ↦ none
            | some names ↦
                let t = episode_text services e.payload (join services names) in
                store_episode services e occurred_at t (first_service services o)
                  (services.embed (t ∷ [])) stored
          ])
          hs in
      (
        stored',
        ap
              (λ t. elim t [
                | IncidentEventType.resolved ↦
                    ingest_resolved_incident services e occurred_at stored
                | _ ↦ some stored
              ])
              ht
            ∙ ingested
            ∙ ap
                (λ vs.
                  store_episode services e occurred_at text (some (Json.text "unknown")) vs stored)
                ev
            ∙ es,
        added,
        hs',
      )

  -- When an execution resolves an incident, the event that it publishes, once the ingestor has
  -- consumed it, adds to the store exactly one episode, under the incident's id, whose service is
  -- "unknown": where all stored episodes are such, they still are.
  pub resolve-EpisodesUnknown :
      (env : Env) (rt : Runtime env.crypto) (clocks : Clocks) (incident_id plan_id : ℕ)
      (e : IncidentEvent env.crypto.Digest) (s : State env rt) (occurred_at : String)
      (stored : services.client.Stored)
      → ((text : String) → (v : services.client.Vector) × (services.embed (text ∷ []) ≡ v ∷ []))
      → EpisodesUnknown stored
      → (event : IncidentEvent env.crypto.Digest) × (stored' : services.client.Stored) × ((resolve
            env rt clocks incident_id plan_id e s).bus
          ≡ s.bus ++ event ∷ [])
        × (consume_resolved services event occurred_at stored ≡ some stored')
        × StoredUnknown incident_id occurred_at stored stored'
        × EpisodesUnknown stored'
  unfolding resolve publish get
  resolve-EpisodesUnknown env rt clocks incident_id plan_id e s occurred_at stored embeds h =
      let event = plain_event incident_id IncidentEventType.resolved (
        field "plan_id" (Json.uuid plan_id) (
          field "resolution" (Json.text "auto-remediated")
            (field "root_cause" (get_or "root_cause" (Json.text "") e.payload) end))) in
      let (stored', consumed, added, unknown) =
        consume-EpisodesUnknown event occurred_at stored refl refl embeds h in
      (event, stored', refl, consumed, added, unknown)

  -- A hit that names the service "unknown" does not match another service.
  unknown_never-Matches :
      (service : String) (p : Fields)
      → str_eq service "unknown" ≡ false
      → IsUnknown p
      → ¬ Matches p ("service", Json.text service)
  unfolding Matches
  unknown_never-Matches service p hu hp (inl e) =
      let same : service ≡ "unknown" = cc in
      let b : str_eq service "unknown" ≡ true = (eq_iff service "unknown").1 same in cc
  unknown_never-Matches service p hu hp (inr (vs, e, i)) = cc

  no_hits :
      (f : Conditions) (hits : List ScoredPoint) (show : Json → String) (service : String)
      → str_eq service "unknown" ≡ false
      → All
          (λ (h : ScoredPoint).
            IsUnknown h.payload × MatchesAll (some (("service", Json.text service) ∷ f)) h.payload)
          hits
      → hits ≡ []
  no_hits f [] show service hu h = refl
  no_hits f (x ∷ xs) show service hu h =
      absurd (unknown_never-Matches service x.payload hu h.0.0 h.0.1.0)

  search_unknown :
      (service : String)
      → str_eq service "" ≡ false
      → str_eq service "unknown" ≡ false
      → (show : Json → String) (v : services.client.Vector) (limit : ℕ)
        (stored : services.client.Stored)
      → EpisodesUnknown stored
      → search services.client show Collection.episodic v limit (some service) [] stored ≡ []
  unfolding search EpisodesUnknown conditions
  search_unknown service h0 hu show v limit stored h = rw h0 (
      ap (map (chunk_of show)) (
        no_hits [] _ show service hu
          (laws.search_All IsUnknown "incidents_episodic" v _ limit stored h)))

  -- While all stored episodes name the service "unknown", a retrieval for any service but that one
  -- and the empty text finds no precedent: whatever the query, the numbers of hits and the embedding, the gate is shut.
  pub retrieve_unknown :
      (service : String)
      → str_eq service "" ≡ false
      → str_eq service "unknown" ≡ false
      → (query : String) (k_runbooks k_episodic : ℕ) (stored : services.client.Stored)
      → EpisodesUnknown stored
      → (vector : services.client.Vector)
      → let k = knowledge_of services.client services.show services.embed stored in
        first_vector k (services.embed (query ∷ [])) ≡ some vector
        → (bundle : EvidenceBundle) × (retrieve k query (some service) k_runbooks k_episodic
            ≡ some bundle)
          × (precedent_gate bundle precedent_threshold ≡ false)
  unfolding retrieve precedent_gate bundle_of best_precedent
  retrieve_unknown service h0 hu query k_runbooks k_episodic stored h vector e =
      let k = knowledge_of services.client services.show services.embed stored in
      (
        bundle_of k query vector (some service) k_runbooks k_episodic,
        rw (e, retrieve) refl,
        ap (λ hits. best_passes precedent_threshold (first_hit (sort_by higher_first hits)))
            (search_unknown service h0 hu services.show vector k_episodic stored h),
      )
