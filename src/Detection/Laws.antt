-- ===== src/Detection/Laws.antt =====
-- What the handler of a signal (src/aegis_services/detection/worker.py) guarantees: redelivered
-- signals and the effect on the incident that is joined.
use aegis_project.Prelude.{
  ℕ, ◌+◌, ◌≤◌, ◌≡◌, ◌≢◌, ◌⊎◌, inl, inr, refl, String, true, none, some, List, [], ◌∷◌, ◌++◌, arith,
  Option-cases, ◌||◌, str_eq, eq_refl,
}
use aegis_project.Schemas.{Severity, Signal, IncidentStatus, severity_value}
use aegis_project.Events.{SignalEvent, IncidentEvent, IncidentEventType}
use aegis_project.Json.{Json, get}
use aegis_project.Store.{Env, Db, IncidentRow, SignalRow}
use aegis_project.Store.Lookup.{get_row, get_row-update_row}
use aegis_project.Detection.Topology.{Adjacency, member}
use aegis_project.Detection.Correlation.{sev_rank, CorrelationDecision}
use aegis_project.Detection.Choice.{more_severe_lattice}
use aegis_project.Detection.Worker.{
  State, Handled, Ending, end_session, returned, raised, normalize, signal_row, joined,
  attach_signal, open_incident, act_on, handle_signal,
}

abbrev pub signal_id_of : SignalRow → ℕ
signal_id_of r = r.id

abbrev pub incident_id_of : IncidentRow → ℕ
incident_id_of r = r.id

module _ (env : Env) where
  -- What a redelivered signal leaves.
  abbrev pub Rejected : State env → Handled × State env → Type 0
  Rejected s (r, t) = (r ≡ raised) × (t.db ≡ s.db) × (t.bus ≡ s.bus)

  attach_duplicate :
      (now : ℕ) (event : SignalEvent) (signal : Signal) (r : IncidentRow) (s : State env)
      (row : SignalRow)
      → get_row signal_id_of signal.signal_id s.db.signals ≡ some row
      → Rejected s (attach_signal env now event signal r s)
  unfolding attach_signal
  attach_duplicate now event signal r s row h = rw h (refl, refl, refl)

  open_duplicate :
      (now new_id : ℕ) (event : SignalEvent) (signal : Signal) (severity : Severity) (s : State env)
      (row : SignalRow)
      → get_row signal_id_of signal.signal_id s.db.signals ≡ some row
      → Rejected s (open_incident env now new_id event signal severity s)
  unfolding open_incident
  open_duplicate now new_id event signal severity s row h = rw h (refl, refl, refl)

  act_duplicate :
      (now new_id : ℕ) (event : SignalEvent) (signal : Signal) (d : CorrelationDecision)
      (s : State env) (row : SignalRow)
      → get_row signal_id_of signal.signal_id s.db.signals ≡ some row
      → Rejected s (act_on env now new_id event signal d s)
  unfolding act_on
  act_duplicate now new_id event signal (CorrelationDecision.attach id severity) s row h =
      elim (Option-cases (get_row incident_id_of id s.db.incidents)) [
        | inl e ↦ rw (e, act_on) (open_duplicate now new_id event signal signal.severity s row h)
        | inr (r, e) ↦ rw (e, act_on) (attach_duplicate now event signal r s row h)
      ]
  act_duplicate now new_id event signal (CorrelationDecision.open_new severity) s row h =
      open_duplicate now new_id event signal severity s row h

  -- A signal whose id the table has already, whether from before or from another session in the
  -- meantime, makes the handler raise: the database is as the other sessions left it, with no
  -- second signal and no incident changed or opened, and nothing is published.
  pub duplicate_changes_nothing :
      (topology : Adjacency) (window now new_id : ℕ) (others : Db env → Db env)
      (event : SignalEvent) (s : State env) (row : SignalRow)
      → get_row signal_id_of event.signal.signal_id (others s.db).signals ≡ some row
      → let (r, t) = handle_signal env topology window now new_id others event s in
        (r ≡ raised) × (t.db ≡ others s.db) × (t.bus ≡ s.bus)
  unfolding handle_signal normalize
  duplicate_changes_nothing topology window now new_id others event s row h =
      act_duplicate now new_id event (normalize now event.signal) _ (record s { db = others s.db })
        row h

  member-append :
      (v w : String) (vs : List String) → member v (vs ++ w ∷ []) ≡ (member v vs || str_eq w v)
  member-append v w [] = ground arith
  member-append v w (u ∷ vs) = ground (arith, member-append v w vs)

  member-joined :
      (now : ℕ) (signal : Signal) (r : IncidentRow)
      → member signal.service (joined now signal r).services ≡ true
  unfolding joined
  member-joined now signal r =
      ground (arith, member-append signal.service signal.service r.services, eq_refl signal.service)

  member_kept :
      (now : ℕ) (signal : Signal) (r : IncidentRow) (v : String)
      → member v r.services ≡ true
      → member v (joined now signal r).services ≡ true
  unfolding joined
  member_kept now signal r v h = ground (arith, member-append v signal.service r.services)

  joined_severe :
      (now : ℕ) (signal : Signal) (r : IncidentRow)
      → (sev_rank (joined now signal r).severity ≤ sev_rank r.severity)
        × (sev_rank (joined now signal r).severity ≤ sev_rank signal.severity)
  unfolding joined
  joined_severe now signal r =
      let l = more_severe_lattice r.severity signal.severity signal.severity in (l.2, l.3)

  -- A new signal that joins an incident, where its session ends well: the handler returns, the signal is stored once under
  -- the incident, the bus gets exactly one event, an update of that incident with its fencing
  -- token, the trace of the signal's event and the incident's new severity, and the incident, whatever its status was (also
  -- resolved), is under investigation at the next version, names the signal's service and all
  -- services that it named, and is at least as severe as before and as the signal.
  pub attach_effects :
      (now : ℕ) (event : SignalEvent) (signal : Signal) (r : IncidentRow) (s : State env)
      → get_row signal_id_of signal.signal_id s.db.signals ≡ none
      → get_row incident_id_of r.id s.db.incidents ≡ some r
      → s.ending ≡ Ending.completed
      → let (h, t) = attach_signal env now event signal r s in
        let r' = joined now signal r in
        (h ≡ returned)
        × (t.db.signals ≡ s.db.signals ++ signal_row env.sha256_text signal r.id ∷ [])
        × ((e : IncidentEvent env.crypto.Digest) × (t.bus ≡ s.bus ++ e ∷ [])
            × (e.incident_id ≡ r.id)
            × (e.event_type ≡ IncidentEventType.updated)
            × (e.fencing_token ≡ r.fencing_token)
            × (e.trace_id ≡ event.trace_id)
            × (get "severity" e.payload ≡ some (Json.text (severity_value r'.severity))))
        × (get_row incident_id_of r.id t.db.incidents ≡ some r')
        × (r'.status ≡ IncidentStatus.investigating)
        × (r'.version ≡ r.version + 1)
        × (member signal.service r'.services ≡ true)
        × ((v : String) → member v r.services ≡ true → member v r'.services ≡ true)
        × (sev_rank r'.severity ≤ sev_rank r.severity)
        × (sev_rank r'.severity ≤ sev_rank signal.severity)
  unfolding attach_signal get
  attach_effects now event signal r s fresh found ends =
      let moved =
        get_row-update_row incident_id_of r.id r.id (joined now signal) s.db.incidents
          (λ i. unfold joined in refl) in
      rw (fresh, ends)
        (
          refl,
          refl,
          (_, refl, refl, refl, refl, refl, refl),
          ground (arith, moved),
          unfold joined in refl,
          unfold joined in refl,
          member-joined now signal r,
          member_kept now signal r,
          (joined_severe now signal r).0,
          (joined_severe now signal r).1,
        )

  -- What a session that does not end well leaves, with the event that it was to publish.
  abbrev pub Unfinished :
      Ending → IncidentEvent env.crypto.Digest → State env → Handled × State env → Type 0
  Unfinished x e s (h, t) =
      (h ≡ raised)
      × (t.db ≡ s.db)
      × (((x ≡ Ending.unpublished) × (t.bus ≡ s.bus))
          ⊎ ((x ≡ Ending.uncommitted) × (t.bus ≡ s.bus ++ e ∷ [])))

  end_session-Unfinished :
      (x : Ending) (db : Db env) (e : IncidentEvent env.crypto.Digest) (s : State env)
      → x ≢ Ending.completed
      → Unfinished x e s (end_session env x db e s)
  end_session-Unfinished Ending.completed db e s n = absurd (n refl)
  end_session-Unfinished Ending.unpublished db e s n = (refl, refl, inl (refl, refl))
  end_session-Unfinished Ending.uncommitted db e s n = (refl, refl, inr (refl, refl))

  -- The same signal where its session does not end well: the handler raises and the tables stay as
  -- they are. Nothing is published if the publish raises; if the commit raises, an update of the
  -- incident is published, though it is not stored.
  pub attach-Unfinished :
      (now : ℕ) (event : SignalEvent) (signal : Signal) (r : IncidentRow) (s : State env)
      → get_row signal_id_of signal.signal_id s.db.signals ≡ none
      → s.ending ≢ Ending.completed
      → (e : IncidentEvent env.crypto.Digest) × (e.incident_id ≡ r.id)
        × Unfinished s.ending e s (attach_signal env now event signal r s)
  unfolding attach_signal
  attach-Unfinished now event signal r s fresh fails =
      rw fresh (_, refl, end_session-Unfinished s.ending _ _ s fails)
