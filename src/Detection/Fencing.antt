-- ===== src/Detection/Fencing.antt =====
-- The fencing tokens that the handler of a signal (src/aegis_services/detection/worker.py) draws.
use mathlib.Core.List.{map-append}
use aegis_project.Prelude.{
  ℕ, ◌+◌, ◌≤◌, ◌≡◌, ◌≢◌, inl, inr, refl, Option, none, some, List, [], ◌∷◌, ◌++◌, arith, map, All,
  All-append, Option-cases,
}
use aegis_project.Schemas.{Severity, Signal}
use aegis_project.Events.{SignalEvent, IncidentEvent}
use aegis_project.Store.{Env, Db, IncidentRow}
use aegis_project.Store.Lookup.{get_row, update_row}
use aegis_project.Detection.Topology.{Adjacency}
use aegis_project.Detection.Correlation.{CorrelationDecision}
use aegis_project.Detection.Worker.{
  State, Ending, end_session, normalize, joined, attach_signal, open_incident, act_on,
  handle_signal,
}
use aegis_project.Detection.Laws.{signal_id_of, incident_id_of}

module _ (env : Env) where
  -- The fencing tokens of the incidents.
  abbrev pub tokens : List IncidentRow → List (Option ℕ)
  tokens rows = map (λ (i : IncidentRow). i.fencing_token) rows

  abbrev pub AtMost : ℕ → Option ℕ → Type 0
  AtMost n none = Unit
  AtMost n (some t) = t ≤ n

  -- No two incidents have one token.
  abbrev pub Distinct : List (Option ℕ) → Type 0
  Distinct [] = Unit
  Distinct (none ∷ ts) = Distinct ts
  Distinct (some t ∷ ts) = All (λ u. u ≢ some t) ts × Distinct ts

  -- Every token was drawn from the sequence, and none twice.
  pub record IsFenced (s : State env) : Type 0 where
    pub drawn : All (AtMost s.last_token) (tokens s.db.incidents)
    pub distinct : Distinct (tokens s.db.incidents)

  tokens-update_row :
      (now id : ℕ) (signal : Signal) (rows : List IncidentRow)
      → tokens (update_row incident_id_of id (joined now signal) rows) ≡ tokens rows
  unfolding update_row joined
  tokens-update_row now id signal [] = refl
  tokens-update_row now id signal (r ∷ rows) = ground (arith, tokens-update_row now id signal rows)

  AtMost-suc : (n : ℕ) (ts : List (Option ℕ)) → All (AtMost n) ts → All (AtMost (n + 1)) ts
  AtMost-suc n [] h = tt
  AtMost-suc n (none ∷ ts) h = (tt, AtMost-suc n ts h.1)
  AtMost-suc n (some t ∷ ts) h = (omega arith, AtMost-suc n ts h.1)

  Distinct-snoc :
      (n : ℕ) (ts : List (Option ℕ))
      → All (AtMost n) ts
      → Distinct ts
      → Distinct (ts ++ some (n + 1) ∷ [])
  Distinct-snoc n [] h d = (tt, tt)
  Distinct-snoc n (none ∷ ts) h d = Distinct-snoc n ts h.1 d
  Distinct-snoc n (some t ∷ ts) h d = (
    All-append (λ u. u ≢ some t) ts (some (n + 1) ∷ []) d.0 ((λ e. ground arith), tt),
    Distinct-snoc n ts h.1 d.1,
  )

  end_session-IsFenced :
      (x : Ending) (db : Db env) (e : IncidentEvent env.crypto.Digest) (s : State env)
      → All (AtMost s.last_token) (tokens db.incidents)
      → Distinct (tokens db.incidents)
      → IsFenced s
      → IsFenced (end_session env x db e s).1
  end_session-IsFenced Ending.completed db e s dr di f = record { drawn = dr; distinct = di }
  end_session-IsFenced Ending.unpublished db e s dr di f = f
  end_session-IsFenced Ending.uncommitted db e s dr di f = record {
    drawn = f.drawn;
    distinct = f.distinct;
  }

  attach-IsFenced :
      (now : ℕ) (event : SignalEvent) (signal : Signal) (r : IncidentRow) (s : State env)
      → IsFenced s
      → IsFenced (attach_signal env now event signal r s).1
  unfolding attach_signal
  attach-IsFenced now event signal r s f =
      elim (Option-cases (get_row signal_id_of signal.signal_id s.db.signals)) [
        | inl fresh ↦ rw fresh (
            end_session-IsFenced s.ending _ _ s
              (rw (tokens-update_row now r.id signal s.db.incidents) f.drawn)
              (rw (tokens-update_row now r.id signal s.db.incidents) f.distinct) f)
        | inr (row, e) ↦ rw e f
      ]

  open-IsFenced :
      (now new_id : ℕ) (event : SignalEvent) (signal : Signal) (severity : Severity) (s : State env)
      → IsFenced s
      → IsFenced (open_incident env now new_id event signal severity s).1
  unfolding open_incident
  open-IsFenced now new_id event signal severity s f =
      let older = AtMost-suc s.last_token (tokens s.db.incidents) f.drawn in
      elim (Option-cases (get_row signal_id_of signal.signal_id s.db.signals)) [
        | inl fresh ↦ rw fresh (
            end_session-IsFenced s.ending _ _ (record s { last_token = s.last_token + 1 })
              (rw map-append (All-append _ (tokens s.db.incidents) _ older (omega arith, tt)))
              (rw map-append
                (Distinct-snoc s.last_token (tokens s.db.incidents) f.drawn f.distinct))
              (record { drawn = older; distinct = f.distinct }))
        | inr (row, e) ↦ rw e (record { drawn = older; distinct = f.distinct })
      ]

  act-IsFenced :
      (now new_id : ℕ) (event : SignalEvent) (signal : Signal) (d : CorrelationDecision)
      (s : State env)
      → IsFenced s
      → IsFenced (act_on env now new_id event signal d s).1
  unfolding act_on
  act-IsFenced now new_id event signal (CorrelationDecision.attach id severity) s f =
      elim (Option-cases (get_row incident_id_of id s.db.incidents)) [
        | inl e ↦ rw (e, act_on) (open-IsFenced now new_id event signal signal.severity s f)
        | inr (r, e) ↦ rw (e, act_on) (attach-IsFenced now event signal r s f)
      ]
  act-IsFenced now new_id event signal (CorrelationDecision.open_new severity) s f =
      open-IsFenced now new_id event signal severity s f

  -- If the fencing tokens of the incidents were drawn from the sequence and none twice, and other
  -- sessions keep that, then so it is after the handler of any signal, whether it attaches it,
  -- opens an incident or raises: a new incident has a token that no incident had.
  pub handle_signal-IsFenced :
      (topology : Adjacency) (window now new_id : ℕ) (others : Db env → Db env)
      (event : SignalEvent) (s : State env)
      → IsFenced (record s { db = others s.db })
      → IsFenced (handle_signal env topology window now new_id others event s).1
  unfolding handle_signal
  handle_signal-IsFenced topology window now new_id others event s f =
      act-IsFenced now new_id event (normalize now event.signal) _ (record s { db = others s.db }) f
