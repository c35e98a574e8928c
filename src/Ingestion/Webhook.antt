-- ===== src/Ingestion/Webhook.antt =====
-- The Alertmanager webhook of src/aegis_services/ingestion_gateway/app.py.
use aegis_project.Prelude.{
  ℕ, suc, ◌+◌, ◌≡◌, refl, ap, String, Bool, true, false, Option, none, some, List, [], ◌∷◌, keep,
  length,
}
use aegis_project.Schemas.{Signal}
use aegis_project.Ingestion.{
  Gateway, State, ingest, ingest_all, ingest_signals, Alert, Stamp, to_signal, ingest_alerts,
  ingest_alertmanager, is_firing,
}

-- The signals of alerts, the first of which gets the stamp of an index.
unfoldable pub signals_of : (ℕ → Stamp) → ℕ → List Alert → List Signal
signals_of stamps i [] = []
signals_of stamps i (alert ∷ alerts) = to_signal alert (stamps i) ∷ signals_of stamps (i + 1) alerts

length-signals_of :
    (stamps : ℕ → Stamp) (i : ℕ) (alerts : List Alert)
    → length (signals_of stamps i alerts) ≡ length alerts
unfolding signals_of
length-signals_of stamps i [] = refl
length-signals_of stamps i (alert ∷ alerts) = ap suc (length-signals_of stamps (i + 1) alerts)

same_answer :
    {A : Type 0} {a a' b b' : A} (x : A) (answer : Option Bool)
    → a ≡ a'
    → b ≡ b'
    → elim answer [ none ↦ x | some true ↦ a | some false ↦ b ]
      ≡ elim answer [ none ↦ x | some true ↦ a' | some false ↦ b' ]
same_answer x none e f = refl
same_answer x (some true) e f = e
same_answer x (some false) e f = f

module _ (gateway : Gateway) (stamps : ℕ → Stamp) where
  ingest_alerts-ingest_all :
      (i accepted : ℕ) (alerts : List Alert) (s : State gateway)
      → ingest_alerts gateway stamps i accepted alerts s
        ≡ ingest_all gateway accepted (signals_of stamps i alerts) s
  unfolding ingest_alerts ingest_all signals_of
  ingest_alerts-ingest_all i accepted [] s = refl
  ingest_alerts-ingest_all i accepted (alert ∷ alerts) s =
      let (answer, s') = ingest gateway (to_signal alert (stamps i)) s in
      same_answer (none, s') answer (ingest_alerts-ingest_all (i + 1) (accepted + 1) alerts s')
        (ingest_alerts-ingest_all (i + 1) accepted alerts s')

  -- The Alertmanager webhook answers and publishes what the signals endpoint does on the signals
  -- of the alerts that are firing, for every token and every state.
  pub ingest_alertmanager-ingest_signals :
      (token : String) (alerts : List Alert) (s : State gateway)
      → ingest_alertmanager gateway stamps token alerts s
        ≡ ingest_signals gateway token (signals_of stamps 0 (keep is_firing alerts)) s
  unfolding ingest_alertmanager ingest_signals
  ingest_alertmanager-ingest_signals token alerts s =
      let firing = keep is_firing alerts in
      rw (length-signals_of stamps 0 firing, ingest_alerts-ingest_all 0 0 firing s) refl
