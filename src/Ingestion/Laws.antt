-- ===== src/Ingestion/Laws.antt =====
-- What the ingestion gateway publishes (src/aegis_services/ingestion_gateway/app.py).
use aegis_project.Prelude.{
  ℕ, ◌+◌, ◌-◌, ◌≤◌, ◌≡◌, refl, sym, ap, ◌∙◌, String, Bool, true, false, not, ◌||◌, Option, none,
  some, List, [], ◌∷◌, ◌++◌, map, length, str_eq, arith, if◌then◌else◌, Bool-cases, inl, inr,
  eq_iff, eq_refl,
}
use mathlib.Core.Path.{subst}
use mathlib.Core.List.{append_assoc, append-nil}
use aegis_project.Schemas.{Signal, fingerprint, ◌⧺◌}
use aegis_project.Dedup.{Redis, dedup_seen}
use aegis_project.Http.{ok}
use aegis_project.Ingestion.{
  Gateway, State, Published, publish, published_of, after_publish, ingest, ingest_all,
  ingest_signals, require_token, respond,
}

-- What Redis documents of `SET key value NX EX ttl` before the key expires: it sets the key
-- exactly if the key is absent, the key is present afterwards, and no other key changes.
pub record SetNx (redis : Redis) : Type 0 where
  pub present : String → redis.Keys → Bool
  pub was_set :
      (k : String) (ttl : ℕ) (keys : redis.Keys)
      → (redis.set_nx_ex k ttl keys).0 ≡ not (present k keys)
  pub is_present :
      (k : String) (ttl : ℕ) (keys : redis.Keys) → present k (redis.set_nx_ex k ttl keys).1 ≡ true
  pub others_kept :
      (j k : String) (ttl : ℕ) (keys : redis.Keys)
      → str_eq j k ≡ false
      → present j (redis.set_nx_ex k ttl keys).1 ≡ present j keys

-- The key that stands for a signal.
unfoldable pub key_of : Gateway → Signal → String
key_of gateway signal = "aegis:dedup:" ⧺ fingerprint gateway.sha256 signal

-- The first signal of each key that was not seen before.
unfoldable pub first_of_each : Gateway → (String → Bool) → List Signal → List Signal
unfolding key_of
first_of_each gateway seen [] = []
first_of_each gateway seen (signal ∷ signals) =
    let key = key_of gateway signal in
    let rest = first_of_each gateway (λ k. str_eq k key || seen k) signals in
    if seen key then first_of_each gateway seen signals else signal ∷ rest

module _ (gateway : Gateway) (redis : SetNx gateway.redis) where
  -- The state after Redis was asked about a signal.
  abbrev asked : Signal → State gateway → State gateway
  asked signal s = record s {
    keys = (gateway.redis.set_nx_ex (key_of gateway signal) gateway.dedup_window_seconds s.keys).1;
  }

  ingest_seen :
      (signal : Signal) (s : State gateway)
      → redis.present (key_of gateway signal) s.keys ≡ true
      → ingest gateway signal s ≡ (some false, asked signal s)
  unfolding ingest dedup_seen key_of
  ingest_seen signal s h =
      rw (redis.was_set (key_of gateway signal) gateway.dedup_window_seconds s.keys, h) refl

  ingest_unseen :
      (signal : Signal) (s : State gateway)
      → redis.present (key_of gateway signal) s.keys ≡ false
      → ingest gateway signal s
        ≡ after_publish gateway (publish gateway (published_of gateway signal) (asked signal s))
  unfolding ingest dedup_seen key_of
  ingest_unseen signal s h =
      rw (redis.was_set (key_of gateway signal) gateway.dedup_window_seconds s.keys, h) refl

  -- When the broker refuses a signal that was not seen before, the handler raises and nothing is
  -- published, and when the same signal is sent again within the window, it counts as a duplicate,
  -- and nothing is published either.
  pub refused_then_duplicate :
      (signal : Signal) (s : State gateway)
      → redis.present (key_of gateway signal) s.keys ≡ false
      → gateway.takes s.topic (published_of gateway signal) ≡ false
      → let (answer, s') = ingest gateway signal s in
        let (again, s'') = ingest gateway signal s' in
        (answer ≡ none) × (s'.topic ≡ s.topic) × (again ≡ some false) × (s''.topic ≡ s.topic)
  unfolding publish
  refused_then_duplicate signal s h ht =
      let refused : ingest gateway signal s ≡ (none, asked signal s) =
        ingest_unseen signal s h ∙ rw ht refl in
      let again : ingest gateway signal (asked signal s)
          ≡ (some false, asked signal (asked signal s)) =
        ingest_seen signal (asked signal s) (redis.is_present _ _ _) in
      rw (refused, again) (refl, refl, refl, refl)

  present-asked :
      (signal : Signal) (s : State gateway) (k : String)
      → redis.present k (asked signal s).keys
        ≡ (str_eq k (key_of gateway signal) || redis.present k s.keys)
  present-asked signal s k = elim (Bool-cases (str_eq k (key_of gateway signal))) [
    | inl e ↦
        ap (λ j. redis.present j (asked signal s).keys) ((eq_iff _ _).0 e)
        ∙ redis.is_present _ _ _
        ∙ rw e refl
    | inr e ↦ redis.others_kept k _ _ s.keys e ∙ rw e refl
  ]

  -- Asking for a key that is present changes nothing.
  present_again :
      (signal : Signal) (s : State gateway) (k : String)
      → redis.present (key_of gateway signal) s.keys ≡ true
      → redis.present k (asked signal s).keys ≡ redis.present k s.keys
  present_again signal s k h =
      present-asked signal s k ∙ elim (Bool-cases (str_eq k (key_of gateway signal))) [
        | inl e ↦
            rw e
              (sym (ap (λ j. redis.present j s.keys) ((eq_iff k (key_of gateway signal)).0 e) ∙ h))
        | inr e ↦ rw e refl
      ]

  ingest_all-duplicate :
      (accepted : ℕ) (signal : Signal) (signals : List Signal) (s s' : State gateway)
      → ingest gateway signal s ≡ (some false, s')
      → ingest_all gateway accepted (signal ∷ signals) s ≡ ingest_all gateway accepted signals s'
  unfolding ingest_all
  ingest_all-duplicate accepted signal signals s s' e =
      ap
        (λ r. elim r.0 [
          | none ↦ (none, r.1)
          | some true ↦ ingest_all gateway (accepted + 1) signals r.1
          | some false ↦ ingest_all gateway accepted signals r.1
        ])
        e

  ingest_all-accepted :
      (accepted : ℕ) (signal : Signal) (signals : List Signal) (s s' : State gateway)
      → ingest gateway signal s ≡ (some true, s')
      → ingest_all gateway accepted (signal ∷ signals) s
        ≡ ingest_all gateway (accepted + 1) signals s'
  unfolding ingest_all
  ingest_all-accepted accepted signal signals s s' e =
      ap
        (λ r. elim r.0 [
          | none ↦ (none, r.1)
          | some true ↦ ingest_all gateway (accepted + 1) signals r.1
          | some false ↦ ingest_all gateway accepted signals r.1
        ])
        e

  Counts : ℕ → List Signal → State gateway → Option ℕ × State gateway → Type 0
  unfolding published_of
  Counts accepted fresh s r =
      (r.0 ≡ some (accepted + length fresh))
      × (r.1.topic ≡ s.topic ++ map (published_of gateway) fresh)

  -- The state after a signal was published.
  abbrev accepted_state : Signal → State gateway → State gateway
  accepted_state signal s = record (asked signal s) {
    topic = s.topic ++ published_of gateway signal ∷ [];
  }

  Counts-accepted :
      (accepted : ℕ) (signal : Signal) (fresh : List Signal) (s : State gateway)
      (r : Option ℕ × State gateway)
      → Counts (accepted + 1) fresh (accepted_state signal s) r
      → Counts accepted (signal ∷ fresh) s r
  unfolding Counts
  Counts-accepted accepted signal fresh s r (n, t) = (
    n ∙ ap (λ m. some m) (omega arith),
    t ∙ append_assoc s.topic (published_of gateway signal ∷ []) (map (published_of gateway) fresh),
  )

  ingest_all-Counts :
      (accepted : ℕ) (signals : List Signal) (seen : String → Bool) (s : State gateway)
      → ((topic : List Published) (p : Published) → gateway.takes topic p ≡ true)
      → ((k : String) → seen k ≡ redis.present k s.keys)
      → Counts accepted
          (first_of_each gateway seen signals)
          s
          (ingest_all gateway accepted signals s)
  unfolding first_of_each Counts ingest_all publish
  ingest_all-Counts accepted [] seen s ht hs =
      (ap (λ n. some n) (omega arith), sym (append-nil s.topic))
  ingest_all-Counts accepted (signal ∷ signals) seen s ht hs =
      elim (Bool-cases (seen (key_of gateway signal))) [
        | inl e ↦
            let present : redis.present (key_of gateway signal) s.keys ≡ true = sym (hs _) ∙ e in
            let fresh = first_of_each gateway seen (signal ∷ signals) in
            let rest =
              ingest_all-Counts accepted signals seen (asked signal s) ht
                (λ k. hs k ∙ sym (present_again signal s k present)) in
            subst (Counts accepted fresh s)
              (sym
                (ingest_all-duplicate accepted signal signals s _ (ingest_seen signal s present)))
              (rw e rest)
        | inr e ↦
            let key = key_of gateway signal in
            let absent : redis.present key s.keys ≡ false = sym (hs _) ∙ e in
            let taken : ingest gateway signal s ≡ (some true, accepted_state signal s) =
              ingest_unseen signal s absent ∙ rw (ht s.topic (published_of gateway signal)) refl in
            let fresh = first_of_each gateway (λ k. str_eq k key || seen k) signals in
            let rest =
              ingest_all-Counts (accepted + 1) signals (λ k. str_eq k key || seen k)
                (accepted_state signal s) ht
                (λ k. ap (λ b. str_eq k key || b) (hs k) ∙ sym (present-asked signal s k)) in
            subst (Counts accepted (first_of_each gateway seen (signal ∷ signals)) s)
              (sym (ingest_all-accepted accepted signal signals s (accepted_state signal s) taken))
              (rw e (
                Counts-accepted accepted signal fresh s
                  (ingest_all gateway (accepted + 1) signals (accepted_state signal s)) rest))
      ]

  first_of_each-length :
      (seen : String → Bool) (signals : List Signal)
      → length (first_of_each gateway seen signals) ≤ length signals
  unfolding first_of_each
  first_of_each-length seen [] = omega arith
  first_of_each-length seen (signal ∷ signals) = elim (Bool-cases (seen (key_of gateway signal))) [
    | inl e ↦ rw e (omega (arith, first_of_each-length seen signals))
    | inr e ↦ rw e (
        omega
          (arith, first_of_each-length (λ k. str_eq k (key_of gateway signal) || seen k) signals))
  ]

  respond-counted :
      (received n : ℕ) (r : Option ℕ × State gateway)
      → r.0 ≡ some n
      → respond gateway received r
        ≡ (ok (record { accepted = n; deduplicated = received - n }), r.1)
  respond-counted received n r h = ap (λ (o : Option ℕ). respond gateway received (o, r.1)) h

  -- Where the broker takes every record, a request with the right token publishes, in order, the
  -- first signal of each fingerprint that Redis did not hold, and no other; it answers how many
  -- those are and how many signals of the request are left.
  pub ingest_signals_exact :
      (signals : List Signal) (s : State gateway)
      → ((topic : List Published) (p : Published) → gateway.takes topic p ≡ true)
      → let fresh = first_of_each gateway (λ k. redis.present k s.keys) signals in
        let (answer, s') = ingest_signals gateway gateway.ingest_token signals s in
        (answer
          ≡ ok (record { accepted = length fresh; deduplicated = length signals - length fresh }))
        × (s'.topic ≡ s.topic ++ map (published_of gateway) fresh)
        × (length fresh ≤ length signals)
  unfolding ingest_signals require_token Counts
  ingest_signals_exact signals s ht =
      let seen : String → Bool = λ k. redis.present k s.keys in
      let r = ingest_all gateway 0 signals s in
      let (n, t) = ingest_all-Counts 0 signals seen s ht (λ k. refl) in
      let e =
        respond-counted (length signals) (length (first_of_each gateway seen signals)) r
          (n ∙ ap (λ m. some m) (omega arith)) in
      rw (eq_refl gateway.ingest_token, e) (refl, t, first_of_each-length seen signals)
