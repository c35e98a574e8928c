-- ===== src/Console/Live.antt =====
-- The live path of src/aegis_services/console_api/app.py: `ws_incidents` and `_live_consumer` on the
-- connected clients.
use mathlib.Core.List.{append_assoc, append-nil}
use aegis_project.Prelude.{
  ℕ, ◌≡◌, ◌≢◌, refl, sym, ap, ◌∙◌, Bool, true, false, not, Option, none, some, List, [], ◌∷◌, ◌++◌,
  map, keep, any, arith, ◌==◌, Bool-cases, inl, inr, if◌then◌else◌, All,
}
use aegis_project.Json.{Json}
use aegis_project.Console.{Broadcaster, register, unregister, broadcast}
use aegis_project.Console.Laws.{broadcast_exact}

-- What happens on the live path: a client connects, a client disconnects, or a record of the topic
-- arrives, with its value if it can be read, and whether each connection takes it.
pub data LiveEvent : Type 0 where
  connected : ℕ → LiveEvent
  disconnected : ℕ → LiveEvent
  arrived : Option Json → (ℕ → Json → Bool) → LiveEvent

-- `register` and `unregister` as `ws_incidents` calls them, and the body of the loop of
-- `_live_consumer`, which logs an exception and goes on.
unfoldable pub live_step : LiveEvent → Broadcaster → Broadcaster
unfolding register unregister broadcast
live_step (LiveEvent.connected ws) b = register ws b
live_step (LiveEvent.disconnected ws) b = unregister ws b
live_step (LiveEvent.arrived none sends) b = b
live_step (LiveEvent.arrived (some m) sends) b = broadcast sends m b

unfoldable pub live_run : List LiveEvent → Broadcaster → Broadcaster
unfolding live_step
live_run [] b = b
live_run (e ∷ es) b = live_run es (live_step e b)

-- What was sent to one client, in order.
abbrev pub received : ℕ → List (ℕ × Json) → List Json
received ws [] = []
received ws ((c, m) ∷ ds) = if c == ws then m ∷ received ws ds else received ws ds

-- The values of the records that arrive and can be read.
abbrev pub readable : List LiveEvent → List Json
readable [] = []
readable (LiveEvent.arrived (some m) sends ∷ es) = m ∷ readable es
readable (e ∷ es) = readable es

-- The client neither connects again nor disconnects, and its connection takes what is sent.
abbrev pub Stays : ℕ → LiveEvent → Type 0
Stays ws (LiveEvent.connected c) = Unit
Stays ws (LiveEvent.disconnected c) = c ≢ ws
Stays ws (LiveEvent.arrived o sends) = (m : Json) → sends ws m ≡ true

-- The client is registered, and once.
abbrev pub IsRegistered : ℕ → Broadcaster → Type 0
IsRegistered ws b = keep (λ c. c == ws) b.clients ≡ ws ∷ []

received-append :
    (ws : ℕ) (xs ys : List (ℕ × Json)) → received ws (xs ++ ys) ≡ received ws xs ++ received ws ys
received-append ws [] ys = refl
received-append ws ((c, m) ∷ xs) ys = ground (arith, received-append ws xs ys)

received-map :
    (ws : ℕ) (m : Json) (clients : List ℕ)
    → received ws (map (λ c. (c, m)) clients) ≡ map (λ c. m) (keep (λ c. c == ws) clients)
received-map ws m [] = refl
received-map ws m (c ∷ cs) = ground (arith, received-map ws m cs)

-- A filter that lets the client through keeps its registration.
keep-passes :
    (ws : ℕ) (f : ℕ → Bool)
    → f ws ≡ true
    → (xs : List ℕ) → keep (λ c. c == ws) (keep f xs) ≡ keep (λ c. c == ws) xs
keep-passes ws f h [] = refl
keep-passes ws f h (x ∷ xs) = elim (Bool-cases (x == ws)) [
  | inl e ↦
      let same : x ≡ ws = ground arith in
      let passes : f x ≡ true = ap f same ∙ h in
      rw (passes, e) (ap (λ t. x ∷ t) (keep-passes ws f h xs))
  | inr e ↦ elim (Bool-cases (f x)) [
    | inl k ↦ rw (k, e) (keep-passes ws f h xs)
    | inr k ↦ rw (k, e) (keep-passes ws f h xs)
  ]
]

keep_none : (p : ℕ → Bool) (xs : List ℕ) → any p xs ≡ false → keep p xs ≡ []
keep_none p [] h = refl
keep_none p (x ∷ xs) h = ground (arith, keep_none p xs)

register-IsRegistered :
    (ws c : ℕ) (b : Broadcaster) → IsRegistered ws b → IsRegistered ws (register c b)
unfolding register
register-IsRegistered ws c b h = elim (Bool-cases (any (λ k. k == c) b.clients)) [
  | inl e ↦ rw e h
  | inr e ↦ elim (Bool-cases (c == ws)) [
    | inl f ↦
        let same : c ≡ ws = ground arith in
        absurd (cc (h, keep_none (λ k. k == ws) b.clients (rw same at e)))
    | inr f ↦ rw (e, f) h
  ]
]

unregister-IsRegistered :
    (ws c : ℕ) (b : Broadcaster) → c ≢ ws → IsRegistered ws b → IsRegistered ws (unregister c b)
unfolding unregister
unregister-IsRegistered ws c b n h = keep-passes ws (λ k. not (k == c)) (ground arith) b.clients ∙ h

module _ (ws : ℕ) (sends : ℕ → Json → Bool) (m : Json) (b : Broadcaster)
    (takes : sends ws m ≡ true) where
  broadcast-IsRegistered : IsRegistered ws b → IsRegistered ws (broadcast sends m b)
  broadcast-IsRegistered h =
      ap (keep (λ c. c == ws)) (broadcast_exact sends m b).1
      ∙ keep-passes ws (λ c. sends c m) takes b.clients
      ∙ h

  broadcast-received :
      IsRegistered ws b
      → received ws (broadcast sends m b).delivered ≡ received ws b.delivered ++ m ∷ []
  broadcast-received h =
      let alive = keep (λ c. sends c m) b.clients in
      ap (received ws) (broadcast_exact sends m b).0
      ∙ received-append ws b.delivered (map (λ c. (c, m)) alive)
      ∙ ap (λ t. received ws b.delivered ++ t)
          (received-map ws m alive
            ∙ ap (map (λ c. m)) (keep-passes ws (λ c. sends c m) takes b.clients ∙ h))

-- What is sent to one client after an event, as far as the client stays.
abbrev Sees : ℕ → LiveEvent → Broadcaster → Broadcaster → Type 0
Sees ws e b b' =
    IsRegistered ws b' × (received ws b'.delivered ≡ received ws b.delivered ++ readable (e ∷ []))

live_step-Sees :
    (ws : ℕ) (e : LiveEvent) (b : Broadcaster)
    → Stays ws e
    → IsRegistered ws b
    → Sees ws e b (live_step e b)
unfolding live_step
live_step-Sees ws (LiveEvent.connected c) b s h =
    (register-IsRegistered ws c b h, unfold register in sym (append-nil (received ws b.delivered)))
live_step-Sees ws (LiveEvent.disconnected c) b s h = (
  unregister-IsRegistered ws c b s h,
  unfold unregister in sym (append-nil (received ws b.delivered)),
)
live_step-Sees ws (LiveEvent.arrived none sends) b s h =
    (h, sym (append-nil (received ws b.delivered)))
live_step-Sees ws (LiveEvent.arrived (some m) sends) b s h =
    (broadcast-IsRegistered ws sends m b (s m) h, broadcast-received ws sends m b (s m) h)

readable-cons :
    (e : LiveEvent) (es : List LiveEvent) → readable (e ∷ es) ≡ readable (e ∷ []) ++ readable es
readable-cons (LiveEvent.connected c) es = refl
readable-cons (LiveEvent.disconnected c) es = refl
readable-cons (LiveEvent.arrived none sends) es = refl
readable-cons (LiveEvent.arrived (some m) sends) es = refl

-- A registered client that does not disconnect and whose connection works receives every record
-- that arrives and can be read, once and in order, and nothing else, whatever other clients and
-- unreadable records do.
pub live_run-received :
    (ws : ℕ) (events : List LiveEvent) (b : Broadcaster)
    → All (Stays ws) events
    → IsRegistered ws b
    → received ws (live_run events b).delivered ≡ received ws b.delivered ++ readable events
unfolding live_run
live_run-received ws [] b s h = sym (append-nil (received ws b.delivered))
live_run-received ws (e ∷ es) b (s, ss) h =
    let (h', r) = live_step-Sees ws e b s h in
    live_run-received ws es (live_step e b) ss h'
    ∙ ap (λ t. t ++ readable es) r
    ∙ append_assoc (received ws b.delivered) (readable (e ∷ [])) (readable es)
    ∙ ap (λ t. received ws b.delivered ++ t) (sym (readable-cons e es))
