-- ===== src/Console/Laws.antt =====
-- The live path and the read path of src/aegis_services/console_api/app.py.
use aegis_project.Prelude.{
  ℕ, ◌≡◌, refl, sym, ap, ◌∙◌, Bool, true, false, not, ◌&&◌, List, [], ◌∷◌, ◌++◌, map, keep, any,
  arith, ◌==◌, Bool-cases, inl, inr,
}
use mathlib.Core.List.{append_assoc, append-nil}
use aegis_project.Json.{Json}
use aegis_project.Console.{Broadcaster, discard, send_all, discard_all, broadcast}

abbrev pub is_in : ℕ → List ℕ → Bool
is_in n xs = any (λ c. n == c) xs

keep-cong :
    (f g : ℕ → Bool) (xs : List ℕ)
    → ((n : ℕ) → is_in n xs ≡ true → f n ≡ g n)
    → keep f xs ≡ keep g xs
keep-cong f g [] h = refl
keep-cong f g (x ∷ xs) h =
    let head : f x ≡ g x = h x (ground arith) in
    let tail : keep f xs ≡ keep g xs = keep-cong f g xs (λ n e. h n (ground arith)) in
    rw (head, tail) refl

keep-keep : (f g : ℕ → Bool) (xs : List ℕ) → keep f (keep g xs) ≡ keep (λ n. f n && g n) xs
keep-keep f g [] = refl
keep-keep f g (x ∷ xs) = ground (arith, keep-keep f g xs)

is_in-keep : (f : ℕ → Bool) (n : ℕ) (xs : List ℕ) → is_in n (keep f xs) ≡ (f n && is_in n xs)
is_in-keep f n [] = ground arith
is_in-keep f n (x ∷ xs) = ground (arith, is_in-keep f n xs)

keep_all : (xs : List ℕ) → keep (λ c. not (is_in c [])) xs ≡ xs
keep_all [] = refl
keep_all (x ∷ xs) = ap (λ ys. x ∷ ys) (keep_all xs)

module _ (sends : ℕ → Json → Bool) (message : Json) where
  after_send : Bool → ℕ → List ℕ → List (ℕ × Json) → List (ℕ × Json) × List ℕ
  after_send true ws clients delivered =
      send_all sends message clients (delivered ++ (ws, message) ∷ [])
  after_send false ws clients delivered =
      let (all_delivered, dead) = send_all sends message clients delivered in
      (all_delivered, ws ∷ dead)

  after_cases :
      (b : Bool) (ws : ℕ) (clients : List ℕ) (delivered : List (ℕ × Json))
      → elim b [
        | true ↦ send_all sends message clients (delivered ++ (ws, message) ∷ [])
        | false ↦
            let (all_delivered, dead) = send_all sends message clients delivered in
            (all_delivered, ws ∷ dead)
      ]
        ≡ after_send b ws clients delivered
  unfolding after_send
  after_cases true ws clients delivered = refl
  after_cases false ws clients delivered = refl

  send_all-step :
      (ws : ℕ) (clients : List ℕ) (delivered : List (ℕ × Json)) (b : Bool)
      → sends ws message ≡ b
      → send_all sends message (ws ∷ clients) delivered ≡ after_send b ws clients delivered
  unfolding send_all after_send
  send_all-step ws clients delivered b e =
      ap
        (λ x. elim x [
          | true ↦ send_all sends message clients (delivered ++ (ws, message) ∷ [])
          | false ↦
              let (all_delivered, dead) = send_all sends message clients delivered in
              (all_delivered, ws ∷ dead)
        ])
        e
      ∙ after_cases b ws clients delivered

  -- The deliveries and the dead clients of the loop.
  abbrev outcome : List ℕ → List (ℕ × Json) → List (ℕ × Json) × List ℕ
  outcome clients delivered = (
    delivered ++ map (λ ws. (ws, message)) (keep (λ ws. sends ws message) clients),
    keep (λ ws. not (sends ws message)) clients,
  )

  send_all-exact :
      (clients : List ℕ) (delivered : List (ℕ × Json))
      → send_all sends message clients delivered ≡ outcome clients delivered
  unfolding send_all after_send
  send_all-exact [] delivered = ap (λ r. (r, [])) (sym (append-nil delivered))
  send_all-exact (ws ∷ clients) delivered = elim (Bool-cases (sends ws message)) [
    | inl e ↦
        send_all-step ws clients delivered true e
        ∙ send_all-exact clients (delivered ++ (ws, message) ∷ [])
        ∙ rw e (
            ap (λ r. (r, keep (λ c. not (sends c message)) clients))
              (append_assoc delivered ((ws, message) ∷ [])
                (map (λ c. (c, message)) (keep (λ c. sends c message) clients))))
    | inr e ↦
        send_all-step ws clients delivered false e
        ∙ ap (λ r. (r.0, ws ∷ r.1)) (send_all-exact clients delivered)
        ∙ rw e refl
  ]

  discard_all-exact :
      (dead clients : List ℕ) → discard_all dead clients ≡ keep (λ c. not (is_in c dead)) clients
  unfolding discard_all
  discard_all-exact [] clients = sym (keep_all clients)
  discard_all-exact (ws ∷ dead) clients =
      discard_all-exact dead (discard ws clients)
      ∙ keep-keep (λ c. not (is_in c dead)) (λ c. not (c == ws)) clients
      ∙ keep-cong _ _ clients (λ n e. ground arith)

  -- A broadcast delivers the message once to every client whose connection takes it, in order, and
  -- to no other, and the clients that are left are exactly those: one dead connection neither
  -- stops the others nor stays.
  pub broadcast_exact :
      (b : Broadcaster)
      → let alive = keep (λ ws. sends ws message) b.clients in
        ((broadcast sends message b).delivered ≡ b.delivered ++ map (λ ws. (ws, message)) alive)
        × ((broadcast sends message b).clients ≡ alive)
  unfolding broadcast
  broadcast_exact b =
      let dead = keep (λ ws. not (sends ws message)) b.clients in
      let e = send_all-exact b.clients b.delivered in
      (
        ap (λ r. r.0) e,
        ap (λ r. discard_all r.1 b.clients) e
            ∙ discard_all-exact dead b.clients
            ∙ keep-cong (λ n. not (is_in n dead)) (λ n. sends n message) b.clients
                (λ n i.
                  rw (is_in-keep (λ ws. not (sends ws message)) n b.clients, i) (ground arith)),
      )
