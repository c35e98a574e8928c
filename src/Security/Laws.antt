-- ===== src/Security/Laws.antt =====
-- What the signatures, the capabilities and the parameter check of src/aegis_common/security.py
-- give the action path.
use aegis_project.Prelude.{
  ℕ, ◌+◌, ◌*◌, ◌<◌, ◌≡◌, ◌↔◌, refl, String, true, List, [], ◌∷◌, Option, none, some, arith, ltb,
}
use mathlib.Core.Path.{subst}
use aegis_project.Json.{Json, Items, nil, cons, Fields, get, get_or}
use aegis_project.Security.Signing.{
  Crypto, IsSound, sign_approval, verify_approval, Capability, capability_record, is_valid,
  mint_credential,
}
use aegis_project.Security.Params.{
  valid, iterate, holds_key, missing_keys, verdict, check_required, validate_action_params,
}

abbrev pub SameKeys : Fields → Fields → Type 0
SameKeys d e = (k : String) → get k d ≡ get k e

-- A capability's dictionary determines its fields.
capability_record_fields :
    {i i' p p' t t' x x' : ℕ} {n n' : Json}
    → SameKeys (capability_record i p t n x) (capability_record i' p' t' n' x')
    → (i ≡ i') × (p ≡ p') × (t ≡ t') × (n ≡ n') × (x ≡ x')
unfolding capability_record get
capability_record_fields h = (
  cc (h "incident_id"),
  cc (h "plan_id"),
  cc (h "fencing_token"),
  cc (h "namespace"),
  cc (h "expires_at"),
)

module _ (c : Crypto) (sound : IsSound c) where
  pub verify-sign : (r : Fields) → verify_approval c r (sign_approval c r) ≡ true
  unfolding verify_approval
  verify-sign r = (sound.compare_digest_iff _ _).1 refl

  -- A signature made for one record verifies for another only if both hold the same under every
  -- key.
  pub verify_other : (r s : Fields) → verify_approval c s (sign_approval c r) ≡ true → SameKeys s r
  unfolding verify_approval sign_approval
  verify_other r s h =
      sound.canonical_faithful s r (sound.hmac-injective _ _ ((sound.compare_digest_iff _ _).0 h))

  -- A capability as it was minted is valid from any moment on, up to but not including its time
  -- to live, and never after.
  pub mint-is_valid :
      (now later incident_id plan_id token : ℕ) (namespace : Json) (ttl : ℕ)
      → is_valid c later (mint_credential c now incident_id plan_id token namespace ttl)
        ≡ ltb later (now + ttl * 1000000)
  unfolding is_valid mint_credential
  mint-is_valid now later incident_id plan_id token namespace ttl = ground (
    arith,
    verify-sign (capability_record incident_id plan_id token namespace (now + ttl * 1000000)),
  )

  -- Whoever changes a field of a minted capability and keeps its signature has an invalid one:
  -- a valid capability with that signature has the incident, the plan, the token, the namespace
  -- and the expiry that were minted.
  pub is_valid-mint :
      (now later incident_id plan_id token : ℕ) (namespace : Json) (ttl : ℕ) (cap : Capability c)
      → cap.signature ≡ (mint_credential c now incident_id plan_id token namespace ttl).signature
      → is_valid c later cap ≡ true
      → (cap.incident_id ≡ incident_id)
        × (cap.plan_id ≡ plan_id)
        × (cap.fencing_token ≡ token)
        × (cap.namespace ≡ namespace)
        × (cap.expires_at ≡ now + ttl * 1000000)
        × (later < now + ttl * 1000000)
  unfolding is_valid mint_credential
  is_valid-mint now later incident_id plan_id token namespace ttl cap e h =
      let same =
        verify_other (capability_record incident_id plan_id token namespace (now + ttl * 1000000))
          (capability_record cap.incident_id cap.plan_id cap.fencing_token cap.namespace
            cap.expires_at)
          (rw (← e) (ground arith)) in
      let (ei, ep, et, en, ex) = capability_record_fields same in (ei, ep, et, en, ex, ground arith)

-- `missing_keys` is empty exactly when every required key is there.
abbrev pub Holds : Fields → Items → Type 0
Holds params nil = Unit
Holds params (cons k ks) = (holds_key params k ≡ true) × Holds params ks

missing_keys-Holds :
    (params : Fields) (ks : Items) → (missing_keys params ks ≡ []) ↔ Holds params ks
unfolding missing_keys
missing_keys-Holds params nil = (λ _. tt, λ _. refl)
missing_keys-Holds params (cons k ks) = ground (arith, missing_keys-Holds params ks)

verdict-valid : (l : List Json) → (verdict l ≡ valid) ↔ (l ≡ [])
verdict-valid [] = (λ _. refl, λ _. refl)
verdict-valid (k ∷ ks) = (λ h. cc, λ h. cc)

check_required-valid :
    (d : Fields) (o : Option Items)
    → (check_required d o ≡ valid) ↔ ((ks : Items) × (o ≡ some ks) × Holds d ks)
unfolding check_required
check_required-valid d none = (λ h. absurd (cc h), λ p. cc p.1)
check_required-valid d (some ks) = (
  λ h. (ks, refl, (missing_keys-Holds d ks).0 ((verdict-valid _).0 h)),
  λ p.
      (verdict-valid _).1
        ((missing_keys-Holds d ks).1 (let e : p.0 ≡ ks = cc p.1 in subst (Holds d) e p.2)),
)

-- Acceptable parameters: an object that has every key which the schema's `required` (an empty
-- list if absent) goes through.
abbrev pub IsAcceptable : Json → Fields → Type 0
IsAcceptable (Json.obj d) schema =
    (ks : Items) × (iterate (get_or "required" (Json.arr nil) schema) ≡ some ks) × Holds d ks
IsAcceptable _ schema = ⊥

-- The parameter check passes exactly the acceptable parameters, whatever the schema holds.
pub validate_exact :
    (params : Json) (schema : Fields)
    → (validate_action_params params schema ≡ valid) ↔ IsAcceptable params schema
unfolding validate_action_params
validate_exact (Json.obj d) schema =
    check_required-valid d (iterate (get_or "required" (Json.arr nil) schema))
validate_exact _ schema = (λ h. cc, λ h. absurd h)
