-- ===== src/Security/Signing.antt =====
-- `sign_approval`, `verify_approval`, `Capability` and `mint_credential` of
-- src/aegis_common/security.py.
use aegis_project.Prelude.{ℕ, ◌+◌, ◌*◌, ◌≡◌, ◌↔◌, String, Bool, true, false, leb, if◌then◌else◌}
use aegis_project.Prelude.Int.{pos}
use aegis_project.Json.{Json, Fields, end, field, get}

-- `orjson.dumps` with sorted keys, `hmac.new(...).hexdigest()`, `hmac.compare_digest`, and the
-- secret of the environment.
pub record Crypto : Type 1 where
  pub Bytes : Type 0
  pub Digest : Type 0
  pub canonical : Fields → Bytes
  pub hmac : String → Bytes → Digest
  pub compare_digest : Digest → Digest → Bool
  pub secret : String

-- What the signatures rest on: digests are compared exactly, different messages have different
-- digests, and a serialised dictionary determines what each key holds.
pub record IsSound (c : Crypto) : Type 0 where
  pub compare_digest_iff : (a b : c.Digest) → (c.compare_digest a b ≡ true) ↔ (a ≡ b)
  pub hmac-injective : (a b : c.Bytes) → c.hmac c.secret a ≡ c.hmac c.secret b → a ≡ b
  pub canonical_faithful :
      (d e : Fields) → c.canonical d ≡ c.canonical e → (k : String) → get k d ≡ get k e

module _ (c : Crypto) where
  unfoldable pub sign_approval : Fields → c.Digest
  sign_approval r = c.hmac c.secret (c.canonical r)

  unfoldable pub verify_approval : Fields → c.Digest → Bool
  verify_approval r signature = c.compare_digest (sign_approval r) signature

  pub record Capability : Type 0 where
    pub incident_id : ℕ
    pub plan_id : ℕ
    pub fencing_token : ℕ
    pub namespace : Json
    pub expires_at : ℕ
    pub signature : c.Digest

-- The dictionary that a capability's signature is over.
unfoldable pub capability_record : ℕ → ℕ → ℕ → Json → ℕ → Fields
capability_record incident_id plan_id fencing_token namespace expires_at =
    field "incident_id" (Json.uuid incident_id) (
      field "plan_id" (Json.uuid plan_id) (
        field "fencing_token" (Json.int (pos fencing_token))
          (field "namespace" namespace (field "expires_at" (Json.float (pos expires_at)) end))))

module _ (c : Crypto) where
  -- `Capability.is_valid`
  unfoldable pub is_valid : ℕ → Capability c → Bool
  is_valid now cap =
      if leb cap.expires_at now
      then false
      else verify_approval c
          (capability_record cap.incident_id cap.plan_id cap.fencing_token cap.namespace
            cap.expires_at)
          cap.signature

  -- `mint_credential`, with the reading of the clock
  unfoldable pub mint_credential : ℕ → ℕ → ℕ → ℕ → Json → ℕ → Capability c
  mint_credential now incident_id plan_id fencing_token namespace ttl_seconds =
      let expires_at = now + ttl_seconds * 1000000 in
      record {
        incident_id = incident_id;
        plan_id = plan_id;
        fencing_token = fencing_token;
        namespace = namespace;
        expires_at = expires_at;
        signature =
            sign_approval c
              (capability_record incident_id plan_id fencing_token namespace expires_at);
      }
