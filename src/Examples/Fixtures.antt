-- ===== src/Examples/Fixtures.antt =====
-- A concrete environment: a message is its own digest and a chain its own hash, so both are exact.
use aegis_project.Prelude.{
  ℕ, Bool, true, false, ◌&&◌, ◌≡◌, ◌↔◌, refl, arith, str_eq, eq_iff, ◌==◌, ==_iff, [], ◌∷◌, ap,
  none, some,
}
use aegis_project.Json.{Json, Items, nil, cons, Fields, end, field, int_eq, get}
use aegis_project.Schemas.{Severity, IncidentStatus}
use aegis_project.Events.{IncidentEvent}
use aegis_project.Reliability.Breaker.{new_breaker}
use aegis_project.Security.Signing.{Crypto, IsSound, Capability, mint_credential}
use aegis_project.Audit.{Hasher}
use aegis_project.Audit.Laws.{IsCollisionFree}
use aegis_project.Store.{
  Env, Db, IncidentRow, PlanRow, proposed, PlanStepRow, pending, ActionCatalogRow,
}
use aegis_project.Pdp.Decide.{approved_event}
use aegis_project.Executor.Runtime.{Runtime, dry_run}
use aegis_project.Executor.State.{State, Clocks}

abbrev bool_eq : Bool → Bool → Bool
bool_eq true true = true
bool_eq false false = true
bool_eq _ _ = false

-- Equality of values as they are written.
unfoldable mutual
  pub same : Json → Json → Bool
  same Json.null Json.null = true
  same (Json.bool a) (Json.bool b) = bool_eq a b
  same (Json.int a) (Json.int b) = int_eq a b
  same (Json.float a) (Json.float b) = int_eq a b
  same (Json.text a) (Json.text b) = str_eq a b
  same (Json.uuid a) (Json.uuid b) = a == b
  same (Json.arr a) (Json.arr b) = same_items a b
  same (Json.obj a) (Json.obj b) = same_fields a b
  same _ _ = false

  pub same_items : Items → Items → Bool
  same_items nil nil = true
  same_items (cons a x) (cons b y) = same a b && same_items x y
  same_items _ _ = false

  pub same_fields : Fields → Fields → Bool
  same_fields end end = true
  same_fields (field j a x) (field k b y) = str_eq j k && same a b && same_fields x y
  same_fields _ _ = false

and_true : (a b : Bool) → (a && b) ≡ true → (a ≡ true) × (b ≡ true)
and_true a b h = ground arith

and_intro : (a b : Bool) → a ≡ true → b ≡ true → (a && b) ≡ true
and_intro a b h k = ground arith

mutual
  unfolding same same_items same_fields

  same_eq : (a b : Json) → same a b ≡ true → a ≡ b
  same_eq (Json.bool a) (Json.bool b) h = ground arith
  same_eq (Json.int a) (Json.int b) h = ground arith
  same_eq (Json.float a) (Json.float b) h = ground arith
  same_eq (Json.text a) (Json.text b) h = ap Json.text ((eq_iff a b).0 h)
  same_eq (Json.uuid a) (Json.uuid b) h = ground arith
  same_eq (Json.arr a) (Json.arr b) h = ap Json.arr (same_items_eq a b h)
  same_eq (Json.obj a) (Json.obj b) h = ap Json.obj (same_fields_eq a b h)
  same_eq Json.null Json.null h = refl
  same_eq _ _ h = absurd (cc h)

  same_items_eq : (a b : Items) → same_items a b ≡ true → a ≡ b
  same_items_eq nil nil h = refl
  same_items_eq (cons a x) (cons b y) h = ground (arith, same_eq a b, same_items_eq x y)
  same_items_eq _ _ h = absurd (cc h)

  same_fields_eq : (a b : Fields) → same_fields a b ≡ true → a ≡ b
  same_fields_eq end end h = refl
  same_fields_eq (field j a x) (field k b y) h =
      let (h', q) = and_true (str_eq j k && same a b) (same_fields x y) h in
      let (e, p) = and_true (str_eq j k) (same a b) h' in
      cc ((eq_iff j k).0 e, same_eq a b p, same_fields_eq x y q)
  same_fields_eq _ _ h = absurd (cc h)

mutual
  unfolding same same_items same_fields

  same_refl : (a : Json) → same a a ≡ true
  same_refl (Json.null) = refl
  same_refl (Json.bool a) = ground arith
  same_refl (Json.int a) = ground arith
  same_refl (Json.float a) = ground arith
  same_refl (Json.text a) = (eq_iff a a).1 refl
  same_refl (Json.uuid a) = ground arith
  same_refl (Json.arr a) = same_items_refl a
  same_refl (Json.obj a) = same_fields_refl a

  same_items_refl : (a : Items) → same_items a a ≡ true
  same_items_refl nil = refl
  same_items_refl (cons a x) = ground (arith, same_refl a, same_items_refl x)

  same_fields_refl : (a : Fields) → same_fields a a ≡ true
  same_fields_refl end = refl
  same_fields_refl (field j a x) =
      and_intro (str_eq j j && same a a) (same_fields x x)
        (and_intro (str_eq j j) (same a a) ((eq_iff j j).1 refl) (same_refl a)) (same_fields_refl x)

pub same_fields_iff : (a b : Fields) → (same_fields a b ≡ true) ↔ (a ≡ b)
same_fields_iff a b = (same_fields_eq a b, λ e. rw e (same_fields_refl b))

-- The chain of what was hashed.
pub data Chain : Type 0 where
  genesis : Chain
  link : ℕ → Chain → Fields → Chain

unfoldable same_chain : Chain → Chain → Bool
same_chain genesis genesis = true
same_chain (link m p a) (link n q b) = m == n && same_chain p q && same_fields a b
same_chain _ _ = false

same_chain_eq : (a b : Chain) → same_chain a b ≡ true → a ≡ b
unfolding same_chain
same_chain_eq genesis genesis h = refl
same_chain_eq (link m p a) (link n q b) h =
    let (h', e) = and_true (m == n && same_chain p q) (same_fields a b) h in
    let (i, j) = and_true (m == n) (same_chain p q) h' in
    cc ((==_iff m n).0 i, same_chain_eq p q j, same_fields_eq a b e)
same_chain_eq _ _ h = absurd (cc h)

same_chain_refl : (a : Chain) → same_chain a a ≡ true
unfolding same_chain
same_chain_refl genesis = refl
same_chain_refl (link m p a) =
    and_intro (m == m && same_chain p p) (same_fields a a)
      (and_intro (m == m) (same_chain p p) ((==_iff m m).1 refl) (same_chain_refl p))
      (same_fields_refl a)

decide_chain : (a b : Chain) (t : Bool) → same_chain a b ≡ t → Dec (a ≡ b)
decide_chain a b true e = yes (same_chain_eq a b e)
decide_chain a b false e = no (λ p. absurd (cc (same_chain_refl a, p, e)))

pub Chain-discrete : Discrete Chain
Chain-discrete a b = decide_chain a b (same_chain a b) refl

abbrev pub plain_crypto : Crypto
plain_crypto = record {
  Bytes = Fields;
  Digest = Fields;
  canonical = λ d. d;
  hmac = λ key b. b;
  compare_digest = same_fields;
  secret = "secret";
}

pub plain_crypto-IsSound : IsSound plain_crypto
plain_crypto-IsSound = record {
  compare_digest_iff = same_fields_iff;
  hmac-injective = λ a b e. e;
  canonical_faithful = λ d e p k. ap (get k) p;
}

abbrev pub plain_hasher : Hasher
plain_hasher = record {
  Bytes = Fields;
  Hash = Chain;
  canonical = λ d. d;
  sha256 = link;
  genesis_hash = genesis;
  Hash-discrete = Chain-discrete;
}

pub plain_hasher-IsCollisionFree : IsCollisionFree plain_hasher
plain_hasher-IsCollisionFree = record { sha256-injective = λ m n p q a b e. (cc e, cc e, cc e) }

abbrev pub env : Env
env = record {
  crypto = plain_crypto;
  hasher = plain_hasher;
  parse_int = λ s. none;
  sha256_text = λ s. s;
  show = λ v. "value";
  not_iterable = λ v. "TypeError";
}

-- An incident under token 5 with a proposed plan of one step.
abbrev pub incident : IncidentRow
incident = record {
  id = 3;
  status = IncidentStatus.awaiting_approval;
  severity = Severity.sev2;
  title = "checkout errors";
  services = "checkout" ∷ [];
  fencing_token = some 5;
  version = 1;
  opened_at = 10;
  updated_at = 20;
  resolved_at = none;
}

abbrev pub plan : PlanRow
plan = record {
  id = 7;
  incident_id = 3;
  status = proposed;
  rationale = "restart";
  requires_approval = true;
  autonomy_allowed = false;
}

abbrev pub params : Fields
params = field "deployment" (Json.text "checkout") end

abbrev pub step : PlanStepRow
step = record {
  id = 11;
  plan_id = 7;
  ordinal = 0;
  action = "restart_deployment";
  params = Json.obj params;
  risk_tier = "low";
  status = pending;
}

abbrev pub entry : ActionCatalogRow
entry = record {
  name = "restart_deployment";
  description = "rolling restart";
  params_schema = end;
  risk_tier = "low";
  requires_approval = false;
  rollback_action = some "rollback_revision";
  enabled = true;
}

abbrev pub db : Db env
db = record {
  incidents = incident ∷ [];
  signals = [];
  catalog = entry ∷ [];
  policies = [];
  plans = plan ∷ [];
  steps = step ∷ [];
  approvals = [];
  ledger = [];
  snapshots = [];
  audit = [];
}

abbrev pub clocks : Clocks
clocks = record { wall = λ n. n; mono = λ n. n }

abbrev pub runtime : Runtime env.crypto
runtime = dry_run env

abbrev pub state : State env runtime
state = record { db = db; breaker = new_breaker 5 60; target = []; bus = []; reads = 0 }

-- The event that an approval of the plan under token 5 publishes.
abbrev pub event : IncidentEvent env.crypto.Digest
event = approved_event env plan "alice" 5

abbrev pub capability : Capability env.crypto
capability = mint_credential env.crypto 0 3 7 5 (Json.text "default") 120
