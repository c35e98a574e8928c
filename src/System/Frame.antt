-- ===== src/System/Frame.antt =====
-- What the handlers of all services keep: the approvals, and the audit log's validity.
use aegis_project.Prelude.{
  ◌≡◌, refl, sym, ◌∙◌, Bool, true, false, List, [], ◌∷◌, ◌++◌, All, if◌then◌else◌,
}
use mathlib.Core.List.{append-nil}
use aegis_project.Audit.{Entry, append_audit}
use aegis_project.Audit.Laws.{IsValid, append_audit-IsValid}
use aegis_project.Events.{IncidentEvent, IncidentEventType}
use aegis_project.Store.{Env, Db}
use aegis_project.Detection.Fencing.{tokens}

abbrev pub QuietAt : IncidentEventType → Type 0
QuietAt IncidentEventType.approved = ⊥
QuietAt IncidentEventType.executing = ⊥
QuietAt _ = Unit

-- An event that neither approves nor executes a plan.
abbrev pub IsQuiet : {D : Type 0} → IncidentEvent D → Type 0
IsQuiet e = QuietAt e.event_type

module _ {env : Env} where
  -- The approvals are the same, and if the audit log was valid, it still is.
  pub record Frame (db db' : Db env) : Type 0 where
    pub same_approvals : db'.approvals ≡ db.approvals
    pub audit_valid : IsValid env.hasher db.audit → IsValid env.hasher db'.audit

  pub Frame-refl : (db : Db env) → Frame db db
  Frame-refl db = record { same_approvals = refl; audit_valid = λ v. v }

  pub Frame-trans : {a b c : Db env} → Frame a b → Frame b c → Frame a c
  Frame-trans f g = record {
    same_approvals = g.same_approvals ∙ f.same_approvals;
    audit_valid = λ v. g.audit_valid (f.audit_valid v);
  }

  -- A change that appends one record to the audit log.
  pub Frame-audit :
      (e : Entry) (db db' : Db env)
      → db'.approvals ≡ db.approvals
      → db'.audit ≡ append_audit env.hasher e db.audit
      → Frame db db'
  Frame-audit e db db' h k = record {
    same_approvals = h;
    audit_valid = λ v. rw k (append_audit-IsValid env.hasher e db.audit v);
  }

  -- A frame under which the incidents have the same fencing tokens too.
  pub record Stable (db db' : Db env) : Type 0 where
    pub frame : Frame db db'
    pub same_tokens : tokens env db'.incidents ≡ tokens env db.incidents

  pub Stable-refl : (db : Db env) → Stable db db
  Stable-refl db = record { frame = Frame-refl db; same_tokens = refl }

  pub Stable-trans : {a b c : Db env} → Stable a b → Stable b c → Stable a c
  Stable-trans f g = record {
    frame = Frame-trans f.frame g.frame;
    same_tokens = g.same_tokens ∙ f.same_tokens;
  }

  pub Stable-audit :
      (e : Entry) (db db' : Db env)
      → db'.approvals ≡ db.approvals
      → tokens env db'.incidents ≡ tokens env db.incidents
      → db'.audit ≡ append_audit env.hasher e db.audit
      → Stable db db'
  Stable-audit e db db' h t k = record { frame = Frame-audit e db db' h k; same_tokens = t }

  -- A handler's change of the database and the topic: related databases, and new events of a kind.
  pub record Advance (R : Db env → Db env → Type 0) (P : IncidentEvent env.crypto.Digest → Type 0)
      (db db' : Db env) (bus bus' : List (IncidentEvent env.crypto.Digest)) : Type 0 where
    pub related : R db db'
    pub published : List (IncidentEvent env.crypto.Digest)
    pub on_bus : bus' ≡ bus ++ published
    pub kind : All P published

  pub Advance-none :
      {R : Db env → Db env → Type 0} {P : IncidentEvent env.crypto.Digest → Type 0}
      {db db' : Db env} {bus bus' : List (IncidentEvent env.crypto.Digest)}
      → R db db'
      → bus' ≡ bus
      → Advance R P db db' bus bus'
  Advance-none {bus} f h = record {
    related = f;
    published = [];
    on_bus = h ∙ sym (append-nil bus);
    kind = tt;
  }

  pub Advance-one :
      {R : Db env → Db env → Type 0} {P : IncidentEvent env.crypto.Digest → Type 0}
      {db db' : Db env} {bus bus' : List (IncidentEvent env.crypto.Digest)}
      (e : IncidentEvent env.crypto.Digest)
      → R db db'
      → bus' ≡ bus ++ e ∷ []
      → P e
      → Advance R P db db' bus bus'
  Advance-one e f h p = record { related = f; published = e ∷ []; on_bus = h; kind = (p, tt) }

  -- The frame of a change under which the tokens are the same.
  pub Advance-Frame :
      {P : IncidentEvent env.crypto.Digest → Type 0} {db db' : Db env}
      {bus bus' : List (IncidentEvent env.crypto.Digest)}
      → Advance Stable P db db' bus bus'
      → Advance Frame P db db' bus bus'
  Advance-Frame a = record {
    related = a.related.frame;
    published = a.published;
    on_bus = a.on_bus;
    kind = a.kind;
  }

-- The same of the value of an `if`, and of an `elim` that splits on a test.
pub if_either :
    {A : Type 0} (P : A → Type 0) (b : Bool) (x y : A) → P x → P y → P (if b then x else y)
if_either P true x y h k = h
if_either P false x y h k = k
