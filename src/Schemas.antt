-- ===== src/Schemas.antt =====
-- src/aegis_common/schemas.py: the domain types on the wire, and the fingerprint of a signal.
use Prim.Native.String
use Prim.Native.String.{compare}
use Prim.Native.Nat.{Ordering}
use aegis_project.Prelude.{
  ℕ, String, Option, List, [], ◌∷◌, Bool, true, false, str_eq, if◌then◌else◌,
}
use aegis_project.Prelude.Int.{ℤ}

pub data Severity : Type 0 where
  sev1 sev2 sev3 sev4 unknown : Severity

pub data SignalKind : Type 0 where
  metric log trace alert deploy change : SignalKind

pub data IncidentStatus : Type 0 where
  open_status investigating plan_proposed awaiting_approval executing verifying resolved escalated :
      IncidentStatus

-- `.value`
abbrev pub severity_value : Severity → String
severity_value Severity.sev1 = "sev1"
severity_value Severity.sev2 = "sev2"
severity_value Severity.sev3 = "sev3"
severity_value Severity.sev4 = "sev4"
severity_value Severity.unknown = "unknown"

abbrev pub kind_value : SignalKind → String
kind_value SignalKind.metric = "metric"
kind_value SignalKind.log = "log"
kind_value SignalKind.trace = "trace"
kind_value SignalKind.alert = "alert"
kind_value SignalKind.deploy = "deploy"
kind_value SignalKind.change = "change"

abbrev pub status_value : IncidentStatus → String
status_value IncidentStatus.open_status = "open"
status_value IncidentStatus.investigating = "investigating"
status_value IncidentStatus.plan_proposed = "plan_proposed"
status_value IncidentStatus.awaiting_approval = "awaiting_approval"
status_value IncidentStatus.executing = "executing"
status_value IncidentStatus.verifying = "verifying"
status_value IncidentStatus.resolved = "resolved"
status_value IncidentStatus.escalated = "escalated"

abbrev pub Labels : Type 0
Labels = List (String × String)

-- Times are microseconds; `value` is a count of millionths.
pub record Signal : Type 0 where
  pub signal_id : ℕ
  pub kind : SignalKind
  pub source : String
  pub service : String
  pub title : String
  pub description : String
  pub severity : Severity
  pub labels : Labels
  pub value : Option ℤ
  pub observed_at : ℕ
  pub received_at : ℕ

infixl 65 ◌⧺◌
abbrev pub ◌⧺◌ : String → String → String
s ⧺ t = String.◌++◌ s t

abbrev before : String × String → String × String → Bool
before (k, v) (j, w) =
    if str_eq k j
    then (elim (compare v w) [ Ordering.gt ↦ false | _ ↦ true ])
    else (elim (compare k j) [ Ordering.lt ↦ true | _ ↦ false ])

insert_label : String × String → Labels → Labels
insert_label l [] = l ∷ []
insert_label l (m ∷ ms) = if before l m then l ∷ m ∷ ms else m ∷ insert_label l ms

-- `sorted(self.labels.items())`
unfoldable pub sorted_labels : Labels → Labels
unfolding insert_label
sorted_labels [] = []
sorted_labels (l ∷ ls) = insert_label l (sorted_labels ls)

-- `"&".join(f"{k}={v}" ...)`
unfoldable pub join_labels : Labels → String
join_labels [] = ""
join_labels ((k, v) ∷ []) = k ⧺ "=" ⧺ v
join_labels ((k, v) ∷ l ∷ ls) = k ⧺ "=" ⧺ v ⧺ "&" ⧺ join_labels (l ∷ ls)

-- The text that is hashed.
unfoldable pub raw_fingerprint : Signal → String
unfolding sorted_labels join_labels
raw_fingerprint s =
    kind_value s.kind ⧺ "|" ⧺ s.service ⧺ "|" ⧺ s.title ⧺ "|" ⧺ join_labels (sorted_labels s.labels)

-- `Signal.fingerprint`, with `hashlib.sha256` as an argument
unfoldable pub fingerprint : (String → String) → Signal → String
unfolding raw_fingerprint
fingerprint sha256 s = sha256 (raw_fingerprint s)

-- Python's `<=` on texts
abbrev pub text_leb : String → String → Bool
text_leb s t = elim (compare s t) [ Ordering.gt ↦ false | _ ↦ true ]
