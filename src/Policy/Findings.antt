-- ===== src/Policy/Findings.antt =====
-- `diff.py`: findings, their severities and the tally of a comparison.
use cga.Prelude.{ℕ, suc, ◌-◌, Bool, Option, none, some, List, [], ◌∷◌, ◌++◌, leb, if◌then◌else◌}
use cga.Text.{Text, codes}
use cga.Policy.Snapshot.{Resource, Event}

-- An integer: `pos n` is n and `negsuc n` is -(n + 1).
pub data ℤ : Type 0 where
  pos : ℕ → ℤ
  negsuc : ℕ → ℤ

-- `a - b` of two counts.
unfoldable pub delta_of : ℕ → ℕ → ℤ
delta_of a b = if leb b a then pos (a - b) else negsuc (b - suc a)

pub data Severity : Type 0 where
  info low medium high critical : Severity

-- `SEVERITY_ORDER`
unfoldable pub rank : Severity → ℕ
rank info = 0
rank low = 1
rank medium = 2
rank high = 3
rank critical = 4

pub data Check : Type 0 where
  policy_definition_change policy_initiative_change policy_assignment_change : Check
  assignment_scope_expansion enforcement_mode_change assignment_parameter_change : Check
  assignment_identity_change risky_effect_change compliance_regression azure_activity_change : Check

unfoldable pub check_name : Check → Text
check_name policy_definition_change = codes "policy_definition_change"
check_name policy_initiative_change = codes "policy_initiative_change"
check_name policy_assignment_change = codes "policy_assignment_change"
check_name assignment_scope_expansion = codes "assignment_scope_expansion"
check_name enforcement_mode_change = codes "enforcement_mode_change"
check_name assignment_parameter_change = codes "assignment_parameter_change"
check_name assignment_identity_change = codes "assignment_identity_change"
check_name risky_effect_change = codes "risky_effect_change"
check_name compliance_regression = codes "compliance_regression"
check_name azure_activity_change = codes "azure_activity_change"

pub data ChangeType : Type 0 where
  created deleted modified : ChangeType

pub data Evidence : Type 0 where
  resource_evidence : ChangeType → Option Resource → Option Resource → Evidence
  change_evidence : ChangeType → Evidence
  text_evidence : Text → Text → Evidence
  effects_evidence : List Text → List Text → Evidence
  count_evidence : ℕ → ℕ → ℤ → Evidence
  event_evidence : Event → Evidence

-- `_finding`; the message goes with the check.
pub record Finding : Type 0 where
  pub check : Check
  pub severity : Severity
  pub resource_id : Text
  pub evidence : Evidence

-- `_change_type`: the empty text is `none`.
unfoldable pub change_type : {A : Type 0} → Option A → Option A → Option ChangeType
change_type none none = none
change_type none (some new) = some created
change_type (some old) none = some deleted
change_type (some old) (some new) = some modified

-- The findings so far with the number of changes.
pub record Tally : Type 0 where
  pub changed : ℕ
  pub findings : List Finding

abbrev pub report : Finding → Tally → Tally
report f t = record t { findings = t.findings ++ f ∷ [] }

abbrev pub report_if : Bool → Finding → Tally → Tally
report_if test f t = if test then report f t else t

-- The findings whose tests hold.
unfoldable pub report_each : List (Bool × Finding) → Tally → Tally
report_each [] t = t
report_each ((test, f) ∷ notes) t = report_each notes (report_if test f t)

abbrev pub count_change : Tally → Tally
count_change t = record t { changed = suc t.changed }
