-- ===== src/Policy/Diff.antt =====
-- `diff.py`: the findings that a new snapshot gives over the previous one.
pub mod Same
pub mod Deleted
use cga.Prelude.{
  ℕ, suc, ◌+◌, ◌-◌, Bool, true, false, not, ◌&&◌, ◌||◌, Option, none, some, List, [], ◌∷◌, ◌++◌,
  ◌==◌, ltb, leb, any, sort_by, if◌then◌else◌, map,
}
use cga.Text.{Text, codes, text_eq, text_leb, starts_with, contains}
use cga.Policy.Snapshot.{Event, Totals, Snapshot, Strings}
use cga.Policy.Findings.{
  ℤ, pos, negsuc, delta_of, Severity, info, medium, high, rank, Check, check_name,
  policy_definition_change, policy_initiative_change, compliance_regression, azure_activity_change,
  Evidence, count_evidence, event_evidence, Finding, Tally,
}
use cga.Policy.Changes.{diff_resources, diff_assignments, detect_risky_effects}

-- `_detect_compliance_drift`
unfoldable pub detect_compliance_drift : Text → ℕ → ℕ → List Finding → List Finding
unfolding delta_of
detect_compliance_drift scope old new findings =
    if ltb old new
    then findings
      ++ record {
        check = compliance_regression;
        severity = high;
        resource_id = scope;
        evidence = count_evidence old new (delta_of new old);
      }
        ∷ []
    else findings

-- `_activity_key`: an event by its ID, or by four of its fields.
pub data ActivityKey : Type 0 where
  by_id : Text → ActivityKey
  by_event : Text → Text → Text → Text → ActivityKey

abbrev key_or : Text → Event → ActivityKey
key_or [] e = by_event e.timestamp e.operation e.resource_id e.correlation_id
key_or (c ∷ s) e = by_id (c ∷ s)

unfoldable pub activity_key : Strings → Event → ActivityKey
activity_key f e = key_or (f.strip e.id) e

unfoldable pub same_key : ActivityKey → ActivityKey → Bool
same_key (by_id a) (by_id b) = text_eq a b
same_key (by_event t o r c) (by_event t' o' r' c') =
    text_eq t t' && (text_eq o o' && (text_eq r r' && text_eq c c'))
same_key _ _ = false

-- Whether the event was seen, and whether it concerns policies.
unfoldable pub is_seen : Strings → List Event → Event → Bool
unfolding activity_key same_key
is_seen f previous e = any (λ p. same_key (activity_key f p) (activity_key f e)) previous

unfoldable pub is_policy_operation : Strings → Event → Bool
unfolding contains
is_policy_operation f e = contains (codes "microsoft.authorization/polic") (f.lower e.operation)

-- `_detect_activity`
unfoldable pub detect_activity : Strings → List Event → List Event → List Finding → List Finding
unfolding is_seen is_policy_operation
detect_activity f previous [] findings = findings
detect_activity f previous (e ∷ es) findings = detect_activity f previous es (
    if is_seen f previous e
    then findings
    else if is_policy_operation f e
    then findings
      ++ record {
        check = azure_activity_change;
        severity = medium;
        resource_id = e.resource_id;
        evidence = event_evidence e;
      }
        ∷ []
    else findings)

-- The order of the report: the worst first, then by check and resource.
unfoldable pub finding_leb : Finding → Finding → Bool
unfolding rank check_name
finding_leb a b =
    if ltb (rank b.severity) (rank a.severity)
    then true
    else if rank a.severity == rank b.severity
    then (if text_eq (check_name a.check) (check_name b.check)
        then text_leb a.resource_id b.resource_id
        else text_leb (check_name a.check) (check_name b.check))
    else false

-- `_worst_severity`
abbrev worse : Severity → Severity → Severity
worse a b = if ltb (rank a) (rank b) then b else a

unfoldable pub worst_from : Severity → List Finding → Severity
unfolding rank
worst_from s [] = s
worst_from s (f ∷ fs) = worst_from (worse s f.severity) fs

unfoldable pub worst_severity : List Finding → Severity
unfolding worst_from
worst_severity [] = info
worst_severity (f ∷ fs) = worst_from f.severity fs

pub record Report : Type 0 where
  pub severity : Severity
  pub baseline_created : Bool
  pub changed_definitions : ℕ
  pub changed_initiatives : ℕ
  pub changed_assignments : ℕ
  pub non_compliant_delta : ℤ
  pub findings : List Finding

abbrev baseline : Report
baseline = record {
  severity = info;
  baseline_created = true;
  changed_definitions = 0;
  changed_initiatives = 0;
  changed_assignments = 0;
  non_compliant_delta = pos 0;
  findings = [];
}

-- All findings in the order in which they are made, with the three counts of changes.
pub record Gathered : Type 0 where
  pub definitions : ℕ
  pub initiatives : ℕ
  pub assignments : ℕ
  pub findings : List Finding

unfoldable pub gather : Strings → Snapshot → Snapshot → Gathered
unfolding diff_resources diff_assignments detect_risky_effects detect_compliance_drift
    detect_activity
gather f previous current =
    let definitions =
      diff_resources policy_definition_change previous.definitions current.definitions [] in
    let initiatives =
      diff_resources policy_initiative_change previous.initiatives current.initiatives
        definitions.findings in
    let assignments =
      diff_assignments f.lower previous.assignments current.assignments initiatives.findings in
    let effects =
      detect_risky_effects f.lower previous.definitions current.definitions assignments.findings in
    let drift =
      detect_compliance_drift current.scope previous.totals.non_compliant
        current.totals.non_compliant effects.findings in
    record {
      definitions = definitions.changed;
      initiatives = initiatives.changed;
      assignments = assignments.changed;
      findings = detect_activity f previous.activity current.activity drift;
    }

-- The report of what was gathered, with the difference of the counts.
unfoldable pub report_of : Gathered → ℤ → Report
unfolding finding_leb worst_severity
report_of g delta =
    let sorted = sort_by finding_leb g.findings in
    record {
      severity = worst_severity sorted;
      baseline_created = false;
      changed_definitions = g.definitions;
      changed_initiatives = g.initiatives;
      changed_assignments = g.assignments;
      non_compliant_delta = delta;
      findings = sorted;
    }

unfoldable pub diff_policy_snapshots : Strings → Option Snapshot → Snapshot → Report
unfolding gather report_of delta_of
diff_policy_snapshots f none current = baseline
diff_policy_snapshots f (some previous) current =
    report_of (gather f previous current)
      (delta_of current.totals.non_compliant previous.totals.non_compliant)
