-- ===== src/Tests/Policy.antt =====
-- Two snapshots of policies, the second without the assignment of the first.
use cga.Prelude.{◌≡◌, refl, false, none, some, [], ◌∷◌}
use cga.Text.{codes, text_eq}
use cga.Policy.Snapshot.{Resource, Assignment, Event, Snapshot, Strings, find_item}
use cga.Policy.Findings.{pos, info, critical}
use cga.Policy.Diff.{diff_policy_snapshots}
use cga.Policy.Diff.Same.{diff_policy_snapshots_self}
use cga.Policy.Diff.Deleted.{deleted_assignment_critical}

abbrev strings : Strings
strings = record { strip = λ t. t; lower = λ t. t }

abbrev deny_resource : Resource
deny_resource = record {
  version = codes "1";
  effects = codes "deny" ∷ [];
  content_hash = codes "h1";
}

abbrev assigned : Assignment
assigned = record {
  scope = codes "/subscriptions/s";
  enforcement_mode = codes "Default";
  parameters_hash = codes "p";
  identity_hash = codes "i";
  content_hash = codes "a";
}

abbrev login : Event
login = record {
  id = codes "e1";
  timestamp = codes "t";
  operation = codes "microsoft.authorization/policyassignments/write";
  status = codes "ok";
  resource_id = codes "r";
  caller = codes "c";
  correlation_id = codes "k";
}

abbrev first_snapshot : Snapshot
first_snapshot = record {
  scope = codes "/subscriptions/s";
  definitions = record { resource_id = codes "d"; item = deny_resource } ∷ [];
  initiatives = [];
  assignments = record { resource_id = codes "x"; item = assigned } ∷ [];
  totals = record { compliant = 3; non_compliant = 1; unknown = 0 };
  activity = login ∷ [];
}

abbrev second_snapshot : Snapshot
second_snapshot = record first_snapshot { assignments = [] }

assigned_before : find_item (codes "x") first_snapshot.assignments ≡ some assigned
unfolding find_item text_eq
assigned_before = refl

assigned_after : find_item (codes "x") second_snapshot.assignments ≡ none
unfolding find_item
assigned_after = refl

diff_policy_snapshots_self_example :
    diff_policy_snapshots strings (some first_snapshot) first_snapshot ≡ record {
      severity = info;
      baseline_created = false;
      changed_definitions = 0;
      changed_initiatives = 0;
      changed_assignments = 0;
      non_compliant_delta = pos 0;
      findings = [];
    }
diff_policy_snapshots_self_example = diff_policy_snapshots_self strings first_snapshot

deleted_assignment_critical_example :
    (diff_policy_snapshots strings (some first_snapshot) second_snapshot).severity ≡ critical
deleted_assignment_critical_example =
    deleted_assignment_critical strings first_snapshot second_snapshot (codes "x") assigned
      assigned_before assigned_after
