-- ===== src/Policy/Changes.antt =====
-- `diff.py`: the changes of definitions, initiatives and assignments, and of the effects of definitions.
use cga.Prelude.{
  Bool, true, false, not, ◌&&◌, Option, none, some, List, [], ◌∷◌, ◌++◌, any, keep, map,
  if◌then◌else◌,
}
use cga.Text.{Text, codes, text_eq, has_text, starts_with, rstrip_char, sorted_texts}
use cga.Policy.Snapshot.{Resource, Assignment, Entry, find_item, ids_of}
use cga.Policy.Findings.{
  Severity, medium, high, critical, Check, policy_assignment_change, assignment_scope_expansion,
  enforcement_mode_change, assignment_parameter_change, assignment_identity_change,
  risky_effect_change, ChangeType, created, deleted, modified, resource_evidence, change_evidence,
  text_evidence, effects_evidence, Finding, change_type, Tally, report, report_if, report_each,
  count_change,
}

abbrev resource_severity : ChangeType → Severity
resource_severity created = medium
resource_severity deleted = high
resource_severity modified = high

abbrev same_hash : Option Resource → Option Resource → Bool
same_hash (some old) (some new) = text_eq old.content_hash new.content_hash
same_hash _ _ = false

abbrev resource_change :
    Check → Text → Option Resource → Option Resource → Option ChangeType → Tally → Tally
resource_change check id old new none t = t
resource_change check id old new (some change) t =
    if same_hash old new
    then t
    else report
        (record {
          check = check;
          severity = resource_severity change;
          resource_id = id;
          evidence = resource_evidence change old new;
        })
        (count_change t)

-- The body of the loop of `_diff_resources`, and the loop over the sorted IDs.
unfoldable pub diff_resource :
    Check → List (Entry Resource) → List (Entry Resource) → Text → Tally → Tally
unfolding find_item change_type
diff_resource check old new id t =
    resource_change check id (find_item id old) (find_item id new)
      (change_type (find_item id old) (find_item id new)) t

unfoldable pub each_id : (Text → Tally → Tally) → List Text → Tally → Tally
each_id step [] t = t
each_id step (id ∷ ids) t = each_id step ids (step id t)

unfoldable pub diff_resources :
    Check → List (Entry Resource) → List (Entry Resource) → List Finding → Tally
unfolding diff_resource each_id
diff_resources check old new findings =
    each_id (diff_resource check old new) (sorted_texts (ids_of old ++ ids_of new))
      (record { changed = 0; findings = findings })

-- `_is_scope_expansion`
abbrev is_given : Text → Bool
is_given [] = false
is_given (c ∷ s) = true

unfoldable pub is_scope_expansion : (Text → Text) → Text → Text → Bool
is_scope_expansion lower previous_scope current_scope =
    let previous = lower (rstrip_char b'/' previous_scope) in
    let current = lower (rstrip_char b'/' current_scope) in
    is_given previous
    && (is_given current
        && (not (text_eq previous current) && starts_with (current ++ b'/' ∷ []) previous))

-- `str(mode or "").lower() not in {"donotenforce", "disabled"}`
unfoldable pub is_enforced : (Text → Text) → Text → Bool
is_enforced lower mode = not (has_text (codes "donotenforce" ∷ codes "disabled" ∷ []) (lower mode))

abbrev pub concerns : Text → Finding → Bool
concerns id f = text_eq f.resource_id id

abbrev enforcement_severity : Bool → Severity
enforcement_severity true = critical
enforcement_severity false = high

abbrev texts_finding : Check → Severity → Text → Text → Text → Finding
texts_finding check severity id old new = record {
  check = check;
  severity = severity;
  resource_id = id;
  evidence = text_evidence old new;
}

module _ (lower : Text → Text) where
  -- What the comparison of two versions of an assignment may report, each with its test.
  abbrev pub assignment_notes : Text → Assignment → Assignment → List (Bool × Finding)
  assignment_notes id old new =
      (
        is_scope_expansion lower old.scope new.scope,
        texts_finding assignment_scope_expansion critical id old.scope new.scope,
      )
      ∷ (
        not (text_eq old.enforcement_mode new.enforcement_mode),
        texts_finding enforcement_mode_change
            (enforcement_severity (is_enforced lower new.enforcement_mode)) id old.enforcement_mode
            new.enforcement_mode,
      )
      ∷ (
        not (text_eq old.parameters_hash new.parameters_hash),
        texts_finding assignment_parameter_change high id old.parameters_hash new.parameters_hash,
      )
      ∷ (
        not (text_eq old.identity_hash new.identity_hash),
        texts_finding assignment_identity_change high id old.identity_hash new.identity_hash,
      )
      ∷ []

  -- An assignment that is in both snapshots and has another hash. The last test looks at all findings so far.
  unfoldable pub modified_assignment : Text → Assignment → Assignment → Tally → Tally
  unfolding is_scope_expansion is_enforced report_each
  modified_assignment id old new t =
      let t' = report_each (assignment_notes id old new) (count_change t) in
      report_if (not (any (concerns id) t'.findings))
        (record {
          check = policy_assignment_change;
          severity = high;
          resource_id = id;
          evidence = change_evidence modified;
        })
        t'

  abbrev pub assignment_change : Text → Option Assignment → Option Assignment → Tally → Tally
  assignment_change id none none t = t
  assignment_change id none (some new) t =
      report
        (record {
          check = policy_assignment_change;
          severity = high;
          resource_id = id;
          evidence = change_evidence created;
        })
        (count_change t)
  assignment_change id (some old) none t =
      report
        (record {
          check = policy_assignment_change;
          severity = critical;
          resource_id = id;
          evidence = change_evidence deleted;
        })
        (count_change t)
  assignment_change id (some old) (some new) t =
      if text_eq old.content_hash new.content_hash then t else modified_assignment id old new t

  unfoldable pub diff_assignment :
      List (Entry Assignment) → List (Entry Assignment) → Text → Tally → Tally
  unfolding find_item modified_assignment
  diff_assignment old new id t = assignment_change id (find_item id old) (find_item id new) t

  unfoldable pub diff_assignments :
      List (Entry Assignment) → List (Entry Assignment) → List Finding → Tally
  unfolding diff_assignment each_id
  diff_assignments old new findings =
      each_id (diff_assignment old new) (sorted_texts (ids_of old ++ ids_of new))
        (record { changed = 0; findings = findings })

-- The effects that have consequences: `RISKY_EFFECTS`
abbrev pub risky_effects : List Text
risky_effects = codes "deny" ∷ codes "deployifnotexists" ∷ codes "modify" ∷ codes "append" ∷ []

-- The effects in `new` that are not in `old` and have consequences.
unfoldable pub introduced_effects : List Text → List Text → List Text
introduced_effects old new =
    sorted_texts (keep (λ e. not (has_text old e) && has_text risky_effects e) new)

abbrev pub effects_of : (Text → Text) → Option Resource → List Text
effects_of lower none = []
effects_of lower (some r) = map lower r.effects

abbrev effects_severity : Bool → Severity
effects_severity true = critical
effects_severity false = high

abbrev pub effects_change : Text → List Text → List Text → List Text → Tally → Tally
effects_change id old new [] t = t
effects_change id old new (e ∷ es) t =
    report
      (record {
        check = risky_effect_change;
        severity = effects_severity (has_text (e ∷ es) (codes "deny"));
        resource_id = id;
        evidence = effects_evidence (sorted_texts old) (sorted_texts new);
      })
      t

unfoldable pub risky_effect :
    (Text → Text) → List (Entry Resource) → List (Entry Resource) → Text → Tally → Tally
unfolding find_item introduced_effects
risky_effect lower old new id t =
    let before = effects_of lower (find_item id old) in
    let after = effects_of lower (find_item id new) in
    effects_change id before after (introduced_effects before after) t

-- `_detect_risky_effect_changes`
unfoldable pub detect_risky_effects :
    (Text → Text) → List (Entry Resource) → List (Entry Resource) → List Finding → Tally
unfolding risky_effect each_id
detect_risky_effects lower old new findings =
    each_id (risky_effect lower old new) (sorted_texts (keep (has_text (ids_of new)) (ids_of old)))
      (record { changed = 0; findings = findings })
