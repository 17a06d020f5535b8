-- ===== src/Policy/Diff/Deleted.antt =====
-- `diff_assignments` and `worst_severity`: an assignment that is gone makes the whole report critical.
use cga.Prelude.{
  ℕ, ◌≡◌, refl, sym, ap, ◌∙◌, subst, inl, inr, Bool, true, false, not, Option, none, some, List, [],
  ◌∷◌, ◌++◌, ◌==◌, ltb, arith, Bool-cases, any, keep, any-append, any-sort_by, if◌then◌else◌,
}
use cga.Text.{Text, text_eq, text_eq_sound, has_text, sorted_texts, has_text-sorted_texts}
use cga.Policy.Snapshot.{Resource, Assignment, Event, Entry, Snapshot, Strings, find_item, ids_of}
use cga.Policy.Findings.{
  Severity, info, low, medium, high, critical, rank, Finding, Tally, report_if, report_each,
  count_change, policy_definition_change, policy_initiative_change,
}
use cga.Policy.Changes.{
  each_id, diff_resources, modified_assignment, assignment_notes, concerns, assignment_change,
  diff_assignment, diff_assignments, effects_change, effects_of, introduced_effects, risky_effect,
  detect_risky_effects,
}
use cga.Policy.Diff.{
  detect_compliance_drift, is_seen, is_policy_operation, detect_activity, worse, worst_from,
  worst_severity, gather, report_of, finding_leb, diff_policy_snapshots,
}

-- Whether a finding is critical.
abbrev is_critical : Finding → Bool
is_critical f = rank f.severity == 4

abbrev Has : List Finding → Type 0
Has fs = any is_critical fs ≡ true

Has-append : (fs gs : List Finding) → Has fs → Has (fs ++ gs)
Has-append fs gs h = ground (arith, any-append is_critical fs gs)

Has-last : (fs : List Finding) (f : Finding) → f.severity ≡ critical → Has (fs ++ f ∷ [])
unfolding any rank
Has-last fs f e = any-append is_critical fs (f ∷ []) ∙ ground (arith, e)

Has-report_if :
    (b : Bool) (f : Finding) (t : Tally) → Has t.findings → Has (report_if b f t).findings
Has-report_if true f t h = Has-append t.findings (f ∷ []) h
Has-report_if false f t h = h

module _ (step : Text → Tally → Tally)
    (keeps : (id : Text) (t : Tally) → Has t.findings → Has (step id t).findings) where
  Has-each_id : (ids : List Text) (t : Tally) → Has t.findings → Has (each_id step ids t).findings
  unfolding each_id
  Has-each_id [] t h = h
  Has-each_id (id ∷ ids) t h = Has-each_id ids (step id t) (keeps id t h)

  -- A step that reports something critical at an ID of the loop makes the loop report it.
  each_id_reaches :
      (at : Text)
      → ((t : Tally) → Has (step at t).findings)
      → (ids : List Text) (t : Tally) → has_text ids at ≡ true
      → Has (each_id step ids t).findings
  unfolding each_id has_text
  each_id_reaches at hits [] t h = ground arith
  each_id_reaches at hits (id ∷ ids) t h = elim (Bool-cases (text_eq id at)) [
    | inl e ↦
        Has-each_id ids (step id t)
          (subst (λ i. Has (step i t).findings) (sym (text_eq_sound id at e)) (hits t))
    | inr e ↦ each_id_reaches at hits ids (step id t) (ground arith)
  ]

Has-report_each :
    (notes : List (Bool × Finding)) (t : Tally)
    → Has t.findings
    → Has (report_each notes t).findings
unfolding report_each
Has-report_each [] t h = h
Has-report_each ((b, f) ∷ notes) t h =
    Has-report_each notes (report_if b f t) (Has-report_if b f t h)

Has-modified :
    (lower : Text → Text) (id : Text) (old new : Assignment) (t : Tally)
    → Has t.findings
    → Has (modified_assignment lower id old new t).findings
unfolding modified_assignment
Has-modified lower id old new t h =
    let t' = report_each (assignment_notes lower id old new) (count_change t) in
    Has-report_if (not (any (concerns id) t'.findings)) _ t'
      (Has-report_each (assignment_notes lower id old new) (count_change t) h)

Has-assignment :
    (lower : Text → Text) (old new : List (Entry Assignment)) (id : Text) (t : Tally)
    → Has t.findings
    → Has (diff_assignment lower old new id t).findings
unfolding diff_assignment
Has-assignment lower old new id t h = kept (find_item id old) (find_item id new)
  where
    kept : (o n : Option Assignment) → Has (assignment_change lower id o n t).findings
    kept none none = h
    kept none (some n) = Has-append t.findings _ h
    kept (some o) none = Has-append t.findings _ h
    kept (some o) (some n) = elim (Bool-cases (text_eq o.content_hash n.content_hash)) [
      | inl e ↦ rw e h
      | inr e ↦
          subst (λ b. Has (if b then t else modified_assignment lower id o n t).findings) (sym e)
            (Has-modified lower id o n t h)
    ]

Has-effects :
    (lower : Text → Text) (old new : List (Entry Resource)) (id : Text) (t : Tally)
    → Has t.findings
    → Has (risky_effect lower old new id t).findings
unfolding risky_effect
Has-effects lower old new id t h =
    kept (
      introduced_effects (effects_of lower (find_item id old))
        (effects_of lower (find_item id new)))
  where
    kept :
        (es : List Text)
        → Has
            (effects_change id
              (effects_of lower (find_item id old))
              (effects_of lower (find_item id new))
              es
              t).findings
    kept [] = h
    kept (e ∷ es) = Has-append t.findings _ h

Has-drift :
    (scope : Text) (old new : ℕ) (fs : List Finding)
    → Has fs
    → Has (detect_compliance_drift scope old new fs)
unfolding detect_compliance_drift
Has-drift scope old new fs h = elim (Bool-cases (ltb old new)) [
  | inl e ↦ rw e (Has-append fs _ h)
  | inr e ↦ rw e h
]

Has-activity :
    (f : Strings) (previous es : List Event) (fs : List Finding)
    → Has fs
    → Has (detect_activity f previous es fs)
unfolding detect_activity
Has-activity f previous [] fs h = h
Has-activity f previous (e ∷ es) fs h = elim (Bool-cases (is_seen f previous e)) [
  | inl seen ↦ rw seen (Has-activity f previous es fs h)
  | inr new ↦ elim (Bool-cases (is_policy_operation f e)) [
    | inl q ↦ rw (new, q) (Has-activity f previous es _ (Has-append fs _ h))
    | inr q ↦ rw (new, q) (Has-activity f previous es fs h)
  ]
]

worse_critical : (s : Severity) → worse critical s ≡ critical
unfolding rank
worse_critical info = refl
worse_critical low = refl
worse_critical medium = refl
worse_critical high = refl
worse_critical critical = refl

critical_of : (s : Severity) → (rank s == 4) ≡ true → s ≡ critical
unfolding rank
critical_of info h = ground arith
critical_of low h = ground arith
critical_of medium h = ground arith
critical_of high h = ground arith
critical_of critical h = refl

worst_from_critical : (fs : List Finding) → worst_from critical fs ≡ critical
unfolding worst_from
worst_from_critical [] = refl
worst_from_critical (f ∷ fs) =
    ap (λ s. worst_from s fs) (worse_critical f.severity) ∙ worst_from_critical fs

worse_by_critical : (s : Severity) → worse s critical ≡ critical
unfolding rank
worse_by_critical info = refl
worse_by_critical low = refl
worse_by_critical medium = refl
worse_by_critical high = refl
worse_by_critical critical = refl

worst_from-Has : (s : Severity) (fs : List Finding) → Has fs → worst_from s fs ≡ critical
unfolding worst_from any
worst_from-Has s [] h = ground arith
worst_from-Has s (f ∷ fs) h = elim (Bool-cases (is_critical f)) [
  | inl e ↦
      ap (λ q. worst_from (worse s q) fs) (critical_of f.severity e)
      ∙ ap (λ q. worst_from q fs) (worse_by_critical s)
      ∙ worst_from_critical fs
  | inr e ↦ worst_from-Has (worse s f.severity) fs (ground arith)
]

worst_severity-Has : (fs : List Finding) → Has fs → worst_severity fs ≡ critical
unfolding worst_severity any
worst_severity-Has [] h = ground arith
worst_severity-Has (f ∷ fs) h = elim (Bool-cases (is_critical f)) [
  | inl e ↦ ap (λ s. worst_from s fs) (critical_of f.severity e) ∙ worst_from_critical fs
  | inr e ↦ worst_from-Has f.severity fs (ground arith)
]

module _ {A : Type 0} (id : Text) where
  listed :
      (es : List (Entry A)) (more : List Text) (a : A)
      → find_item id es ≡ some a
      → has_text (ids_of es ++ more) id ≡ true
  unfolding find_item has_text
  listed [] more a h = cc
  listed (e ∷ es) more a h = elim (Bool-cases (text_eq e.resource_id id)) [
    | inl q ↦ ground arith
    | inr q ↦ ground (arith, listed es more a)
  ]

reported_deletion :
    (lower : Text → Text) (old new : List (Entry Assignment)) (id : Text) (a : Assignment)
    (t : Tally)
    → find_item id old ≡ some a
    → find_item id new ≡ none
    → Has (diff_assignment lower old new id t).findings
unfolding diff_assignment
reported_deletion lower old new id a t here gone =
    rw (here, gone, diff_assignment) (Has-last t.findings _ refl)

found_deletion :
    (lower : Text → Text) (old new : List (Entry Assignment)) (id : Text) (a : Assignment)
    (fs : List Finding)
    → find_item id old ≡ some a
    → find_item id new ≡ none
    → Has (diff_assignments lower old new fs).findings
unfolding diff_assignments
found_deletion lower old new id a fs here gone =
    each_id_reaches (diff_assignment lower old new) (Has-assignment lower old new) id
      (λ t. reported_deletion lower old new id a t here gone)
      (sorted_texts (ids_of old ++ ids_of new)) _
      (has_text-sorted_texts (ids_of old ++ ids_of new) id ∙ listed id old (ids_of new) a here)

-- When an assignment of the previous snapshot is missing in the current one, the report is critical, whatever else
-- was found.
pub deleted_assignment_critical :
    (f : Strings) (previous current : Snapshot) (id : Text) (a : Assignment)
    → find_item id previous.assignments ≡ some a
    → find_item id current.assignments ≡ none
    → (diff_policy_snapshots f (some previous) current).severity ≡ critical
unfolding diff_policy_snapshots gather report_of detect_risky_effects
deleted_assignment_critical f previous current id a here gone =
    let definitions =
      diff_resources policy_definition_change previous.definitions current.definitions [] in
    let initiatives =
      diff_resources policy_initiative_change previous.initiatives current.initiatives
        definitions.findings in
    let assignments =
      diff_assignments f.lower previous.assignments current.assignments initiatives.findings in
    let first =
      found_deletion f.lower previous.assignments current.assignments id a initiatives.findings here
        gone in
    let effects =
      Has-each_id (risky_effect f.lower previous.definitions current.definitions)
        (Has-effects f.lower previous.definitions current.definitions)
        (sorted_texts (keep (has_text (ids_of current.definitions)) (ids_of previous.definitions)))
        (record { changed = 0; findings = assignments.findings }) first in
    let drift =
      Has-drift current.scope previous.totals.non_compliant current.totals.non_compliant _
        effects in
    let all = Has-activity f previous.activity current.activity _ drift in
    worst_severity-Has _ (any-sort_by finding_leb is_critical _ ∙ all)
