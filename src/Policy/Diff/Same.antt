-- ===== src/Policy/Diff/Same.antt =====
-- A snapshot compared with itself gives no findings.
use cga.Prelude.{
  ℕ, ◌≡◌, refl, ap, ◌∙◌, inl, inr, Bool, true, false, not, ◌&&◌, some, List, [], ◌∷◌, ◌++◌, arith,
  Option-cases, All, All-weaken, any, any_self, keep, sort_by,
}
use cga.Text.{Text, text_eq, text_eq_refl, has_text, has_text-any, sorted_texts, distinct_texts}
use cga.Policy.Snapshot.{Resource, Assignment, Event, Entry, Snapshot, Strings, find_item, ids_of}
use cga.Policy.Findings.{
  delta_of, pos, info, Check, policy_definition_change, policy_initiative_change, Finding,
  change_type, Tally,
}
use cga.Policy.Changes.{
  diff_resource, each_id, diff_resources, diff_assignment, diff_assignments, introduced_effects,
  risky_effects, effects_of, risky_effect, detect_risky_effects,
}
use cga.Policy.Diff.{
  detect_compliance_drift, activity_key, same_key, ActivityKey, by_id, by_event, is_seen,
  detect_activity, worst_severity, gather, report_of, Gathered, diff_policy_snapshots,
}

each_id_idle :
    (step : Text → Tally → Tally)
    → ((id : Text) (t : Tally) → step id t ≡ t)
    → (ids : List Text) (t : Tally) → each_id step ids t ≡ t
unfolding each_id
each_id_idle step idle [] t = refl
each_id_idle step idle (id ∷ ids) t = each_id_idle step idle ids (step id t) ∙ idle id t

same_resource :
    (check : Check) (es : List (Entry Resource)) (id : Text) (t : Tally)
    → diff_resource check es es id t ≡ t
unfolding diff_resource change_type
same_resource check es id t = elim (Option-cases (find_item id es)) [
  | inl e ↦ rw (diff_resource, e) refl
  | inr (r, e) ↦ rw (diff_resource, e, text_eq_refl r.content_hash) refl
]

same_assignment :
    (lower : Text → Text) (es : List (Entry Assignment)) (id : Text) (t : Tally)
    → diff_assignment lower es es id t ≡ t
unfolding diff_assignment
same_assignment lower es id t = elim (Option-cases (find_item id es)) [
  | inl e ↦ rw (diff_assignment, e) refl
  | inr (r, e) ↦ rw (diff_assignment, e, text_eq_refl r.content_hash) refl
]

keep_none : (p : Text → Bool) (xs : List Text) → All (λ x. p x ≡ false) xs → keep p xs ≡ []
unfolding keep
keep_none p [] a = refl
keep_none p (x ∷ xs) (h, a) = rw h (keep_none p xs a)

introduced_none : (xs : List Text) → introduced_effects xs xs ≡ []
unfolding introduced_effects
introduced_none xs =
    ap sorted_texts (keep_none _ xs (All-weaken xs known (any_self text_eq text_eq_refl xs)))
    ∙ unfold sorted_texts distinct_texts sort_by in refl
  where
    known :
        (e : Text)
        → any (λ x. text_eq x e) xs ≡ true
        → (not (has_text xs e) && has_text risky_effects e) ≡ false
    known e h = rw (has_text-any xs e, h) refl

same_effects :
    (lower : Text → Text) (es : List (Entry Resource)) (id : Text) (t : Tally)
    → risky_effect lower es es id t ≡ t
unfolding risky_effect
same_effects lower es id t =
    rw (risky_effect, introduced_none (effects_of lower (find_item id es))) refl

same_key_refl : (k : ActivityKey) → same_key k k ≡ true
unfolding same_key
same_key_refl (by_id a) = text_eq_refl a
same_key_refl (by_event t o r c) =
    rw (text_eq_refl t, text_eq_refl o, text_eq_refl r, text_eq_refl c) refl

seen_none :
    (f : Strings) (previous es : List Event) (findings : List Finding)
    → All (λ e. is_seen f previous e ≡ true) es
    → detect_activity f previous es findings ≡ findings
unfolding detect_activity
seen_none f previous [] findings a = refl
seen_none f previous (e ∷ es) findings (h, a) = rw h (seen_none f previous es findings a)

all_seen : (f : Strings) (es : List Event) → All (λ e. is_seen f es e ≡ true) es
unfolding is_seen
all_seen f es =
    any_self (λ p e. same_key (activity_key f p) (activity_key f e))
      (λ e. same_key_refl (activity_key f e)) es

resources_same :
    (check : Check) (es : List (Entry Resource)) (fs : List Finding)
    → diff_resources check es es fs ≡ record { changed = 0; findings = fs }
unfolding diff_resources
resources_same check es fs =
    each_id_idle (diff_resource check es es) (same_resource check es)
      (sorted_texts (ids_of es ++ ids_of es)) _

assignments_same :
    (lower : Text → Text) (es : List (Entry Assignment)) (fs : List Finding)
    → diff_assignments lower es es fs ≡ record { changed = 0; findings = fs }
unfolding diff_assignments
assignments_same lower es fs =
    each_id_idle (diff_assignment lower es es) (same_assignment lower es)
      (sorted_texts (ids_of es ++ ids_of es)) _

effects_same :
    (lower : Text → Text) (es : List (Entry Resource)) (fs : List Finding)
    → detect_risky_effects lower es es fs ≡ record { changed = 0; findings = fs }
unfolding detect_risky_effects
effects_same lower es fs =
    each_id_idle (risky_effect lower es es) (same_effects lower es)
      (sorted_texts (keep (has_text (ids_of es)) (ids_of es))) _

drift_same : (scope : Text) (n : ℕ) (fs : List Finding) → detect_compliance_drift scope n n fs ≡ fs
unfolding detect_compliance_drift
drift_same scope n fs = ground arith

delta_same : (n : ℕ) → delta_of n n ≡ pos 0
unfolding delta_of
delta_same n = ground arith

abbrev no_findings : Gathered
no_findings = record { definitions = 0; initiatives = 0; assignments = 0; findings = [] }

gather-same : (f : Strings) (s : Snapshot) → gather f s s ≡ no_findings
unfolding gather
gather-same f s =
    rw
      (
        gather,
        resources_same policy_definition_change s.definitions [],
        resources_same policy_initiative_change s.initiatives [],
        assignments_same f.lower s.assignments [],
        effects_same f.lower s.definitions [],
        drift_same s.scope s.totals.non_compliant [],
        seen_none f s.activity s.activity [] (all_seen f s.activity),
      )
      refl

-- A snapshot compared with itself has no findings, no changes, a difference of 0 and the severity `info`.
pub diff_policy_snapshots_self :
    (f : Strings) (s : Snapshot)
    → diff_policy_snapshots f (some s) s ≡ record {
      severity = info;
      baseline_created = false;
      changed_definitions = 0;
      changed_initiatives = 0;
      changed_assignments = 0;
      non_compliant_delta = pos 0;
      findings = [];
    }
unfolding diff_policy_snapshots
diff_policy_snapshots_self f s =
    ap (λ g. report_of g (delta_of s.totals.non_compliant s.totals.non_compliant)) (gather-same f s)
    ∙ ap (report_of no_findings) (delta_same s.totals.non_compliant)
    ∙ unfold report_of sort_by worst_severity in refl
