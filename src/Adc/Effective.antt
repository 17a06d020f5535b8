-- ===== src/Adc/Effective.antt =====
-- What a reader of the effective documents finds: the last active change to a path decides.
use cga.Prelude.{
  ℕ, ◌≡◌, refl, ap, ◌∙◌, inl, inr, true, Option, none, List, [], ◌∷◌, arith, Bool-cases,
  if◌then◌else◌, map,
}
use cga.Text.{Text, text_eq, text_eq_sound}
use cga.Adc.Documents.{
  Documents, content_at, set_content, pop_path, Kind, amendment, override, exemption, Change,
  is_active, apply_kind, apply_change, apply_changes, statuses, effective,
}

-- What a change makes of its path.
abbrev pub granted : Kind → Option Text → Option Text
granted exemption content = none
granted amendment content = content
granted override content = content

-- The content at a path by the changes to it, from the first to the last: each active one replaces
-- what stood before.
unfoldable pub decide : ℕ → Text → List Change → Option Text → Option Text
decide now path [] content = content
decide now path (change ∷ changes) content =
    let next =
      if is_active now change
      then (if text_eq change.path path then granted change.kind change.content else content)
      else content in
    decide now path changes next

text_eq_trans : (a b c : Text) → text_eq a b ≡ true → text_eq a c ≡ text_eq b c
text_eq_trans a b c h = ap (λ t. text_eq t c) (text_eq_sound a b h)

text_eq_join : (a b c : Text) → text_eq a c ≡ true → text_eq b c ≡ true → text_eq a b ≡ true
text_eq_join a b c h k = ap (text_eq a) (text_eq_sound b c k) ∙ h

content_at-set_content :
    (path other : Text) (content : Option Text) (ds : Documents)
    → content_at other (set_content path content ds)
      ≡ (if text_eq path other then content else content_at other ds)
unfolding content_at set_content
content_at-set_content path other content [] = refl
content_at-set_content path other content (d ∷ ds) = elim (Bool-cases (text_eq d.path path)) [
  | inl here ↦ ground (arith, text_eq_trans d.path path other here)
  | inr not_here ↦ elim (Bool-cases (text_eq d.path other)) [
    | inl there ↦ elim (Bool-cases (text_eq path other)) [
      | inl same ↦ ground (arith, text_eq_join d.path path other there same)
      | inr differ ↦ ground (arith, content_at-set_content path other content ds)
    ]
    | inr not_there ↦ ground (arith, content_at-set_content path other content ds)
  ]
]

content_at-pop_path :
    (path other : Text) (ds : Documents)
    → content_at other (pop_path path ds)
      ≡ (if text_eq path other then none else content_at other ds)
unfolding content_at pop_path
content_at-pop_path path other [] = elim (Bool-cases (text_eq path other)) [
  | inl e ↦ ground arith
  | inr e ↦ ground arith
]
content_at-pop_path path other (d ∷ ds) = elim (Bool-cases (text_eq d.path path)) [
  | inl here ↦
      ground (arith, text_eq_trans d.path path other here, content_at-pop_path path other ds)
  | inr not_here ↦ elim (Bool-cases (text_eq d.path other)) [
    | inl there ↦ elim (Bool-cases (text_eq path other)) [
      | inl same ↦ ground (arith, text_eq_join d.path path other there same)
      | inr differ ↦ ground (arith, content_at-pop_path path other ds)
    ]
    | inr not_there ↦ ground (arith, content_at-pop_path path other ds)
  ]
]

content_at-apply_change :
    (now : ℕ) (path : Text) (result : Documents) (change : Change)
    → content_at path (apply_change now result change) ≡ (
        if is_active now change
        then (if text_eq change.path path
            then granted change.kind change.content
            else content_at path result)
        else content_at path result)
unfolding apply_change
content_at-apply_change now path result change = elim (Bool-cases (is_active now change)) [
  | inl e ↦ rw (apply_change, e) (kinds change.kind)
  | inr e ↦ rw (apply_change, e) refl
]
  where
    kinds :
        (kind : Kind)
        → content_at path (apply_kind kind change.path change.content result) ≡ (
            if text_eq change.path path
            then granted kind change.content
            else content_at path result)
    kinds exemption = content_at-pop_path change.path path result
    kinds amendment = content_at-set_content change.path path change.content result
    kinds override = content_at-set_content change.path path change.content result

content_at-apply_changes :
    (now : ℕ) (path : Text) (result : Documents) (changes : List Change)
    → content_at path (apply_changes now result changes)
      ≡ decide now path changes (content_at path result)
unfolding apply_changes decide
content_at-apply_changes now path result [] = refl
content_at-apply_changes now path result (change ∷ changes) =
    content_at-apply_changes now path (apply_change now result change) changes
    ∙ ap (decide now path changes) (content_at-apply_change now path result change)

-- At each path, the effective documents hold what the active changes to that path make of the
-- release's content, the last of them deciding; and the statuses tell of each change whether it is active.
pub effective_lem :
    (documents : Documents) (changes : List Change) (now : ℕ) (path : Text)
    → (content_at path (effective documents changes now).0
        ≡ decide now path changes (content_at path documents))
      × ((effective documents changes now).1
          ≡ map (λ change. record { change = change; active = is_active now change }) changes)
unfolding effective
effective_lem documents changes now path =
    (content_at-apply_changes now path documents changes, all_statuses changes)
  where
    all_statuses :
        (cs : List Change)
        → statuses now cs ≡ map (λ c. record { change = c; active = is_active now c }) cs
    all_statuses [] = refl
    all_statuses (c ∷ cs) =
        ap (λ rest. record { change = c; active = is_active now c } ∷ rest) (all_statuses cs)
