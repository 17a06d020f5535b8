-- ===== src/Policy/Snapshot.antt =====
-- `azure_state.py`: the scope that is monitored, and the snapshot of the policies that it holds.
use cga.Prelude.{ℕ, Bool, true, false, ◌||◌, Option, none, some, List, [], ◌∷◌, ◌++◌, if◌then◌else◌}
use cga.Text.{Text, codes, text_eq, starts_with, rstrip_char, lstrip_char}
use cga.Http.{Result, ok, error}

-- A definition or an initiative; an initiative has no effects.
pub record Resource : Type 0 where
  pub version : Text
  pub effects : List Text
  pub content_hash : Text

pub record Assignment : Type 0 where
  pub scope : Text
  pub enforcement_mode : Text
  pub parameters_hash : Text
  pub identity_hash : Text
  pub content_hash : Text

pub record Event : Type 0 where
  pub id : Text
  pub timestamp : Text
  pub operation : Text
  pub status : Text
  pub resource_id : Text
  pub caller : Text
  pub correlation_id : Text

-- A resource under its ID.
pub record Entry (A : Type 0) : Type 0 where
  pub resource_id : Text
  pub item : A

pub record Totals : Type 0 where
  pub compliant : ℕ
  pub non_compliant : ℕ
  pub unknown : ℕ

pub record Snapshot : Type 0 where
  pub scope : Text
  pub definitions : List (Entry Resource)
  pub initiatives : List (Entry Resource)
  pub assignments : List (Entry Assignment)
  pub totals : Totals
  pub activity : List Event

-- `items.get(resource_id)`
unfoldable pub find_item : {A : Type 0} → Text → List (Entry A) → Option A
find_item id [] = none
find_item id (e ∷ es) = if text_eq e.resource_id id then some e.item else find_item id es

abbrev pub ids_of : {A : Type 0} → List (Entry A) → List Text
ids_of [] = []
ids_of (e ∷ es) = e.resource_id ∷ ids_of es

pub record StateConfig : Type 0 where
  pub subscription_id : Text
  pub scope : Text
  pub management_group_id : Text

-- `str.strip` and `str.lower`
pub record Strings : Type 0 where
  pub strip : Text → Text
  pub lower : Text → Text

abbrev is_blank : Text → Bool
is_blank [] = true
is_blank (c ∷ s) = false

-- `AzurePolicyStateConfig.resolved_scope`, before its check.
unfoldable pub chosen_scope : Strings → StateConfig → Result Text
chosen_scope f c =
    if is_blank (f.strip c.scope)
    then (if is_blank (f.strip c.management_group_id)
        then (if is_blank (f.strip c.subscription_id)
            then error
            else ok (codes "/subscriptions/" ++ f.strip c.subscription_id))
        else ok (
            codes "/providers/Microsoft.Management/managementGroups/"
            ++ f.strip c.management_group_id))
    else ok (b'/' ∷ lstrip_char b'/' (rstrip_char b'/' (f.strip c.scope)))

unfoldable pub is_policy_scope : Text → Bool
is_policy_scope lowered =
    starts_with (codes "/subscriptions/") lowered
    || starts_with (codes "/providers/microsoft.management/managementgroups/") lowered

abbrev check_scope : Strings → Result Text → Result Text
check_scope f (ok scope) = if is_policy_scope (f.lower scope) then ok scope else error
check_scope f r = r

unfoldable pub resolved_scope : Strings → StateConfig → Result Text
unfolding chosen_scope is_policy_scope
resolved_scope f c = check_scope f (chosen_scope f c)
