-- ===== src/RunHistory/Counts.antt =====
-- `ActionCounts` of netbox_sync/run_history.py.
use infra_sync.Prelude.{
  ℕ, suc, ◌+◌, String, ◌≡◌, ◌∙◌, Bool, false, Option, none, some, List, [], ◌∷◌, arith, ◌==◌,
  if◌then◌else◌, mem_text, length, keep,
}

pub record ActionCounts : Type 0 where
  pub create : ℕ
  pub update : ℕ
  pub no_change : ℕ
  pub review_required : ℕ
  pub blocked : ℕ
  pub ignored : ℕ
  pub unsupported : ℕ
  pub retain_only : ℕ

abbrev pub no_counts : ActionCounts
no_counts = record {
  create = 0;
  update = 0;
  no_change = 0;
  review_required = 0;
  blocked = 0;
  ignored = 0;
  unsupported = 0;
  retain_only = 0;
}

abbrev pub action_names : List String
action_names =
    "CREATE" ∷ "UPDATE" ∷ "NO_CHANGE" ∷ "REVIEW_REQUIRED" ∷ "BLOCKED" ∷ "IGNORED" ∷ "UNSUPPORTED"
    ∷ "RETAIN_ONLY" ∷ []

-- `if action in totals: totals[action] += 1`
unfoldable pub bump : String → ActionCounts → ActionCounts
bump action c =
    if "CREATE" == action
    then record c { create = c.create + 1 }
    else if "UPDATE" == action
    then record c { update = c.update + 1 }
    else if "NO_CHANGE" == action
    then record c { no_change = c.no_change + 1 }
    else if "REVIEW_REQUIRED" == action
    then record c { review_required = c.review_required + 1 }
    else if "BLOCKED" == action
    then record c { blocked = c.blocked + 1 }
    else if "IGNORED" == action
    then record c { ignored = c.ignored + 1 }
    else if "UNSUPPORTED" == action
    then record c { unsupported = c.unsupported + 1 }
    else if "RETAIN_ONLY" == action
    then record c { retain_only = c.retain_only + 1 }
    else c

-- The loop over the actions of the items, read off by the caller; `none` is no action.
unfoldable pub count_actions : ActionCounts → List (Option String) → ActionCounts
count_actions c [] = c
count_actions c (none ∷ items) = count_actions c items
count_actions c (some action ∷ items) = count_actions (bump action c) items

unfoldable pub from_items : List (Option String) → ActionCounts
unfolding count_actions bump
from_items items = count_actions no_counts items

abbrev pub total : ActionCounts → ℕ
total c =
    c.create + c.update + c.no_change + c.review_required + c.blocked + c.ignored + c.unsupported
    + c.retain_only

abbrev pub is_counted : Option String → Bool
is_counted none = false
is_counted (some action) = mem_text action action_names

total-bump :
    (action : String) (c : ActionCounts)
    → total (bump action c) ≡ (if mem_text action action_names then suc (total c) else total c)
unfolding bump
total-bump action c = ground arith

total-count_actions :
    (c : ActionCounts) (items : List (Option String))
    → total (count_actions c items) ≡ total c + length (keep is_counted items)
unfolding count_actions
total-count_actions c [] = ground arith
total-count_actions c (none ∷ items) = total-count_actions c items
total-count_actions c (some action ∷ items) =
    total-count_actions (bump action c) items ∙ ground (arith, total-bump action c)

-- The eight totals add up to the number of items with one of the eight actions.
total-from_items :
    (items : List (Option String)) → total (from_items items) ≡ length (keep is_counted items)
unfolding from_items
total-from_items items = ground (arith, total-count_actions no_counts items)
