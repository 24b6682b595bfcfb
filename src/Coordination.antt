-- ===== src/Coordination.antt =====
-- Tasks and the references between them: src/task.rs, src/task/coordination.rs and the data of
-- src/coordination.rs. A `BTreeSet` of texts is the list of what was inserted, a `BTreeMap` the list
-- of its pairs.
pub mod Dependencies
pub mod References
pub mod Visits
pub mod Chains
pub mod Cycles
pub mod Refusals
pub mod Exhaustion
pub mod Reachability
pub mod Search
pub mod Symbols
pub mod Overlap
pub mod Admission
pub mod Admitted
pub mod Prerequisites
pub mod Symmetry
use clt_rs.Prelude.{
  ℕ, zero, suc, ◌+◌, ◌-◌, ◌*◌, ◌/◌, ◌%◌, ◌^◌, ◌≤◌, ◌<◌, ◌≡◌, refl, sym, ap, ◌∙◌, ◌≢◌, ◌↔◌, ◌⊎◌, inl,
  inr, Bool, true, false, ◌&&◌, ◌||◌, not, Option, none, some, List, [], ◌∷◌, ◌++◌, arith,
  if◌then◌else◌, ltb, leb, ◌==◌, ==_iff, ==_refl, Bool-cases, Option-cases, is_some, is_none,
  unwrap_or, Text, codes, text_eq, text_eq→eq, text_eq_refl, text_eq_iff, starts_with, text_leb,
  is_digit, cast_digits, cast_integer, u64_max, parse_digits, parse_unsigned, parse_u64,
  like_prefix, decimal, length,
}
use clt_rs.Sql.{
  SqlResult, ok, err, SqlError, foreign_key_failed, no_rows, out_of_range, missing_run_id,
  Transaction, commit, roll_back, fail, transact, any, count, find, delete, update, select,
}
use clt_rs.Sql.Laws.{
  any-append, any-delete, any_congr, any_mono, count-append, count-append_one, count_pos,
  count-eq-zero, count_mono, count-delete-le, count-update-le, count-update, any-update, find-none,
  find-append, find_holds, any_of_find, select-append, select-delete, select-update, select-nil,
  delete-none, update-none,
}

pub data TaskStatus : Type 0 where
  todo doing done backlog : TaskStatus

pub data TaskSource : Type 0 where
  markdown_line : ℕ → TaskSource
  path : Text → Bool → TaskSource

pub record TaskEntry : Type 0 where
  pub source : TaskSource
  pub summary : Text
  pub content : Text
  pub metadata : Option Text
  pub has_subtasks : Bool

pub record Scope : Type 0 where
  pub intent : Text
  pub files : List Text
  pub modules : List Text
  pub interfaces : List Text
  pub resources : List Text
  pub behavior : List (Text × Text)

pub record Review : Type 0 where
  pub other : Text
  pub evidence : Text
  pub compatible : Bool
  pub reason : Text

pub record Metadata : Type 0 where
  pub id : Text
  pub depends_on : List Text
  pub scope : Scope
  pub reviews : List Review

pub record Task : Type 0 where
  pub board : Text
  pub status : TaskStatus
  pub index : ℕ
  pub entry : TaskEntry
  pub meta : Metadata
  pub error : Option Text
  pub completion_wait : Option Text
  pub owner : Text

pub record Snapshot : Type 0 where
  pub tasks : List Task
  pub changed_files : List Text

unfoldable pub status_eq : TaskStatus → TaskStatus → Bool
status_eq todo todo = true
status_eq doing doing = true
status_eq done done = true
status_eq backlog backlog = true
status_eq _ _ = false

unfoldable pub complete : Task → Bool
unfolding status_eq
complete t = status_eq t.status done && is_none t.completion_wait

unfoldable pub active : Task → Bool
unfolding status_eq
active t = status_eq t.status doing || (status_eq t.status done && not (complete t))

unfoldable pub same_task : Task → Task → Bool
unfolding text_eq status_eq
same_task a b = text_eq a.board b.board && status_eq a.status b.status && a.index == b.index

unfoldable pub contains : Text → List Text → Bool
unfolding text_eq
contains x [] = false
contains x (y ∷ ys) = text_eq x y || contains x ys

abbrev pub is_empty : Text → Bool
is_empty [] = true
is_empty (x ∷ xs) = false

-- Why a task's dependencies cannot be followed.
pub data VisitError : Type 0 where
  missing_prerequisite duplicate_task : Text → VisitError
  dependency_cycle : List Text → Text → VisitError

pub data Lookup : Type 0 where
  found : Task → Lookup
  unresolved : VisitError → Lookup

abbrev pub only_match : Text → List Task → Lookup
only_match id [] = unresolved (missing_prerequisite id)
only_match id (t ∷ []) = found t
only_match id (t ∷ u ∷ us) = unresolved (duplicate_task id)

unfoldable pub has_id : Text → Task → Bool
unfolding text_eq
has_id id t = text_eq t.meta.id id && not (is_empty id)

unfoldable pub referenced : Snapshot → Text → Lookup
unfolding select has_id
referenced s id = only_match id (select (has_id id) s.tasks)

-- Why a task cannot be selected.
pub data Selection : Type 0 where
  selected_task : Task → Selection
  index_zero task_changed : Selection

abbrev or_changed : Option Task → Selection
or_changed none = task_changed
or_changed (some t) = selected_task t

unfoldable pub stands_at : Text → TaskStatus → ℕ → Task → Bool
unfolding text_eq status_eq
stands_at board status index t =
    text_eq t.board board && status_eq t.status status && t.index == index

unfoldable pub selected : Snapshot → Text → TaskStatus → ℕ → Selection
unfolding find stands_at
selected s board status index =
    if ltb 0 index then or_changed (find (stands_at board status index) s.tasks) else index_zero
