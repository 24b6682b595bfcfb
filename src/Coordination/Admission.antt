-- ===== src/Coordination/Admission.antt =====
-- When a task may start: `waits` and `ready` of src/coordination.rs.
use clt_rs.Prelude.{
  Bool, true, false, ◌&&◌, not, Option, none, some, List, [], ◌∷◌, ◌++◌, if◌then◌else◌, ◌==◌, Text,
  text_eq,
}
use clt_rs.Sql.{find}
use clt_rs.Coordination.{
  Task, TaskEntry, Snapshot, complete, active, same_task, is_empty, VisitError, Lookup, found,
  unresolved, referenced, TaskSource, markdown_line, path,
}
use clt_rs.Coordination.Dependencies.{
  VisitResult, visited, refused, out_of_fuel, visit_root, depends_on_id,
}
use clt_rs.Coordination.Overlap.{Conflict, overlap}

-- Why a task waits.
pub data Wait : Type 0 where
  bad_metadata : Text → Wait
  dependency_wait : VisitError → Wait
  unfinished : Task → Wait
  conflicting : Task → Conflict → Wait
  -- The fuel of the visit ran out, which it does not.
  unended : Wait

abbrev pub wait_for : Lookup → List Wait
wait_for (unresolved e) = []
wait_for (found other) = if complete other then [] else unfinished other ∷ []

unfoldable pub prerequisite_waits : Snapshot → List Text → List Wait
unfolding referenced complete
prerequisite_waits s [] = []
prerequisite_waits s (id ∷ ids) = wait_for (referenced s id) ++ prerequisite_waits s ids

abbrev wait_of : Task → Option Conflict → List Wait
wait_of other none = []
wait_of other (some c) = conflicting other c ∷ []

-- The task is a prerequisite that the other one waits for.
unfoldable pub is_awaited_by : Snapshot → Task → Task → Bool
unfolding depends_on_id
is_awaited_by s task other = not (is_empty task.meta.id) && depends_on_id s other task.meta.id

module _ (document : Task → Text) (digest : Text → Text) where
  unfoldable pub wait_on : Snapshot → Task → Task → List Wait
  unfolding active same_task is_awaited_by overlap
  wait_on s task other =
      if active other && not (same_task task other)
      then (if is_awaited_by s task other
          then []
          else wait_of other (overlap document digest s.changed_files task other))
      else []

  unfoldable pub active_waits : Snapshot → Task → List Task → List Wait
  unfolding wait_on
  active_waits s task [] = []
  active_waits s task (other ∷ others) = wait_on s task other ++ active_waits s task others

  abbrev pub after_visit : VisitResult → List Wait → List Wait
  after_visit (visited done) waits = waits
  after_visit (refused e) waits = dependency_wait e ∷ []
  after_visit out_of_fuel waits = unended ∷ []

  abbrev pub after_metadata : Option Text → List Wait → List Wait
  after_metadata none waits = waits
  after_metadata (some error) waits = bad_metadata error ∷ []

  unfoldable pub waits : Snapshot → Task → List Wait
  unfolding complete visit_root prerequisite_waits active_waits
  waits s task =
      if complete task
      then []
      else after_metadata task.error (
          after_visit (visit_root s task)
            (prerequisite_waits s task.meta.depends_on ++ active_waits s task s.tasks))

  unfoldable pub source_eq : TaskSource → TaskSource → Bool
  unfolding text_eq
  source_eq (markdown_line i) (markdown_line j) = i == j
  source_eq (path p true) (path q true) = text_eq p q
  source_eq (path p false) (path q false) = text_eq p q
  source_eq _ _ = false

  unfoldable pub is_entry : TaskEntry → Task → Bool
  unfolding source_eq text_eq
  is_entry entry task =
      source_eq task.entry.source entry.source && text_eq task.entry.content entry.content

  abbrev no_waits : List Wait → Bool
  no_waits [] = true
  no_waits (w ∷ ws) = false

  abbrev admits : Snapshot → Option Task → Bool
  admits s none = false
  admits s (some task) = no_waits (waits s task)

  -- `entry_is_ready` is `task_entry_is_ready`, the marker tests of src/task.rs.
  unfoldable pub ready : (TaskEntry → Bool) → Snapshot → TaskEntry → Bool
  unfolding find is_entry waits
  ready entry_is_ready s entry = entry_is_ready entry && admits s (find (is_entry entry) s.tasks)
