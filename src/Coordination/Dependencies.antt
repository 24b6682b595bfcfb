-- ===== src/Coordination/Dependencies.antt =====
-- The traversals of task dependencies: `visit` and `depends_on` of src/coordination.rs, on fuel.
use clt_rs.Prelude.{
  suc, ℕ, zero, suc, Bool, true, false, Option, none, some, List, [], ◌∷◌, ◌++◌, if◌then◌else◌,
  Text, text_eq, length,
}
use clt_rs.Coordination.{
  Task, Snapshot, contains, is_empty, VisitError, dependency_cycle, Lookup, found, unresolved,
  referenced,
}

pub data VisitResult : Type 0 where
  visited : List Text → VisitResult
  refused : VisitError → VisitResult
  out_of_fuel : VisitResult

abbrev pub and_then : VisitResult → (List Text → VisitResult) → VisitResult
and_then (visited done) next = next done
and_then (refused e) next = refused e
and_then out_of_fuel next = out_of_fuel

abbrev pub with_referenced : Lookup → (Task → VisitResult) → VisitResult
with_referenced (found t) next = next t
with_referenced (unresolved e) next = refused e

unfoldable pub visit_each : (Text → List Text → VisitResult) → List Text → List Text → VisitResult
visit_each f [] done = visited done
visit_each f (id ∷ ids) done = and_then (f id done) (visit_each f ids)

-- The dependencies of a task, `path` leading to them.
unfoldable pub visit_dependencies :
    Snapshot
    → (Task → List Text → List Text → VisitResult)
    → Task
    → List Text
    → List Text
    → VisitResult
unfolding visit_each
visit_dependencies s again t path done =
    visit_each (λ id d. with_referenced (referenced s id) (λ u. again u path d)) t.meta.depends_on
      done

unfoldable pub visit_task :
    Snapshot
    → (Task → List Text → List Text → VisitResult)
    → Task
    → List Text
    → List Text
    → VisitResult
unfolding visit_dependencies contains
visit_task s again t path done =
    if is_empty t.meta.id
    then visit_dependencies s again t path done
    else with_referenced (referenced s t.meta.id) (λ u.
      if contains t.meta.id path
      then refused (dependency_cycle path t.meta.id)
      else if contains t.meta.id done
      then visited done
      else and_then (visit_dependencies s again t (path ++ t.meta.id ∷ []) done)
          (λ d. visited (t.meta.id ∷ d)))

-- The path and the finished tasks are those at the call; an accepted visit leaves the path as it
-- was, and answers the finished tasks.
unfoldable pub visit : ℕ → Snapshot → Task → List Text → List Text → VisitResult
unfolding visit_task
visit zero s t path done = out_of_fuel
visit (suc fuel) s t path done = visit_task s (visit fuel s) t path done

unfoldable pub visit_root : Snapshot → Task → VisitResult
unfolding visit
visit_root s t = visit (suc (suc (length s.tasks))) s t [] []

-- An answer with the set of dependencies that were looked at; `none` when the fuel ran out.
abbrev pub Search : Type 0
Search = Option (Bool × List Text)

abbrev pub unless_found : Search → (List Text → Search) → Search
unless_found none next = none
unless_found (some (true, seen)) next = some (true, seen)
unless_found (some (false, seen)) next = next seen

unfoldable pub any_dependency : (Text → List Text → Search) → Text → List Text → List Text → Search
unfolding contains text_eq
any_dependency f id [] seen = some (false, seen)
any_dependency f id (d ∷ ds) seen =
    if text_eq d id
    then some (true, seen)
    else unless_found (if contains d seen then some (false, seen) else f d (d ∷ seen))
        (any_dependency f id ds)

abbrev pub if_referenced : Lookup → List Text → (Task → Search) → Search
if_referenced (found t) seen next = next t
if_referenced (unresolved e) seen next = some (false, seen)

unfoldable pub search_from : Snapshot → (Task → List Text → Search) → Text → List Text → Search
search_from s again d seen = if_referenced (referenced s d) seen (λ u. again u seen)

unfoldable pub depends_on : ℕ → Snapshot → Task → Text → List Text → Search
unfolding any_dependency search_from
depends_on zero s t id seen = none
depends_on (suc fuel) s t id seen =
    any_dependency (search_from s (λ u seen. depends_on fuel s u id seen)) id t.meta.depends_on seen

abbrev pub answer_of : Search → Bool
answer_of none = false
answer_of (some (b, seen)) = b

unfoldable pub depends_on_id : Snapshot → Task → Text → Bool
unfolding depends_on
depends_on_id s t id = answer_of (depends_on (suc (length s.tasks)) s t id [])
