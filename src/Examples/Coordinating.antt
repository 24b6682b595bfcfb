-- ===== src/Examples/Coordinating.antt =====
-- The theorems on the coordination of tasks at concrete inputs.
use clt_rs.Coordination.Overlap.{get}
use clt_rs.Prelude.{
  ℕ, suc, ◌≡◌, refl, ◌≢◌, ◌↔◌, true, false, none, List, [], ◌∷◌, is_some, Text, codes, length,
}
use clt_rs.Coordination.{
  Task, TaskStatus, Scope, Snapshot, complete, referenced, todo, doing, done, markdown_line, found,
}
use clt_rs.Coordination.Dependencies.{out_of_fuel, visit_root, depends_on, depends_on_id}
use clt_rs.Coordination.Chains.{Chain}
use clt_rs.Coordination.Visits.{visit_root-ends}
use clt_rs.Coordination.Cycles.{visit_root-acyclic}
use clt_rs.Coordination.Refusals.{visit_root-cycle}
use clt_rs.Coordination.Reachability.{Reaches}
use clt_rs.Coordination.Search.{depends_on-finishes, depends_on_id_iff}
use clt_rs.Coordination.Overlap.{overlap}
use clt_rs.Coordination.Admission.{waits}
use clt_rs.Coordination.Admitted.{IsAdmissible, waits_iff}
use clt_rs.Coordination.Prerequisites.{waits-prerequisites}
use clt_rs.Coordination.Symmetry.{overlap-symmetric}

abbrev scope : List (Text × Text) → List Text → Scope
scope behavior files = record {
  intent = [];
  files = files;
  modules = [];
  interfaces = [];
  resources = [];
  behavior = behavior;
}

abbrev task : Text → TaskStatus → ℕ → List Text → Scope → Task
task id status index depends_on scope = record {
  board = codes "tasks";
  status = status;
  index = index;
  entry = record {
    source = markdown_line index;
    summary = id;
    content = id;
    metadata = none;
    has_subtasks = false;
  };
  meta = record { id = id; depends_on = depends_on; scope = scope; reviews = [] };
  error = none;
  completion_wait = none;
  owner = codes "unclaimed";
}

abbrev parser : Task
parser = task (codes "parser") done 1 [] (scope [] (codes "src/parse.rs" ∷ []))

abbrev printer : Task
printer =
    task (codes "printer") todo 1 (codes "parser" ∷ [])
      (scope ((codes "order", codes "fifo") ∷ []) (codes "src/print.rs" ∷ []))

abbrev tests : Task
tests =
    task (codes "tests") doing 1 (codes "printer" ∷ [])
      (scope ((codes "order", codes "lifo") ∷ []) (codes "src/tests" ∷ []))

abbrev board : Snapshot
board = record { tasks = parser ∷ printer ∷ tests ∷ []; changed_files = [] }

abbrev first : Task
first = task (codes "first") todo 1 (codes "second" ∷ []) (scope [] [])

abbrev second : Task
second = task (codes "second") todo 2 (codes "first" ∷ []) (scope [] [])

abbrev circle : Snapshot
circle = record { tasks = first ∷ second ∷ []; changed_files = [] }

abbrev document : Task → Text
document t = t.meta.id

abbrev digest : Text → Text
digest t = t

visit_root-ends_example : visit_root circle first ≢ out_of_fuel
visit_root-ends_example = visit_root-ends circle first

visit_root-acyclic_example :
    (¬ Chain board (codes "tests") (codes "tests"))
    × ((x : Text) → Chain board (codes "tests") x → ¬ Chain board x x)
unfolding referenced visit_root
visit_root-acyclic_example =
    visit_root-acyclic board tests (codes "tests" ∷ codes "printer" ∷ codes "parser" ∷ []) refl refl

visit_root-cycle_example : Chain circle (codes "first") (codes "first")
unfolding referenced visit_root
visit_root-cycle_example =
    visit_root-cycle circle first (codes "first" ∷ codes "second" ∷ []) (codes "first") refl refl

depends_on-finishes_example :
    is_some (depends_on (suc (length circle.tasks)) circle first (codes "third") []) ≡ true
depends_on-finishes_example = depends_on-finishes circle first (codes "third")

depends_on_id_iff_example :
    (depends_on_id board tests (codes "parser") ≡ true)
    ↔ Reaches board tests.meta.depends_on (codes "parser")
depends_on_id_iff_example = depends_on_id_iff board tests (codes "parser")

waits_iff_example :
    (waits document digest board printer ≡ []) ↔ IsAdmissible document digest board printer
unfolding complete
waits_iff_example = waits_iff document digest board printer refl

waits-prerequisites_example :
    (u : Task) × (referenced board (codes "parser") ≡ found u) × (complete u ≡ true)
unfolding complete waits
waits-prerequisites_example =
    waits-prerequisites document digest board printer (codes "parser") refl refl refl

overlap-symmetric_example :
    is_some (overlap document digest [] printer tests)
    ≡ is_some (overlap document digest [] tests printer)
unfolding get
overlap-symmetric_example = overlap-symmetric document digest [] printer tests (refl, tt) (refl, tt)
