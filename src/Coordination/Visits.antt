-- ===== src/Coordination/Visits.antt =====
-- What following a task's dependencies establishes: `Snapshot::visit` of src/coordination.rs.
use clt_rs.Prelude.{
  ℕ, zero, suc, ◌<◌, ◌≡◌, refl, ◌≢◌, ◌⊎◌, inl, inr, Bool, true, false, List, [], ◌∷◌, ◌++◌, arith,
  Bool-cases, Text, length,
}
use clt_rs.Coordination.{
  Task, Snapshot, contains, is_empty, VisitError, Lookup, found, unresolved, referenced,
}
use clt_rs.Coordination.References.{
  referenced_has_id, referenced_id, has_id-is_empty, contains-append_self, contains-append_left,
  unseen, count_le_length, is_unseen, unseen_less,
}
use clt_rs.Coordination.Dependencies.{
  VisitResult, visited, refused, out_of_fuel, and_then, with_referenced, visit_each,
  visit_dependencies, visit_task, visit, visit_root,
}

abbrev ended : VisitResult → Bool
ended (visited done) = true
ended (refused e) = true
ended out_of_fuel = false

and_then-ended :
    (r : VisitResult) (next : List Text → VisitResult)
    → ended r ≡ true
    → ((d : List Text) → ended (next d) ≡ true)
    → ended (and_then r next) ≡ true
and_then-ended (visited d) next h k = k d
and_then-ended (refused e) next h k = refl
and_then-ended out_of_fuel next h k = h

visit_each-ended :
    (f : Text → List Text → VisitResult) (ids done : List Text)
    → ((id : Text) (d : List Text) → ended (f id d) ≡ true)
    → ended (visit_each f ids done) ≡ true
unfolding visit_each
visit_each-ended f [] done h = refl
visit_each-ended f (id ∷ ids) done h =
    and_then-ended (f id done) (visit_each f ids) (h id done) (λ d. visit_each-ended f ids d h)

pub Lookup-cases :
    (l : Lookup) → ((t : Task) × (l ≡ found t)) ⊎ ((e : VisitError) × (l ≡ unresolved e))
Lookup-cases (found t) = inl (t, refl)
Lookup-cases (unresolved e) = inr (e, refl)

with_referenced-ended :
    (l : Lookup) (next : Task → VisitResult)
    → ((t : Task) → l ≡ found t → ended (next t) ≡ true)
    → ended (with_referenced l next) ≡ true
with_referenced-ended (found t) next h = h t refl
with_referenced-ended (unresolved e) next h = refl

pub referenced_named :
    (s : Snapshot) (id : Text) (t : Task) → referenced s id ≡ found t → is_empty t.meta.id ≡ false
referenced_named s id t h =
    rw (referenced_id s id h) (has_id-is_empty id t (referenced_has_id s id h))

dependencies_ended :
    (s : Snapshot) (again : Task → List Text → List Text → VisitResult) (t : Task)
    (path done : List Text)
    → ((u : Task) (d : List Text) → is_empty u.meta.id ≡ false → ended (again u path d) ≡ true)
    → ended (visit_dependencies s again t path done) ≡ true
unfolding visit_dependencies
dependencies_ended s again t path done h =
    visit_each-ended (λ id d. with_referenced (referenced s id) (λ u. again u path d))
      t.meta.depends_on done
      (λ id d.
        with_referenced-ended (referenced s id) (λ u. again u path d)
          (λ u e. h u d (referenced_named s id u e)))

no_fuel : (r : VisitResult) → r ≡ out_of_fuel → ended r ≡ true → ⊥
no_fuel (visited d) e h = absurd cc
no_fuel (refused x) e h = absurd cc
no_fuel out_of_fuel e h = absurd cc

visit_task-ended :
    (s : Snapshot) (again : Task → List Text → List Text → VisitResult) (t : Task)
    (path done : List Text)
    → is_empty t.meta.id ≡ false
    → ((u : Task)
        → referenced s t.meta.id ≡ found u
        → contains t.meta.id path ≡ false
        → ended (visit_dependencies s again t (path ++ t.meta.id ∷ []) done) ≡ true)
    → ended (visit_task s again t path done) ≡ true
unfolding visit_task
visit_task-ended s again t path done n below = rw n (
    with_referenced-ended (referenced s t.meta.id) _ (λ u e.
      elim (Bool-cases (contains t.meta.id path)) [
        | inl k ↦ rw k refl
        | inr k ↦ rw k (elim (Bool-cases (contains t.meta.id done)) [
          | inl m ↦ rw m refl
          | inr m ↦ rw m (
              and_then-ended (visit_dependencies s again t (path ++ t.meta.id ∷ []) done) _
                (below u e k) (λ d. refl))
        ])
      ]))

smaller : {a b c : ℕ} → a < b → b < suc c → a < c
smaller {a} {b} {c} h k = omega arith

-- A named task needs as much fuel as there are named tasks off the path.
visit-ended :
    (fuel : ℕ) (s : Snapshot) (t : Task) (path done : List Text)
    → is_empty t.meta.id ≡ false
    → unseen s path < fuel
    → ended (visit fuel s t path done) ≡ true
unfolding visit
visit-ended zero s t path done n h = absurd (omega arith)
visit-ended (suc fuel) s t path done n h = visit_task-ended s (visit fuel s) t path done n (λ u e k.
    dependencies_ended s (visit fuel s) t (path ++ t.meta.id ∷ []) done (λ v d m.
      visit-ended fuel s v (path ++ t.meta.id ∷ []) d m (
        smaller
          (unseen_less s t.meta.id path (path ++ t.meta.id ∷ []) e k
            (contains-append_self t.meta.id path) (λ x. contains-append_left x t.meta.id path))
          h)))

unnamed_task-ended :
    (s : Snapshot) (again : Task → List Text → List Text → VisitResult) (t : Task)
    (path done : List Text)
    → is_empty t.meta.id ≡ true
    → ended (visit_dependencies s again t path done) ≡ true
    → ended (visit_task s again t path done) ≡ true
unfolding visit_task
unnamed_task-ended s again t path done n h = rw n h

root_ended : (s : Snapshot) (t : Task) → ended (visit_root s t) ≡ true
unfolding visit_root visit
root_ended s t = elim (Bool-cases (is_empty t.meta.id)) [
  | inl n ↦ unnamed_task-ended s (visit (suc (length s.tasks)) s) t [] [] n (
      dependencies_ended s (visit (suc (length s.tasks)) s) t [] [] (λ u d m.
        visit-ended (suc (length s.tasks)) s u [] d m
          (omega (arith, count_le_length (is_unseen []) s.tasks))))
  | inr n ↦
      visit-ended (suc (suc (length s.tasks))) s t [] [] n
        (omega (arith, count_le_length (is_unseen []) s.tasks))
]

-- The dependencies of every task are followed to an end, cyclic or not: the fuel of the model,
-- two more than there are tasks, never runs out.
pub visit_root-ends : (s : Snapshot) (t : Task) → visit_root s t ≢ out_of_fuel
visit_root-ends s t e = no_fuel (visit_root s t) e (root_ended s t)
