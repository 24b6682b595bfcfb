-- ===== src/Coordination/Prerequisites.antt =====
-- The prerequisites of an admitted task: `visit` and `waits` of src/coordination.rs.
use clt_rs.Prelude.{
  suc, ◌≡◌, refl, ap, ◌∙◌, inl, inr, Bool, true, false, List, [], ◌∷◌, arith, Bool-cases, Text,
  text_eq, text_eq→eq, length,
}
use clt_rs.Coordination.{
  Task, Snapshot, contains, complete, is_empty, Lookup, found, unresolved, referenced,
}
use clt_rs.Coordination.Dependencies.{
  VisitResult, visited, refused, out_of_fuel, and_then, with_referenced, visit_each,
  visit_dependencies, visit_task, visit, visit_root,
}
use clt_rs.Coordination.Admission.{waits}
use clt_rs.Coordination.Admitted.{waits_iff}

abbrev is_visited : VisitResult → Bool
is_visited (visited done) = true
is_visited (refused e) = false
is_visited out_of_fuel = false

and_then-first :
    (r : VisitResult) (next : List Text → VisitResult)
    → is_visited (and_then r next) ≡ true
    → is_visited r ≡ true
and_then-first (visited d) next h = refl
and_then-first (refused e) next h = h
and_then-first out_of_fuel next h = h

and_then-next :
    (r : VisitResult) (next : List Text → VisitResult)
    → is_visited (and_then r next) ≡ true
    → (d : List Text) × (is_visited (next d) ≡ true)
and_then-next (visited d) next h = (d, h)
and_then-next (refused e) next h = absurd cc
and_then-next out_of_fuel next h = absurd cc

IsReferenced : Snapshot → Text → Type 0
IsReferenced s id = (u : Task) × (referenced s id ≡ found u)

referenced_of :
    (l : Lookup) (next : Task → VisitResult)
    → is_visited (with_referenced l next) ≡ true
    → (u : Task) × (l ≡ found u) × (is_visited (next u) ≡ true)
referenced_of (found u) next h = (u, refl, h)
referenced_of (unresolved e) next h = absurd cc

visit_each-referenced :
    (s : Snapshot) (again : Task → List Text → VisitResult) (ids done : List Text)
    → is_visited (visit_each (λ id d. with_referenced (referenced s id) (λ u. again u d)) ids done)
      ≡ true
    → (id : Text) → contains id ids ≡ true
    → IsReferenced s id
unfolding visit_each contains IsReferenced
visit_each-referenced s again [] done h id c = absurd cc
visit_each-referenced s again (i ∷ ids) done h id c = elim (Bool-cases (text_eq id i)) [
  | inl m ↦
      let r = with_referenced (referenced s i) (λ u. again u done) in
      let (u, k, g) =
        referenced_of (referenced s i) (λ u. again u done)
          (and_then-first r
            (visit_each (λ id d. with_referenced (referenced s id) (λ u. again u d)) ids) h) in
      (u, ap (referenced s) (text_eq→eq id i m) ∙ k)
  | inr m ↦
      let r = with_referenced (referenced s i) (λ u. again u done) in
      let (d, g) =
        and_then-next r
          (visit_each (λ id d. with_referenced (referenced s id) (λ u. again u d)) ids) h in
      visit_each-referenced s again ids d g id (ground arith)
]

visit_task-IsReferenced :
    (s : Snapshot) (again : Task → List Text → List Text → VisitResult) (t : Task)
    → is_visited (visit_task s again t [] []) ≡ true
    → (id : Text) → contains id t.meta.depends_on ≡ true
    → IsReferenced s id
unfolding visit_task visit_dependencies contains
visit_task-IsReferenced s again t h id c = elim (Bool-cases (is_empty t.meta.id)) [
  | inl n ↦
      visit_each-referenced s (λ u d. again u [] d) t.meta.depends_on [] (ground (arith, n)) id c
  | inr n ↦
      let (u, k, g) =
        referenced_of (referenced s t.meta.id)
          (λ u.
            and_then (visit_dependencies s again t (t.meta.id ∷ []) [])
              (λ d. visited (t.meta.id ∷ d)))
          (ground (arith, n)) in
      visit_each-referenced s (λ u d. again u (t.meta.id ∷ []) d) t.meta.depends_on []
        (and_then-first (visit_dependencies s again t (t.meta.id ∷ []) [])
          (λ d. visited (t.meta.id ∷ d)) g)
        id c
]

root-IsReferenced :
    (s : Snapshot) (t : Task) (done : List Text)
    → visit_root s t ≡ visited done
    → (id : Text) → contains id t.meta.depends_on ≡ true
    → IsReferenced s id
unfolding visit_root visit
root-IsReferenced s t done h =
    visit_task-IsReferenced s (visit (suc (length s.tasks)) s) t (ap is_visited h)

-- Each dependency that an unfinished task declares names exactly one task of the snapshot once the
-- task has nothing to wait for, and that one is finished.
pub waits-prerequisites :
    (document : Task → Text) (digest : Text → Text) (s : Snapshot) (task : Task) (id : Text)
    → complete task ≡ false
    → waits document digest s task ≡ []
    → contains id task.meta.depends_on ≡ true
    → (u : Task) × (referenced s id ≡ found u) × (complete u ≡ true)
unfolding IsReferenced
waits-prerequisites document digest s task id c w d =
    let k = (waits_iff document digest s task c).0 w in
    let (done, v) = k.followed in
    let (u, e) = root-IsReferenced s task done v id d in (u, e, k.finished id u d e)
