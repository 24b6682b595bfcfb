-- ===== src/Coordination/Cycles.antt =====
-- What an accepted visit rules out, and what a refused one has found: `Snapshot::visit` of
-- src/coordination.rs.
use clt_rs.Prelude.{
  ℕ, zero, suc, ◌≡◌, refl, sym, ap, ◌∙◌, inl, inr, true, List, [], ◌∷◌, ◌++◌, arith, Bool-cases,
  Text, text_eq, text_eq_refl, length,
}
use mathlib.Core.Path.{subst}
use clt_rs.Coordination.{
  Task, Snapshot, contains, VisitError, Lookup, found, unresolved, referenced,
}
use clt_rs.Coordination.Dependencies.{
  VisitResult, visited, refused, out_of_fuel, and_then, with_referenced, visit_each,
  visit_dependencies, visit_task, visit, visit_root,
}
use clt_rs.Coordination.Visits.{referenced_named}
use clt_rs.Coordination.References.{found_injective, referenced_id}
use clt_rs.Coordination.Chains.{Edge, Chain, IsOrdered, contains_eq, Chain-stays, ordered_acyclic}

-- An accepted visit keeps the finished tasks in order and drops none.
record Accepts (s : Snapshot) (done : List Text) (Want : List Text → Type 0) (r : VisitResult)
    : Type 0 where
  at :
      (d : List Text)
      → r ≡ visited d
      → IsOrdered s d × ((x : Text) → contains x done ≡ true → contains x d ≡ true) × Want d

abbrev visited_or : List Text → VisitResult → List Text
visited_or d (visited d') = d'
visited_or d (refused e) = d
visited_or d out_of_fuel = d

module _ (s : Snapshot) {done : List Text} {Want : List Text → Type 0} where
  Accepts-visited :
      (d : List Text)
      → IsOrdered s d
      → ((x : Text) → contains x done ≡ true → contains x d ≡ true)
      → Want d
      → Accepts s done Want (visited d)
  Accepts-visited d o g w = record {
    at = λ d' e.
        subst
          (λ z.
            IsOrdered s z × ((x : Text) → contains x done ≡ true → contains x z ≡ true) × Want z)
          (ap (visited_or d) e) (o, g, w);
  }

  Accepts-refused : (e : VisitError) → Accepts s done Want (refused e)
  Accepts-refused e = record { at = λ d' h. absurd cc }

  Accepts-and_then :
      (Mid : List Text → Type 0) (r : VisitResult) (next : List Text → VisitResult)
      → Accepts s done Mid r
      → ((d : List Text)
          → IsOrdered s d
          → Mid d
          → Accepts s d
              (λ d'. ((x : Text) → contains x d ≡ true → contains x d' ≡ true) → Want d')
              (next d))
      → Accepts s done Want (and_then r next)
  Accepts-and_then Mid (visited d) next a n =
      let (o, g, m) = a.at d refl in
      record {
        at = λ d' e. let (o', g', w) = (n d o m).at d' e in (o', (λ x h. g' x (g x h)), w g');
      }
  Accepts-and_then Mid (refused x) next a n = Accepts-refused x
  Accepts-and_then Mid out_of_fuel next a n = record { at = λ d' h. absurd cc }

  Accepts-with_referenced :
      (l : Lookup) (next : Task → VisitResult)
      → ((u : Task) → l ≡ found u → Accepts s done Want (next u))
      → Accepts s done Want (with_referenced l next)
  Accepts-with_referenced (found u) next h = h u refl
  Accepts-with_referenced (unresolved e) next h = Accepts-refused e

abbrev Holds : List Text → List Text → Type 0
Holds ids d = (y : Text) → contains y ids ≡ true → contains y d ≡ true

Holds-more :
    (id : Text) (ids d d' : List Text)
    → contains id d ≡ true
    → Holds ids d'
    → Holds d d'
    → Holds (id ∷ ids) d'
unfolding contains
Holds-more id ids d d' h k g y e = elim (Bool-cases (text_eq y id)) [
  | inl m ↦ g y (contains_eq y id d m h)
  | inr m ↦ k y (ground arith)
]

visit_each-Accepts :
    (s : Snapshot) (f : Text → List Text → VisitResult) (ids done : List Text)
    → ((id : Text) (d : List Text)
        → IsOrdered s d
        → Accepts s d (λ d'. contains id d' ≡ true) (f id d))
    → IsOrdered s done
    → Accepts s done (Holds ids) (visit_each f ids done)
unfolding visit_each
visit_each-Accepts s f [] done h o =
    Accepts-visited s done o (λ x e. e) (λ y e. absurd (unfold contains in cc))
visit_each-Accepts s f (id ∷ ids) done h o =
    Accepts-and_then s (λ d'. contains id d' ≡ true) (f id done) (visit_each f ids) (h id done o)
      (λ d o' m. record {
        at = λ d' e.
            let (o'', g, k) = (visit_each-Accepts s f ids d h o').at d' e in
            (o'', g, λ g'. Holds-more id ids d d' m k g');
      })

-- Each dependency of a task is visited by the task that its name finds.
dependencies-Accepts :
    (s : Snapshot) (again : Task → List Text → List Text → VisitResult) (t : Task)
    (path done : List Text)
    → ((u : Task) (id : Text) (d : List Text)
        → referenced s id ≡ found u
        → IsOrdered s d
        → Accepts s d (λ d'. contains id d' ≡ true) (again u path d))
    → IsOrdered s done
    → Accepts s done (Holds t.meta.depends_on) (visit_dependencies s again t path done)
unfolding visit_dependencies
dependencies-Accepts s again t path done h o =
    visit_each-Accepts s _ t.meta.depends_on done
      (λ id d o'.
        Accepts-with_referenced s (referenced s id) (λ u. again u path d) (λ u e. h u id d e o'))
      o

holds_self : (id : Text) (d : List Text) → contains id (id ∷ d) ≡ true
unfolding contains
holds_self id d = ground (arith, text_eq_refl id)

holds_tail : (id x : Text) (d : List Text) → contains x d ≡ true → contains x (id ∷ d) ≡ true
unfolding contains
holds_tail id x d h = ground arith

later :
    (s : Snapshot) (t : Task) (d : List Text)
    → referenced s t.meta.id ≡ found t
    → Holds t.meta.depends_on d
    → (y : Text) → Edge s t.meta.id y
    → contains y d ≡ true
later s t d e h y (Edge.edge u k m) =
    h y (subst (λ v. contains y v.meta.depends_on ≡ true) (found_injective (sym k ∙ e)) m)

named :
    (s : Snapshot) (id : Text) (u : Task)
    → referenced s id ≡ found u
    → referenced s u.meta.id ≡ found u
named s id u k = subst (λ z. referenced s z ≡ found u) (sym (referenced_id s id k)) k

-- Once its dependencies are finished, a task is.
finished-Accepts :
    (s : Snapshot) (t : Task) (done : List Text) (r : VisitResult)
    → referenced s t.meta.id ≡ found t
    → Accepts s done (Holds t.meta.depends_on) r
    → Accepts s done
        (λ d'. contains t.meta.id d' ≡ true)
        (and_then r (λ d. visited (t.meta.id ∷ d)))
finished-Accepts s t done r e a =
    Accepts-and_then s (Holds t.meta.depends_on) r (λ d. visited (t.meta.id ∷ d)) a
      (λ d o h.
        Accepts-visited s (t.meta.id ∷ d) ((λ y k. later s t d e h y k), o)
          (λ x k. holds_tail t.meta.id x d k) (λ g. holds_self t.meta.id d))

visit_task-Accepts :
    (s : Snapshot) (again : Task → List Text → List Text → VisitResult) (t : Task)
    (path done : List Text)
    → referenced s t.meta.id ≡ found t
    → IsOrdered s done
    → Accepts s done
        (Holds t.meta.depends_on)
        (visit_dependencies s again t (path ++ t.meta.id ∷ []) done)
    → Accepts s done (λ d'. contains t.meta.id d' ≡ true) (visit_task s again t path done)
unfolding visit_task
visit_task-Accepts s again t path done e o below = rw (referenced_named s t.meta.id t e) (
    Accepts-with_referenced s (referenced s t.meta.id) _ (λ u k.
      elim (Bool-cases (contains t.meta.id path)) [
        | inl m ↦ rw m (Accepts-refused s _)
        | inr m ↦ rw m (elim (Bool-cases (contains t.meta.id done)) [
          | inl n ↦ rw n (Accepts-visited s done o (λ x h. h) n)
          | inr n ↦ rw n (finished-Accepts s t done _ e below)
        ])
      ]))

visit-Accepts :
    (fuel : ℕ) (s : Snapshot) (t : Task) (path done : List Text)
    → referenced s t.meta.id ≡ found t
    → IsOrdered s done
    → Accepts s done (λ d'. contains t.meta.id d' ≡ true) (visit fuel s t path done)
unfolding visit
visit-Accepts zero s t path done e o = record { at = λ d' h. absurd cc }
visit-Accepts (suc fuel) s t path done e o = visit_task-Accepts s (visit fuel s) t path done e o (
    dependencies-Accepts s (visit fuel s) t (path ++ t.meta.id ∷ []) done
      (λ u id d k o'.
        subst
          (λ z.
            Accepts s d (λ d'. contains z d' ≡ true) (visit fuel s u (path ++ t.meta.id ∷ []) d))
          (referenced_id s id k)
          (visit-Accepts fuel s u (path ++ t.meta.id ∷ []) d (named s id u k) o'))
      o)

-- An accepted visit of a task rules out cycles: no chain of dependencies leads from a task that the
-- visited task depends on, at any distance, back to it, and none leads from the visited task to
-- itself.
pub visit_root-acyclic :
    (s : Snapshot) (t : Task) (done : List Text)
    → referenced s t.meta.id ≡ found t
    → visit_root s t ≡ visited done
    → ¬ Chain s t.meta.id t.meta.id × ((x : Text) → Chain s t.meta.id x → ¬ Chain s x x)
unfolding visit_root
visit_root-acyclic s t done e h =
    let (o, g, k) = (visit-Accepts (suc (suc (length s.tasks))) s t [] [] e tt).at done h in
    (
      ordered_acyclic s done t.meta.id o k,
      λ x c. ordered_acyclic s done x o (Chain-stays s done t.meta.id x o k c),
    )
