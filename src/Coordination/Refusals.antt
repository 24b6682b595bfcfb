-- ===== src/Coordination/Refusals.antt =====
-- The cycle that a refused visit reports is one: `Snapshot::visit` of src/coordination.rs.
use clt_rs.Prelude.{
  ℕ, zero, suc, ◌≡◌, sym, ap, ◌∙◌, ◌≢◌, inl, inr, true, List, [], ◌∷◌, ◌++◌, arith, Bool-cases,
  Text, text_eq_refl, length,
}
use mathlib.Core.Path.{subst}
use clt_rs.Coordination.{
  Task, Snapshot, contains, VisitError, missing_prerequisite, duplicate_task, dependency_cycle,
  found, unresolved, referenced, only_match,
}
use clt_rs.Coordination.References.{referenced_id, contains-append_cases}
use clt_rs.Coordination.Visits.{Lookup-cases, referenced_named}
use clt_rs.Coordination.Dependencies.{
  VisitResult, visited, refused, out_of_fuel, and_then, with_referenced, visit_each,
  visit_dependencies, visit_task, visit, visit_root,
}
use clt_rs.Coordination.Chains.{Edge, edge, Chain, direct, then_chain}

-- A cycle that the result reports is a chain of dependencies from a task to itself.
record ReportsChains (s : Snapshot) (r : VisitResult) : Type 0 where
  at : (path : List Text) (id : Text) → r ≡ refused (dependency_cycle path id) → Chain s id id

Chain-append : (s : Snapshot) (x y z : Text) → Chain s x y → Edge s y z → Chain s x z
Chain-append s x y z (Chain.direct e) k = then_chain e (direct k)
Chain-append s x y z (Chain.then_chain {y = w} e c) k = then_chain e (Chain-append s w y z c k)

cycle_or : Text → VisitResult → Text
cycle_or x (visited d) = x
cycle_or x (refused (dependency_cycle p i)) = i
cycle_or x (refused (missing_prerequisite i)) = x
cycle_or x (refused (duplicate_task i)) = x
cycle_or x out_of_fuel = x

module _ (s : Snapshot) where
  same_id :
      (p : List Text) (i : Text) (p' : List Text) (i' : Text)
      → refused (dependency_cycle p i) ≡ refused (dependency_cycle p' i')
      → Chain s i i
      → Chain s i' i'
  unfolding cycle_or
  same_id p i p' i' e c = subst (λ z. Chain s z z) (ap (cycle_or i) e) c

  ReportsChains-visited : (d : List Text) → ReportsChains s (visited d)
  ReportsChains-visited d = record { at = λ p i e. absurd cc }

  ReportsChains-and_then :
      (r : VisitResult) (next : List Text → VisitResult)
      → ReportsChains s r
      → ((d : List Text) → ReportsChains s (next d))
      → ReportsChains s (and_then r next)
  ReportsChains-and_then (visited d) next h k = k d
  ReportsChains-and_then (refused e) next h k = h
  ReportsChains-and_then out_of_fuel next h k = record { at = λ p i e. absurd cc }

  only_match_no_cycle :
      (id : Text) (ts : List Task) (path : List Text) (x : Text)
      → only_match id ts ≢ unresolved (dependency_cycle path x)
  only_match_no_cycle id [] path x h = cc
  only_match_no_cycle id (t ∷ []) path x h = cc
  only_match_no_cycle id (t ∷ u ∷ us) path x h = cc

  refusal_of : {e f : VisitError} → refused e ≡ refused f → unresolved e ≡ unresolved f
  refusal_of h = cc

  ReportsChains-with_referenced :
      (id : Text) (next : Task → VisitResult)
      → ((u : Task) → referenced s id ≡ found u → ReportsChains s (next u))
      → ReportsChains s (with_referenced (referenced s id) next)
  unfolding referenced
  ReportsChains-with_referenced id next h = elim (Lookup-cases (referenced s id)) [
    | inl (u, k) ↦ rw k (h u k)
    | inr (e, k) ↦
        rw k (record { at = λ p i m. absurd (only_match_no_cycle id _ p i (k ∙ refusal_of m)) })
  ]

  visit_each-ReportsChains :
      (f : Text → List Text → VisitResult) (ids done : List Text)
      → ((id : Text) (d : List Text) → contains id ids ≡ true → ReportsChains s (f id d))
      → ReportsChains s (visit_each f ids done)
  unfolding visit_each contains
  visit_each-ReportsChains f [] done h = ReportsChains-visited done
  visit_each-ReportsChains f (id ∷ ids) done h =
      ReportsChains-and_then (f id done) (visit_each f ids)
        (h id done (ground (arith, text_eq_refl id)))
        (λ d. visit_each-ReportsChains f ids d (λ x d' m. h x d' (ground arith)))

  -- Every task on the path leads to the task at hand.
  abbrev LeadsTo : List Text → Text → Type 0
  LeadsTo path id = (p : Text) → contains p path ≡ true → Chain s p id

  leads_on :
      (path : List Text) (x y : Text) → LeadsTo path x → Edge s x y → LeadsTo (path ++ x ∷ []) y
  leads_on path x y l e p h = elim (contains-append_cases p x path h) [
    | inl k ↦ Chain-append s p x y (l p k) e
    | inr k ↦ rw k (direct e)
  ]

  visit_task-ReportsChains :
      (again : Task → List Text → List Text → VisitResult) (t : Task) (path done : List Text)
      → referenced s t.meta.id ≡ found t
      → LeadsTo path t.meta.id
      → ((u : Task) (id : Text) (d : List Text)
          → referenced s id ≡ found u
          → LeadsTo (path ++ t.meta.id ∷ []) id
          → ReportsChains s (again u (path ++ t.meta.id ∷ []) d))
      → ReportsChains s (visit_task s again t path done)
  unfolding visit_task visit_dependencies
  visit_task-ReportsChains again t path done e l h = rw (referenced_named s t.meta.id t e) (
      ReportsChains-with_referenced t.meta.id _ (λ u k.
        elim (Bool-cases (contains t.meta.id path)) [
          | inl m ↦ rw m (record { at = λ p i n. same_id path t.meta.id p i n (l t.meta.id m) })
          | inr m ↦ rw m (elim (Bool-cases (contains t.meta.id done)) [
            | inl n ↦ rw n (ReportsChains-visited done)
            | inr n ↦ rw n (
                ReportsChains-and_then _ (λ d. visited (t.meta.id ∷ d))
                  (visit_each-ReportsChains _ t.meta.depends_on done (λ id d c.
                    ReportsChains-with_referenced id _
                      (λ v g. h v id d g (leads_on path t.meta.id id l (edge t e c)))))
                  (λ d. ReportsChains-visited (t.meta.id ∷ d)))
          ])
        ]))

  visit-ReportsChains :
      (fuel : ℕ) (t : Task) (path done : List Text)
      → referenced s t.meta.id ≡ found t
      → LeadsTo path t.meta.id
      → ReportsChains s (visit fuel s t path done)
  unfolding visit
  visit-ReportsChains zero t path done e l = record { at = λ p i m. absurd cc }
  visit-ReportsChains (suc fuel) t path done e l =
      visit_task-ReportsChains (visit fuel s) t path done e l (λ u id d k l'.
        let n = referenced_id s id k in
        visit-ReportsChains fuel u (path ++ t.meta.id ∷ []) d
          (subst (λ z. referenced s z ≡ found u) (sym n) k)
          (λ p c. subst (λ z. Chain s p z) (sym n) (l' p c)))

-- When the visit of a task reports a dependency cycle at a task, a chain of declared dependencies
-- leads from that task to itself.
pub visit_root-cycle :
    (s : Snapshot) (t : Task) (path : List Text) (id : Text)
    → referenced s t.meta.id ≡ found t
    → visit_root s t ≡ refused (dependency_cycle path id)
    → Chain s id id
unfolding visit_root
visit_root-cycle s t path id e h =
    (visit-ReportsChains s (suc (suc (length s.tasks))) t [] [] e
        (λ p c. absurd (unfold contains in cc))).at
      path id h
