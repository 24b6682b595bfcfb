-- ===== src/Coordination/Admitted.antt =====
-- What it takes for a task to have nothing to wait for: `waits` of src/coordination.rs.
use clt_rs.Prelude.{
  ◌≡◌, refl, sym, ap, ◌∙◌, ◌↔◌, inl, inr, Bool, true, false, ◌&&◌, not, Option, none, List, [], ◌∷◌,
  ◌++◌, arith, Bool-cases, Option-cases, is_some, Text, text_eq, text_eq→eq, text_eq_refl,
}
use clt_rs.Sql.{any}
use clt_rs.Coordination.{
  Task, Snapshot, contains, complete, active, same_task, Lookup, found, unresolved, referenced,
}
use clt_rs.Coordination.Dependencies.{VisitResult, visited, refused, out_of_fuel, visit_root}
use clt_rs.Coordination.Overlap.{overlap}
use clt_rs.Coordination.Admission.{
  Wait, after_visit, after_metadata, wait_for, prerequisite_waits, is_awaited_by, wait_on,
  active_waits, waits,
}
use clt_rs.Coordination.References.{found_injective}

append_nil : {A : Type 0} (xs ys : List A) → xs ++ ys ≡ [] → (xs ≡ []) × (ys ≡ [])
append_nil [] ys h = (refl, h)
append_nil (x ∷ xs) ys h = absurd cc

-- Every dependency that names a task names a finished one.
AllFinished : Snapshot → List Text → Type 0
AllFinished s ids =
    (id : Text) (u : Task) → contains id ids ≡ true → referenced s id ≡ found u → complete u ≡ true

wait_for-nil : (l : Lookup) → wait_for l ≡ [] → (u : Task) → l ≡ found u → complete u ≡ true
wait_for-nil (unresolved e) h u k = absurd cc
wait_for-nil (found v) h u k =
    rw (sym (found_injective k))
      (elim (Bool-cases (complete v)) [ inl m ↦ m | inr m ↦ absurd (ground arith) ])

prerequisite_waits-nil :
    (s : Snapshot) (ids : List Text) → prerequisite_waits s ids ≡ [] → AllFinished s ids
unfolding prerequisite_waits AllFinished contains
prerequisite_waits-nil s [] h id u c k = absurd cc
prerequisite_waits-nil s (i ∷ ids) h id u c k =
    let (a, b) = append_nil (wait_for (referenced s i)) (prerequisite_waits s ids) h in
    elim (Bool-cases (text_eq id i)) [
      | inl m ↦ wait_for-nil (referenced s i) a u (ap (referenced s) (sym (text_eq→eq id i m)) ∙ k)
      | inr m ↦ prerequisite_waits-nil s ids b id u (ground arith) k
    ]

wait_for-complete : (l : Lookup) → ((u : Task) → l ≡ found u → complete u ≡ true) → wait_for l ≡ []
wait_for-complete (unresolved e) h = refl
wait_for-complete (found u) h = rw (h u refl) refl

finished_waits :
    (s : Snapshot) (ids : List Text) → AllFinished s ids → prerequisite_waits s ids ≡ []
unfolding prerequisite_waits AllFinished contains
finished_waits s [] h = refl
finished_waits s (i ∷ ids) h =
    rw (wait_for-complete (referenced s i) (λ u k. h i u (ground (arith, text_eq_refl i)) k))
      (finished_waits s ids (λ id u c k. h id u (ground arith) k))

module _ (document : Task → Text) (digest : Text → Text) where
  -- A task that is underway, does not wait for this one and conflicts with it.
  unfoldable pub stands_against : Snapshot → Task → Task → Bool
  stands_against s task other =
      (active other && not (same_task task other))
      && not (is_awaited_by s task other)
      && is_some (overlap document digest s.changed_files task other)

  wait_on_iff :
      (s : Snapshot) (task other : Task)
      → (wait_on document digest s task other ≡ []) ↔ (stands_against s task other ≡ false)
  unfolding wait_on stands_against
  wait_on_iff s task other =
      elim (Option-cases (overlap document digest s.changed_files task other)) [
        | inl e ↦ rw e (ground arith)
        | inr (c, e) ↦ rw e (ground arith)
      ]

  active_waits_iff :
      (s : Snapshot) (task : Task) (others : List Task)
      → (active_waits document digest s task others ≡ [])
        ↔ (any (stands_against s task) others ≡ false)
  unfolding active_waits any
  active_waits_iff s task [] = ((λ h. refl), λ h. refl)
  active_waits_iff s task (other ∷ others) =
      let (f, g) = wait_on_iff s task other in
      let (f', g') = active_waits_iff s task others in
      (
        (λ h.
            let (a, b) =
              append_nil (wait_on document digest s task other)
                (active_waits document digest s task others) h in
            rw (f a) (f' b)),
        λ h. rw (g (ground arith)) (g' (ground arith)),
      )

  pub record IsAdmissible (s : Snapshot) (task : Task) : Type 0 where
    pub readable : task.error ≡ none
    pub followed : (done : List Text) × (visit_root s task ≡ visited done)
    pub finished :
        (id : Text) (u : Task)
        → contains id task.meta.depends_on ≡ true
        → referenced s id ≡ found u
        → complete u ≡ true
    pub apart : any (stands_against s task) s.tasks ≡ false

  VisitResult-cases :
      (r : VisitResult) (ws : List Wait)
      → after_visit document digest r ws ≡ []
      → ((done : List Text) × (r ≡ visited done)) × (ws ≡ [])
  VisitResult-cases (visited done) ws h = ((done, refl), h)
  VisitResult-cases (refused e) ws h = absurd cc
  VisitResult-cases out_of_fuel ws h = absurd cc

  settled :
      (error : Option Text) (r : VisitResult) (xs ys : List Wait)
      → error ≡ none
      → (done : List Text) × (r ≡ visited done)
      → xs ≡ []
      → ys ≡ []
      → after_metadata document digest error (after_visit document digest r (xs ++ ys)) ≡ []
  settled error r xs ys e (done, v) x y = rw e (rw v (rw x y))

  -- An unfinished task has nothing to wait for exactly when its metadata is readable, its
  -- dependencies can be followed without an error, those that it names are finished, and no task
  -- that is underway, and does not itself wait for this one, conflicts with it.
  pub waits_iff :
      (s : Snapshot) (task : Task)
      → complete task ≡ false
      → (waits document digest s task ≡ []) ↔ IsAdmissible s task
  unfolding waits AllFinished
  waits_iff s task c = (
    (λ h. elim (Option-cases task.error) [
      | inl e ↦
          let (v, w) = VisitResult-cases (visit_root s task) _ (ground (arith, e, c)) in
          let (a, b) =
            append_nil (prerequisite_waits s task.meta.depends_on)
              (active_waits document digest s task s.tasks) w in
          record {
            readable = e;
            followed = v;
            finished = prerequisite_waits-nil s task.meta.depends_on a;
            apart = (active_waits_iff s task s.tasks).0 b;
          }
      | inr (x, e) ↦ absurd (ground (arith, e, c))
    ]),
    λ k. rw c (
        settled task.error (visit_root s task) _ _ k.readable k.followed
          (finished_waits s task.meta.depends_on k.finished)
          ((active_waits_iff s task s.tasks).1 k.apart)),
  )
