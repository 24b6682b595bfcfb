-- ===== src/Coordination/Search.antt =====
-- The dependency search ends, and decides reachability: `Snapshot::depends_on` of
-- src/coordination.rs.
use clt_rs.Prelude.{
  ℕ, zero, suc, ◌≤◌, ◌<◌, ◌≡◌, refl, ap, ◌∙◌, ◌↔◌, inl, inr, Bool, true, false, none, some, List,
  [], ◌∷◌, arith, Bool-cases, is_some, Text, text_eq, text_eq_refl, length,
}
use clt_rs.Coordination.{Task, Snapshot, contains, found, referenced}
use clt_rs.Coordination.References.{unseen, count_le_length, is_unseen, unseen_less, unseen_mono}
use clt_rs.Coordination.Visits.{Lookup-cases}
use clt_rs.Coordination.Dependencies.{
  Search, unless_found, any_dependency, search_from, depends_on, answer_of, depends_on_id,
}
use clt_rs.Coordination.Chains.{Chain}
use clt_rs.Coordination.Exhaustion.{Includes, IsExplored, Explores, ExhaustsFrom}
use clt_rs.Coordination.Reachability.{
  Reaches, search_from-Exhausts, depends_on-Exhausts, depends_on-Follows,
}

unless_found-ends :
    (r : Search) (next : List Text → Search)
    → is_some r ≡ true
    → ((mid : List Text) → r ≡ some (false, mid) → is_some (next mid) ≡ true)
    → is_some (unless_found r next) ≡ true
unless_found-ends none next h k = h
unless_found-ends (some (true, z)) next h k = refl
unless_found-ends (some (false, z)) next h k = k z refl

Includes-refl : (xs : List Text) → Includes xs xs
unfolding Includes
Includes-refl xs x h = h

Includes-trans : (xs ys zs : List Text) → Includes xs ys → Includes ys zs → Includes xs zs
unfolding Includes
Includes-trans xs ys zs h k x e = k x (h x e)

Includes-tail : (d : Text) (xs : List Text) → Includes xs (d ∷ xs)
unfolding Includes contains
Includes-tail d xs x h = ground arith

any_dependency-ends :
    (s : Snapshot) (f : Text → List Text → Search) (id : Text) (ds seen : List Text)
    → ((d : Text) (old : List Text)
        → Includes seen old
        → contains d old ≡ false
        → is_some (f d (d ∷ old)) ≡ true)
    → ((d : Text) (old : List Text) → ExhaustsFrom s id d old (f d (d ∷ old)))
    → is_some (any_dependency f id ds seen) ≡ true
unfolding any_dependency
any_dependency-ends s f id [] seen h g = refl
any_dependency-ends s f id (d ∷ ds) seen h g = elim (Bool-cases (text_eq d id)) [
  | inl k ↦ rw k refl
  | inr k ↦ rw k (elim (Bool-cases (contains d seen)) [
    | inl m ↦ rw m (any_dependency-ends s f id ds seen h g)
    | inr m ↦ rw m (
        unless_found-ends (f d (d ∷ seen)) (any_dependency f id ds)
          (h d seen (Includes-refl seen) m)
          (λ mid e.
            let i =
              Includes-trans seen (d ∷ seen) mid (Includes-tail d seen) ((g d seen).at mid e).0 in
            any_dependency-ends s f id ds mid (λ y old j. h y old (Includes-trans seen mid old i j))
              g))
  ])
]

search_from-ends :
    (s : Snapshot) (again : Task → List Text → Search) (d : Text) (seen : List Text)
    → ((u : Task) → referenced s d ≡ found u → is_some (again u seen) ≡ true)
    → is_some (search_from s again d seen) ≡ true
unfolding search_from
search_from-ends s again d seen h = elim (Lookup-cases (referenced s d)) [
  | inl (u, k) ↦ rw k (h u k)
  | inr (e, k) ↦ rw k refl
]

contains_head : (d : Text) (xs : List Text) → contains d (d ∷ xs) ≡ true
unfolding contains
contains_head d xs = ground (arith, text_eq_refl d)

smaller_still : {a b c d : ℕ} → a < b → b ≤ c → c < suc d → a < d
smaller_still {a} {b} {c} {d} h k l = omega arith

different : (id : Text) → text_eq id id ≡ false → ⊥
different id h = ground (arith, text_eq_refl id)

answered :
    (r : Search) (new : List Text) (b : Bool)
    → answer_of r ≡ b
    → r ≡ some (answer_of r, new)
    → r ≡ some (b, new)
answered r new b h e = e ∙ ap (λ c. some (c, new)) h

depends_on-ends :
    (fuel : ℕ) (s : Snapshot) (t : Task) (id : Text) (seen : List Text)
    → unseen s seen < fuel
    → is_some (depends_on fuel s t id seen) ≡ true
unfolding depends_on
depends_on-ends zero s t id seen h = absurd (omega arith)
depends_on-ends (suc fuel) s t id seen h =
    any_dependency-ends s (search_from s (λ u seen. depends_on fuel s u id seen)) id
      t.meta.depends_on seen
      (λ d old i m.
        search_from-ends s (λ u seen. depends_on fuel s u id seen) d (d ∷ old)
          (λ u k. depends_on-ends fuel s u id (d ∷ old) (
            smaller_still
              (unseen_less s d old (d ∷ old) k m (contains_head d old)
                (unfold Includes in Includes-tail d old))
              (unseen_mono s seen old (unfold Includes in i)) h)))
      (λ d old.
        search_from-Exhausts s (λ u seen. depends_on fuel s u id seen) id d old
          (λ u. depends_on-Exhausts fuel s u id (d ∷ old)))

-- The dependency search of every task for every name ends, cyclic dependencies or not: one more
-- than the number of tasks is fuel enough.
pub depends_on-finishes :
    (s : Snapshot) (t : Task) (id : Text)
    → is_some (depends_on (suc (length s.tasks)) s t id []) ≡ true
depends_on-finishes s t id =
    depends_on-ends (suc (length s.tasks)) s t id []
      (omega (arith, count_le_length (is_unseen []) s.tasks))

Search-cases : (r : Search) → is_some r ≡ true → (new : List Text) × (r ≡ some (answer_of r, new))
Search-cases none h = absurd cc
Search-cases (some (b, new)) h = (new, refl)

no-Chain :
    (s : Snapshot) (id x : Text) (new : List Text)
    → ((y : Text) → contains y new ≡ true → IsExplored s id new y)
    → contains x new ≡ true
    → ¬ Chain s x id
unfolding IsExplored
no-Chain s id x new h c (Chain.direct e) = different id (h x c id e).1
no-Chain s id x new h c (Chain.then_chain {y = y} e k) = no-Chain s id y new h (h x c y e).0 k

unreached :
    (s : Snapshot) (ds : List Text) (id : Text) (new : List Text)
    → ((d : Text) → contains d ds ≡ true → (contains d new ≡ true) × (text_eq d id ≡ false))
    → ((y : Text) → contains y new ≡ true → IsExplored s id new y)
    → ¬ Reaches s ds id
unreached s ds id new k h (Reaches.declares c) = different id (k id c).1
unreached s ds id new k h (Reaches.through d c l) = no-Chain s id d new h (k d c).0 l

failed_search :
    (s : Snapshot) (t : Task) (id : Text) (new : List Text)
    → depends_on (suc (length s.tasks)) s t id [] ≡ some (false, new)
    → ¬ Reaches s t.meta.depends_on id
unfolding Explores
failed_search s t id new e =
    let (i, k, x) = (depends_on-Exhausts (suc (length s.tasks)) s t id []).at new e in
    unreached s t.meta.depends_on id new k (λ y h. x y h (unfold contains in refl))

-- The search answers `true` exactly when a chain of declared dependencies, over tasks that their
-- names determine, leads from the task to the name.
pub depends_on_id_iff :
    (s : Snapshot) (t : Task) (id : Text)
    → (depends_on_id s t id ≡ true) ↔ Reaches s t.meta.depends_on id
unfolding depends_on_id
depends_on_id_iff s t id =
    let r = depends_on (suc (length s.tasks)) s t id [] in
    let (new, e) = Search-cases r (depends_on-finishes s t id) in
    (
      (λ h. (depends_on-Follows (suc (length s.tasks)) s t id []).at new (answered r new true h e)),
      λ k. elim (Bool-cases (answer_of r)) [
        | inl h ↦ h
        | inr h ↦ absurd (failed_search s t id new (answered r new false h e) k)
      ],
    )
