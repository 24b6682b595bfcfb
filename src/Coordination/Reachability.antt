-- ===== src/Coordination/Reachability.antt =====
-- The dependency search is reachability: `Snapshot::depends_on` of src/coordination.rs.
use clt_rs.Prelude.{
  ℕ, zero, suc, ◌≡◌, refl, sym, ap, ◌∙◌, inl, inr, true, false, none, some, List, [], ◌∷◌, arith,
  Bool-cases, Text, text_eq, text_eq→eq, text_eq_refl,
}
use mathlib.Core.Path.{subst}
use clt_rs.Coordination.{Task, Snapshot, contains, VisitError, found, unresolved, referenced}
use clt_rs.Coordination.References.{found_injective}
use clt_rs.Coordination.Visits.{Lookup-cases}
use clt_rs.Coordination.Dependencies.{Search, unless_found, any_dependency, search_from, depends_on}
use clt_rs.Coordination.Chains.{Edge, edge, Chain, direct, then_chain}
use clt_rs.Coordination.Exhaustion.{
  Includes, IsExplored, Explores, Exhausts, ExhaustsFrom, any_dependency-Exhausts,
}

-- A task with these declared dependencies depends on `id`, directly or through others.
pub data Reaches (s : Snapshot) (ds : List Text) (id : Text) : Type 0 where
  declares : contains id ds ≡ true → Reaches s ds id
  through : (d : Text) → contains d ds ≡ true → Chain s d id → Reaches s ds id

abbrev seen_or : List Text → Search → List Text
seen_or d none = d
seen_or d (some (b, seen)) = seen

clash : {t : Task} {e : VisitError} → found t ≡ unresolved e → ⊥
clash h = cc

no-Edge :
    (s : Snapshot) (x y : Text) {e : VisitError} → referenced s x ≡ unresolved e → Edge s x y → ⊥
no-Edge s x y {e} h (Edge.edge t k c) = clash (sym k ∙ h)

Edge-declares :
    (s : Snapshot) (x y : Text) (u : Task)
    → referenced s x ≡ found u
    → Edge s x y
    → contains y u.meta.depends_on ≡ true
Edge-declares s x y u h (Edge.edge t k c) =
    subst (λ v. contains y v.meta.depends_on ≡ true) (found_injective (sym k ∙ h)) c

unresolved_explored :
    (s : Snapshot) (id d : Text) (seen : List Text) {e : VisitError}
    → referenced s d ≡ unresolved e
    → ExhaustsFrom s id d seen (some (false, d ∷ seen))
unfolding Includes IsExplored Explores
unresolved_explored s id d seen {e} h = record {
  at = λ new k.
      subst (λ z. Includes (d ∷ seen) z × IsExplored s id z d × Explores s id (d ∷ seen) z)
        (ap (seen_or seen) k)
        ((λ x m. m), (λ y g. absurd (no-Edge s d y h g)), λ x m n. absurd (ground arith));
}

found_explored :
    (s : Snapshot) (id d : Text) (seen : List Text) (u : Task) (r : Search)
    → referenced s d ≡ found u
    → Exhausts s id (d ∷ seen) u.meta.depends_on r
    → ExhaustsFrom s id d seen r
unfolding IsExplored
found_explored s id d seen u r h a = record {
  at = λ new e. let (i, k, x) = a.at new e in (i, (λ y g. k y (Edge-declares s d y u h g)), x);
}

pub search_from-Exhausts :
    (s : Snapshot) (again : Task → List Text → Search) (id d : Text) (seen : List Text)
    → ((u : Task) → Exhausts s id (d ∷ seen) u.meta.depends_on (again u (d ∷ seen)))
    → ExhaustsFrom s id d seen (search_from s again d (d ∷ seen))
unfolding search_from
search_from-Exhausts s again id d seen h = elim (Lookup-cases (referenced s d)) [
  | inl (u, k) ↦ rw k (found_explored s id d seen u (again u (d ∷ seen)) k (h u))
  | inr (e, k) ↦ rw k (unresolved_explored s id d seen k)
]

pub depends_on-Exhausts :
    (fuel : ℕ) (s : Snapshot) (t : Task) (id : Text) (seen : List Text)
    → Exhausts s id seen t.meta.depends_on (depends_on fuel s t id seen)
unfolding depends_on
depends_on-Exhausts zero s t id seen = record { at = λ new e. absurd cc }
depends_on-Exhausts (suc fuel) s t id seen =
    any_dependency-Exhausts s (search_from s (λ u seen. depends_on fuel s u id seen)) id
      t.meta.depends_on seen
      (λ d seen'.
        search_from-Exhausts s (λ u seen. depends_on fuel s u id seen) id d seen'
          (λ u. depends_on-Exhausts fuel s u id (d ∷ seen')))

-- A search that succeeds has followed a chain.
pub record Follows (s : Snapshot) (ds : List Text) (id : Text) (r : Search) : Type 0 where
  pub at : (new : List Text) → r ≡ some (true, new) → Reaches s ds id

more_dependencies :
    (s : Snapshot) (d : Text) (ds : List Text) (id : Text) → Reaches s ds id → Reaches s (d ∷ ds) id
unfolding contains
more_dependencies s d ds id (Reaches.declares h) = declares (ground arith)
more_dependencies s d ds id (Reaches.through x h c) = through x (ground arith) c

first_dependency :
    (s : Snapshot) (d : Text) (ds : List Text) (id : Text) → Chain s d id → Reaches s (d ∷ ds) id
unfolding contains
first_dependency s d ds id c = through d (ground (arith, text_eq_refl d)) c

is_dependency :
    (s : Snapshot) (d : Text) (ds : List Text) (id : Text)
    → text_eq d id ≡ true
    → Reaches s (d ∷ ds) id
unfolding contains
is_dependency s d ds id h = declares (rw (text_eq→eq d id h) (ground (arith, text_eq_refl id)))

Follows-unless_found :
    (s : Snapshot) (d : Text) (ds : List Text) (id : Text) (r : Search) (next : List Text → Search)
    → ((new : List Text) → r ≡ some (true, new) → Chain s d id)
    → ((mid : List Text) → Follows s ds id (next mid))
    → Follows s (d ∷ ds) id (unless_found r next)
Follows-unless_found s d ds id none next c h = record { at = λ new e. absurd cc }
Follows-unless_found s d ds id (some (true, z)) next c h = record {
  at = λ new e. first_dependency s d ds id (c z refl);
}
Follows-unless_found s d ds id (some (false, z)) next c h = record {
  at = λ new e. more_dependencies s d ds id ((h z).at new e);
}

any_dependency-Follows :
    (s : Snapshot) (f : Text → List Text → Search) (id : Text) (ds seen : List Text)
    → ((d : Text) (seen new : List Text) → f d seen ≡ some (true, new) → Chain s d id)
    → Follows s ds id (any_dependency f id ds seen)
unfolding any_dependency
any_dependency-Follows s f id [] seen h = record { at = λ new e. absurd (ground arith) }
any_dependency-Follows s f id (d ∷ ds) seen h = elim (Bool-cases (text_eq d id)) [
  | inl k ↦ rw k (record { at = λ new e. is_dependency s d ds id k })
  | inr k ↦ rw k (
      Follows-unless_found s d ds id _ (any_dependency f id ds)
        (λ new e. elim (Bool-cases (contains d seen)) [
          | inl m ↦ absurd (ground arith)
          | inr m ↦ h d (d ∷ seen) new (ground arith)
        ])
        (λ mid. any_dependency-Follows s f id ds mid h))
]

Chain-of :
    (s : Snapshot) (d id : Text) (u : Task)
    → referenced s d ≡ found u
    → Reaches s u.meta.depends_on id
    → Chain s d id
Chain-of s d id u h (Reaches.declares c) = direct (edge u h c)
Chain-of s d id u h (Reaches.through x c k) = then_chain (edge u h c) k

search_from-Follows :
    (s : Snapshot) (again : Task → List Text → Search) (id d : Text) (seen new : List Text)
    → ((u : Task) → Follows s u.meta.depends_on id (again u seen))
    → search_from s again d seen ≡ some (true, new)
    → Chain s d id
unfolding search_from
search_from-Follows s again id d seen new h e = elim (Lookup-cases (referenced s d)) [
  | inl (u, k) ↦ Chain-of s d id u k ((h u).at new (ground (arith, k)))
  | inr (x, k) ↦ absurd (ground (arith, k))
]

pub depends_on-Follows :
    (fuel : ℕ) (s : Snapshot) (t : Task) (id : Text) (seen : List Text)
    → Follows s t.meta.depends_on id (depends_on fuel s t id seen)
unfolding depends_on
depends_on-Follows zero s t id seen = record { at = λ new e. absurd cc }
depends_on-Follows (suc fuel) s t id seen =
    any_dependency-Follows s (search_from s (λ u seen. depends_on fuel s u id seen)) id
      t.meta.depends_on seen
      (λ d seen' new.
        search_from-Follows s (λ u seen. depends_on fuel s u id seen) id d seen' new
          (λ u. depends_on-Follows fuel s u id seen'))
