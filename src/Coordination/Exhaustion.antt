-- ===== src/Coordination/Exhaustion.antt =====
-- What a dependency search that fails has explored: `Snapshot::depends_on` of src/coordination.rs.
use clt_rs.Prelude.{
  ◌≡◌, refl, sym, ap, inl, inr, true, false, none, some, List, [], ◌∷◌, arith, Bool-cases, Text,
  text_eq, text_eq→eq, text_eq_refl,
}
use mathlib.Core.Path.{subst}
use clt_rs.Coordination.{Snapshot, contains}
use clt_rs.Coordination.Dependencies.{Search, unless_found, any_dependency}
use clt_rs.Coordination.Chains.{Edge}

unfoldable pub Includes : List Text → List Text → Type 0
Includes old new = (x : Text) → contains x old ≡ true → contains x new ≡ true

-- Everything that `x` depends on has been seen, and is not `id`.
unfoldable pub IsExplored : Snapshot → Text → List Text → Text → Type 0
IsExplored s id seen x = (y : Text) → Edge s x y → (contains y seen ≡ true) × (text_eq y id ≡ false)

unfoldable pub Explores : Snapshot → Text → List Text → List Text → Type 0
unfolding IsExplored
Explores s id old new =
    (x : Text) → contains x new ≡ true → contains x old ≡ false → IsExplored s id new x

-- A search that fails has seen the dependencies and explored whatever it saw.
pub record Exhausts (s : Snapshot) (id : Text) (seen ds : List Text) (r : Search) : Type 0 where
  pub at :
      (new : List Text)
      → r ≡ some (false, new)
      → Includes seen new
        × ((d : Text) → contains d ds ≡ true → (contains d new ≡ true) × (text_eq d id ≡ false))
        × Explores s id seen new

pub record ExhaustsFrom (s : Snapshot) (id d : Text) (seen : List Text) (r : Search) : Type 0 where
  pub at :
      (new : List Text)
      → r ≡ some (false, new)
      → Includes (d ∷ seen) new × IsExplored s id new d × Explores s id (d ∷ seen) new

abbrev seen_or : List Text → Search → List Text
seen_or d none = d
seen_or d (some (b, seen)) = seen

Exhausts-nil :
    (s : Snapshot) (id : Text) (seen : List Text) → Exhausts s id seen [] (some (false, seen))
unfolding Includes Explores contains
Exhausts-nil s id seen = record {
  at = λ new e.
      subst
        (λ z.
          Includes seen z
          × ((d : Text) → contains d [] ≡ true → (contains d z ≡ true) × (text_eq d id ≡ false))
          × Explores s id seen z)
        (ap (seen_or seen) e) ((λ x h. h), (λ d h. absurd cc), λ x h k. absurd (ground arith));
}

IsExplored-more :
    (s : Snapshot) (id : Text) (old new : List Text) (x : Text)
    → Includes old new
    → IsExplored s id old x
    → IsExplored s id new x
unfolding Includes IsExplored
IsExplored-more s id old new x i h y e = let (a, b) = h y e in (i y a, b)

-- What a step and the rest of the search have explored.
Explores-both :
    (s : Snapshot) (id d : Text) (seen mid new : List Text)
    → Includes (d ∷ seen) mid
    → IsExplored s id mid d
    → Explores s id (d ∷ seen) mid
    → Includes mid new
    → Explores s id mid new
    → Explores s id seen new
unfolding Explores Includes contains
Explores-both s id d seen mid new i m e i' e' x h k = elim (Bool-cases (contains x mid)) [
  | inl a ↦ elim (Bool-cases (text_eq x d)) [
    | inl b ↦
        IsExplored-more s id mid new x i' (subst (IsExplored s id mid) (sym (text_eq→eq x d b)) m)
    | inr b ↦ IsExplored-more s id mid new x i' (e x a (ground arith))
  ]
  | inr a ↦ e' x h a
]

seen_eq :
    (d y : Text) (seen : List Text)
    → text_eq y d ≡ true
    → contains d seen ≡ true
    → contains y seen ≡ true
seen_eq d y seen e h = rw (text_eq→eq y d e) h

not_id : (d y id : Text) → text_eq y d ≡ true → text_eq d id ≡ false → text_eq y id ≡ false
not_id d y id e h = rw (text_eq→eq y d e) h

with_head :
    (id d : Text) (ds new : List Text)
    → contains d new ≡ true
    → text_eq d id ≡ false
    → ((y : Text) → contains y ds ≡ true → (contains y new ≡ true) × (text_eq y id ≡ false))
    → (y : Text) → contains y (d ∷ ds) ≡ true
    → (contains y new ≡ true) × (text_eq y id ≡ false)
unfolding contains
with_head id d ds new h n k y e = elim (Bool-cases (text_eq y d)) [
  | inl m ↦ (seen_eq d y new m h, not_id d y id m n)
  | inr m ↦ k y (ground arith)
]

Includes-head :
    (d : Text) (seen new : List Text)
    → Includes (d ∷ seen) new
    → (contains d new ≡ true) × Includes seen new
unfolding Includes contains
Includes-head d seen new i = (i d (ground (arith, text_eq_refl d)), λ x h. i x (ground arith))

step-Exhausts :
    (s : Snapshot) (id d : Text) (ds seen : List Text) (r : Search) (next : List Text → Search)
    → text_eq d id ≡ false
    → ExhaustsFrom s id d seen r
    → ((mid : List Text) → Exhausts s id mid ds (next mid))
    → Exhausts s id seen (d ∷ ds) (unless_found r next)
unfolding Includes
step-Exhausts s id d ds seen none next n a h = record { at = λ new e. absurd cc }
step-Exhausts s id d ds seen (some (true, z)) next n a h = record {
  at = λ new e. absurd (ground arith);
}
step-Exhausts s id d ds seen (some (false, mid)) next n a h = record {
  at = λ new e.
      let (i, m, x) = a.at mid refl in
      let (i', k, x') = (h mid).at new e in
      let (c, j) = Includes-head d seen mid i in
      (
        (λ y g. i' y (j y g)),
        with_head id d ds new (i' d c) n k,
        Explores-both s id d seen mid new i m x i' x',
      );
}

skip-Exhausts :
    (s : Snapshot) (id d : Text) (ds seen : List Text) (r : Search)
    → text_eq d id ≡ false
    → contains d seen ≡ true
    → Exhausts s id seen ds r
    → Exhausts s id seen (d ∷ ds) r
unfolding Includes
skip-Exhausts s id d ds seen r n c a = record {
  at = λ new e. let (i, k, x) = a.at new e in (i, with_head id d ds new (i d c) n k, x);
}

pub any_dependency-Exhausts :
    (s : Snapshot) (f : Text → List Text → Search) (id : Text) (ds seen : List Text)
    → ((d : Text) (seen : List Text) → ExhaustsFrom s id d seen (f d (d ∷ seen)))
    → Exhausts s id seen ds (any_dependency f id ds seen)
unfolding any_dependency
any_dependency-Exhausts s f id [] seen h = Exhausts-nil s id seen
any_dependency-Exhausts s f id (d ∷ ds) seen h = elim (Bool-cases (text_eq d id)) [
  | inl k ↦ rw k (record { at = λ new e. absurd (ground arith) })
  | inr k ↦ rw k (elim (Bool-cases (contains d seen)) [
    | inl m ↦ rw m (skip-Exhausts s id d ds seen _ k m (any_dependency-Exhausts s f id ds seen h))
    | inr m ↦ rw m (
        step-Exhausts s id d ds seen (f d (d ∷ seen)) (any_dependency f id ds) k (h d seen)
          (λ mid. any_dependency-Exhausts s f id ds mid h))
  ])
]
