-- ===== src/Coordination/Chains.antt =====
-- Chains of declared dependencies between the tasks of a snapshot: src/coordination.rs.
use clt_rs.Prelude.{
  ◌≡◌, inl, inr, true, List, [], ◌∷◌, arith, Bool-cases, Text, text_eq, text_eq→eq,
}
use mathlib.Core.Path.{subst}
use clt_rs.Coordination.{Task, Snapshot, contains, found, referenced}

-- The task that `x` names declares a dependency on `y`.
pub data Edge (s : Snapshot) (x y : Text) : Type 0 where
  edge : (t : Task) → referenced s x ≡ found t → contains y t.meta.depends_on ≡ true → Edge s x y

-- A chain of one or more dependencies.
pub data Chain (s : Snapshot) : Text → Text → Type 0 where
  direct : {x y : Text} → Edge s x y → Chain s x y
  then_chain : {x y z : Text} → Edge s x y → Chain s y z → Chain s x z

-- Every task of the list finds what it depends on later in the list.
abbrev pub IsOrdered : Snapshot → List Text → Type 0
IsOrdered s [] = Unit {0}
IsOrdered s (id ∷ ids) = ((y : Text) → Edge s id y → contains y ids ≡ true) × IsOrdered s ids

pub contains_eq :
    (x y : Text) (ids : List Text)
    → text_eq x y ≡ true
    → contains y ids ≡ true
    → contains x ids ≡ true
contains_eq x y ids e h = rw (text_eq→eq x y e) h

Edge-stays :
    (s : Snapshot) (ids : List Text) (x y : Text)
    → IsOrdered s ids
    → contains x ids ≡ true
    → Edge s x y
    → contains y ids ≡ true
unfolding contains
Edge-stays s [] x y o h e = absurd cc
Edge-stays s (id ∷ ids) x y o h e = elim (Bool-cases (text_eq x id)) [
  | inl k ↦ ground (arith, o.0 y (subst (λ z. Edge s z y) (text_eq→eq x id k) e))
  | inr k ↦ ground (arith, Edge-stays s ids x y o.1 (ground arith) e)
]

pub Chain-stays :
    (s : Snapshot) (ids : List Text) (x y : Text)
    → IsOrdered s ids
    → contains x ids ≡ true
    → Chain s x y
    → contains y ids ≡ true
Chain-stays s ids x y o h (Chain.direct e) = Edge-stays s ids x y o h e
Chain-stays s ids x z o h (Chain.then_chain {y = y} e c) =
    Chain-stays s ids y z o (Edge-stays s ids x y o h e) c

-- A chain from a task of the list leads to tasks later in the list.
Chain-later :
    (s : Snapshot) (id : Text) (ids : List Text) (x y : Text)
    → IsOrdered s (id ∷ ids)
    → text_eq x id ≡ true
    → Chain s x y
    → contains y ids ≡ true
Chain-later s id ids x y o h (Chain.direct e) =
    o.0 y (subst (λ z. Edge s z y) (text_eq→eq x id h) e)
Chain-later s id ids x z o h (Chain.then_chain {y = y} e c) =
    Chain-stays s ids y z o.1 (o.0 y (subst (λ w. Edge s w y) (text_eq→eq x id h) e)) c

pub ordered_acyclic :
    (s : Snapshot) (ids : List Text) (x : Text)
    → IsOrdered s ids
    → contains x ids ≡ true
    → Chain s x x
    → ⊥
unfolding contains
ordered_acyclic s [] x o h c = absurd cc
ordered_acyclic s (id ∷ ids) x o h c = elim (Bool-cases (text_eq x id)) [
  | inl k ↦ ordered_acyclic s ids x o.1 (Chain-later s id ids x x o k c) c
  | inr k ↦ ordered_acyclic s ids x o.1 (ground arith) c
]
