-- ===== src/Coordination/References.antt =====
-- What a reference to a task finds: `Snapshot::referenced` of src/coordination.rs.
use clt_rs.Prelude.{
  ℕ, ◌≤◌, ◌<◌, ◌≡◌, ap, ◌⊎◌, inl, inr, Bool, true, false, ◌&&◌, not, List, [], ◌∷◌, ◌++◌, arith,
  Bool-cases, Text, text_eq, text_eq→eq, text_eq_refl, length,
}
use clt_rs.Sql.{any, count, select}
use clt_rs.Sql.Laws.{count_mono}
use clt_rs.Coordination.{
  Task, Snapshot, contains, is_empty, Lookup, found, unresolved, only_match, has_id, referenced,
}

abbrev task_or : Task → Lookup → Task
task_or t (found u) = u
task_or t (unresolved e) = t

pub found_injective : {t u : Task} → found t ≡ found u → t ≡ u
found_injective {t} e = ap (task_or t) e

select_first :
    (p : Task → Bool) (xs : List Task) {x : Task} {ys : List Task}
    → select p xs ≡ x ∷ ys
    → (p x ≡ true) × (any p xs ≡ true)
unfolding select any
select_first p [] {x} {ys} h = absurd cc
select_first p (z ∷ xs) {x} {ys} h = elim (Bool-cases (p z)) [
  | inl k ↦ ground (arith, select_first p xs {x = x} {ys = ys})
  | inr k ↦ ground (arith, select_first p xs {x = x} {ys = ys})
]

only_match-found :
    (id : Text) (xs : List Task) {t : Task} → only_match id xs ≡ found t → xs ≡ t ∷ []
only_match-found id [] {t} h = absurd cc
only_match-found id (u ∷ []) {t} h = ap (λ v. v ∷ []) (found_injective h)
only_match-found id (u ∷ v ∷ us) {t} h = absurd cc

module _ (s : Snapshot) (id : Text) {t : Task} (h : referenced s id ≡ found t) where
  referenced_select : select (has_id id) s.tasks ≡ t ∷ []
  unfolding referenced
  referenced_select = only_match-found id (select (has_id id) s.tasks) h

  -- A task that a reference finds has the name, and it is not empty.
  pub referenced_has_id : has_id id t ≡ true
  referenced_has_id = (select_first (has_id id) s.tasks referenced_select).0

  pub referenced_any : any (has_id id) s.tasks ≡ true
  referenced_any = (select_first (has_id id) s.tasks referenced_select).1

  pub referenced_id : t.meta.id ≡ id
  unfolding has_id
  referenced_id = text_eq→eq t.meta.id id (ground (arith, referenced_has_id))

pub has_id-is_empty : (id : Text) (t : Task) → has_id id t ≡ true → is_empty id ≡ false
unfolding has_id
has_id-is_empty id t h = ground arith

pub contains-append_self : (x : Text) (xs : List Text) → contains x (xs ++ x ∷ []) ≡ true
unfolding contains
contains-append_self x [] = ground (arith, text_eq_refl x)
contains-append_self x (y ∷ ys) = ground (arith, contains-append_self x ys)

pub contains-append_left :
    (x y : Text) (xs : List Text) → contains x xs ≡ true → contains x (xs ++ y ∷ []) ≡ true
unfolding contains
contains-append_left x y [] h = absurd cc
contains-append_left x y (z ∷ xs) h = ground (arith, contains-append_left x y xs)

pub contains-append_cases :
    (x y : Text) (xs : List Text)
    → contains x (xs ++ y ∷ []) ≡ true
    → (contains x xs ≡ true) ⊎ (x ≡ y)
unfolding contains
contains-append_cases x y [] h = elim (Bool-cases (text_eq x y)) [
  | inl k ↦ inr (text_eq→eq x y k)
  | inr k ↦ absurd (ground arith)
]
contains-append_cases x y (z ∷ xs) h = elim (Bool-cases (text_eq x z)) [
  | inl k ↦ inl (ground arith)
  | inr k ↦ elim (contains-append_cases x y xs (ground arith)) [
    | inl m ↦ inl (ground arith)
    | inr e ↦ inr e
  ]
]

-- The named tasks that a set does not hold.
unfoldable pub is_unseen : List Text → Task → Bool
is_unseen seen t = not (is_empty t.meta.id) && not (contains t.meta.id seen)

abbrev pub unseen : Snapshot → List Text → ℕ
unseen s seen = count (is_unseen seen) s.tasks

pub count_le_length {ℓ} : {A : Type ℓ} (p : A → Bool) (xs : List A) → count p xs ≤ length xs
unfolding count
count_le_length p [] = omega arith
count_le_length p (x ∷ xs) = ground (arith, count_le_length p xs)

count_less {ℓ} :
    {A : Type ℓ} (p q r : A → Bool) (xs : List A)
    → ((x : A) → p x ≡ true → q x ≡ true)
    → ((x : A) → r x ≡ true → (q x ≡ true) × (p x ≡ false))
    → any r xs ≡ true
    → count p xs < count q xs
unfolding count any
count_less p q r [] h k e = absurd cc
count_less p q r (x ∷ xs) h k e =
    ground (arith, h x, k x, count_mono p q xs h, count_less p q r xs h k)

still_old :
    (old new : List Text) (id : Text) (u : Task)
    → has_id id u ≡ true
    → contains id old ≡ false
    → contains id new ≡ true
    → (is_unseen old u ≡ true) × (is_unseen new u ≡ false)
unfolding is_unseen has_id
still_old old new id u e o n =
    let k = text_eq→eq u.meta.id id (ground arith) in (rw k (ground arith), rw k (ground arith))

-- A set that holds more leaves fewer unseen, and strictly fewer when the name of a task is new.
pub unseen_less :
    (s : Snapshot) (id : Text) {t : Task} (old new : List Text)
    → referenced s id ≡ found t
    → contains id old ≡ false
    → contains id new ≡ true
    → ((x : Text) → contains x old ≡ true → contains x new ≡ true)
    → unseen s new < unseen s old
unseen_less s id {t} old new h o n sub =
    count_less (is_unseen new) (is_unseen old) (has_id id) s.tasks
      (λ u e. unfold is_unseen in ground (arith, sub u.meta.id))
      (λ u e. still_old old new id u e o n) (referenced_any s id h)

pub unseen_mono :
    (s : Snapshot) (old new : List Text)
    → ((x : Text) → contains x old ≡ true → contains x new ≡ true)
    → unseen s new ≤ unseen s old
unseen_mono s old new sub =
    count_mono (is_unseen new) (is_unseen old) s.tasks
      (λ u e. unfold is_unseen in ground (arith, sub u.meta.id))
