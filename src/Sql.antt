-- ===== src/Sql.antt =====
-- The table operations that the registry's SQL statements are made of, over lists of rows.
pub mod Laws
pub mod Transactions
use clt_rs.Prelude.{
  ℕ, zero, suc, Bool, false, ◌||◌, Option, none, some, List, [], ◌∷◌, if◌then◌else◌,
}

module _ {ℓ} {A : Type ℓ} where
  -- `EXISTS (SELECT 1 FROM t WHERE p)`.
  unfoldable pub any : (A → Bool) → List A → Bool
  any p [] = false
  any p (x ∷ xs) = p x || any p xs

  -- `SELECT COUNT(*) FROM t WHERE p`, and the rows that a statement changes.
  unfoldable pub count : (A → Bool) → List A → ℕ
  count p [] = zero
  count p (x ∷ xs) = let rest = count p xs in if p x then suc rest else rest

  -- The first row of `SELECT … FROM t WHERE p`.
  unfoldable pub find : (A → Bool) → List A → Option A
  find p [] = none
  find p (x ∷ xs) = if p x then some x else find p xs

  -- `DELETE FROM t WHERE p`.
  unfoldable pub delete : (A → Bool) → List A → List A
  delete p [] = []
  delete p (x ∷ xs) = let rest = delete p xs in if p x then rest else x ∷ rest

  -- `UPDATE t SET f WHERE p`.
  unfoldable pub update : (A → Bool) → (A → A) → List A → List A
  update p f [] = []
  update p f (x ∷ xs) = let rest = update p f xs in if p x then f x ∷ rest else x ∷ rest

  -- The rows of `SELECT … FROM t WHERE p`, in the table's order.
  unfoldable pub select : (A → Bool) → List A → List A
  select p [] = []
  select p (x ∷ xs) = let rest = select p xs in if p x then x ∷ rest else rest

-- Why a statement or a transaction fails with an error.
pub data SqlError : Type 0 where
  foreign_key_failed no_rows out_of_range missing_run_id : SqlError
  -- The errors that the operations on sessions raise themselves.
  invalid_guardian_holder changed_during_handoff lost_worker_lease other_generation : SqlError
  git_mode_changed managed_git_evidence no_launch_state lost_launch_state : SqlError
  -- The errors of the operations on journals.
  no_owner_token invalid_transition no_push_mode identity_changed no_identity : SqlError
  commit_changed no_commit_oid step_skipped generation_overflowed pending_exists : SqlError
  no_session_id git_mode_off : SqlError

pub data SqlResult {ℓ} (A : Type ℓ) : Type ℓ where
  ok : A → SqlResult A
  err : SqlError → SqlResult A

-- What the body of a transaction does: it commits a state, it returns early and drops the
-- transaction, or it fails. The last two roll back.
pub data Transaction {ℓ} (D A : Type ℓ) : Type ℓ where
  commit : D → A → Transaction D A
  roll_back : A → Transaction D A
  fail : SqlError → Transaction D A

abbrev pub transact {ℓ} : {D A : Type ℓ} → D → Transaction D A → SqlResult A × D
transact d (commit d' a) = (ok a, d')
transact d (roll_back a) = (ok a, d)
transact d (fail e) = (err e, d)
