-- ===== src/Sql/Transactions.antt =====
-- Rules for what a transaction leaves behind and answers.
use mathlib.Core.Path.{subst}
use clt_rs.Prelude.{◌≡◌, refl, sym, ap, Bool, true, false, if◌then◌else◌}
use clt_rs.Sql.{SqlError, SqlResult, ok, err, Transaction, commit, roll_back, fail, transact}

-- What a transaction commits satisfies `P`.
pub record Commits {ℓ κ} {D A : Type ℓ} (P : D → Type κ) (t : Transaction D A) : Type (ℓ ⊔ κ) where
  pub at : (d : D) (a : A) → t ≡ commit d a → P d

abbrev committed_or {ℓ} : {D A : Type ℓ} → D → Transaction D A → D
committed_or d (commit d' a) = d'
committed_or d (roll_back a) = d
committed_or d (fail e) = d

module _ {ℓ κ} {D A : Type ℓ} {P : D → Type κ} where
  pub Commits-transact : (d : D) (t : Transaction D A) → P d → Commits P t → P (transact d t).1
  Commits-transact d (commit d' a) h c = c.at d' a refl
  Commits-transact d (roll_back a) h c = h
  Commits-transact d (fail e) h c = h

  pub Commits-commit : (d : D) (a : A) → P d → Commits P (commit d a)
  Commits-commit d a h = record { at = λ d' a' e. subst P (ap (committed_or d) e) h }

  pub Commits-roll_back : (a : A) → Commits P (roll_back a)
  Commits-roll_back a = record { at = λ d' a' e. cc }

  pub Commits-fail : (e : SqlError) → Commits {D = D} {A = A} P (fail e)
  Commits-fail x = record { at = λ d' a' e. cc }

  pub Commits-if :
      (b : Bool) (s t : Transaction D A)
      → (b ≡ true → Commits P s)
      → (b ≡ false → Commits P t)
      → Commits P (if b then s else t)
  Commits-if true s t hs ht = hs refl
  Commits-if false s t hs ht = ht refl

pub ruleset commits_rules = (Commits-commit, Commits-roll_back, Commits-fail, Commits-if)

-- A transaction commits a state that satisfies `P` together with a good answer, and rolls back with
-- none.
pub record Settles {ℓ κ} {D A : Type ℓ} (P : D → A → Type κ) (Good : A → Type κ)
    (t : Transaction D A) : Type (ℓ ⊔ κ) where
  pub committed : (d : D) (a : A) → t ≡ commit d a → P d a
  pub answered : (d : D) (a : A) → t ≡ commit d a → Good a
  pub refused : (a : A) → t ≡ roll_back a → Good a → ⊥

abbrev answer_or {ℓ} : {D A : Type ℓ} → A → Transaction D A → A
answer_or a (commit d b) = b
answer_or a (roll_back b) = b
answer_or a (fail e) = a

value_or {ℓ} : {A : Type ℓ} → A → SqlResult A → A
value_or a (ok b) = b
value_or a (err e) = a

ok_injective {ℓ} : {A : Type ℓ} {a b : A} → ok a ≡ ok b → a ≡ b
unfolding value_or
ok_injective {a} e = ap (value_or a) e

module _ {ℓ κ} {D A : Type ℓ} {P : D → A → Type κ} {Good : A → Type κ} where
  pub Settles-commit : (d : D) (a : A) → P d a → Good a → Settles P Good (commit d a)
  Settles-commit d a p g = record {
    committed = λ d' a' e. subst (λ t. P (committed_or d t) (answer_or a t)) e p;
    answered = λ d' a' e. subst Good (ap (answer_or a) e) g;
    refused = λ a' e. cc;
  }

  pub Settles-roll_back : (a : A) → (Good a → ⊥) → Settles P Good (roll_back a)
  Settles-roll_back a n = record {
    committed = λ d' a' e. cc;
    answered = λ d' a' e. cc;
    refused = λ a' e g. n (subst Good (sym (ap (answer_or {D = D} a) e)) g);
  }

  pub Settles-fail : (x : SqlError) → Settles P Good (fail x)
  Settles-fail x = record {
    committed = λ d' a' e. cc;
    answered = λ d' a' e. cc;
    refused = λ a' e. cc;
  }

  pub Settles-if :
      (b : Bool) (s t : Transaction D A)
      → (b ≡ true → Settles P Good s)
      → (b ≡ false → Settles P Good t)
      → Settles P Good (if b then s else t)
  Settles-if true s t hs ht = hs refl
  Settles-if false s t hs ht = ht refl

  -- A good answer comes with the committed state.
  pub Settles-good :
      (d : D) (t : Transaction D A) (a : A)
      → Settles P Good t
      → (transact d t).0 ≡ ok a
      → Good a
      → P (transact d t).1 a
  Settles-good d (commit d' b) a s e g = subst (P d') (ok_injective e) (s.committed d' b refl)
  Settles-good d (roll_back b) a s e g =
      absurd (s.refused b refl (subst Good (sym (ok_injective e)) g))
  Settles-good d (fail x) a s e g = absurd cc

  -- Without one nothing has changed.
  pub Settles-refused :
      (d : D) (t : Transaction D A)
      → Settles P Good t
      → ((a : A) → (transact d t).0 ≡ ok a → Good a → ⊥)
      → (transact d t).1 ≡ d
  Settles-refused d (commit d' b) s n = absurd (n b refl (s.answered d' b refl))
  Settles-refused d (roll_back b) s n = refl
  Settles-refused d (fail x) s n = refl

-- The good answer of an operation that answers whether it was done.
abbrev pub IsTrue : Bool → Type 0
IsTrue b = b ≡ true

pub not_IsTrue : IsTrue false → ⊥
not_IsTrue h = cc

pub ruleset settles_rules =
    (Settles-commit, Settles-roll_back, Settles-fail, Settles-if, not_IsTrue)
