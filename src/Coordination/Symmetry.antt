-- ===== src/Coordination/Symmetry.antt =====
-- A conflict between two tasks is seen from both: `overlap` of src/coordination.rs.
mod Concerns
pub mod Behavior
use clt_rs.Prelude.{
  ℕ, zero, suc, ◌+◌, ◌-◌, ◌*◌, ◌/◌, ◌%◌, ◌^◌, ◌≤◌, ◌<◌, ◌≡◌, refl, sym, ap, ◌∙◌, ◌≢◌, ◌↔◌, ◌⊎◌, inl,
  inr, Bool, true, false, ◌&&◌, ◌||◌, not, Option, none, some, List, [], ◌∷◌, ◌++◌, arith,
  if◌then◌else◌, ltb, leb, ◌==◌, ==_iff, ==_refl, Bool-cases, Option-cases, is_some, is_none,
  unwrap_or, Text, codes, text_eq, text_eq→eq, text_eq_refl, text_eq_iff, starts_with, text_leb,
  text_eq_sym, text_leb_total, text_leb_antisym, is_digit, cast_digits, cast_integer, u64_max,
  parse_digits, parse_unsigned, parse_u64, like_prefix, decimal, length,
}
use clt_rs.Sql.{
  SqlResult, ok, err, SqlError, foreign_key_failed, no_rows, out_of_range, missing_run_id,
  Transaction, commit, roll_back, fail, transact, any, count, find, delete, update, select,
}
use clt_rs.Sql.Laws.{
  any-append, any-delete, any_congr, any_mono, count-append, count-append_one, count_pos,
  count-eq-zero, count_mono, count-delete-le, count-update-le, count-update, any-update, find-none,
  find-append, find_holds, any_of_find, select-append, select-delete, select-update, select-nil,
  delete-none, update-none,
}
use clt_rs.Coordination.{Task, TaskEntry, Metadata, Scope, Review, contains, is_empty}
use clt_rs.Coordination.Overlap.{
  evidence, Contract, module_contract, interface_contract, resource_contract, Concern,
  shared_contract, shared_file, shared_symbol, scope_meets, Conflict, get, differs_from,
  contradicts, behavior_of, assesses, review_of, Verdict, unreviewed, compatible, incompatible,
  verdict_of, both_verdicts, each_concern, shared_contracts, shared_files, shared_symbols,
  scope_names, met_symbols, concerns, conclude, overlap,
}
use clt_rs.Coordination.Symmetry.Concerns.{some_concern, concerns_sym}
use clt_rs.Coordination.Symmetry.Behavior.{IsMap, contradicts_sym, is_some-behavior}

sorted_pair :
    (x y : Text)
    → (if text_leb x y then x ++ 10 ∷ y else y ++ 10 ∷ x)
      ≡ (if text_leb y x then y ++ 10 ∷ x else x ++ 10 ∷ y)
sorted_pair x y = elim (Bool-cases (text_leb x y)) [
  | inl h ↦ elim (Bool-cases (text_leb y x)) [
    | inl k ↦ rw (text_leb_antisym x y h k) refl
    | inr k ↦ rw h (rw k refl)
  ]
  | inr h ↦ rw h (rw (text_leb_total x y h) refl)
]

evidence_sym :
    (document : Task → Text) (digest : Text → Text) (a b : Task)
    → evidence document digest a b ≡ evidence document digest b a
unfolding evidence
evidence_sym document digest a b = ap digest (sorted_pair (document a) (document b))

-- What a verdict decides.
abbrev weight : Verdict → ℕ
weight unreviewed = 0
weight compatible = 1
weight (incompatible reason) = 2

both_verdicts_sym : (v w : Verdict) → weight (both_verdicts v w) ≡ weight (both_verdicts w v)
both_verdicts_sym unreviewed unreviewed = refl
both_verdicts_sym unreviewed compatible = refl
both_verdicts_sym unreviewed (incompatible r) = refl
both_verdicts_sym compatible unreviewed = refl
both_verdicts_sym compatible compatible = refl
both_verdicts_sym compatible (incompatible r) = refl
both_verdicts_sym (incompatible r) unreviewed = refl
both_verdicts_sym (incompatible r) compatible = refl
both_verdicts_sym (incompatible r) (incompatible q) = refl

abbrev concludes : Bool → ℕ → Bool → Bool
concludes behaves weight concerned = behaves || weight == 2 || (weight == 0 && concerned)

is_some-conclude :
    (b : Option Conflict) (v : Verdict) (cs : List Concern)
    → is_some (conclude b v cs) ≡ concludes (is_some b) (weight v) (some_concern cs)
is_some-conclude (some c) v cs = refl
is_some-conclude none unreviewed [] = refl
is_some-conclude none unreviewed (c ∷ cs) = refl
is_some-conclude none compatible cs = refl
is_some-conclude none (incompatible r) cs = refl

-- Two tasks whose declared behaviors have distinct keys conflict as seen from the one exactly when
-- they conflict as seen from the other.
pub overlap-symmetric :
    (document : Task → Text) (digest : Text → Text) (changed : List Text) (a b : Task)
    → IsMap a.meta.scope.behavior
    → IsMap b.meta.scope.behavior
    → is_some (overlap document digest changed a b) ≡ is_some (overlap document digest changed b a)
unfolding overlap
overlap-symmetric document digest changed a b m n =
    let v = verdict_of (review_of (evidence document digest a b) a b) in
    let w = verdict_of (review_of (evidence document digest a b) b a) in
    rw (evidence_sym document digest b a) (
      is_some-conclude _ (both_verdicts v w) (concerns changed a b)
      ∙ rw (is_some-behavior (contradicts b.meta.scope.behavior) a.meta.scope.behavior) (
          rw (contradicts_sym a.meta.scope.behavior b.meta.scope.behavior m n) (
            rw (both_verdicts_sym v w) (
              rw (concerns_sym changed a b) (
                rw⁻¹ (is_some-behavior (contradicts a.meta.scope.behavior) b.meta.scope.behavior)
                  refl))))
      ∙ sym (is_some-conclude _ (both_verdicts w v) (concerns changed b a)))
