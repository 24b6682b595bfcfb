-- ===== src/Coordination/Symmetry/Concerns.antt =====
-- The concerns of two tasks: `concerns` within `overlap` of src/coordination.rs.
use clt_rs.Prelude.{
  ◌≡◌, refl, sym, ap, ◌∙◌, Bool, true, false, ◌||◌, List, [], ◌∷◌, ◌++◌, arith, Text, text_eq,
  text_eq_sym,
}
use clt_rs.Sql.{any, select}
use clt_rs.Sql.Laws.{any_congr}
use clt_rs.Coordination.{Task, contains}
use clt_rs.Coordination.Symbols.{path_overlap, symbols_of, is_below, trimmed_path}
use clt_rs.Coordination.Overlap.{
  Contract, module_contract, interface_contract, resource_contract, Concern, shared_contract,
  shared_symbol, each_concern, shared_contracts, shared_files, shared_symbols, met_symbols,
  concerns,
}

or_tail : (p f g : Bool) → (p || f || g) ≡ (p || g || f)
or_tail true f g = ground arith
or_tail false true true = refl
or_tail false true false = refl
or_tail false false true = refl
or_tail false false false = refl

or_swap : (a a' b c : Bool) → a ≡ a' → (a || b || c) ≡ (a' || c || b)
or_swap a a' b c e = rw e (or_tail a' b c)

path_overlap_sym : (a b : Text) → path_overlap a b ≡ path_overlap b a
unfolding path_overlap
path_overlap_sym a b =
    let x = trimmed_path a in
    let y = trimmed_path b in
    or_swap (text_eq x y) (text_eq y x) (is_below x y) (is_below y x) (text_eq_sym x y)

-- Whether a list of concerns holds one.
abbrev pub some_concern : List Concern → Bool
some_concern [] = false
some_concern (c ∷ cs) = true

some_concern-append :
    (xs ys : List Concern) → some_concern (xs ++ ys) ≡ (some_concern xs || some_concern ys)
some_concern-append [] ys = refl
some_concern-append (x ∷ xs) ys = refl

some_concern-each :
    (f : Text → Concern) (p : Text → Bool) (xs : List Text)
    → some_concern (each_concern f (select p xs)) ≡ any p xs
unfolding each_concern select any
some_concern-each f p [] = refl
some_concern-each f p (x ∷ xs) = ground (arith, some_concern-each f p xs)

any_nothing : (ys : List Text) → any (λ y. false) ys ≡ false
unfolding any
any_nothing [] = refl
any_nothing (y ∷ ys) = any_nothing ys

any_or : (p q : Text → Bool) (ys : List Text) → any (λ y. p y || q y) ys ≡ (any p ys || any q ys)
unfolding any
any_or p q [] = refl
any_or p q (y ∷ ys) = ground (arith, any_or p q ys)

any-any_swap :
    (r : Text → Text → Bool) (xs ys : List Text)
    → any (λ x. any (r x) ys) xs ≡ any (λ y. any (λ x. r x y) xs) ys
unfolding any
any-any_swap r [] ys = sym (any_nothing ys)
any-any_swap r (x ∷ xs) ys =
    ap (λ b. any (r x) ys || b) (any-any_swap r xs ys)
    ∙ sym (any_or (r x) (λ y. any (λ x. r x y) xs) ys)

contains-any : (x : Text) (ys : List Text) → contains x ys ≡ any (text_eq x) ys
unfolding contains any
contains-any x [] = refl
contains-any x (y ∷ ys) = ap (λ b. text_eq x y || b) (contains-any x ys)

meets_sym :
    (r : Text → Text → Bool) (xs ys : List Text)
    → ((x y : Text) → r x y ≡ r y x)
    → any (λ x. any (r x) ys) xs ≡ any (λ y. any (r y) xs) ys
meets_sym r xs ys h =
    any-any_swap r xs ys
    ∙ any_congr (λ y. any (λ x. r x y) xs) (λ y. any (r y) xs) ys
        (λ y. any_congr (λ x. r x y) (r y) xs (λ x. h x y))

common_sym : (xs ys : List Text) → any (λ x. contains x ys) xs ≡ any (λ y. contains y xs) ys
common_sym xs ys =
    any_congr (λ x. contains x ys) (λ x. any (text_eq x) ys) xs (λ x. contains-any x ys)
    ∙ meets_sym text_eq xs ys text_eq_sym
    ∙ sym (any_congr (λ y. contains y xs) (λ y. any (text_eq y) xs) ys (λ y. contains-any y xs))

shared_contracts_sym :
    (k : Contract) (xs ys : List Text)
    → some_concern (shared_contracts k xs ys) ≡ some_concern (shared_contracts k ys xs)
unfolding shared_contracts
shared_contracts_sym k xs ys =
    some_concern-each (shared_contract k) (λ i. contains i ys) xs
    ∙ common_sym xs ys
    ∙ sym (some_concern-each (shared_contract k) (λ i. contains i xs) ys)

shared_symbols_sym :
    (xs ys : List Text) → some_concern (shared_symbols xs ys) ≡ some_concern (shared_symbols ys xs)
unfolding shared_symbols
shared_symbols_sym xs ys =
    some_concern-each shared_symbol (λ i. contains i ys) xs
    ∙ common_sym xs ys
    ∙ sym (some_concern-each shared_symbol (λ i. contains i xs) ys)

shared_files_sym :
    (changed xs ys : List Text)
    → some_concern (shared_files changed xs ys) ≡ some_concern (shared_files changed ys xs)
unfolding shared_files
shared_files_sym changed xs ys =
    some_concern-each _ (λ f. any (path_overlap f) ys) xs
    ∙ meets_sym path_overlap xs ys path_overlap_sym
    ∙ sym (some_concern-each _ (λ f. any (path_overlap f) xs) ys)

some_concern_seven :
    (a b c d e f g : List Concern)
    → some_concern (a ++ b ++ c ++ d ++ e ++ f ++ g) ≡ (
        some_concern a
        || some_concern b
        || some_concern c
        || some_concern d
        || some_concern e
        || some_concern f
        || some_concern g)
some_concern_seven a b c d e f g = simp (some_concern-append)

pub concerns_sym :
    (changed : List Text) (a b : Task)
    → some_concern (concerns changed a b) ≡ some_concern (concerns changed b a)
unfolding concerns
concerns_sym changed a b =
    let x = a.meta.scope in
    let y = b.meta.scope in
    let m = symbols_of a.entry.content in
    let n = symbols_of b.entry.content in
    rw
      (some_concern_seven (shared_contracts module_contract x.modules y.modules)
        (shared_contracts interface_contract x.interfaces y.interfaces)
        (shared_contracts resource_contract x.resources y.resources)
        (shared_files changed x.files y.files) (shared_symbols m n) (met_symbols x n)
        (met_symbols y m))
      (rw (shared_contracts_sym module_contract x.modules y.modules) (
        rw (shared_contracts_sym interface_contract x.interfaces y.interfaces) (
          rw (shared_contracts_sym resource_contract x.resources y.resources) (
            rw (shared_files_sym changed x.files y.files) (
              rw (shared_symbols_sym m n) (
                rw (or_tail _ (some_concern (met_symbols x n)) (some_concern (met_symbols y m))) (
                  sym (
                    some_concern_seven (shared_contracts module_contract y.modules x.modules)
                      (shared_contracts interface_contract y.interfaces x.interfaces)
                      (shared_contracts resource_contract y.resources x.resources)
                      (shared_files changed y.files x.files) (shared_symbols n m) (met_symbols y m)
                      (met_symbols x n)))))))))
