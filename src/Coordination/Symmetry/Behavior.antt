-- ===== src/Coordination/Symmetry/Behavior.antt =====
-- The declared behaviors of two tasks: the first loop of `overlap` of src/coordination.rs.
use clt_rs.Prelude.{
  ◌≡◌, refl, sym, ap, ◌∙◌, inl, inr, Bool, true, false, ◌&&◌, Option, none, some, List, [], ◌∷◌,
  arith, Bool-cases, is_some, unwrap_or, Text, text_eq, text_eq→eq, text_eq_refl, text_eq_sym,
}
use clt_rs.Sql.{any, find}
use clt_rs.Sql.Laws.{any_mono}
use clt_rs.Coordination.Overlap.{get, differs_from, contradicts, behavior_of}

-- A list of pairs with distinct keys.
abbrev pub IsMap : List (Text × Text) → Type 0
IsMap [] = Unit {0}
IsMap ((k, v) ∷ rest) = (get k rest ≡ none) × IsMap rest

some_injective : {v w : Text} → some v ≡ some w → v ≡ w
some_injective {v} e = ap (λ o. unwrap_or o v) e

abbrev same_pair : Text → Text → Text × Text → Bool
same_pair k v p = text_eq p.0 k && text_eq p.1 v

get_value :
    (ps : List (Text × Text)) (k v : Text) → get k ps ≡ some v → any (same_pair k v) ps ≡ true
unfolding get any
get_value [] k v h = absurd cc
get_value ((k', v') ∷ ps) k v h = elim (Bool-cases (text_eq k' k)) [
  | inl e ↦
      let n = some_injective {v = v'} {w = v} (ground (arith, e)) in
      rw e (rw n (ground (arith, text_eq_refl v)))
  | inr e ↦ ground (arith, get_value ps k v)
]

no_key : (ps : List (Text × Text)) (k v : Text) → get k ps ≡ none → any (same_pair k v) ps ≡ false
unfolding get any
no_key [] k v h = refl
no_key ((k', v') ∷ ps) k v h = ground (arith, no_key ps k v)

get_of_pair :
    (ps : List (Text × Text)) (k v : Text)
    → IsMap ps
    → any (same_pair k v) ps ≡ true
    → get k ps ≡ some v
unfolding get any
get_of_pair [] k v m h = absurd cc
get_of_pair ((k', v') ∷ ps) k v m h = elim (Bool-cases (text_eq k' k)) [
  | inl e ↦
      let n = no_key ps k v (ap (λ z. get z ps) (sym (text_eq→eq k' k e)) ∙ m.0) in
      rw e (ap (λ z. some z) (text_eq→eq v' v (ground arith)))
  | inr e ↦ rw e (get_of_pair ps k v m.1 (ground arith))
]

pair_of_any :
    (p : Text × Text → Bool) (ps : List (Text × Text))
    → any p ps ≡ true
    → (k v : Text) × (p (k, v) ≡ true) × (any (same_pair k v) ps ≡ true)
unfolding any
pair_of_any p [] h = absurd cc
pair_of_any p ((k, v) ∷ ps) h = elim (Bool-cases (p (k, v))) [
  | inl e ↦ (k, v, e, ground (arith, text_eq_refl k, text_eq_refl v))
  | inr e ↦ let (k', v', e', m) = pair_of_any p ps (ground arith) in (k', v', e', ground arith)
]

differs_value :
    (v : Text) (o : Option Text)
    → differs_from v o ≡ true
    → (w : Text) × (o ≡ some w) × (text_eq w v ≡ false)
differs_value v none h = absurd cc
differs_value v (some w) h = (w, refl, ground (arith, text_eq_sym v w))

back :
    (xs : List (Text × Text)) (k v w : Text) (p : Text × Text)
    → get k xs ≡ some v
    → text_eq w v ≡ false
    → same_pair k w p ≡ true
    → contradicts xs p ≡ true
unfolding contradicts
back xs k v w (k', w') g n h =
    let e = text_eq→eq k' k (ground arith) in
    let f = text_eq→eq w' w (ground arith) in rw e (rw f (rw g (rw n refl)))

contradicts_back :
    (xs ys : List (Text × Text))
    → IsMap xs
    → any (contradicts ys) xs ≡ true
    → any (contradicts xs) ys ≡ true
contradicts_back xs ys m h =
    let (k, v, e, a) = pair_of_any (contradicts ys) xs h in
    let (w, g, n) = differs_value v (get k ys) (unfold contradicts in e) in
    any_mono (same_pair k w) (contradicts xs) ys
      (λ p q. back xs k v w p (get_of_pair xs k v m a) n q) (get_value ys k w g)

pub contradicts_sym :
    (xs ys : List (Text × Text))
    → IsMap xs
    → IsMap ys
    → any (contradicts ys) xs ≡ any (contradicts xs) ys
contradicts_sym xs ys m n = elim (Bool-cases (any (contradicts ys) xs)) [
  | inl h ↦ h ∙ sym (contradicts_back xs ys m h)
  | inr h ↦ elim (Bool-cases (any (contradicts xs) ys)) [
    | inl k ↦ absurd (ground (arith, contradicts_back ys xs n k))
    | inr k ↦ h ∙ sym k
  ]
]

pub is_some-behavior :
    (p : Text × Text → Bool) (ps : List (Text × Text))
    → is_some (behavior_of (find p ps)) ≡ any p ps
unfolding find any
is_some-behavior p [] = refl
is_some-behavior p ((k, v) ∷ ps) = elim (Bool-cases (p (k, v))) [
  | inl e ↦ rw e refl
  | inr e ↦ rw e (is_some-behavior p ps)
]
