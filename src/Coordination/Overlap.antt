-- ===== src/Coordination/Overlap.antt =====
-- Whether two tasks may run together: `evidence` and `overlap` of src/coordination.rs. The JSON
-- document of a task and the UUID of a text are parameters.
use clt_rs.Prelude.{
  Bool, false, ◌&&◌, ◌||◌, not, Option, none, some, List, [], ◌∷◌, ◌++◌, if◌then◌else◌, Text, codes,
  text_eq, starts_with, text_leb,
}
use clt_rs.Sql.{any, find, select}
use clt_rs.Coordination.{Task, Scope, Review, contains, is_empty}
use clt_rs.Coordination.Symbols.{path_overlap, symbols_of}

-- `evidence`: the digest of the two documents, in order.
unfoldable pub evidence : (Task → Text) → (Text → Text) → Task → Task → Text
unfolding text_leb
evidence document digest a b =
    let x = document a in
    let y = document b in digest (if text_leb x y then x ++ 10 ∷ y else y ++ 10 ∷ x)

pub data Contract : Type 0 where
  module_contract interface_contract resource_contract : Contract

pub data Concern : Type 0 where
  shared_contract : Contract → Text → Concern
  -- Whether the file has current edits.
  shared_file : Text → Bool → Concern
  shared_symbol : Text → Concern
  scope_meets : Text → Concern

-- Why two tasks may not run together.
pub data Conflict : Type 0 where
  behavior_conflict : Text → Text → Conflict
  review_conflict : Text → Conflict
  potential_overlap : List Concern → Conflict

unfoldable pub get : Text → List (Text × Text) → Option Text
unfolding text_eq
get key [] = none
get key ((k, v) ∷ rest) = if text_eq k key then some v else get key rest

abbrev pub differs_from : Text → Option Text → Bool
differs_from v none = false
differs_from v (some w) = not (text_eq v w)

unfoldable pub contradicts : List (Text × Text) → Text × Text → Bool
unfolding get text_eq
contradicts others pair = differs_from pair.1 (get pair.0 others)

abbrev pub behavior_of : Option (Text × Text) → Option Conflict
behavior_of none = none
behavior_of (some (key, value)) = some (behavior_conflict key value)

unfoldable pub assesses : Text → Text → Review → Bool
unfolding text_eq
assesses peer stamp r = text_eq r.other peer && text_eq r.evidence stamp

-- The review that `owner` holds of `peer` under the stamp.
unfoldable pub review_of : Text → Task → Task → Option Review
unfolding find assesses
review_of stamp owner peer =
    if is_empty peer.meta.id then none else find (assesses peer.meta.id stamp) owner.meta.reviews

pub data Verdict : Type 0 where
  unreviewed compatible : Verdict
  incompatible : Text → Verdict

abbrev pub verdict_of : Option Review → Verdict
verdict_of none = unreviewed
verdict_of (some r) = if r.compatible then compatible else incompatible r.reason

abbrev pub both_verdicts : Verdict → Verdict → Verdict
both_verdicts (incompatible reason) second = incompatible reason
both_verdicts unreviewed second = second
both_verdicts compatible unreviewed = compatible
both_verdicts compatible compatible = compatible
both_verdicts compatible (incompatible reason) = incompatible reason

unfoldable pub each_concern : (Text → Concern) → List Text → List Concern
each_concern f [] = []
each_concern f (x ∷ xs) = f x ∷ each_concern f xs

unfoldable pub shared_contracts : Contract → List Text → List Text → List Concern
unfolding each_concern select contains
shared_contracts kind ours theirs =
    each_concern (shared_contract kind) (select (λ item. contains item theirs) ours)

unfoldable pub shared_files : List Text → List Text → List Text → List Concern
unfolding each_concern select any path_overlap
shared_files changed ours theirs =
    each_concern (λ file. shared_file file (any (path_overlap file) changed))
      (select (λ file. any (path_overlap file) theirs) ours)

unfoldable pub shared_symbols : List Text → List Text → List Concern
unfolding each_concern select contains
shared_symbols ours theirs =
    each_concern shared_symbol (select (λ symbol. contains symbol theirs) ours)

-- A declared contract or file of the scope meets a symbol.
unfoldable pub scope_names : Scope → Text → Bool
unfolding any path_overlap text_eq starts_with
scope_names scope symbol =
    any (λ file. path_overlap file symbol) scope.files
    || any (λ name. text_eq name symbol || starts_with symbol (name ++ codes "::"))
        (scope.modules ++ scope.interfaces ++ scope.resources)

unfoldable pub met_symbols : Scope → List Text → List Concern
unfolding each_concern select scope_names
met_symbols scope named = each_concern scope_meets (select (scope_names scope) named)

unfoldable pub concerns : List Text → Task → Task → List Concern
unfolding shared_contracts shared_files shared_symbols met_symbols symbols_of
concerns changed task other =
    let a = task.meta.scope in
    let b = other.meta.scope in
    let ours = symbols_of task.entry.content in
    let theirs = symbols_of other.entry.content in
    shared_contracts module_contract a.modules b.modules
    ++ shared_contracts interface_contract a.interfaces b.interfaces
    ++ shared_contracts resource_contract a.resources b.resources
    ++ shared_files changed a.files b.files
    ++ shared_symbols ours theirs
    ++ met_symbols a theirs
    ++ met_symbols b ours

abbrev pub conclude : Option Conflict → Verdict → List Concern → Option Conflict
conclude (some c) verdict cs = some c
conclude none (incompatible reason) cs = some (review_conflict reason)
conclude none compatible cs = none
conclude none unreviewed [] = none
conclude none unreviewed (c ∷ cs) = some (potential_overlap (c ∷ cs))

unfoldable pub overlap : (Task → Text) → (Text → Text) → List Text → Task → Task → Option Conflict
unfolding find contradicts review_of evidence concerns
overlap document digest changed task other =
    let stamp = evidence document digest task other in
    conclude (behavior_of (find (contradicts other.meta.scope.behavior) task.meta.scope.behavior))
      (both_verdicts (verdict_of (review_of stamp task other))
        (verdict_of (review_of stamp other task)))
      (concerns changed task other)
