-- ===== src/Coordination/Symbols.antt =====
-- Paths, and the code symbols that a task names: `path_overlap` and `inferred_symbols` of
-- src/coordination.rs and `strip` of src/task/coordination.rs. A text is valid UTF-8.
use clt_rs.Prelude.{
  ℕ, Bool, true, false, ◌&&◌, ◌||◌, not, Option, none, some, List, [], ◌∷◌, ◌++◌, if◌then◌else◌,
  ltb, leb, ◌==◌, is_some, Text, codes, text_eq, starts_with, length,
}
use clt_rs.Sql.{any, select}
use clt_rs.Coordination.{is_empty}

unfoldable pub trim_slashes : Text → Text
trim_slashes [] = []
trim_slashes (c ∷ cs) =
    let rest = trim_slashes cs in if is_empty rest && c == b'/' then [] else c ∷ rest

unfoldable pub trim_dot_slashes : Text → Text
trim_dot_slashes [] = []
trim_dot_slashes (c ∷ []) = c ∷ []
trim_dot_slashes (c ∷ d ∷ cs) =
    let rest = trim_dot_slashes cs in if c == b'.' && d == b'/' then rest else c ∷ d ∷ cs

abbrev or_mismatch : Bool → Option Text → Option Text
or_mismatch true rest = rest
or_mismatch false rest = none

unfoldable pub strip_prefix : Text → Text → Option Text
strip_prefix s [] = some s
strip_prefix [] (p ∷ ps) = none
strip_prefix (c ∷ s) (p ∷ ps) = or_mismatch (c == p) (strip_prefix s ps)

abbrev starts_slash : Option Text → Bool
starts_slash none = false
starts_slash (some []) = false
starts_slash (some (c ∷ cs)) = c == b'/'

-- `a` names a file below the directory `b`.
unfoldable pub is_below : Text → Text → Bool
unfolding strip_prefix
is_below a b = starts_slash (strip_prefix a b)

unfoldable pub trimmed_path : Text → Text
unfolding trim_slashes trim_dot_slashes
trimmed_path a = trim_dot_slashes (trim_slashes a)

unfoldable pub path_overlap : Text → Text → Bool
unfolding text_eq is_below trimmed_path
path_overlap a b =
    let x = trimmed_path a in let y = trimmed_path b in text_eq x y || is_below x y || is_below y x

-- The characters of a text, each the list of its bytes.
abbrev attach : ℕ → List Text → List Text
attach b [] = (b ∷ []) ∷ []
attach b ([] ∷ cs) = (b ∷ []) ∷ cs
attach b ((c ∷ cs) ∷ rest) =
    if leb 128 c && ltb c 192 then (b ∷ c ∷ cs) ∷ rest else (b ∷ []) ∷ (c ∷ cs) ∷ rest

unfoldable pub chars : Text → List Text
chars [] = []
chars (b ∷ bs) = attach b (chars bs)

-- `char::is_whitespace`: the characters with the Unicode property White_Space.
unfoldable pub is_whitespace : Text → Bool
is_whitespace [] = false
is_whitespace (b ∷ []) = (leb 9 b && leb b 13) || b == 32
is_whitespace (b ∷ c ∷ []) = b == 194 && (c == 133 || c == 160)
is_whitespace (b ∷ c ∷ d ∷ []) =
    (b == 225 && c == 154 && d == 128)
    || (b == 226 && c == 128 && ((leb 128 d && leb d 138) || d == 168 || d == 169 || d == 175))
    || (b == 226 && c == 129 && d == 159)
    || (b == 227 && c == 128 && d == 128)
is_whitespace (b ∷ c ∷ d ∷ e ∷ rest) = false

unfoldable pub trim_front : List Text → List Text
unfolding is_whitespace
trim_front [] = []
trim_front (c ∷ cs) = let rest = trim_front cs in if is_whitespace c then rest else c ∷ cs

abbrev no_chars : List Text → Bool
no_chars [] = true
no_chars (c ∷ cs) = false

unfoldable pub trim_back : List Text → List Text
unfolding is_whitespace
trim_back [] = []
trim_back (c ∷ cs) =
    let rest = trim_back cs in if no_chars rest && is_whitespace c then [] else c ∷ rest

unfoldable pub joined : List Text → Text
joined [] = []
joined (c ∷ cs) = c ++ joined cs

unfoldable pub trim : Text → Text
unfolding joined trim_back trim_front chars
trim t = joined (trim_back (trim_front (chars t)))

-- The text before the first occurrence of a part, and the text from there on.
abbrev push_front : ℕ → Option (Text × Text) → Option (Text × Text)
push_front c none = none
push_front c (some (before, rest)) = some (c ∷ before, rest)

unfoldable pub cut : Text → Text → Option (Text × Text)
unfolding starts_with
cut part [] = none
cut part (c ∷ cs) =
    let rest = cut part cs in
    if starts_with (c ∷ cs) part then some ([], c ∷ cs) else push_front c rest

abbrev pub metadata_prefix : Text
metadata_prefix = codes "<!-- clt-coordination: "

abbrev pub metadata_suffix : Text
metadata_suffix = codes " -->"

abbrev without_second : Text → Text → Option Text → Text
without_second content before none = content
without_second content before (some after) =
    if is_some (cut metadata_prefix after) then content else trim (before ++ after)

abbrev without_span : Text → Text → Option (Text × Text) → Text
without_span content before none = content
without_span content before (some (inside, rest)) =
    without_second content before (strip_prefix rest metadata_suffix)

abbrev without_metadata : Text → Option (Text × Text) → Text
without_metadata content none = content
without_metadata content (some (before, rest)) =
    without_span content before (cut metadata_suffix rest)

unfoldable pub strip : Text → Text
unfolding cut strip_prefix trim
strip content = without_metadata content (cut metadata_prefix content)

abbrev first_piece : ℕ → Bool → List Text → List Text
first_piece c true pieces = [] ∷ pieces
first_piece c false [] = (c ∷ []) ∷ []
first_piece c false (piece ∷ pieces) = (c ∷ piece) ∷ pieces

unfoldable pub split : ℕ → Text → List Text
split at [] = [] ∷ []
split at (c ∷ cs) = first_piece c (c == at) (split at cs)

-- The pieces at odd positions.
unfoldable pub odd_pieces : List Text → List Text
odd_pieces [] = []
odd_pieces (a ∷ []) = []
odd_pieces (a ∷ b ∷ rest) = b ∷ odd_pieces rest

unfoldable pub ends_with : Text → Text → Bool
unfolding text_eq
ends_with [] part = text_eq [] part
ends_with (c ∷ cs) part = text_eq (c ∷ cs) part || ends_with cs part

unfoldable pub is_symbol : Text → Bool
unfolding cut any is_whitespace chars ends_with
is_symbol symbol =
    ltb 3 (length symbol)
    && not (any is_whitespace (chars symbol))
    && (is_some (cut (codes "/") symbol)
        || is_some (cut (codes "::") symbol)
        || is_some (cut (codes "_") symbol)
        || ends_with symbol (codes ".rs"))

unfoldable pub trim_all : List Text → List Text
unfolding trim
trim_all [] = []
trim_all (t ∷ ts) = trim t ∷ trim_all ts

-- The symbols that a task's content names between backticks.
unfoldable pub symbols_of : Text → List Text
unfolding select is_symbol trim_all odd_pieces split strip
symbols_of content = select is_symbol (trim_all (odd_pieces (split b'`' (strip content))))
