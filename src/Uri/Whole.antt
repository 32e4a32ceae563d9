-- ===== src/Uri/Whole.antt =====
-- `hemp_uri_split` of library/uri.c to its end: the matchers of Split, and then the elements of the path and the
-- parameters of the query.
use hemp.Base.{ℕ, suc, ◌<◌, ◌≡◌, Option, none, some, List, [], ◌++◌, length, ◌⊎◌}
use hemp.Chars.{Str}
use hemp.Uri.Split.{Uri, split}
use hemp.Uri.Join.{text}
use hemp.Uri.Text.{Leftover}
use hemp.Uri.Parts.{Parsed, missing_key, missing_equals, no_fuel, params, split_path, split_query}
use hemp.Uri.Queries.{Queried}
use hemp.Uri.PartLaws.{Glued}

-- How a split ends: with the parts, what no matcher took, the elements of the path and the parameters; with the fatal
-- error of `hemp_uri_split_query`; or not, where the list of the elements does not grow.
pub data Ending : Type 0 where
  complete : Uri → Str → List (Option Str) → List (Str × ℕ) → Ending
  bad_query : Ending
  endless : Ending

-- The elements of a path that is there, and the buffer behind them
abbrev pub path_elements : Option Str → Str → Option (List (Option Str) × Str)
path_elements none buffer = some ([], buffer)
path_elements (some path) buffer = split_path (suc (length path)) path buffer

abbrev pub query_params : Option Str → Str → Parsed
query_params none buffer = params [] buffer
query_params (some query) buffer = split_query (suc (length query)) query buffer

abbrev pub with_query : Uri → Str → List (Option Str) → Parsed → Ending
with_query u rest names (params ps buffer) = complete u rest names ps
with_query u rest names missing_key = bad_query
with_query u rest names missing_equals = bad_query
with_query u rest names no_fuel = endless

abbrev pub with_elements : Uri → Str → Option (List (Option Str) × Str) → Ending
with_elements u rest none = endless
with_elements u rest (some (names, buffer)) = with_query u rest names (query_params u.query buffer)

-- `hemp_uri_split`, by the bytes that the matchers have copied to the buffer
unfoldable pub split_uri : Str → Str → Ending
unfolding split split_path split_query
split_uri copied s = let (u, rest) = split s in with_elements u rest (path_elements u.path copied)

-- The elements of a path, or of none
abbrev pub Elements : Option Str → List (Option Str) → Type 0
Elements none names = names ≡ []
Elements (some path) names = Glued names path

-- The parameters of a query, or of none. The buffer is what the other parts have left there.
abbrev pub Params : Option Str → List (Str × ℕ) → Type 0
Params none ps = ps ≡ []
Params (some query) ps = (buffer end : Str) × Queried query buffer (params ps end)

-- A query that stops the program, at a key or at `=`.
abbrev pub Refused : Str → Type 0
Refused query =
    (buffer : Str) × (Queried query buffer missing_key ⊎ Queried query buffer missing_equals)

-- How the split of a text may end.
unfoldable pub SplitEnds : Str → Ending → Type 0
unfolding text
SplitEnds s (complete u rest names ps) =
    (text u ++ rest ≡ s) × Leftover rest × Elements u.path names × Params u.query ps
SplitEnds s bad_query = (query : Str) × ((split s).0.query ≡ some query) × Refused query
SplitEnds s endless = (path : Str) × ((split s).0.path ≡ some path) × (32768 < length path)
