-- ===== src/Uri/Parts.antt =====
-- `hemp_uri_split_path` and `hemp_uri_split_query` of library/uri.c.
--
-- Both copy into the one buffer of the URI. The list of bytes is what stands in the buffer before
-- the position to write at; a string there is an offset, and reads up to the next NUL.
use hemp.Base.{
  ℕ, zero, suc, ◌&&◌, not, Option, none, some, List, [], ◌∷◌, ◌++◌, ◌==◌, length, drop, ◌>>=◌,
}
use hemp.ListType.Pushes.{pushed}
use hemp.Chars.{Str, span, after}
use hemp.Hash.Table.{HashFunction, Table, store}

-- `if (*path) path++`
abbrev pub skip_one : Str → Str
skip_one [] = []
skip_one (c ∷ s) = s

-- An entry of the list: `HempEmpty`, or the copy of a name.
abbrev pub entry : Str → Option Str
entry [] = none
entry (c ∷ s) = some (c ∷ s)

abbrev pub copied : Str → Str
copied [] = []
copied (c ∷ s) = (c ∷ s) ++ 0 ∷ []

-- One name and what follows it; a round of fuel for each byte and one more is enough (`split_path-Names`).
unfoldable pub names_loop : ℕ → Str → Str → Option (List (Option Str) × Str)
names_loop zero path buffer = none
names_loop (suc f) [] buffer = some ([], buffer)
names_loop (suc f) (c ∷ path) buffer =
    let (name, rest) = span (λ d. not (d == b'/')) (c ∷ path) in
    let more = names_loop f (skip_one rest) (buffer ++ copied name) in
    elim more [ none ↦ none | some (names, end) ↦ some (entry name ∷ names, end) ]

-- `hemp_uri_split_path`, which pushes the names on a new list
unfoldable pub split_path : ℕ → Str → Str → Option (List (Option Str) × Str)
unfolding names_loop pushed
split_path f path buffer =
    names_loop f path buffer >>= λ (names, end). pushed names >>= λ list. some (list, end)

-- The string at an offset of the buffer.
unfoldable pub string_at : Str → ℕ → Str
unfolding span
string_at buffer at = (span (λ c. not (c == 0)) (drop at buffer)).0

-- What `hemp_uri_split_query` ends in: an error of `hemp_fatal`, or the parameters in their order,
-- each with its key and the offset of its value, and the buffer.
pub data Parsed : Type 0 where
  missing_key : Parsed
  missing_equals : Parsed
  no_fuel : Parsed
  params : List (Str × ℕ) → Str → Parsed

abbrev pub add_param : Str → ℕ → Parsed → Parsed
add_param key value missing_key = missing_key
add_param key value missing_equals = missing_equals
add_param key value no_fuel = no_fuel
add_param key value (params ps buffer) = params ((key, value) ∷ ps) buffer

-- The end of a round, where the value has been copied, and the rounds that follow. The NUL behind a
-- value is written at the position itself, where the next key starts.
unfoldable pub value_round : (Str → Str → Parsed) → Str → Str × Str → Str → Parsed
value_round loop key (value, next) buffer =
    let start = buffer ++ (key ++ 0 ∷ []) in
    add_param key (length start) (loop next (start ++ value))

-- The tests behind the copy of a key.
unfoldable pub key_round : (Str → Str → Parsed) → Str × Str → Str → Parsed
unfolding after value_round
key_round loop ([], rest) buffer = missing_key
key_round loop (k ∷ key, rest) buffer = elim (after b'=' rest) [
  | none ↦ missing_equals
  | some r ↦ value_round loop (k ∷ key) (span (λ d. not (d == b'&') && not (d == b';')) r) buffer
]

unfoldable pub split_query : ℕ → Str → Str → Parsed
unfolding key_round
split_query zero query buffer = no_fuel
split_query (suc f) [] buffer = params [] buffer
split_query (suc f) (c ∷ query) buffer =
    key_round (split_query f) (span (λ d. not (d == b'=')) (c ∷ query)) buffer

-- `hemp_hash_store_string` for each parameter, in their order.
unfoldable pub store_params : ⦃hash : HashFunction⦄ → List (Str × ℕ) → Table ℕ → Table ℕ
unfolding store
store_params [] t = t
store_params ((key, value) ∷ ps) t = store_params ps (store t key value)
