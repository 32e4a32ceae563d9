-- ===== src/Uri/Split.antt =====
-- `hemp_uri_split` of library/uri.c up to the fragment: one matcher for each part of the text.
--
-- A matcher hands back its part and the rest of the source; where it fails, the rest is the whole
-- source and the part stays NULL, here `none`. `hemp_mem_fail` ends the program, so memory is taken
-- to be there. The copies of the parts in the buffer are the strings themselves.
use hemp.Base.{ℕ, Bool, ◌&&◌, ◌||◌, not, Option, none, some, [], ◌∷◌, ◌==◌, if◌then◌else◌}
use hemp.Chars.{Str, is_digit, is_alpha, is_alnum, span, after, after_all}

-- `struct hemp_uri` without the list and the hash of its parts (Uri/Parts.antt). Of `authority`,
-- which is only tested, the text is that behind the "//".
pub record Uri : Type 0 where
  pub scheme : Option Str
  pub authority : Option Str
  pub user : Option Str
  pub host : Option Str
  pub port : Option Str
  pub path : Option Str
  pub query : Option Str
  pub fragment : Option Str

-- `hemp_uri_wipe`
abbrev pub wiped : Uri
wiped = record {
  scheme = none;
  authority = none;
  user = none;
  host = none;
  port = none;
  path = none;
  query = none;
  fragment = none;
}

-- A part and the rest of the source.
abbrev pub Match : Type 0
Match = Option Str × Str

-- `HEMP_URI_MATCHED` if the buffer has moved, and else nothing.
abbrev pub matched : Str → Str → Str → Match
matched source [] rest = (none, source)
matched source (c ∷ part) rest = (some (c ∷ part), rest)

-- The characters of a scheme behind the first.
unfoldable pub scheme_char : ℕ → Bool
unfolding is_alnum
scheme_char c = c == b'.' || (c == b'-' || (c == b'+' || is_alnum c))

unfoldable pub match_scheme : Str → Match
unfolding is_alpha scheme_char span after
match_scheme [] = (none, [])
match_scheme (c ∷ s) =
    let (part, rest) = span scheme_char s in
    if is_alpha c
    then elim (after b':' rest) [ some r ↦ (some (c ∷ part), r) | none ↦ (none, c ∷ s) ]
    else (none, c ∷ s)

unfoldable pub match_user : Str → Match
unfolding span after
match_user s =
    let (part, rest) = span (λ c. not (c == b'@')) s in
    elim (after b'@' rest) [ some r ↦ (some part, r) | none ↦ (none, s) ]

unfoldable pub match_host : Str → Match
unfolding span
match_host s =
    let (part, rest) = span (λ c. not (c == b':') && not (c == b'/')) s in matched s part rest

unfoldable pub match_port : Str → Match
unfolding span after is_digit
match_port s = elim (after b':' s) [
  | some s' ↦ let (part, rest) = span is_digit s' in matched s part rest
  | none ↦ (none, s)
]

unfoldable pub match_path : Str → Match
unfolding span
match_path s =
    let (part, rest) = span (λ c. not (c == b'?') && not (c == b'#')) s in matched s part rest

unfoldable pub match_query : Str → Match
unfolding span after
match_query s = elim (after b'?' s) [
  | some s' ↦ let (part, rest) = span (λ c. not (c == b'#')) s' in matched s part rest
  | none ↦ (none, s)
]

unfoldable pub match_fragment : Str → Match
unfolding after
match_fragment s = elim (after b'#' s) [ some s' ↦ matched s s' [] | none ↦ (none, s) ]

-- `hemp_uri_match_authority` sets four fields.
unfoldable pub match_authority : Uri → Str → Uri × Str
unfolding after_all match_user match_host match_port
match_authority u s = elim (after_all (b'/' ∷ b'/' ∷ []) s) [
  | none ↦ (u, s)
  | some r ↦
      let (user, r₁) = match_user r in
      let (host, r₂) = match_host r₁ in
      let (port, r₃) = match_port r₂ in
      (record u { authority = some r; user = user; host = host; port = port }, r₃)
]

-- The five calls of `hemp_uri_split`, and what they leave of the source.
unfoldable pub split : Str → Uri × Str
unfolding match_scheme match_authority match_path match_query match_fragment
split s =
    let (scheme, r₁) = match_scheme s in
    let (u, r₂) = match_authority (record wiped { scheme = scheme }) r₁ in
    let (path, r₃) = match_path r₂ in
    let (query, r₄) = match_query r₃ in
    let (fragment, r₅) = match_fragment r₄ in
    (record u { path = path; query = query; fragment = fragment }, r₅)
