-- ===== src/Strings/Scan.antt =====
-- The functions on strings of library/type/string.c: tests, walks over words and lines, trimming and
-- splitting. `strstr` and the tests of <ctype.h> are those of Chars and of `cut`. A pointer into the
-- string is what is left of it from there on.
use hemp.Base.{
  ℕ, zero, suc, ◌+◌, ◌-◌, Bool, true, false, ◌&&◌, ◌||◌, not, Option, none, some, List, [], ◌∷◌,
  ◌==◌, if◌then◌else◌, length, ltb, leb, ◌>>=◌,
}
use hemp.ListType.Pushes.{pushed}
use hemp.Chars.{Str, is_digit, is_alnum, is_space, span, after_all}

-- `*string ? string : NULL`
abbrev pub unless_end : Str → Option Str
unless_end [] = none
unless_end (c ∷ s) = some (c ∷ s)

abbrev pub at_end : Str → Bool
at_end [] = true
at_end (c ∷ s) = false

unfoldable pub wordlike : Str → Bool
unfolding span is_alnum
wordlike s = at_end (span (λ c. is_alnum c || c == b'_') s).1

unfoldable pub intlike : Str → Bool
unfolding span is_digit
intlike s = at_end (span is_digit s).1

unfoldable pub next_space : Str → Option Str
next_space s = unless_end (span (λ c. not (is_space c)) s).1

unfoldable pub next_nonspace : Str → Option Str
next_nonspace s = unless_end (span is_space s).1

-- A CR takes a LF behind it along.
unfoldable pub next_line : Str → Option Str
next_line [] = none
next_line (c ∷ s) =
    let rest = next_line s in
    if c == 10
    then some s
    else if c == 13
    then some (elim s [ [] ↦ [] | d ∷ s' ↦ if d == 10 then s' else d ∷ s' ])
    else rest

-- The walk back from the end over whitespace.
abbrev pub unless_space : ℕ → Str → Str
unless_space c [] = if is_space c then [] else c ∷ []
unless_space c (d ∷ s) = c ∷ d ∷ s

unfoldable pub chomp : Str → Str
chomp [] = []
chomp (c ∷ s) = unless_space c (chomp s)

-- The first character that is no space is kept whatever it is.
abbrev pub chomp_rest : Str → Str
unfolding chomp
chomp_rest [] = []
chomp_rest (c ∷ s) = c ∷ chomp s

unfoldable pub trim : Str → Str
unfolding span chomp_rest
trim s = chomp_rest (span is_space s).1

-- `strstr (s, d)`: what is before the first `d`, and what is behind it.
unfoldable pub cut : Str → Str → Option (Str × Str)
cut d [] = elim (after_all d []) [ some r ↦ some ([], r) | none ↦ none ]
cut d (c ∷ s) =
    let later = cut d s in
    elim (after_all d (c ∷ s)) [
      | some r ↦ some ([], r)
      | none ↦ elim later [ none ↦ none | some (item, r) ↦ some (c ∷ item, r) ]
    ]

-- The rest of a split behind one search.
abbrev pub split_round : (Str → Option (List Str)) → Str → Option (Str × Str) → Option (List Str)
split_round loop s none = some (s ∷ [])
split_round loop s (some (item, rest)) = loop rest >>= λ items. some (item ∷ items)

unfoldable pub split_loop : ℕ → Str → Str → Option (List Str)
split_loop zero d s = none
split_loop (suc f) d s = split_round (split_loop f d) s (cut d s)

-- `hemp_string_split`, whose items are pushed on a new list
unfoldable pub split : ℕ → Str → Str → Option (List Str)
unfolding split_loop pushed
split f d s = split_loop f d s >>= λ items. pushed items

-- A round of `hemp_string_nwords` at a word: the last one takes all that is left.
abbrev pub word_round : (Str → ℕ → Option (List Str)) → Str → ℕ → ℕ → Str × Str → Option (List Str)
word_round loop from size max (word, []) = some (from ∷ [])
word_round loop from size max (word, c ∷ rest) =
    if ltb 0 max && leb max size
    then some (from ∷ [])
    else loop (c ∷ rest) size >>= λ words. some (word ∷ words)

unfoldable pub word_loop : ℕ → ℕ → Str → ℕ → Option (List Str)
unfolding next_nonspace
word_loop zero max s size = none
word_loop (suc f) max s size = elim (next_nonspace s) [
  | none ↦ some []
  | some from ↦ word_round (word_loop f max) from (size + 1) max (span (λ c. not (is_space c)) from)
]

-- The words, with a round of fuel for each byte and one more; NULL if there are none.
unfoldable pub nwords : Str → ℕ → Option (Option (List Str))
nwords s max = word_loop (suc (length s)) max s 0 >>= λ words. elim words [
  | [] ↦ some none
  | w ∷ ws ↦ some (some (w ∷ ws))
]

pub record Location : Type 0 where
  pub position : ℕ
  pub line : ℕ
  pub extract : ℕ
  pub column : ℕ

-- The loop of `hemp_string_location`; positions are counted from the start of a string of `size`
-- bytes.
unfoldable pub location_loop : ℕ → ℕ → ℕ → Str → ℕ → ℕ → Option (ℕ × ℕ)
unfolding next_line
location_loop zero size marker scan line extract = none
location_loop (suc f) size marker scan line extract = elim (next_line scan) [
  | none ↦ some (line, extract)
  | some rest ↦
      let more = location_loop f size marker rest (line + 1) (size - length rest) in
      if ltb (size - length rest) marker then more else some (line, extract)
]

unfoldable pub location : Str → ℕ → Option Location
unfolding location_loop
location s marker = do
  (line, extract) ← location_loop (suc (length s)) (length s) marker s 1 0
  some (record { position = marker; line = line; extract = extract; column = marker - extract })
