-- ===== src/Uri/Paths.antt =====
-- `hemp_uri_path_join`, `hemp_uri_merge_paths` and `hemp_uri_collapse_path` of library/uri.c.
--
-- Each writes a new buffer from its start on. `out` holds the bytes before the position `dst`; a
-- step of `dst` backwards cuts it. The loops are given a round for each byte of the source.
use hemp.Base.{
  ℕ, zero, suc, ◌+◌, ◌-◌, Bool, true, false, ◌&&◌, not, Option, none, some, [], ◌∷◌, ◌++◌, ◌==◌,
  if◌then◌else◌, length, drop, take, get_or, ltb,
}
use hemp.Chars.{Str, span, after, after_all, str_eq, last_slash}

-- `strncmp (s, p, strlen (p)) == 0`
unfoldable pub starts : Str → Str → Bool
starts p s = elim (after_all p s) [ none ↦ false | some _ ↦ true ]

-- Where a loop stands.
pub record Cursor : Type 0 where
  pub src : Str
  pub out : Str

-- The directory of a path: all up to its last slash, or nothing.
unfoldable pub directory : Str → Str
directory path = elim (last_slash path) [ none ↦ [] | some i ↦ take (i + 1) path ]

-- The byte before the terminating NUL of `base` is no slash.
unfoldable pub needs_slash : Str → Bool
needs_slash base = not (get_or base (length base - 1) 0 == b'/')

-- `baselen`: how much of the base is copied.
unfoldable pub base_length : Str → Str → Bool → ℕ
base_length [] rel is_dir = 0
base_length (b ∷ base) [] is_dir = 0
base_length (b ∷ base) (c ∷ rel) is_dir =
    if c == b'/' then 0 else if is_dir then length (b ∷ base) else length (directory (b ∷ base))

-- `dirslash`
unfoldable pub adds_slash : Str → Str → Bool → Bool
adds_slash [] rel is_dir = false
adds_slash (b ∷ base) [] is_dir = false
adds_slash (b ∷ base) (c ∷ rel) is_dir = not (c == b'/') && (is_dir && needs_slash (b ∷ base))

-- What stands in the new buffer before the loop.
unfoldable pub base_part : Str → Str → Bool → Str
base_part base rel is_dir =
    take (base_length base rel is_dir) base
    ++ (if adds_slash base rel is_dir then b'/' ∷ [] else [])

-- `while (dst > merged && *dst != '/') dst--`, where the last slash or the start is.
unfoldable pub rewind : Str → ℕ
rewind out = elim (last_slash out) [ none ↦ 0 | some i ↦ i ]

-- `..` in the relative path.
unfoldable pub go_up : Str → Str
go_up out =
    let dst = rewind out in
    if ltb 0 dst && (get_or out dst 0 == b'/' && get_or out (dst + 1) 0 == 0)
    then (let back = rewind (take dst out) in
        if get_or out back 0 == b'/' then take (back + 1) out else take back out)
    else take (dst + 1) (out ++ 0 ∷ [])

-- All up to and with the next slash is copied, or else all up to and with the NUL.
unfoldable pub copied_part : Str × Str → Str → Cursor
copied_part (part, rest) out = elim (after b'/' rest) [
  | some r ↦ record { src = r; out = out ++ (part ++ b'/' ∷ []) }
  | none ↦ record { src = []; out = out ++ (part ++ 0 ∷ []) }
]

unfoldable pub copy_part : Str → Str → Cursor
copy_part src out = copied_part (span (λ c. not (c == b'/')) src) out

-- The end of a part: `next == HEMP_NUL || next == '/'`, and what is behind it.
unfoldable pub part_end : Str → Option Str
part_end [] = some []
part_end (c ∷ s) = after b'/' (c ∷ s)

-- The case of a `.`, with what follows it.
unfoldable pub dot_case : Str → Str → Cursor
dot_case s out = elim (part_end s) [
  | some r ↦ record { src = r; out = out }
  | none ↦ elim (after b'.' s) [
    | none ↦ copy_part (b'.' ∷ s) out
    | some s' ↦ elim (part_end s') [
      | some r ↦ record { src = r; out = go_up out }
      | none ↦ copy_part (b'.' ∷ s) out
    ]
  ]
]

-- The `switch`.
unfoldable pub join_step : ℕ → Str → Str → Cursor
join_step c s out =
    if c == b'/'
    then record { src = s; out = b'/' ∷ [] }
    else if c == b'.'
    then dot_case s out
    else copy_part (c ∷ s) out

unfoldable pub join_loop : ℕ → Str → Str → Option Str
join_loop zero src out = none
join_loop (suc f) [] out = some out
join_loop (suc f) (c ∷ s) out = let next = join_step c s out in join_loop f next.src next.out

-- The bytes before the final `*dst = HEMP_NUL`.
unfoldable pub path_join : Str → Str → Bool → Option Str
path_join base rel is_dir = join_loop (suc (length rel)) rel (base_part base rel is_dir)

-- `hemp_mem_alloc (baselen + strlen (rel) + 2)`
unfoldable pub join_room : Str → Str → Bool → ℕ
join_room base rel is_dir = base_length base rel is_dir + length rel + 2

-- `hemp_uri_collapse_path`: the position of the last slash is kept in a variable of its own.
pub record Collapsing : Type 0 where
  pub src : Str
  pub out : Str
  pub slash : Option ℕ

abbrev pub or_start : Option ℕ → ℕ
or_start none = 0
or_start (some i) = i

-- `/../`
unfoldable pub up : Str → Option ℕ → Str × Option ℕ
up out none = ([], none)
up out (some i) = (take i out, last_slash (take i out))

-- A slash, if there is one, and all up to the next.
unfoldable pub copy_segment : ℕ → Str → Str → Option ℕ → Collapsing
copy_segment c s out slash =
    if c == b'/'
    then (let (part, rest) = span (λ d. not (d == b'/')) s in
        record { src = rest; out = out ++ (b'/' ∷ part); slash = some (length out) })
    else (let (part, rest) = span (λ d. not (d == b'/')) (c ∷ s) in
        record { src = rest; out = out ++ part; slash = slash })

-- The tests in their order.
unfoldable pub collapse_step : ℕ → Str → Str → Option ℕ → Collapsing
collapse_step c s out slash =
    let src = c ∷ s in
    if starts (b'.' ∷ b'/' ∷ []) src
    then record { src = drop 2 src; out = out; slash = slash }
    else if starts (b'.' ∷ b'.' ∷ b'/' ∷ []) src
    then record { src = drop 3 src; out = out; slash = slash }
    else if starts (b'/' ∷ b'.' ∷ b'/' ∷ []) src
    then record { src = drop 2 src; out = out; slash = slash }
    else if str_eq src (b'/' ∷ b'.' ∷ [])
    then record { src = drop 2 src; out = out ++ b'/' ∷ []; slash = slash }
    else if starts (b'/' ∷ b'.' ∷ b'.' ∷ b'/' ∷ []) src
    then (let (out', slash') = up out slash in
        record { src = drop 3 src; out = out'; slash = slash' })
    else if str_eq src (b'/' ∷ b'.' ∷ b'.' ∷ [])
    then record { src = drop 3 src; out = take (or_start slash) out ++ b'/' ∷ []; slash = slash }
    else if str_eq src (b'.' ∷ [])
    then record { src = drop 1 src; out = out; slash = slash }
    else if str_eq src (b'.' ∷ b'.' ∷ [])
    then record { src = drop 2 src; out = out; slash = slash }
    else copy_segment c s out slash

unfoldable pub collapse_loop : ℕ → Str → Str → Option ℕ → Option Str
collapse_loop zero src out slash = none
collapse_loop (suc f) [] out slash = some out
collapse_loop (suc f) (c ∷ s) out slash =
    let next = collapse_step c s out slash in collapse_loop f next.src next.out next.slash

unfoldable pub collapse : Str → Option Str
collapse path = collapse_loop (suc (length path)) path [] none
