-- ===== src/Uri/Join.antt =====
-- `hemp_uri_join` of library/uri.c: the text of a URI, the length computed for it, and the second
-- buffer, which is allocated with the same length and takes a copy of each part with its NUL.
use hemp.Base.{
  ℕ, ◌+◌, ◌≤◌, ◌≡◌, refl, Option, none, some, [], ◌∷◌, ◌++◌, arith, Option-cases, inl, inr, length,
  length-append,
}
use hemp.Chars.{Str}
use hemp.Uri.Split.{Uri}

-- A part between its delimiters, or nothing.
unfoldable pub part : Str → Option Str → Str → Str
part before none behind = []
part before (some s) behind = before ++ (s ++ behind)

unfoldable pub authority_text : Uri → Str
unfolding part
authority_text u = elim u.authority [
  | none ↦ []
  | some _ ↦
      b'/'
      ∷ b'/'
      ∷ (part [] u.user (b'@' ∷ []) ++ (part [] u.host [] ++ part (b':' ∷ []) u.port []))
]

-- The first pass writes `uri->uri`.
unfoldable pub text : Uri → Str
unfolding part authority_text
text u =
    part [] u.scheme (b':' ∷ [])
    ++ (authority_text u
        ++ (part [] u.path [] ++ (part (b'?' ∷ []) u.query [] ++ part (b'#' ∷ []) u.fragment [])))

-- `x ? strlen (x) + n : 0`
unfoldable pub room : Option Str → ℕ → ℕ
room none n = 0
room (some s) n = length s + n

unfoldable pub authority_room : Uri → ℕ
unfolding room
authority_room u = elim u.authority [
  | none ↦ 0
  | some _ ↦ 2 + room u.user 1 + room u.host 0 + room u.port 1
]

-- `len`, with the terminating NUL.
unfoldable pub text_room : Uri → ℕ
unfolding room authority_room
text_room u =
    room u.scheme 1 + authority_room u + room u.path 0 + room u.query 1 + room u.fragment 1 + 1

-- The second pass: `hemp_uri_strcpy` and `hemp_uri_bufsave` for each part, and one more NUL.
unfoldable pub saved : Option Str → Str
saved none = []
saved (some s) = s ++ 0 ∷ []

unfoldable pub authority_saved : Uri → Str
unfolding saved
authority_saved u = elim u.authority [
  | none ↦ []
  | some _ ↦ saved u.user ++ (saved u.host ++ saved u.port)
]

unfoldable pub packed : Uri → Str
unfolding saved authority_saved
packed u =
    saved u.scheme
    ++ (authority_saved u ++ (saved u.path ++ (saved u.query ++ (saved u.fragment ++ 0 ∷ []))))

length-part :
    (before : Str) (o : Option Str) (behind : Str)
    → length (part before o behind) ≡ room o (length before + length behind)
unfolding part room
length-part before none behind = refl
length-part before (some s) behind =
    omega (arith, length-append before (s ++ behind), length-append s behind)

length-saved : (o : Option Str) → length (saved o) ≡ room o 1
unfolding saved room
length-saved none = refl
length-saved (some s) = length-append s (0 ∷ [])

room-one : (o : Option Str) → room o 1 ≤ room o 0 + 1
unfolding room
room-one none = omega arith
room-one (some s) = omega arith

ruleset lengths = (length-append, length-part, length-saved)

length-authority_text : (u : Uri) → length (authority_text u) ≡ authority_room u
unfolding authority_text authority_room
length-authority_text u = elim (Option-cases u.authority) [
  | inl e ↦ rw e
  | inr (a, e) ↦ rw e (simp lengths (omega arith))
]

-- The first buffer of a join is filled exactly: the text and its NUL take what was computed.
pub text_fits : (u : Uri) → length (text u) + 1 ≡ text_room u
unfolding text text_room
text_fits u = simp (length-append, length-part, length-authority_text) (omega arith)

length-packed :
    (u : Uri)
    → length (packed u)
      ≡ room u.scheme 1
        + length (authority_saved u)
        + room u.path 1
        + room u.query 1
        + room u.fragment 1
        + 1
unfolding packed
length-packed u = simp lengths (omega arith)

length-authority_saved :
    (u : Uri) (a : Str) → u.authority ≡ some a → length (authority_saved u) + 1 ≤ authority_room u
unfolding authority_saved authority_room
length-authority_saved u a h = rw h (simp lengths (omega (arith, room-one u.host)))

-- With an authority the second buffer of a join is long enough.
pub packed_fits : (u : Uri) (a : Str) → u.authority ≡ some a → length (packed u) ≤ text_room u
unfolding text_room
packed_fits u a h = omega (arith, length-packed u, length-authority_saved u a h, room-one u.path)

-- Without an authority and with a path the second buffer of a join is one byte short.
pub packed_overflows :
    (u : Uri) (p : Str) → u.authority ≡ none → u.path ≡ some p → length (packed u) ≡ text_room u + 1
unfolding text_room authority_room authority_saved room
packed_overflows u p h k = rw (length-packed u, h, k) (omega arith)
