-- ===== src/Uri/Joined.antt =====
-- `hemp_uri_relative_uri` of library/uri.c to its end, the join of the parts by `hemp_uri_join`.
use hemp.Base.{
  ◌≡◌, true, false, Option, none, some, length, is_some, leb, if◌then◌else◌, arith, Option-cases,
  inl, inr, ◌>>=◌,
}
use hemp.Chars.{Str}
use hemp.Uri.Split.{Uri}
use hemp.Uri.Join.{text, packed, text_room, packed_fits, packed_overflows}
use hemp.Uri.Relative.{relative_uri, relative_total, relative-Resolves, Resolves}

-- `hemp_uri_join`: the text, where the copies of the parts stay in the second buffer; `none` is the write behind it.
unfoldable pub join_uri : Uri → Option Str
unfolding packed text_room text
join_uri u = if leb (length (packed u)) (text_room u) then some (text u) else none

-- `hemp_uri_relative_uri`, with the text of the URI that it makes
unfoldable pub relative_text : Uri → Uri → Option Str
unfolding relative_uri join_uri
relative_text base rel = relative_uri base rel >>= join_uri

-- Where the base has a path, so has the URI.
has_path :
    (base rel : Uri) {u : Uri} (p : Str)
    → base.path ≡ some p
    → relative_uri base rel ≡ some u
    → is_some u.path ≡ true
unfolding relative_uri
has_path base rel {u} p hp h = ground arith

join_uri-cases :
    (u : Uri)
    → is_some u.path ≡ true
    → join_uri u ≡ (if is_some u.authority then some (text u) else none)
unfolding join_uri
join_uri-cases u h = elim (Option-cases u.authority) [
  | inr (a, e) ↦
      let fits : leb (length (packed u)) (text_room u) ≡ true = ground (arith, packed_fits u a e) in
      rw (join_uri, fits, e)
  | inl e ↦ elim (Option-cases u.path) [
    | inl none_there ↦ ground (arith, h, none_there)
    | inr (p, k) ↦
        let over : leb (length (packed u)) (text_room u) ≡ false =
          ground (arith, packed_overflows u p e k) in
        rw (join_uri, over, e)
  ]
]

-- For a base and a reference that both have a path, the parts of the relative URI are made and are those that RFC
-- 3986 chooses, where a scheme equal to that of the base is ignored. They are joined to its text if it has an
-- authority; without one the join writes behind its buffer.
pub relative_text_total :
    (base rel : Uri) (p q : Str)
    → base.path ≡ some p
    → rel.path ≡ some q
    → (u : Uri) × Resolves base rel u
      × (relative_text base rel ≡ (if is_some u.authority then some (text u) else none))
unfolding relative_text
relative_text_total base rel p q hp hq = elim (Option-cases (relative_uri base rel)) [
  | inl e ↦ absurd (relative_total base rel p q hp hq e)
  | inr (u, e) ↦ (
    u,
    relative-Resolves base rel e,
    rw (relative_text, e) (join_uri-cases u (has_path base rel p hp e)),
  )
]
