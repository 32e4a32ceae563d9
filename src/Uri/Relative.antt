-- ===== src/Uri/Relative.antt =====
-- `hemp_uri_relative_uri` of library/uri.c, with `hemp_uri_schemes_equal`, `hemp_uri_merge_paths`
-- and `hemp_uri_copy_authority`. The answer `none` is the read through NULL of a part that is not
-- there, in `strlen` or `strrchr`. The parts are those that `hemp_uri_join` at the end is given; it is in Join.
use hemp.Base.{
  ℕ, suc, ◌+◌, ◌<◌, length, take, refl, sym, ap, ◌∙◌, Option-cases, Bool-cases, inl, inr, ◌≡◌, ◌≢◌,
  Bool, true, false, ◌&&◌, ◌||◌, not, Option, none, some, [], ◌∷◌, ◌++◌, ◌==◌, if◌then◌else◌, arith,
  is_some, ◌>>=◌,
}
use mathlib.Core.Path.{subst}
use hemp.Chars.{Str, str_eq, last_slash, last_slash-lt}
use hemp.Uri.Split.{Uri, wiped}
use hemp.Uri.Paths.{directory, collapse}
use hemp.Uri.Collapse.{collapse-bound}

-- `a ? a : b`
abbrev pub or_else {ℓ} : {A : Type ℓ} → Option A → Option A → Option A
or_else none b = b
or_else (some a) b = some a

unfoldable pub schemes_equal : Option Str → Option Str → Bool
unfolding str_eq
schemes_equal (some s) (some t) = str_eq s t
schemes_equal (some s) none = false
schemes_equal none (some t) = false
schemes_equal none none = true

-- `hemp_uri_no_path`
abbrev pub no_path : Option Str → Bool
no_path none = true
no_path (some []) = true
no_path (some (c ∷ s)) = false

-- `hemp_uri_path_is_absolute`
abbrev pub is_absolute : Option Str → Bool
is_absolute none = false
is_absolute (some []) = false
is_absolute (some (c ∷ s)) = c == b'/'

abbrev pub copy_authority : Uri → Uri → Uri
copy_authority from to = record to {
  authority = from.authority;
  user = from.user;
  host = from.host;
  port = from.port;
}

unfoldable pub merge_paths : Uri → Uri → Option Str
merge_paths base rel = do
  path ← rel.path
  if is_some base.authority && no_path base.path
      then some (b'/' ∷ path)
      else base.path >>= λ old. some (directory old ++ path)

unfoldable pub relative_uri : Uri → Uri → Option Uri
unfolding merge_paths schemes_equal
relative_uri base rel =
    let scheme : Option Str = if schemes_equal base.scheme rel.scheme then none else rel.scheme in
    let uri : Uri = record wiped { fragment = rel.fragment; query = rel.query } in
    elim scheme [
      | some s ↦ do
        path ← rel.path >>= collapse
        some (record (copy_authority rel uri) { scheme = some s; path = some path })
      | none ↦ elim rel.authority [
        | some _ ↦ do
          path ← rel.path >>= collapse
          some (record (copy_authority rel uri) { scheme = base.scheme; path = some path })
        | none ↦
            if no_path rel.path
            then some (record (copy_authority base uri) {
              scheme = base.scheme;
              path = base.path;
              query = or_else rel.query base.query;
            })
            else do
              path ← (if is_absolute rel.path then rel.path else merge_paths base rel) >>= collapse
              some (record (copy_authority base uri) { scheme = base.scheme; path = some path })
      ]
    ]

-- What RFC 3986 (5.2.2, with a reference's own scheme ignored if it is that of the base) chooses for
-- each part.
abbrev pub own_scheme : Uri → Uri → Bool
own_scheme base rel = elim rel.scheme [
  | none ↦ false
  | some s ↦ (elim base.scheme [ none ↦ true | some t ↦ not (str_eq t s) ])
]

abbrev pub own_authority : Uri → Uri → Bool
own_authority base rel = own_scheme base rel || is_some rel.authority

-- A path up to its last slash, with it.
abbrev pub kept_cons : ℕ → Str → Str
kept_cons c [] = if c == b'/' then c ∷ [] else []
kept_cons c (d ∷ s) = c ∷ d ∷ s

unfoldable pub up_to_slash : Str → Str
up_to_slash [] = []
up_to_slash (c ∷ s) = kept_cons c (up_to_slash s)

kept_first :
    (c i : ℕ) (s kept : Str)
    → i < length s
    → take (i + 1) s ≡ kept
    → take (i + 1 + 1) (c ∷ s) ≡ kept_cons c kept
kept_first c i [] kept h e = elim h [ ]
kept_first c i (d ∷ s) kept h e =
    let one : i + 1 ≡ suc i = omega arith in
    let two : i + 1 + 1 ≡ suc (suc i) = omega arith in
    subst (λ k. take (i + 1 + 1) (c ∷ d ∷ s) ≡ kept_cons c k) e (rw (two, one))

none_kept : (c : ℕ) (kept : Str) → kept ≡ [] → (if c == b'/' then c ∷ [] else []) ≡ kept_cons c kept
none_kept c kept e = rw e

kept_one : (c : ℕ) (s : Str) → (c == b'/') ≡ true → take (0 + 1) (c ∷ s) ≡ kept_cons c []
kept_one c s f = ground (arith, f)

kept_no : (c : ℕ) → (c == b'/') ≡ false → [] ≡ kept_cons c []
kept_no c f = ground (arith, f)

directory-up_to_slash : (s : Str) → directory s ≡ up_to_slash s
unfolding directory last_slash up_to_slash
directory-up_to_slash [] = refl
directory-up_to_slash (c ∷ s) = elim (Option-cases (last_slash s)) [
  | inl e ↦
      let gone : up_to_slash s ≡ [] = sym (directory-up_to_slash s) ∙ rw (directory, e) in
      elim (Bool-cases (c == b'/')) [
        | inl f ↦ rw (directory, last_slash, e, f, gone) (kept_one c s f)
        | inr f ↦ rw (directory, last_slash, e, f, gone) (kept_no c f)
      ]
  | inr (i, e) ↦
      let kept : take (i + 1) s ≡ up_to_slash s =
        sym (rw (directory, e) refl) ∙ directory-up_to_slash s in
      rw (directory, last_slash, e) (kept_first c i s (up_to_slash s) (last_slash-lt s e) kept)
]

-- The path of the base and the reference, RFC 3986, 5.2.3; a base without a path has nothing to merge with.
abbrev pub merged : Uri → Str → Option Str
merged base path =
    if is_some base.authority && no_path base.path
    then some (b'/' ∷ path)
    else (elim base.path [ none ↦ none | some old ↦ some (up_to_slash old ++ path) ])

-- The path that is chosen, and collapsed unless it is that of the base.
abbrev pub chosen_path : Uri → Uri → Option Str
chosen_path base rel =
    if own_authority base rel
    then rel.path >>= collapse
    else if no_path rel.path
    then base.path
    else (rel.path >>= λ path. if is_absolute rel.path then some path else merged base path)
      >>= collapse

-- The parts, by whether the reference has a scheme of its own, and the path.
pub record Chooses (own : Bool) (path_chosen : Option Str) (base rel u : Uri) : Type 0 where
  pub scheme : u.scheme ≡ (if own then rel.scheme else base.scheme)
  pub authority :
      u.authority ≡ (if own || is_some rel.authority then rel.authority else base.authority)
  pub user : u.user ≡ (if own || is_some rel.authority then rel.user else base.user)
  pub host : u.host ≡ (if own || is_some rel.authority then rel.host else base.host)
  pub port : u.port ≡ (if own || is_some rel.authority then rel.port else base.port)
  pub path : u.path ≡ path_chosen
  pub query : u.query ≡ (
      if own || is_some rel.authority || not (no_path rel.path)
      then rel.query
      else or_else rel.query base.query)
  pub fragment : u.fragment ≡ rel.fragment

abbrev pub Resolves : Uri → Uri → Uri → Type 0
Resolves base rel u = Chooses (own_scheme base rel) (chosen_path base rel) base rel u

-- The same choices with the functions of the code
abbrev code_own : Uri → Uri → Bool
code_own base rel = is_some rel.scheme && not (schemes_equal base.scheme rel.scheme)

abbrev code_path : Uri → Uri → Option Str
code_path base rel =
    if code_own base rel || is_some rel.authority
    then rel.path >>= collapse
    else if no_path rel.path
    then base.path
    else (if is_absolute rel.path then rel.path else merge_paths base rel) >>= collapse

relative-Chooses :
    (base rel : Uri) {u : Uri}
    → relative_uri base rel ≡ some u
    → Chooses (code_own base rel) (code_path base rel) base rel u
unfolding relative_uri
relative-Chooses base rel {u} h = ground arith

own-same : (base rel : Uri) → code_own base rel ≡ own_scheme base rel
unfolding schemes_equal
own-same base rel = own base.scheme rel.scheme
  where
    own :
        (s t : Option Str)
        → (is_some t && not (schemes_equal s t)) ≡ (elim t as (λ x. Bool) [
          | none ↦ false
          | some b ↦ (elim s as (λ x. Bool) [ none ↦ true | some a ↦ not (str_eq a b) ])
        ])
    own none none = refl
    own none (some t) = refl
    own (some s) none = refl
    own (some s) (some t) = refl

merge-same :
    (base rel : Uri)
    → (if is_absolute rel.path then rel.path else merge_paths base rel)
      ≡ (rel.path >>= λ path. if is_absolute rel.path then some path else merged base path)
unfolding merge_paths
merge-same base rel = elim (Option-cases rel.path) [
  | inl e ↦ rw (merge_paths, e)
  | inr (path, e) ↦
      rw (merge_paths, e)
        (ap (λ o. if is_absolute (some path) then some path else o) (old path base.path))
]
  where
    old :
        (path : Str) (o : Option Str)
        → (if is_some base.authority && no_path o
            then some (b'/' ∷ path)
            else (o >>= λ x. some (directory x ++ path)))
          ≡ (if is_some base.authority && no_path o
              then some (b'/' ∷ path)
              else (elim o [ none ↦ none | some x ↦ some (up_to_slash x ++ path) ]))
    old path none = refl
    old path (some x) = rw (directory-up_to_slash x)

path-same : (base rel : Uri) → code_path base rel ≡ chosen_path base rel
path-same base rel = rw (own-same base rel, merge-same base rel)

-- Every relative URI that is made has, when its parts are joined, those that RFC 3986, 5.2.2 chooses, where a scheme
-- equal to that of the base is ignored: each of them, and the path as `chosen_path` has it, which merges that of the
-- reference with that of the base up to its last slash and is collapsed as `hemp_uri_collapse_path` does.
pub relative-Resolves :
    (base rel : Uri) {u : Uri} → relative_uri base rel ≡ some u → Resolves base rel u
relative-Resolves base rel {u} h =
    subst (λ o. Chooses (own_scheme base rel) o base rel u) (path-same base rel)
      (subst (λ b. Chooses b (code_path base rel) base rel u) (own-same base rel)
        (relative-Chooses base rel h))

collapse-ne-none : (p : Str) → collapse p ≢ none
collapse-ne-none p h = let (end, run, _) = collapse-bound p in cc

-- A relative URI is made wherever the base and the reference both have a path.
pub relative_total :
    (base rel : Uri) (p q : Str)
    → base.path ≡ some p
    → rel.path ≡ some q
    → relative_uri base rel ≢ none
unfolding relative_uri
relative_total base rel p q hp hq h =
    ground
      (arith, collapse-ne-none q, collapse-ne-none (directory p ++ q), collapse-ne-none (b'/' ∷ q))

-- A reference with an authority and no path reads through NULL, whatever the base.
pub relative_faults :
    (base rel : Uri) (a : Str)
    → rel.authority ≡ some a
    → rel.path ≡ none
    → relative_uri base rel ≡ none
unfolding relative_uri
relative_faults base rel a h k = ground arith

-- Where the reference brings neither a scheme of its own nor an authority, a path that is
-- neither empty nor absolute reads through NULL against a base without an authority and a path.
pub merge_faults :
    (base rel : Uri) (c : ℕ) (s : Str)
    → own_authority base rel ≡ false
    → rel.path ≡ some (c ∷ s)
    → (c == b'/') ≡ false
    → base.authority ≡ none
    → base.path ≡ none
    → relative_uri base rel ≡ none
unfolding relative_uri
merge_faults base rel c s ha hp hc h k = ground arith
