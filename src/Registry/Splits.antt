-- ===== src/Registry/Splits.antt =====
-- `hemp_string_splits` of library/type/string.c: a name and its parts around each delimiter.
use hemp.Base.{
  ℕ, zero, suc, ◌≤◌, ◌<◌, ◌≡◌, refl, sym, ap, false, Option, none, some, List, [], ◌∷◌, ◌++◌, map,
  length, ◌==◌, if◌then◌else◌, arith, Bool-cases, inl, inr, ==_refl, ==_iff, append_assoc, ◌>>=◌,
}
use mathlib.Core.Path.{subst}
use hemp.Chars.{Str, after_all}
use hemp.Strings.Scan.{cut}
use hemp.ListType.Pushes.{pushed, pushed-some}

-- struct hemp_str_split
pub record Split : Type 0 where
  pub left : Str
  pub right : Str

-- The rest of the loop behind one search; `before` is the source up to where the search starts.
abbrev pub splits_round :
    (Str → Str → Option (List Split)) → Str → Str → Option (Str × Str) → Option (List Split)
splits_round loop token before none = some []
splits_round loop token before (some (item, rest)) = loop (before ++ item ++ token) rest >>= λ more.
    some (record { left = before ++ item; right = rest } ∷ more)

unfoldable pub splits_loop : ℕ → Str → Str → Str → Option (List Split)
unfolding cut
splits_loop zero token before rest = none
splits_loop (suc f) token before rest =
    splits_round (splits_loop f token) token before (cut token rest)

-- A list without items is NULL.
abbrev pub unless_empty : List Split → Option (List Split)
unless_empty [] = none
unless_empty (x ∷ xs) = some (x ∷ xs)

-- With a round of fuel for each byte and one more; each split is pushed on a new list.
unfoldable pub splits : Str → Str → Option (Option (List Split))
unfolding splits_loop pushed
splits source token = splits_loop (suc (length source)) token [] source >>= λ list.
    pushed list >>= λ list. some (unless_empty list)

-- A part put in front
abbrev pub behind : Str → Split → Split
behind part split = record split { left = part ++ split.left }

-- Every delimiter of the source, from the left.
unfoldable pub at_each : ℕ → Str → List Split
at_each d [] = []
at_each d (c ∷ s) =
    let later = map (behind (c ∷ [])) (at_each d s) in
    if d == c then record { left = []; right = s } ∷ later else later

behind_twice :
    (a b : Str) (l : List Split) → map (behind a) (map (behind b) l) ≡ map (behind (a ++ b)) l
behind_twice a b [] = refl
behind_twice a b (x ∷ l) = rw (append_assoc a b x.left, behind_twice a b l)

map_behind_nil : (l : List Split) → map (behind []) l ≡ l
map_behind_nil [] = refl
map_behind_nil (x ∷ l) = ap (λ more. x ∷ more) (map_behind_nil l)

-- What a search says of the delimiters.
unfoldable First : ℕ → Str → Option (Str × Str) → Type 0
unfolding at_each
First d s none = at_each d s ≡ []
First d s (some (item, r)) =
    (at_each d s
      ≡ record { left = item; right = r } ∷ map (behind (item ++ (d ∷ []))) (at_each d r))
    × (length r < length s)

shifted : ℕ → Option (Str × Str) → Option (Str × Str)
shifted c none = none
shifted c (some (item, r)) = some (c ∷ item, r)

cut-here : (d : ℕ) (s : Str) → cut (d ∷ []) (d ∷ s) ≡ some ([], s)
unfolding cut after_all
cut-here d s = rw (cut, after_all, ==_refl d)

cut-later :
    (d c : ℕ) (s : Str) → (d == c) ≡ false → cut (d ∷ []) (c ∷ s) ≡ shifted c (cut (d ∷ []) s)
unfolding cut after_all shifted
cut-later d c s e = let other : (c == d) ≡ false = ground (arith, e) in rw (cut, after_all, other)

First-here : (d : ℕ) (s : Str) → First d (d ∷ s) (some ([], s))
unfolding First at_each
First-here d s = (rw (==_refl d), omega arith)

First-later :
    (d c : ℕ) (s : Str) (o : Option (Str × Str))
    → (d == c) ≡ false
    → First d s o
    → First d (c ∷ s) (shifted c o)
unfolding First at_each shifted
First-later d c s none e h = rw (e, h)
First-later d c s (some (item, r)) e h =
    (rw (e, h.0, behind_twice (c ∷ []) (item ++ (d ∷ [])) (at_each d r)), omega (arith, h.1))

cut-First : (d : ℕ) (s : Str) → First d s (cut (d ∷ []) s)
unfolding First cut after_all at_each
cut-First d [] = refl
cut-First d (c ∷ s) = elim (Bool-cases (d == c)) [
  | inl e ↦
      subst (λ b. First d (b ∷ s) (cut (d ∷ []) (b ∷ s))) ((==_iff d c).0 e)
        (subst (First d (d ∷ s)) (sym (cut-here d s)) (First-here d s))
  | inr e ↦
      subst (First d (c ∷ s)) (sym (cut-later d c s e)) (First-later d c s _ e (cut-First d s))
]

round-First :
    (f d : ℕ) (before s : Str) (o : Option (Str × Str))
    → ((b r : Str)
        → length r < f
        → splits_loop f (d ∷ []) b r ≡ some (map (behind b) (at_each d r)))
    → length s < suc f
    → First d s o
    → splits_round (splits_loop f (d ∷ [])) (d ∷ []) before o
      ≡ some (map (behind before) (at_each d s))
unfolding First
round-First f d before s none ih h first = rw first
round-First f d before s (some (item, r)) ih h first = rw (
  first.0,
  ih (before ++ item ++ (d ∷ [])) r (omega (arith, h, first.1)),
  behind_twice before (item ++ (d ∷ [])) (at_each d r),
  append_assoc before item (d ∷ []),
)

splits_loop-at_each :
    (f d : ℕ) (before s : Str)
    → length s < f
    → splits_loop f (d ∷ []) before s ≡ some (map (behind before) (at_each d s))
unfolding splits_loop
splits_loop-at_each zero d before s h = absurd (omega (arith, h))
splits_loop-at_each (suc f) d before s h =
    round-First f d before s (cut (d ∷ []) s) (splits_loop-at_each f d) h (cut-First d s)

-- For a delimiter of one character that the source has 32768 times at most (where the list can grow), the splits end;
-- they are the two parts of the source around each delimiter, from the left, and NULL just if it has none.
pub splits-at_each :
    (d : ℕ) (source : Str)
    → length (at_each d source) ≤ 32768
    → splits source (d ∷ []) ≡ some (unless_empty (at_each d source))
unfolding splits
splits-at_each d source few = rw (
  splits_loop-at_each (suc (length source)) d [] source (omega arith),
  map_behind_nil (at_each d source),
  pushed-some (at_each d source) few,
)

length-map : (f : Split → Split) (l : List Split) → length (map f l) ≡ length l
length-map f [] = refl
length-map f (x ∷ l) = ap suc (length-map f l)

-- A source has no more delimiters than bytes.
pub length-at_each : (d : ℕ) (s : Str) → length (at_each d s) ≤ length s
unfolding at_each
length-at_each d [] = omega arith
length-at_each d (c ∷ s) =
    let same = length-map (behind (c ∷ [])) (at_each d s) in
    elim (Bool-cases (d == c)) [
      | inl e ↦ rw (at_each, e) (omega (arith, length-at_each d s, same))
      | inr e ↦ rw (at_each, e) (omega (arith, length-at_each d s, same))
    ]
