-- ===== src/Strings/Laws.antt =====
-- Trimming and splitting, and the words of a string.
use hemp.Base.{
  ◌≤◌, ℕ, zero, suc, ◌<◌, ◌≡◌, ◌⊎◌, refl, ap, sym, ◌∙◌, Bool, true, false, none, some, List, [],
  ◌∷◌, ◌++◌, length, All, arith, Bool-cases, Option-cases, inl, inr, append-nil, length-append,
}
use hemp.Chars.{Str, is_space, span, span-append, after_all, after_all-append}
use hemp.ListType.Pushes.{pushed-some}
use hemp.Strings.Scan.{split_loop, unless_space, chomp, chomp_rest, trim, cut, split}

-- The string starts or ends with whitespace.
abbrev pub starts_blank : Str → Bool
starts_blank [] = false
starts_blank (c ∷ s) = is_space c

unfoldable pub ends_blank : Str → Bool
ends_blank [] = false
ends_blank (c ∷ []) = is_space c
ends_blank (c ∷ d ∷ s) = ends_blank (d ∷ s)

abbrev pub Blank : Str → Type 0
Blank s = All (λ c. is_space c ≡ true) s

unless_space-ends : (c : ℕ) (s : Str) → ends_blank s ≡ false → ends_blank (unless_space c s) ≡ false
unfolding ends_blank
unless_space-ends c [] h = elim (Bool-cases (is_space c)) [ inl e ↦ rw e | inr e ↦ rw (e, e) ]
unless_space-ends c (d ∷ s) h = h

chomp-ends : (s : Str) → ends_blank (chomp s) ≡ false
unfolding chomp ends_blank
chomp-ends [] = refl
chomp-ends (c ∷ s) = unless_space-ends c (chomp s) (chomp-ends s)

unless_space-behind :
    (c : ℕ) (t b : Str) → Blank b → (b' : Str) × (c ∷ (t ++ b) ≡ unless_space c t ++ b') × Blank b'
unless_space-behind c [] b h = elim (Bool-cases (is_space c)) [
  | inl e ↦ (c ∷ b, rw e, (e, h))
  | inr e ↦ (b, rw e, h)
]
unless_space-behind c (d ∷ t) b h = (b, refl, h)

chomp-behind : (s : Str) → (b : Str) × (s ≡ chomp s ++ b) × Blank b
unfolding chomp
chomp-behind [] = ([], refl, tt)
chomp-behind (c ∷ s) =
    let (b, e, blank) = chomp-behind s in
    let (b', e', blank') = unless_space-behind c (chomp s) b blank in
    (b', ap (λ t. c ∷ t) e ∙ e', blank')

span-Blank : (s : Str) → Blank (span is_space s).0
unfolding span
span-Blank [] = tt
span-Blank (c ∷ s) = elim (Bool-cases (is_space c)) [
  | inl e ↦ rw e (e, span-Blank s)
  | inr e ↦ rw e tt
]

span-starts : (s : Str) → starts_blank (span is_space s).1 ≡ false
unfolding span
span-starts [] = refl
span-starts (c ∷ s) = elim (Bool-cases (is_space c)) [
  | inl e ↦ rw e (span-starts s)
  | inr e ↦ rw e e
]

cons-ends :
    (c : ℕ) (t : Str) → is_space c ≡ false → ends_blank t ≡ false → ends_blank (c ∷ t) ≡ false
unfolding ends_blank
cons-ends c [] h k = h
cons-ends c (d ∷ t) h k = k

chomp_rest-bare :
    (s : Str)
    → starts_blank s ≡ false
    → (starts_blank (chomp_rest s) ≡ false)
      × (ends_blank (chomp_rest s) ≡ false)
      × ((b : Str) × (s ≡ chomp_rest s ++ b) × Blank b)
unfolding chomp ends_blank
chomp_rest-bare [] h = (refl, refl, ([], refl, tt))
chomp_rest-bare (c ∷ s) h =
    let (b, e, blank) = chomp-behind s in
    (h, cons-ends c (chomp s) h (chomp-ends s), (b, ap (λ t. c ∷ t) e, blank))

-- A trim takes whitespace away, at both ends only, and all of it there.
pub trim-bare :
    (s : Str)
    → (starts_blank (trim s) ≡ false)
      × (ends_blank (trim s) ≡ false)
      × ((a b : Str) × (s ≡ a ++ (trim s ++ b)) × Blank a × Blank b)
unfolding trim
trim-bare s =
    let (starts, ends, (b, e, blank)) = chomp_rest-bare (span is_space s).1 (span-starts s) in
    (
      starts,
      ends,
      (
        (span is_space s).0,
        b,
        sym (span-append is_space s) ∙ ap (λ t. (span is_space s).0 ++ t) e,
        span-Blank s,
        blank,
      ),
    )

-- The items of a split with the delimiter between them.
abbrev pub joined : Str → List Str → Str
joined d [] = []
joined d (x ∷ xs) = d ++ (x ++ joined d xs)

after_all_shorter : (p t u : Str) → after_all p (t ++ u) ≡ none → after_all p t ≡ none
unfolding after_all
after_all_shorter [] t u h = ground arith
after_all_shorter (c ∷ p) [] u h = refl
after_all_shorter (c ∷ p) (d ∷ t) u h = ground (arith, after_all_shorter p t u)

cut_end : (e : ℕ) (d : Str) → cut (e ∷ d) [] ≡ none
unfolding cut after_all
cut_end e d = refl

-- A search finds the first occurrence, or there is none.
cut-cases :
    (e : ℕ) (d s : Str)
    → (cut (e ∷ d) s ≡ none)
      ⊎ ((item r : Str) × (cut (e ∷ d) s ≡ some (item, r))
          × (s ≡ item ++ ((e ∷ d) ++ r))
          × (cut (e ∷ d) item ≡ none))
unfolding cut
cut-cases e d [] = inl (cut_end e d)
cut-cases e d (c ∷ s) = elim (Option-cases (after_all (e ∷ d) (c ∷ s))) [
  | inr (r, h) ↦ inr ([], r, rw (cut, h), after_all-append (e ∷ d) (c ∷ s) h, cut_end e d)
  | inl h ↦ elim (cut-cases e d s) [
    | inl k ↦ inl (rw (cut, h, k))
    | inr (item, r, k, eq, free) ↦
        let whole : c ∷ s ≡ (c ∷ item) ++ ((e ∷ d) ++ r) = ap (λ t. c ∷ t) eq in
        let missed : after_all (e ∷ d) (c ∷ item) ≡ none =
          after_all_shorter (e ∷ d) (c ∷ item) ((e ∷ d) ++ r)
            (ap (λ t. after_all (e ∷ d) t) (sym whole) ∙ h) in
        inr (c ∷ item, r, rw (cut, h, k), whole, rw (cut, missed, free))
  ]
]

-- The loop for a delimiter that is not empty ends; the items with the delimiter between them are the
-- source, and none of them has the delimiter in it.
split_loop-joined :
    (f e : ℕ) (d s : Str)
    → length s < f
    → (x : Str) × (xs : List Str) × (split_loop f (e ∷ d) s ≡ some (x ∷ xs))
      × (s ≡ x ++ joined (e ∷ d) xs)
      × All (λ item. cut (e ∷ d) item ≡ none) (x ∷ xs)
unfolding split_loop
split_loop-joined zero e d s h = elim h [ ]
split_loop-joined (suc f) e d s h = elim (cut-cases e d s) [
  | inl k ↦ (s, [], rw k, sym (append-nil s), (k, tt))
  | inr (item, r, k, eq, free) ↦
      let size = length-append item ((e ∷ d) ++ r) in
      let size' = length-append (e ∷ d) r in
      let (x, xs, found, eq', all) =
        split_loop-joined f e d r (omega (arith, ap (λ t. length t) eq, size, size')) in
      (item, x ∷ xs, rw (k, found), eq ∙ ap (λ t. item ++ ((e ∷ d) ++ t)) eq', (free, all))
]

-- An empty delimiter is found at once and passed over by no byte: the loop does not end.
split_loop_hangs : (f : ℕ) (s : Str) → split_loop f [] s ≡ none
unfolding split_loop cut after_all
split_loop_hangs zero s = refl
split_loop_hangs (suc f) [] = rw (split_loop_hangs f [])
split_loop_hangs (suc f) (c ∷ s) = rw (split_loop_hangs f (c ∷ s))

-- An item stands for a byte of the source at least, but for the first one.
length-joined : (e : ℕ) (d : Str) (xs : List Str) → length xs ≤ length (joined (e ∷ d) xs)
length-joined e d [] = omega arith
length-joined e d (x ∷ xs) = omega (
  arith,
  length-joined e d xs,
  length-append (e ∷ d) (x ++ joined (e ∷ d) xs),
  length-append x (joined (e ∷ d) xs),
)

-- A split of a source of less than 2 ^ 15 bytes by a delimiter that is not empty ends; the items with the delimiter
-- between them are the source, and none of them has the delimiter in it.
pub split-joined :
    (f e : ℕ) (d s : Str)
    → length s < f
    → length s < 32768
    → (x : Str) × (xs : List Str) × (split f (e ∷ d) s ≡ some (x ∷ xs))
      × (s ≡ x ++ joined (e ∷ d) xs)
      × All (λ item. cut (e ∷ d) item ≡ none) (x ∷ xs)
unfolding split
split-joined f e d s h small =
    let (x, xs, found, whole, free) = split_loop-joined f e d s h in
    let few : length (x ∷ xs) ≤ 32768 =
      omega (
        arith,
        small,
        ap length whole,
        length-append x (joined (e ∷ d) xs),
        length-joined e d xs,
      ) in
    (x, xs, rw (found, pushed-some (x ∷ xs) few), whole, free)
