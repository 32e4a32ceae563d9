-- ===== src/Strings/Tests.antt =====
-- Runs of the functions on strings, and the theorems at them.
use hemp.Base.{◌≡◌, refl, true, false, none, some, List, [], ◌∷◌, ◌++◌, All, arith}
use hemp.ListType.Items
use hemp.Chars.{Str, is_digit, is_alnum, is_alpha, is_space, span, after, after_all}
use hemp.Strings.Scan.{
  wordlike, intlike, next_space, next_nonspace, next_line, chomp, trim, cut, split, word_loop,
  nwords, location_loop, location,
}
use hemp.Strings.Laws.{joined, split-joined}

-- ` a b `
abbrev spaced : Str
spaced = 32 ∷ 97 ∷ 32 ∷ 98 ∷ 32 ∷ []

-- `a`, a line break, `b`
abbrev lines : Str
lines = 97 ∷ 13 ∷ 10 ∷ 98 ∷ []

program : Unit {0}
unfolding wordlike intlike next_space next_nonspace next_line chomp trim cut split word_loop nwords
    location_loop location Items.grow Items.put Items.poke Items.resized Items.doubled is_digit
    is_alnum is_alpha is_space span after after_all
program =
    let t0 : trim spaced ≡ 97 ∷ 32 ∷ 98 ∷ [] = refl in
    let t1 : chomp spaced ≡ 32 ∷ 97 ∷ 32 ∷ 98 ∷ [] = refl in
    let t2 : nwords spaced 0 ≡ some (some ((97 ∷ []) ∷ (98 ∷ []) ∷ [])) = refl in
    let t3 : nwords spaced 1 ≡ some (some ((97 ∷ 32 ∷ 98 ∷ 32 ∷ []) ∷ [])) = refl in
    let t4 : nwords (32 ∷ []) 0 ≡ some none = refl in
    let t5 : split 9 (32 ∷ []) spaced ≡ some ([] ∷ (97 ∷ []) ∷ (98 ∷ []) ∷ [] ∷ []) = refl in
    let t6 : next_line lines ≡ some (98 ∷ []) = refl in
    let t7 : location lines 4 ≡ some (record { position = 4; line = 2; extract = 3; column = 1 }) =
      refl in
    let t8 : intlike [] ≡ true = refl in
    let t9 : wordlike spaced ≡ false = refl in
    let t10 : next_space lines ≡ some (13 ∷ 10 ∷ 98 ∷ []) = refl in tt

split-joined_example :
    (x : Str) × (xs : List Str) × (split 6 (32 ∷ []) spaced ≡ some (x ∷ xs))
    × (spaced ≡ x ++ joined (32 ∷ []) xs)
    × All (λ item. cut (32 ∷ []) item ≡ none) (x ∷ xs)
split-joined_example = split-joined 6 32 [] spaced (omega arith) (omega arith)
