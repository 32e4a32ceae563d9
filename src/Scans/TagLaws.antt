-- ===== src/Scans/TagLaws.antt =====
-- The scanners of tags and grammars come to an end, and lose nothing of the source.
use mathlib.Core.Path.{subst}
use hemp.Base.{
  ℕ, ◌≡◌, refl, sym, ap, ◌∙◌, true, false, Option, none, some, List, ◌∷◌, length, arith, Left,
  length-Left, Left-same, Left-more, Left-Left, if◌then◌else◌,
}
use hemp.Chars.{Str, is_digit, is_alpha}
use hemp.Ptrees.Tree.{Ptree, head_char, root_position}
use hemp.Ptrees.Match.{match_more-Left}
use hemp.Scans.Document.{done, failed, Element, Tag, Document, bad_token}
use hemp.Scans.Tokens.{CLibrary, match_operator, scan_number, scan_word}
use hemp.Scans.Told.{Tells, Between, Comes, spent}
use hemp.Scans.TokenLaws.{ReadsDigits, scan_number-Comes, scan_operator-Comes, scan_word-Between}
use hemp.Scans.Tags.{scan_token, operator_or_word}

-- What a match of a prefix tree takes.
match_operator-Left :
    (operators : ℕ → Ptree Element) (c : ℕ) (src : Str) (element : Element) (rest : Str)
    → match_operator operators (c ∷ src) ≡ some (element, rest)
    → Left src rest
unfolding match_operator
match_operator-Left operators c src element rest e =
    match_more-Left (operators (root_position (c ∷ src))) c src element rest e

-- At a character, a token takes at least that.
At : Str → List Tag → Document → ℕ → Str → Type 0
At source tags d c src = Tells source tags d × (d.scantok ≡ c ∷ src) × (d.scanptr ≡ c ∷ src)

pub scan_token-Comes :
    (l : CLibrary) (operators : ℕ → Ptree Element) (c : ℕ) (src source : Str) (tags : List Tag)
    (d : Document)
    → ReadsDigits l
    → Tells source tags d
    → d.scantok ≡ c ∷ src
    → d.scanptr ≡ c ∷ src
    → Comes (Between source tags (length src)) (scan_token l operators d)
unfolding scan_token Comes spent
scan_token-Comes l operators c src source tags d r t tok ptr =
    elim (is_digit (head_char d.scanptr))
        as (λ x.
          is_digit (head_char d.scanptr) ≡ x
          → Comes (Between source tags (length src)) (
              if x
              then scan_number l d
              else operator_or_word d (match_operator operators d.scanptr))) [
                | true ↦ λ h.
                    scan_number-Comes l c src source tags (length src) d r
                      (ap (λ s. is_digit (head_char s)) (sym ptr) ∙ h) ptr t at (ground arith)
                | false ↦ λ h. matched (match_operator operators d.scanptr) (λ element rest e.
                    match_operator-Left operators c src element rest
                      (ap (match_operator operators) (sym ptr) ∙ e))
              ]
      refl
  where
    at : Left d.scantok (c ∷ src)
    at = subst (λ s. Left s (c ∷ src)) (sym tok) (Left-same (c ∷ src))

    matched :
        (m : Option (Element × Str))
        → ((element : Element) (rest : Str) → m ≡ some (element, rest) → Left src rest)
        → Comes (Between source tags (length src)) (operator_or_word d m)
    matched (some (element, rest)) f =
        let left = f element rest refl in
        scan_operator-Comes element rest source tags (length src) d t
          (Left-Left d.scantok (c ∷ src) rest at (Left-more c src rest left))
          (length-Left src rest left)
    matched none f =
        elim (is_alpha (head_char d.scanptr))
          as (λ x.
            Comes (Between source tags (length src))
              (if x then done (scan_word d.scanptr d) else failed bad_token d.scanptr)) [
                | true ↦
                    subst (λ s. Between source tags (length src) (scan_word s d)) (sym ptr)
                      (scan_word-Between c src source tags (length src) d t at (ground arith))
                | false ↦ refl
              ]
