-- ===== src/Scans/TokenLaws.antt =====
-- Every token scanner takes something of the source, and puts what it takes into a fragment.
use mathlib.Core.Path.{subst}
use hemp.Base.{
  ℕ, zero, suc, ◌≤◌, ◌≡◌, refl, sym, Bool, true, false, not, ◌&&◌, ◌||◌, List, [], ◌∷◌, length,
  drop, arith, Left, length-Left, Left-same, Left-more, Left-Left, is_some, ◌==◌, if◌then◌else◌,
}
use hemp.Chars.{Str, is_digit, span, span-append, after_all}
use hemp.Ptrees.Tree.{head_char}
use hemp.Scans.Document.{
  done, failed, Element, ScannerFunction, no_scanner, squote, dquote, comment, fragment_name,
  tag_inline, no_fragment_name, ElementType, operator, word, integer, number, Payload, no_value,
  int_value, num_value, to_eol, inline_to_eol, Tag, Document, distance, scanned_to,
}
use hemp.Scans.Quoted.{
  Walk, closed, unclosed, past_end, quoted_to, squote_scanner, dquote_scanner, unescape_single,
  unescape_double,
}
use hemp.Scans.Walks.{WalkLeft, walk-WalkLeft}
use hemp.Scans.Tokens.{
  CLibrary, Numeral, scan_while, goes_on, numbered, scan_number, skip_to_eol, skip_to_eol_or_end,
  skip, comment_scanner, fragment_scanner, scan_element, scan_word, scan_operator, is_ident,
  not_newline, is_fragment_char, within_word,
}
use hemp.Scans.Told.{Tells, Between, scanned_to-Between, Comes, spent}

span-Left : (p : ℕ → Bool) (s : Str) → Left s (span p s).1
span-Left p s = record { taken = (span p s).0; source = sym (span-append p s) }

pub scan_while-Left : (p : ℕ → Bool) (c : ℕ) (s : Str) → Left s (scan_while p (c ∷ s))
unfolding scan_while
scan_while-Left p c s = span-Left p s

drop-Left : (n : ℕ) (s : Str) → Left s (drop n s)
drop-Left zero s = Left-same s
drop-Left (suc n) [] = Left-same []
drop-Left (suc n) (c ∷ s) = Left-more c s (drop n s) (drop-Left n s)

-- The scanner of a quoted string takes it with the closing quote, where there is one.
quoted_to-Comes :
    (unescape : ℕ → ℕ → Str → Str) (element : Element) (start source : Str) (tags : List Tag)
    (n : ℕ) (d : Document) (w : Walk)
    → Tells source tags d
    → Left d.scantok start
    → length start ≤ n
    → WalkLeft start w
    → Comes (Between source tags n) (quoted_to unescape element start d w)
unfolding quoted_to WalkLeft Comes spent
quoted_to-Comes unescape element start source tags n d past_end t l b w = refl
quoted_to-Comes unescape element start source tags n d unclosed t l b w = refl
quoted_to-Comes unescape element start source tags n d (closed closing plain) t l b w =
    let left = Left-Left start closing _ w (drop-Left (length element.end) closing) in
    scanned_to-Between (operator element) _ _ source tags n d t (Left-Left d.scantok start _ l left)
      (ground (arith, length-Left start _ left))

skip_to_eol_or_end-Left : (end src : Str) → Left src (skip_to_eol_or_end end src)
unfolding skip_to_eol_or_end
skip_to_eol_or_end-Left end [] = Left-same []
skip_to_eol_or_end-Left end (c ∷ src) =
    elim (not_newline c && not (c == head_char end && is_some (after_all end (c ∷ src))))
      as (λ b. Left (c ∷ src) (if b then skip_to_eol_or_end end src else c ∷ src)) [
        | true ↦ Left-more c src _ (skip_to_eol_or_end-Left end src)
        | false ↦ Left-same (c ∷ src)
      ]

skip-Left : (tag : Tag) (src : Str) → Left src (skip tag src)
unfolding skip skip_to_eol
skip-Left tag src =
    elim tag.skipper
      as (λ k.
        Left src
          (elim k [ to_eol ↦ skip_to_eol src | inline_to_eol ↦ skip_to_eol_or_end tag.end src ])) [
            | to_eol ↦ span-Left not_newline src
            | inline_to_eol ↦ skip_to_eol_or_end-Left tag.end src
          ]

comment_scanner-Comes :
    (element : Element) (in_scope : List Tag) (source : Str) (tags : List Tag) (n : ℕ)
    (d : Document)
    → Tells source tags d
    → Left d.scantok d.scanptr
    → length d.scanptr ≤ n
    → Comes (Between source tags n) (comment_scanner element in_scope d)
unfolding comment_scanner Comes spent
comment_scanner-Comes element [] source tags n d t l b = refl
comment_scanner-Comes element (tag ∷ in_scope) source tags n d t l b =
    let left = skip-Left tag d.scanptr in
    scanned_to-Between (operator element) no_value (skip tag d.scanptr) source tags n d t
      (Left-Left d.scantok d.scanptr _ l left) (ground (arith, length-Left d.scanptr _ left))

fragment_scanner-Comes :
    (element : Element) (source : Str) (tags : List Tag) (n : ℕ) (d : Document)
    → Tells source tags d
    → Left d.scantok d.scanptr
    → length d.scanptr ≤ n
    → Comes (Between source tags n) (fragment_scanner element d)
unfolding fragment_scanner Comes spent
fragment_scanner-Comes element source tags n d t l b =
    let src = (span is_fragment_char d.scanptr).1 in
    let left = span-Left is_fragment_char d.scanptr in
    elim (distance d.scanptr src == 0)
      as (λ x. Comes (Between source tags n) (
        if x
        then failed no_fragment_name d.scantok
        else done (scanned_to (operator element) no_value src d))) [
          | true ↦ refl
          | false ↦
              scanned_to-Between (operator element) no_value src source tags n d t
                (Left-Left d.scantok d.scanptr src l left)
                (ground (arith, length-Left d.scanptr src left))
        ]

-- What an operator's scanner is given: the source behind the operator, in a token that starts with it.
scan_element-Comes :
    (f : ScannerFunction) (element : Element) (source : Str) (tags : List Tag) (n : ℕ)
    (d : Document)
    → Tells source tags d
    → Left d.scantok d.scanptr
    → length d.scanptr ≤ n
    → Comes (Between source tags n) (scan_element f element d)
unfolding scan_element squote_scanner dquote_scanner Comes spent
scan_element-Comes no_scanner element source tags n d t l b =
    scanned_to-Between (operator element) no_value d.scanptr source tags n d t l b
scan_element-Comes squote element source tags n d t l b =
    quoted_to-Comes unescape_single element d.scanptr source tags n d _ t l b
      (walk-WalkLeft element.end d.scanptr)
scan_element-Comes dquote element source tags n d t l b =
    quoted_to-Comes unescape_double element d.scanptr source tags n d _ t l b
      (walk-WalkLeft element.end d.scanptr)
scan_element-Comes comment element source tags n d t l b =
    comment_scanner-Comes element d.scantags source tags n d t l b
scan_element-Comes fragment_name element source tags n d t l b =
    fragment_scanner-Comes element source tags n d t l b
scan_element-Comes tag_inline element source tags n d t l b = refl

pub scan_word-Between :
    (c : ℕ) (src source : Str) (tags : List Tag) (n : ℕ) (d : Document)
    → Tells source tags d
    → Left d.scantok (c ∷ src)
    → length src ≤ n
    → Between source tags n (scan_word (c ∷ src) d)
unfolding scan_word
scan_word-Between c src source tags n d t l b =
    let left = scan_while-Left is_ident c src in
    scanned_to-Between word no_value (scan_while is_ident (c ∷ src)) source tags n d t
      (Left-Left d.scantok (c ∷ src) _ l (Left-more c src _ left))
      (ground (arith, length-Left src _ left))

-- An operator, or the word that it starts, where what matched is `c ∷ taken` in front of `src`.
pub scan_operator-Comes :
    (element : Element) (src source : Str) (tags : List Tag) (n : ℕ) (d : Document)
    → Tells source tags d
    → Left d.scantok src
    → length src ≤ n
    → Comes (Between source tags n) (scan_operator element src d)
unfolding scan_operator Comes
scan_operator-Comes element [] source tags n d t l b =
    scan_element-Comes element.scanner element source tags n (record d { scanptr = [] }) t l b
scan_operator-Comes element (c ∷ src) source tags n d t l b =
    elim (within_word d.scanptr (c ∷ src))
      as (λ x. Comes (Between source tags n) (
        if x
        then done (scan_word (c ∷ src) d)
        else scan_element element.scanner element (record d { scanptr = c ∷ src }))) [
          | true ↦ scan_word-Between c src source tags n d t l (ground arith)
          | false ↦
              scan_element-Comes element.scanner element source tags n
                (record d { scanptr = c ∷ src }) t l b
        ]

-- What the sources rely on: `strtol` and `strtod` on a string that starts with a digit read at least that, and
-- give a pointer into the string.
pub record ReadsDigits (c : CLibrary) : Type 0 where
  pub integers : (d : ℕ) (src : Str) → is_digit d ≡ true → Left src (c.strtol (d ∷ src)).rest
  pub floats : (d : ℕ) (src : Str) → is_digit d ≡ true → Left src (c.strtod (d ∷ src)).rest

numbered-Comes :
    (element : ElementType) (value : Payload) (src : Str) (out_of_range : Bool) (source : Str)
    (tags : List Tag) (n : ℕ) (d : Document)
    → Tells source tags d
    → Left d.scantok src
    → length src ≤ n
    → Comes (Between source tags n) (numbered element value src out_of_range d)
unfolding numbered Comes spent
numbered-Comes element value src true source tags n d t l b = refl
numbered-Comes element value src false source tags n d t l b =
    scanned_to-Between element value src source tags n d t l b

pub scan_number-Comes :
    (c : CLibrary) (e : ℕ) (src source : Str) (tags : List Tag) (n : ℕ) (d : Document)
    → ReadsDigits c
    → is_digit e ≡ true
    → d.scanptr ≡ e ∷ src
    → Tells source tags d
    → Left d.scantok (e ∷ src)
    → length src ≤ n
    → Comes (Between source tags n) (scan_number c d)
unfolding scan_number
scan_number-Comes c e src source tags n d r h p t l b =
    elim (goes_on int_val.rest)
      as (λ x. Comes (Between source tags n) (
        if x
        then numbered number (num_value num_val.value) num_val.rest
            (int_val.out_of_range || num_val.out_of_range) d
        else numbered integer (int_value int_val.value) int_val.rest int_val.out_of_range d)) [
          | true ↦
              numbered-Comes number _ num_val.rest _ source tags n d t
                (Left-Left d.scantok (e ∷ src) _ l (Left-more e src _ float))
                (ground (arith, length-Left src num_val.rest float))
          | false ↦
              numbered-Comes integer _ int_val.rest _ source tags n d t
                (Left-Left d.scantok (e ∷ src) _ l (Left-more e src _ int))
                (ground (arith, length-Left src int_val.rest int))
        ]
  where
    int_val : Numeral
    int_val = c.strtol d.scanptr

    num_val : Numeral
    num_val = c.strtod d.scanptr

    int : Left src int_val.rest
    int = subst (λ s. Left src (c.strtol s).rest) (sym p) (r.integers e src h)

    float : Left src num_val.rest
    float = subst (λ s. Left src (c.strtod s).rest) (sym p) (r.floats e src h)
