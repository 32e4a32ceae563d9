-- ===== src/Scans/Tokens.antt =====
-- The scanners of single tokens: library/scanner.c, include/hemp/scanner.h, and those of comments and
-- fragment names under library/element/. What the C library reads as a number is a parameter.
use hemp.Base.{
  ℕ, ◌-◌, Bool, false, ◌&&◌, ◌||◌, not, Option, List, [], ◌∷◌, get_or, ◌==◌, if◌then◌else◌, is_some,
}
use hemp.Chars.{Str, is_digit, is_alpha, is_alnum, is_space, span, after_all}
use hemp.Ptrees.Tree.{Ptree, head_char, match_more, root_position}
use hemp.Scans.Document.{
  Scanning, done, failed, overflow, no_tag, no_fragment_name, not_followed, Element,
  ScannerFunction, no_scanner, squote, dquote, comment, fragment_name, tag_inline, ElementType,
  space, integer, number, word, operator, Payload, no_value, int_value, num_value, to_eol,
  inline_to_eol, Tag, Document, distance, scanned_to,
}
use hemp.Scans.Quoted.{squote_scanner, dquote_scanner}

-- What `strtol` or `strtod` gives: the value, the end of the number, and whether errno is ERANGE.
pub record Numeral : Type 0 where
  pub value : ℕ
  pub rest : Str
  pub out_of_range : Bool

-- `strtol (src, &src, 0)` and `strtod (src, &src)`
pub record CLibrary : Type 0 where
  pub strtol : Str → Numeral
  pub strtod : Str → Numeral

unfoldable pub is_ident : ℕ → Bool
unfolding is_alnum
is_ident c = is_alnum c || c == b'_'

-- `do { src++; } while (p (*src))`
unfoldable pub scan_while : (ℕ → Bool) → Str → Str
unfolding span
scan_while p [] = []
scan_while p (c ∷ src) = (span p src).1

-- Behind the integer of a number there is a fraction or an exponent.
unfoldable pub goes_on : Str → Bool
unfolding is_digit
goes_on [] = false
goes_on (c ∷ src) = (c == b'.' && is_digit (head_char src)) || (c == b'e' || c == b'E')

unfoldable pub numbered : ElementType → Payload → Str → Bool → Document → Scanning Document
unfolding scanned_to
numbered element value src out_of_range document =
    if out_of_range
    then failed overflow document.scanptr
    else done (scanned_to element value src document)

-- `hemp_scan_number`
unfoldable pub scan_number : CLibrary → Document → Scanning Document
unfolding goes_on numbered
scan_number c document =
    let int_val = c.strtol document.scanptr in
    let num_val = c.strtod document.scanptr in
    if goes_on int_val.rest
    then numbered number (num_value num_val.value) num_val.rest
        (int_val.out_of_range || num_val.out_of_range) document
    else numbered integer (int_value int_val.value) int_val.rest int_val.out_of_range document

-- `hemp_scan_whitespace`, and the branch on whitespace of the scanners
unfoldable pub scan_whitespace : Document → Document
unfolding scan_while is_space scanned_to
scan_whitespace document =
    if is_space (head_char document.scanptr)
    then scanned_to space no_value (scan_while is_space document.scanptr) document
    else document

unfoldable pub not_newline : ℕ → Bool
not_newline c = not (c == 10) && not (c == 13)

-- `hemp_tag_to_eol`
unfoldable pub skip_to_eol : Str → Str
unfolding not_newline span
skip_to_eol src = (span not_newline src).1

-- `hemp_tag_inline_to_eol`
unfoldable pub skip_to_eol_or_end : Str → Str → Str
unfolding not_newline after_all
skip_to_eol_or_end end [] = []
skip_to_eol_or_end end (c ∷ src) =
    let rest = skip_to_eol_or_end end src in
    if not_newline c && not (c == head_char end && is_some (after_all end (c ∷ src)))
    then rest
    else c ∷ src

unfoldable pub skip : Tag → Str → Str
unfolding skip_to_eol skip_to_eol_or_end
skip tag src = elim tag.skipper [
  | to_eol ↦ skip_to_eol src
  | inline_to_eol ↦ skip_to_eol_or_end tag.end src
]

-- `hemp_element_comment_scanner`
unfoldable pub comment_scanner : Element → List Tag → Document → Scanning Document
unfolding skip scanned_to
comment_scanner element [] document = failed no_tag document.scantok
comment_scanner element (tag ∷ tags) document =
    done (scanned_to (operator element) no_value (skip tag document.scanptr) document)

unfoldable pub is_fragment_char : ℕ → Bool
unfolding is_alnum
is_fragment_char c = is_alnum c || c == b'_' || c == b'-'

-- `hemp_element_fragment_scanner`
unfoldable pub fragment_scanner : Element → Document → Scanning Document
unfolding is_fragment_char span scanned_to
fragment_scanner element document =
    let src = (span is_fragment_char document.scanptr).1 in
    if distance document.scanptr src == 0
    then failed no_fragment_name document.scantok
    else done (scanned_to (operator element) no_value src document)

-- `element->scanner (element, document)`, where the element has one, and a fragment for it where not. The model
-- stops at the scanner of a tag within a tag.
unfoldable pub scan_element : ScannerFunction → Element → Document → Scanning Document
unfolding squote_scanner dquote_scanner comment_scanner fragment_scanner scanned_to
scan_element no_scanner element document =
    done (scanned_to (operator element) no_value document.scanptr document)
scan_element squote element document = squote_scanner element document
scan_element dquote element document = dquote_scanner element document
scan_element comment element document = comment_scanner element document.scantags document
scan_element fragment_name element document = fragment_scanner element document
scan_element tag_inline element document = failed not_followed document.scantok

-- `hemp_scan_ident`, and the word that it ends
unfoldable pub scan_word : Str → Document → Document
unfolding scan_while is_ident scanned_to
scan_word src document = scanned_to word no_value (scan_while is_ident src) document

-- The operator at the start of the source, with the source behind it.
unfoldable pub match_operator : (ℕ → Ptree Element) → Str → Option (Element × Str)
unfolding match_more root_position
match_operator operators src = match_more (operators (root_position src)) src

-- `isalpha (*src) && isalpha (*(src - 1))`, for the source `src` behind `token`
unfoldable pub within_word : Str → Str → Bool
unfolding is_alpha
within_word token src =
    is_alpha (head_char src) && is_alpha (get_or token (distance token src - 1) 0)

-- An operator that matched, which may be the first part of a word.
unfoldable pub scan_operator : Element → Str → Document → Scanning Document
unfolding within_word scan_word scan_element
scan_operator element src document =
    if within_word document.scanptr src
    then done (scan_word src document)
    else scan_element element.scanner element (record document { scanptr = src })
