-- ===== src/Scans/Quoted.antt =====
-- library/element/quoted.c: the scanners of quoted strings, behind the opening quote.
use hemp.Base.{
  ℕ, zero, suc, ◌+◌, ◌-◌, Bool, true, false, ◌&&◌, ◌||◌, not, Option, none, some, [], ◌∷◌, length,
  drop, take, leb, ◌==◌, if◌then◌else◌, is_some,
}
use hemp.Chars.{Str, after_all}
use hemp.Ptrees.Tree.{head_char}
use hemp.Scans.Document.{
  Scanning, done, failed, unterminated, read_past_end, Element, operator, Payload, is_source,
  str_value, Fragment, distance, Document, scanned_to,
}

-- `HEMP_BACKSLASH`
abbrev pub backslash : ℕ
backslash = 92

-- The test for the closing quote
unfoldable pub at_end : Str → Str → Bool
unfolding after_all
at_end end src =
    (head_char src == head_char end) && (length end == 1 || is_some (after_all end src))

-- The walk to the end: the closing quote with what stands behind it, and whether no backslash was met.
pub data Walk : Type 0 where
  closed : Str → Bool → Walk
  unclosed : Walk
  past_end : Walk

abbrev pub with_escape : Walk → Walk
with_escape (closed src plain) = closed src false
with_escape unclosed = unclosed
with_escape past_end = past_end

unfoldable pub walk : Str → Str → Walk
unfolding at_end
walk end [] = if at_end end [] then closed [] true else past_end
walk end (c ∷ []) =
    if at_end end (c ∷ [])
    then closed (c ∷ []) true
    else if c == backslash
    then past_end
    else unclosed
walk end (c ∷ d ∷ []) =
    let next = walk end (d ∷ []) in
    if at_end end (c ∷ d ∷ [])
    then closed (c ∷ d ∷ []) true
    else if c == backslash
    then unclosed
    else next
walk end (c ∷ d ∷ e ∷ src) =
    let next = walk end (d ∷ e ∷ src) in
    let behind = walk end (e ∷ src) in
    if at_end end (c ∷ d ∷ e ∷ src)
    then closed (c ∷ d ∷ e ∷ src) true
    else if c == backslash
    then with_escape behind
    else next

-- The copy of a single-quoted string with its escapes resolved: `n` characters are left to the end, whose
-- first character is `quote`.
unfoldable pub unescape_single : ℕ → ℕ → Str → Str
unescape_single quote zero src = []
unescape_single quote (suc n) [] = []
unescape_single quote (suc n) (c ∷ []) = c ∷ []
unescape_single quote (suc zero) (c ∷ d ∷ src) =
    if (c == backslash) && (d == backslash || d == quote) then d ∷ [] else c ∷ []
unescape_single quote (suc (suc n)) (c ∷ d ∷ src) =
    let one = unescape_single quote (suc n) (d ∷ src) in
    let two = unescape_single quote n src in
    if (c == backslash) && (d == backslash || d == quote) then d ∷ two else c ∷ one

-- The copy of a double-quoted string
unfoldable pub unescape_double : ℕ → ℕ → Str → Str
unescape_double quote zero src = []
unescape_double quote (suc n) [] = []
unescape_double quote (suc n) (c ∷ []) = c ∷ []
unescape_double quote (suc zero) (c ∷ d ∷ src) =
    if not (c == backslash)
    then c ∷ []
    else if d == quote
    then []
    else if d == backslash
    then []
    else if d == b'n'
    then 10 ∷ []
    else if d == b't'
    then 9 ∷ []
    else c ∷ []
unescape_double quote (suc (suc n)) (c ∷ d ∷ src) =
    let one = unescape_double quote (suc n) (d ∷ src) in
    let two = unescape_double quote n src in
    if not (c == backslash)
    then c ∷ one
    else if d == quote
    then one
    else if d == backslash
    then one
    else if d == b'n'
    then 10 ∷ two
    else if d == b't'
    then 9 ∷ two
    else c ∷ one

-- What follows the walk: `end` is the element's closing quote, `start` where the string starts, and `closing`
-- the closing quote in the source.
unfoldable pub quoted_to : (ℕ → ℕ → Str → Str) → Element → Str → Document → Walk → Scanning Document
unfolding scanned_to
quoted_to unescape element start document past_end = failed read_past_end document.scantok
quoted_to unescape element start document unclosed = failed unterminated document.scantok
quoted_to unescape element start document (closed closing plain) =
    let value =
      if plain
      then is_source
      else str_value (unescape (head_char closing) (distance start closing) start) in
    done (scanned_to (operator element) value (drop (length element.end) closing) document)

-- `hemp_element_squote_scanner`
unfoldable pub squote_scanner : Element → Document → Scanning Document
unfolding quoted_to walk unescape_single
squote_scanner element document =
    quoted_to unescape_single element document.scanptr document (walk element.end document.scanptr)

-- `hemp_element_dquote_scanner`
unfoldable pub dquote_scanner : Element → Document → Scanning Document
unfolding quoted_to walk unescape_double
dquote_scanner element document =
    quoted_to unescape_double element document.scanptr document (walk element.end document.scanptr)

-- What `hemp_element_quoted_text` appends: the text that is appended, where the element is that of the fragment. The answer
-- `none` is a size below zero, which wraps, or a value that is no string.
unfoldable pub quoted_value : Element → Fragment → Payload → Option Str
quoted_value element fragment is_source =
    let ends = length element.start + length element.end in
    if leb ends fragment.length
    then some (take (fragment.length - ends) (drop (length element.start) fragment.token))
    else none
quoted_value element fragment (str_value s) = some s
quoted_value element fragment _ = none

unfoldable pub quoted_text : Element → Fragment → Option Str
unfolding quoted_value
quoted_text element fragment = quoted_value element fragment fragment.value
