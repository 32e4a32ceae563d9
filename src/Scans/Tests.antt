-- ===== src/Scans/Tests.antt =====
-- Runs of the scanner, with numbers read in base 10.
use hemp.Base.{
  ℕ, ◌+◌, ◌*◌, ◌-◌, ◌≡◌, refl, true, false, Option, none, some, List, [], ◌∷◌, map, Left,
  if◌then◌else◌, ◌==◌, Left-same, Left-more,
}
use hemp.Chars.{Str, codes, is_digit}
use hemp.Ptrees.Tree.{Ptree, empty, node}
use hemp.Scans.Document.{
  Scanning, done, failed, Element, no_scanner, squote, Document, Tag, inline_tag, outline_tag,
  to_eol, inline_to_eol, text_of, read_past_end, Failure,
}
use hemp.Scans.Tokens.{CLibrary, Numeral}
use hemp.Scans.Quoted.{squote_scanner, unescape_double}
use hemp.Scans.Quotes.{squote_scanner-Reads, Reads, escape}
use hemp.Scans.Told.{Comes}
use hemp.Scans.TokenLaws.{ReadsDigits}
use hemp.Scans.Tags.{grammar_scanner}
use hemp.Scans.Tagset.{Tagset, tagset_scanner}
use hemp.Scans.Lossless.{Whole, new_document, grammar_scanner-Whole}
use hemp.Scans.TagsetLaws.{tagset_scanner-Whole}

-- Decimal digits
abbrev digits : ℕ → Str → Numeral
digits n s = record { value = n; rest = s; out_of_range = false }

abbrev decimal : ℕ → Str → Numeral
decimal n [] = digits n []
decimal n (c ∷ s) =
    let more = decimal (n * 10 + (c - 48)) s in if is_digit c then more else digits n (c ∷ s)

abbrev c_library : CLibrary
c_library = record { strtol = decimal 0; strtod = decimal 0 }

decimal-Left : (n : ℕ) (s : Str) → Left s (decimal n s).rest
decimal-Left n [] = Left-same []
decimal-Left n (c ∷ s) =
    elim (is_digit c)
      as (λ b. Left (c ∷ s) (if b then decimal (n * 10 + (c - 48)) s else digits n (c ∷ s)).rest) [
        | true ↦
            Left-more c s (decimal (n * 10 + (c - 48)) s).rest (decimal-Left (n * 10 + (c - 48)) s)
        | false ↦ Left-same (c ∷ s)
      ]

decimal_digit : (d : ℕ) (s : Str) → is_digit d ≡ true → Left s (decimal 0 (d ∷ s)).rest
decimal_digit d s h = rw h (decimal-Left (0 * 10 + (d - 48)) s)

c_library-ReadsDigits : ReadsDigits c_library
c_library-ReadsDigits = record { integers = decimal_digit; floats = decimal_digit }

abbrev plus : Element
plus = record { name = 43 ∷ []; scanner = no_scanner; start = 43 ∷ []; end = [] }

abbrev quote : Element
quote = record { name = 39 ∷ []; scanner = squote; start = 39 ∷ []; end = 39 ∷ [] }

-- `+` is 43, and `'` 39.
abbrev operators : ℕ → Ptree Element
operators n =
    if n == 3
    then node 43 [] (some plus) empty empty empty
    else if n == 7
    then node 39 [] (some quote) empty empty empty
    else empty

-- `[% ... %]`
abbrev tag : Tag
tag = record {
  end = codes "%]";
  scanner = inline_tag;
  skipper = inline_to_eol;
  operators = operators;
}

-- `%% ...`, to the end of the line
abbrev line_tag : Tag
line_tag = record { end = []; scanner = outline_tag; skipper = to_eol; operators = operators }

abbrev tagset : Tagset
tagset = record {
  inline_tags = λ n. if n == 3 then node 91 (37 ∷ []) (some tag) empty empty empty else empty;
  outline_tags = λ n. if n == 5 then node 37 (37 ∷ []) (some line_tag) empty empty empty else empty;
}

abbrev document : Str
document = codes "Hi [% a+'b' %]!\n%% 12\nBye"

-- The texts of the fragments of a scan
abbrev tokens : Scanning Document → List Str
tokens (done d) = map text_of d.fragments
tokens (failed why at) = []

scan_document :
    tokens (tagset_scanner c_library tagset (new_document document))
    ≡ codes "Hi "
      ∷ codes "[%"
      ∷ codes " "
      ∷ codes "a"
      ∷ codes "+"
      ∷ codes "'b'"
      ∷ codes " "
      ∷ codes "%]"
      ∷ codes "!\n"
      ∷ codes "%%"
      ∷ codes " "
      ∷ codes "12"
      ∷ codes "\n"
      ∷ codes "Bye"
      ∷ []
      ∷ []
unfolding tagset_scanner
scan_document = refl

tagset_scanner-Whole_example :
    Comes (Whole document) (tagset_scanner c_library tagset (new_document document))
tagset_scanner-Whole_example = tagset_scanner-Whole c_library tagset document c_library-ReadsDigits

grammar_scanner-Whole_example :
    Comes (Whole (codes "a+12")) (grammar_scanner c_library operators (new_document (codes "a+12")))
grammar_scanner-Whole_example =
    grammar_scanner-Whole c_library operators (codes "a+12") c_library-ReadsDigits

-- `it's`, in single quotes, with ` x` behind it, behind the opening quote
abbrev quoted : Document
quoted = record (new_document (codes "'it\\'s' x")) { scanptr = codes "it\\'s' x" }

squote_scanner-Reads_example :
    (d : Document) × (squote_scanner quote quoted ≡ done d)
    × Reads quote (codes "it's") (codes " x") quoted d
unfolding escape
squote_scanner-Reads_example =
    squote_scanner-Reads quote 39 (codes "it's") (codes " x") quoted refl refl refl refl

-- What comes of a scan
abbrev why : Scanning Document → Option Failure
why (done d) = none
why (failed w at) = some w

-- A quote at the very end of the source, and a backslash there
scan-quote_end : why (squote_scanner quote (new_document [])) ≡ some read_past_end
unfolding squote_scanner
scan-quote_end = refl

scan-backslash_end : why (squote_scanner quote (new_document (codes "a\\"))) ≡ some read_past_end
unfolding squote_scanner
scan-backslash_end = refl

-- In double quotes `\\n`, an escaped backslash and an `n`, is read as a newline, and an escaped backslash at
-- the end is lost.
double-newline : unescape_double 34 3 (codes "\\\\n\"") ≡ 10 ∷ []
unfolding unescape_double
double-newline = refl

double-backslash : unescape_double 34 3 (codes "a\\\\\"") ≡ codes "a"
unfolding unescape_double
double-backslash = refl
