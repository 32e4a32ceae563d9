-- ===== src/Scans/Tags.antt =====
-- The scanners of tags, of naked grammars and of documents: library/tag/{inline,outline,comment}.c,
-- library/grammar.c and library/tagset.c.
use hemp.Base.{ℕ, suc, Bool, ◌&&◌, Option, none, some, [], ◌∷◌, length, ◌==◌, if◌then◌else◌}
use hemp.Chars.{Str, is_digit, is_alpha, is_space, after_all}
use hemp.Ptrees.Tree.{Ptree, head_char}
use hemp.Scans.Document.{
  Scanning, done, failed, and_then, Round, more, ended, run, bad_token, no_tag_end, no_comment_end,
  not_followed, Element, space, tag_start, tag_end, tag_comment, no_value, inline_tag, outline_tag,
  comment_tag, control_tag, Tag, Document, scanned_to, scanned, add_eof, enter_tag, leave_tag,
}
use hemp.Scans.Tokens.{
  CLibrary, scan_while, scan_number, not_newline, scan_word, match_operator, scan_operator,
}

abbrev pub word_or_error : Document → Scanning Document
word_or_error document =
    if is_alpha (head_char document.scanptr)
    then done (scan_word document.scanptr document)
    else failed bad_token document.scanptr

abbrev pub operator_or_word : Document → Option (Element × Str) → Scanning Document
operator_or_word document none = word_or_error document
operator_or_word document (some (element, src)) = scan_operator element src document

-- The branches that the loops of the scanners share: numbers, operators, words, and the error.
unfoldable pub scan_token : CLibrary → (ℕ → Ptree Element) → Document → Scanning Document
unfolding is_digit is_alpha scan_number match_operator scan_operator scan_word
scan_token c operators document =
    if is_digit (head_char document.scanptr)
    then scan_number c document
    else operator_or_word document (match_operator operators document.scanptr)

abbrev pub and_more : Scanning Document → Scanning (Round Document)
and_more (done document) = done (more document)
and_more (failed why at) = failed why at

abbrev pub tag_end_or_token : CLibrary → Tag → Document → Option Str → Scanning (Round Document)
tag_end_or_token c tag document none = and_more (scan_token c tag.operators document)
tag_end_or_token c tag document (some src) = done (ended (scanned_to tag_end no_value src document))

-- A round of the loop of `hemp_tag_inline_scanner`
abbrev pub inline_at : CLibrary → Tag → Document → Str → Scanning (Round Document)
inline_at c tag document [] = failed no_tag_end []
inline_at c tag document (d ∷ src) =
    if is_space d
    then done (more (scanned_to space no_value (scan_while is_space (d ∷ src)) document))
    else tag_end_or_token c tag document (after_all tag.end (d ∷ src))

unfoldable pub inline_round : CLibrary → Tag → Document → Scanning (Round Document)
unfolding is_space scan_while scanned_to scan_token after_all
inline_round c tag document = inline_at c tag document document.scanptr

-- `hemp_tag_inline_scanner`. One round takes at least one character.
unfoldable pub inline_scanner : CLibrary → Tag → Document → Scanning Document
unfolding inline_round run enter_tag scanned leave_tag
inline_scanner c tag document =
    let started = scanned tag_start (enter_tag tag document) in
    and_then (run (inline_round c tag) (suc (length started.scanptr)) started) leave_tag

unfoldable pub is_blank : ℕ → Bool
unfolding is_space not_newline
is_blank c = is_space c && not_newline c

-- The line feed behind a carriage return
abbrev pub past_line_feed : Str → Str
past_line_feed [] = []
past_line_feed (c ∷ src) = if c == 10 then src else c ∷ src

-- A round of the loop of `hemp_tag_outline_scanner`, with the tag end behind it.
abbrev pub outline_at : CLibrary → Tag → Document → Str → Scanning (Round Document)
outline_at c tag document [] = done (ended (scanned_to tag_end no_value [] document))
outline_at c tag document (d ∷ src) =
    if d == 10
    then done (ended (scanned_to tag_end no_value src document))
    else if d == 13
    then done (ended (scanned_to tag_end no_value (past_line_feed src) document))
    else if is_space d
    then done (more (scanned_to space no_value (scan_while is_blank (d ∷ src)) document))
    else and_more (scan_token c tag.operators document)

unfoldable pub outline_round : CLibrary → Tag → Document → Scanning (Round Document)
unfolding is_space is_blank scan_while scanned_to scan_token
outline_round c tag document = outline_at c tag document document.scanptr

-- `hemp_tag_outline_scanner`
unfoldable pub outline_scanner : CLibrary → Tag → Document → Scanning Document
unfolding outline_round run enter_tag scanned leave_tag
outline_scanner c tag document =
    let started = scanned tag_start (enter_tag tag document) in
    and_then (run (outline_round c tag) (suc (length started.scanptr)) started) leave_tag

-- `strstr`, and the string behind what was found
unfoldable pub search : Str → Str → Option Str
unfolding after_all
search end [] = after_all end []
search end (c ∷ src) =
    let later = search end src in
    elim (after_all end (c ∷ src)) [ some rest ↦ some rest | none ↦ later ]

abbrev pub commented : Document → Option Str → Scanning Document
commented document none = failed no_comment_end []
commented document (some src) = done (scanned_to tag_comment no_value src document)

-- `hemp_tag_comment_scanner`
unfoldable pub comment_tag_scanner : Tag → Document → Scanning Document
unfolding search scanned_to
comment_tag_scanner tag document = commented document (search tag.end document.scanptr)

-- `tag->scanner (tag, document)`. The model stops at a control tag.
unfoldable pub tag_scanner : CLibrary → Tag → Document → Scanning Document
unfolding inline_scanner outline_scanner comment_tag_scanner
tag_scanner c tag document = elim tag.scanner [
  | inline_tag ↦ inline_scanner c tag document
  | outline_tag ↦ outline_scanner c tag document
  | comment_tag ↦ comment_tag_scanner tag document
  | control_tag ↦ failed not_followed document.scantok
]

-- A round of the loop of `hemp_grammar_scanner`
abbrev pub grammar_at : CLibrary → (ℕ → Ptree Element) → Document → Str → Scanning (Round Document)
grammar_at c operators document [] = done (ended document)
grammar_at c operators document (d ∷ src) =
    if is_space d
    then done (more (scanned_to space no_value (scan_while is_space (d ∷ src)) document))
    else and_more (scan_token c operators document)

unfoldable pub grammar_round : CLibrary → (ℕ → Ptree Element) → Document → Scanning (Round Document)
unfolding is_space scan_while scanned_to scan_token
grammar_round c operators document = grammar_at c operators document document.scanptr

-- `hemp_grammar_scanner`
unfoldable pub grammar_scanner : CLibrary → (ℕ → Ptree Element) → Document → Scanning Document
unfolding grammar_round run add_eof
grammar_scanner c operators document =
    and_then (run (grammar_round c operators) (suc (length document.scanptr)) document)
      (λ scanned. done (add_eof scanned))
