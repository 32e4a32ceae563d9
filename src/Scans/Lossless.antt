-- ===== src/Scans/Lossless.antt =====
-- The scan of a naked grammar: what is shown of a whole scan.
use hemp.Base.{ℕ, suc, ◌≡◌, refl, sym, ap, ◌∙◌, [], ◌++◌, append-nil, length, arith}
use hemp.Chars.{Str}
use hemp.Ptrees.Tree.{Ptree}
use hemp.Scans.Document.{run, Element, Document, add_eof, add_fragment, texts}
use hemp.Scans.Tokens.{CLibrary}
use hemp.Scans.Told.{
  Tells, Between, Comes, Comes-and_then, run-Comes, Placed, Placed-append, texts-append,
}
use hemp.Scans.TokenLaws.{ReadsDigits}
use hemp.Scans.LoopLaws.{grammar_round-Comes, unread}
use hemp.Scans.Tags.{grammar_round, grammar_scanner}

-- The document before a scan, from `hemp_document_new`
abbrev pub new_document : Str → Document
new_document source = record {
  scanptr = source;
  scantok = source;
  scanpos = 0;
  fragments = [];
  scantags = [];
}

-- The fragments of the whole of a source: one behind the other they are its text, each with its position and
-- its length, and no tag is open.
pub record Whole (source : Str) (d : Document) : Type 0 where
  pub told : texts d.fragments ≡ source
  pub placed : Placed 0 d.fragments
  pub at : d.scanpos ≡ length source
  pub no_tags : d.scantags ≡ []

pub new_document-Told : (source : Str) → Tells source [] (new_document source)
unfolding texts Placed
new_document-Told source = record { told = refl; at = refl; placed = tt; open_tags = refl }

pub add_eof-Whole :
    (source : Str) (d : Document) → Tells source [] d → d.scantok ≡ [] → Whole source (add_eof d)
unfolding add_eof add_fragment
add_eof-Whole source d t e =
    let all : texts d.fragments ≡ source =
      sym (append-nil (texts d.fragments)) ∙ ap (λ s. texts d.fragments ++ s) (sym e) ∙ t.told in
    record {
      told = texts-append d.fragments _ ∙ append-nil (texts d.fragments) ∙ all;
      placed = Placed-append 0 d.fragments _ t.placed (t.at ∙ ground arith) refl;
      at = t.at ∙ ap length all;
      no_tags = t.open_tags;
    }

-- The scan of a source under a grammar comes to an end or to a place where the model stops: a read behind the NUL of
-- the source, or an operator with the scanner of a tag within a tag. Where it reports no error and comes to no such
-- place, the texts of its fragments are the source, one behind the other, each with its position and its length. The
-- operators may have the scanners of quotes, comments and fragment names, or none; `strtol` and `strtod` are to read
-- at least the digit they are given and end within the string.
pub grammar_scanner-Whole :
    (c : CLibrary) (operators : ℕ → Ptree Element) (source : Str)
    → ReadsDigits c
    → Comes (Whole source) (grammar_scanner c operators (new_document source))
unfolding grammar_scanner Comes
grammar_scanner-Whole c operators source r =
    let Post : Document → Type 0 = λ d. Between source [] (length source) d × (d.scanptr ≡ []) in
    let round = grammar_round c operators in
    Comes-and_then Post (Whole source) (run round (suc (length source)) (new_document source)) _
      (run-Comes (Between source [] (length source)) Post unread round
        (λ d b. grammar_round-Comes c operators source [] (length source) d r b)
        (suc (length source)) (new_document source)
        (record { tells = new_document-Told source; level = refl; bound = ground arith })
        (ground arith))
      (λ d p. add_eof-Whole source d p.0.tells (p.0.level ∙ p.1))
