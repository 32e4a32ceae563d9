-- ===== src/Scans/Tagset.antt =====
-- The scanner of documents, `hemp_tagset_scanner` of library/tagset.c.
use hemp.Base.{ℕ, suc, Bool, true, false, Option, none, some, [], ◌∷◌, length, ◌==◌, if◌then◌else◌}
use hemp.Chars.{Str}
use hemp.Ptrees.Tree.{Ptree, match_more, root_position}
use hemp.Scans.Document.{
  Scanning, done, failed, and_then, Round, more, ended, run, text, no_value, Tag, Document,
  distance, scanned_to, add_eof,
}
use hemp.Scans.Tokens.{CLibrary}
use hemp.Scans.Tags.{tag_scanner}

-- The prefix trees of struct hemp_tagset, by the positions of their roots
pub record Tagset : Type 0 where
  pub inline_tags : ℕ → Ptree Tag
  pub outline_tags : ℕ → Ptree Tag

-- The variables of the loops: `src`, `from`, the document, and which of the two inner loops is run.
pub record Place : Type 0 where
  pub document : Document
  pub src : Str
  pub from : Str
  pub in_line : Bool

unfoldable pub match_tag : (ℕ → Ptree Tag) → Str → Option (Tag × Str)
unfolding match_more root_position
match_tag tags src = match_more (tags (root_position src)) src

-- The text in front of `src`, where there is any
unfoldable pub text_before : Str → Str → Document → Document
unfolding scanned_to
text_before from src document =
    if distance from src == 0 then document else scanned_to text no_value src document

-- The scanner of the tag that matched
unfoldable pub enter_at : Place → Scanning Document → Scanning (Round Place)
enter_at place (done document) = done (
    more (record {
      document = document;
      src = document.scanptr;
      from = document.scanptr;
      in_line = place.in_line;
    }))
enter_at place (failed why at) = failed why at

unfoldable pub scan_tag : CLibrary → Place → Tag → Str → Scanning (Round Place)
unfolding enter_at text_before tag_scanner
scan_tag c place tag src =
    enter_at place (
      tag_scanner c tag
        (record (text_before place.from place.src place.document) { scanptr = src }))

abbrev pub moved : Place → Str → Bool → Scanning (Round Place)
moved place src in_line = done (more (record place { src = src; in_line = in_line }))

-- A round of the loop for the inline tags of a line, by what matched
abbrev pub inline_matched : CLibrary → Place → Str → Option (Tag × Str) → Scanning (Round Place)
inline_matched c place src none = moved place src true
inline_matched c place src (some (tag, rest)) =
    scan_tag c (record place { in_line = true }) tag rest

abbrev pub behind_return : Place → Str → Scanning (Round Place)
behind_return place [] = moved place [] false
behind_return place (c ∷ src) =
    if c == 10 then moved place src false else moved place (c ∷ src) false

unfoldable pub inline_step : CLibrary → Tagset → Place → ℕ → Str → Scanning (Round Place)
unfolding match_tag scan_tag
inline_step c tagset place d src =
    if d == 10
    then moved place src false
    else if d == 13
    then behind_return place src
    else inline_matched c place src (match_tag tagset.inline_tags (d ∷ src))

-- A round of the loop for the outline tags at the start of a line, which goes on in the line where none
-- matches.
abbrev pub outline_matched :
    CLibrary → Tagset → Place → ℕ → Str → Option (Tag × Str) → Scanning (Round Place)
outline_matched c tagset place d src none = inline_step c tagset place d src
outline_matched c tagset place d src (some (tag, rest)) = scan_tag c place tag rest

abbrev pub place_at : CLibrary → Tagset → Place → Str → Bool → Scanning (Round Place)
place_at c tagset place [] in_line = done (ended place)
place_at c tagset place (d ∷ src) true = inline_step c tagset place d src
place_at c tagset place (d ∷ src) false =
    outline_matched c tagset place d src (match_tag tagset.outline_tags (d ∷ src))

unfoldable pub place_round : CLibrary → Tagset → Place → Scanning (Round Place)
unfolding inline_step match_tag scan_tag
place_round c tagset place = place_at c tagset place place.src place.in_line

-- `hemp_tagset_scanner`
unfoldable pub tagset_scanner : CLibrary → Tagset → Document → Scanning Document
unfolding place_round run text_before add_eof
tagset_scanner c tagset document =
    and_then
      (run (place_round c tagset) (suc (length document.scanptr)) (record {
        document = document;
        src = document.scanptr;
        from = document.scantok;
        in_line = false;
      }))
      (λ place. done (add_eof (text_before place.from place.src place.document)))
