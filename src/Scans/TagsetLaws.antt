-- ===== src/Scans/TagsetLaws.antt =====
-- The scan of a document comes to an end, and loses nothing of the source.
use mathlib.Core.Path.{subst}
use hemp.Base.{
  ℕ, suc, ◌≤◌, ◌≡◌, refl, sym, ap, ◌∙◌, Bool, true, false, Option, none, some, [], ◌∷◌, length,
  arith, Left, length-Left, Left-same, Left-more, Left-Left, ◌==◌, if◌then◌else◌,
}
use hemp.Chars.{Str}
use hemp.Scans.Document.{Scanning, Round, run, Tag}
use hemp.Scans.Tokens.{CLibrary}
use hemp.Scans.Told.{Comes, Comes-and_then, Comes-if, Rounds, run-Comes}
use hemp.Scans.TokenLaws.{ReadsDigits}
use hemp.Scans.Lossless.{Whole, new_document, new_document-Told, add_eof-Whole}
use hemp.Scans.Tagset.{
  Tagset, Place, match_tag, text_before, moved, inline_matched, behind_return, inline_step,
  outline_matched, place_at, place_round, tagset_scanner,
}
use hemp.Scans.Places.{
  Reading, Reads, text_before-Texted, moved-Reads, match_tag-Left, scan_tag-Reads,
}

behind_return-Reads :
    (source : Str) (n : ℕ) (p : Place) (src : Str)
    → Reading source n p
    → Left p.src src
    → suc (length src) ≤ n
    → Reads source n (suc (length src)) (behind_return p src)
behind_return-Reads source n p [] r l b = moved-Reads source n _ p [] false r l (ground arith) b
behind_return-Reads source n p (c ∷ src) r l b =
    Comes-if _ (c == 10) (moved p src false) (moved p (c ∷ src) false)
      (moved-Reads source n _ p src false r
        (Left-Left p.src (c ∷ src) src l (Left-more c src src (Left-same src))) (ground arith) b)
      (moved-Reads source n _ p (c ∷ src) false r l (ground arith) b)

inline_matched-Reads :
    (c : CLibrary) (source : Str) (n d : ℕ) (src : Str) (p : Place) (o : Option (Tag × Str))
    → ReadsDigits c
    → Reading source n p
    → Left p.src (d ∷ src)
    → suc (length src) ≤ n
    → ((tag : Tag) (rest : Str) → o ≡ some (tag, rest) → Left src rest)
    → Reads source n (suc (length src)) (inline_matched c p src o)
inline_matched-Reads c source n d src p none r i l b h =
    moved-Reads source n _ p src true i
      (Left-Left p.src (d ∷ src) src l (Left-more d src src (Left-same src))) (ground arith) b
inline_matched-Reads c source n d src p (some (tag, rest)) r i l b h =
    let left = h tag rest refl in
    scan_tag-Reads c source n (suc (length src)) (record p { in_line = true }) tag rest r
      (record { tells = i.tells; from_tok = i.from_tok; left = i.left; bound = i.bound })
      (Left-Left p.src (d ∷ src) rest l (Left-more d src rest left))
      (ground (arith, length-Left src rest left)) b

inline_step-Reads :
    (c : CLibrary) (tagset : Tagset) (source : Str) (n d : ℕ) (src : Str) (p : Place)
    → ReadsDigits c
    → Reading source n p
    → Left p.src (d ∷ src)
    → suc (length src) ≤ n
    → Reads source n (suc (length src)) (inline_step c tagset p d src)
unfolding inline_step
inline_step-Reads c tagset source n d src p r i l b =
    let behind = Left-Left p.src (d ∷ src) src l (Left-more d src src (Left-same src)) in
    let o = match_tag tagset.inline_tags (d ∷ src) in
    let rest : Scanning (Round Place) =
      if d == 13 then behind_return p src else inline_matched c p src o in
    Comes-if _ (d == 10) (moved p src false) rest
      (moved-Reads source n _ p src false i behind (ground arith) b)
      (Comes-if _ (d == 13) (behind_return p src) (inline_matched c p src o)
        (behind_return-Reads source n p src i behind b)
        (inline_matched-Reads c source n d src p o r i l b
          (match_tag-Left tagset.inline_tags d src)))

place_round-Reads :
    (c : CLibrary) (tagset : Tagset) (source : Str) (n : ℕ) (p : Place)
    → ReadsDigits c
    → Reading source n p
    → Reads source n (length p.src) (place_round c tagset p)
unfolding place_round Comes Rounds
place_round-Reads c tagset source n p r i = at p.src p.in_line refl
  where
    here : (d : ℕ) (src : Str) → p.src ≡ d ∷ src → Left p.src (d ∷ src)
    here d src e = subst (λ s. Left s (d ∷ src)) (sym e) (Left-same (d ∷ src))

    room : (d : ℕ) (src : Str) → p.src ≡ d ∷ src → suc (length src) ≤ n
    room d src e = ground (arith, ap length e, i.bound)

    outline :
        (d : ℕ) (src : Str) (e : p.src ≡ d ∷ src) (o : Option (Tag × Str))
        → ((tag : Tag) (rest : Str) → o ≡ some (tag, rest) → Left src rest)
        → Reads source n (suc (length src)) (outline_matched c tagset p d src o)
    outline d src e none h =
        inline_step-Reads c tagset source n d src p r i (here d src e) (room d src e)
    outline d src e (some (tag, rest)) h =
        let left = h tag rest refl in
        scan_tag-Reads c source n (suc (length src)) p tag rest r i
          (Left-Left p.src (d ∷ src) rest (here d src e) (Left-more d src rest left))
          (ground (arith, length-Left src rest left)) (room d src e)

    at :
        (s : Str) (in_line : Bool)
        → p.src ≡ s
        → Reads source n (length s) (place_at c tagset p s in_line)
    at [] in_line e = (i, e)
    at (d ∷ src) true e =
        inline_step-Reads c tagset source n d src p r i (here d src e) (room d src e)
    at (d ∷ src) false e =
        outline d src e (match_tag tagset.outline_tags (d ∷ src))
          (match_tag-Left tagset.outline_tags d src)

-- The scan of a document comes to an end or to a place where the model stops: a read behind the NUL of the source, a
-- control tag, or an operator with the scanner of a tag within a tag. Where it reports no error and comes to no such
-- place, the texts of its fragments (text between tags, tag starts and ends, and the tokens within tags) are the
-- source, one behind the other, each with its position and its length, and no tag is left open. This is for every set
-- of tags of the styles inline, outline and comment, if `strtol` and `strtod` read at least the digit they are given
-- and end within the string.
pub tagset_scanner-Whole :
    (c : CLibrary) (tagset : Tagset) (source : Str)
    → ReadsDigits c
    → Comes (Whole source) (tagset_scanner c tagset (new_document source))
unfolding tagset_scanner Comes
tagset_scanner-Whole c tagset source r =
    let Post : Place → Type 0 = λ p. Reading source (length source) p × (p.src ≡ []) in
    let round = place_round c tagset in
    let start : Place = record {
      document = new_document source;
      src = source;
      from = source;
      in_line = false;
    } in
    Comes-and_then Post (Whole source) (run round (suc (length source)) start) _
      (run-Comes (Reading source (length source)) Post (λ p. length p.src) round
        (λ p i. place_round-Reads c tagset source (length source) p r i) (suc (length source)) start
        (record {
          tells = new_document-Told source;
          from_tok = refl;
          left = Left-same source;
          bound = ground arith;
        })
        (ground arith))
      (λ p q.
        let x = text_before-Texted p.from p.src source p.document q.0.tells q.0.from_tok q.0.left in
        add_eof-Whole source (text_before p.from p.src p.document) x.tells (x.tok ∙ q.1))
