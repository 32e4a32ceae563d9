-- ===== src/Scans/Places.antt =====
-- A place in the scan of a document, and the tag that is scanned there.
use mathlib.Core.Path.{subst}
use hemp.Base.{
  ℕ, ◌≤◌, ◌<◌, ◌≡◌, refl, sym, ap, ◌∙◌, Bool, true, false, some, [], ◌∷◌, ◌++◌, length, arith, Left,
  Left-same, Left-Left, ◌==◌, if◌then◌else◌, length-append,
}
use hemp.Chars.{Str}
use hemp.Ptrees.Tree.{Ptree, root_position}
use hemp.Ptrees.Match.{match_more-Left}
use hemp.Scans.Document.{
  Scanning, done, failed, Round, text, no_value, Tag, Document, scanned_to, distance,
}
use hemp.Scans.Tokens.{CLibrary}
use hemp.Scans.Told.{Tells, Between, scanned_to-Between, Comes, Rounds}
use hemp.Scans.TokenLaws.{ReadsDigits}
use hemp.Scans.ScannerLaws.{tag_scanner-Comes}
use hemp.Scans.Tags.{tag_scanner}
use hemp.Scans.Tagset.{Place, match_tag, text_before, enter_at, scan_tag, moved}

-- The loops of the scan: what is between `from` and `src` is text that has no fragment yet.
pub record Reading (source : Str) (n : ℕ) (p : Place) : Type 0 where
  pub tells : Tells source [] p.document
  pub from_tok : p.document.scantok ≡ p.from
  pub left : Left p.from p.src
  pub bound : length p.src ≤ n

-- The text in front of a tag, or at the end.
pub record Texted (source src : Str) (d : Document) : Type 0 where
  pub tells : Tells source [] d
  pub tok : d.scantok ≡ src

no_text : (from src : Str) → Left from src → (distance from src == 0) ≡ true → from ≡ src
no_text from src l e = none_taken l.taken l.source
  where
    none_taken : (taken : Str) → from ≡ taken ++ src → from ≡ src
    none_taken [] p = p
    none_taken (c ∷ taken) p = ground (arith, ap length p, length-append taken src)

pub text_before-Texted :
    (from src source : Str) (d : Document)
    → Tells source [] d
    → d.scantok ≡ from
    → Left from src
    → Texted source src (text_before from src d)
unfolding text_before
text_before-Texted from src source d t e l =
    elim (distance from src == 0)
        as (λ x.
          (distance from src == 0) ≡ x
          → Texted source src (if x then d else scanned_to text no_value src d)) [
            | true ↦ λ p. record { tells = t; tok = e ∙ no_text from src l p }
            | false ↦ λ p.
                let b =
                  scanned_to-Between text no_value src source [] (length src) d t
                    (subst (λ s. Left s src) (sym e) l) (ground arith) in
                record { tells = b.tells; tok = b.level }
          ]
      refl

-- What a round leaves: less than `m` characters.
abbrev pub Reads : Str → ℕ → ℕ → Scanning (Round Place) → Type 0
Reads source n m s =
    Comes (Rounds (Reading source n) (λ p. Reading source n p × (p.src ≡ [])) (λ p. length p.src) m)
      s

pub moved-Reads :
    (source : Str) (n m : ℕ) (p : Place) (src : Str) (in_line : Bool)
    → Reading source n p
    → Left p.src src
    → length src < m
    → m ≤ n
    → Reads source n m (moved p src in_line)
unfolding Comes Rounds
moved-Reads source n m p src in_line r l lt b = (
  record {
    tells = r.tells;
    from_tok = r.from_tok;
    left = Left-Left p.from p.src src r.left l;
    bound = ground arith;
  },
  lt,
)

pub match_tag-Left :
    (tags : ℕ → Ptree Tag) (c : ℕ) (src : Str) (tag : Tag) (rest : Str)
    → match_tag tags (c ∷ src) ≡ some (tag, rest)
    → Left src rest
unfolding match_tag
match_tag-Left tags c src tag rest e =
    match_more-Left (tags (root_position (c ∷ src))) c src tag rest e

pub scan_tag-Reads :
    (c : CLibrary) (source : Str) (n m : ℕ) (p : Place) (tag : Tag) (rest : Str)
    → ReadsDigits c
    → Reading source n p
    → Left p.src rest
    → length rest < m
    → m ≤ n
    → Reads source n m (scan_tag c p tag rest)
unfolding scan_tag enter_at Comes Rounds
scan_tag-Reads c source n m p tag rest r i l lt b =
    let x = text_before-Texted p.from p.src source p.document i.tells i.from_tok i.left in
    entered (tag_scanner c tag (record (text_before p.from p.src p.document) { scanptr = rest })) (
      tag_scanner-Comes c tag source [] (length rest)
        (record (text_before p.from p.src p.document) { scanptr = rest }) r x.tells
        (subst (λ s. Left s rest) (sym x.tok) l) (ground arith))
  where
    entered :
        (s : Scanning Document)
        → Comes (Between source [] (length rest)) s
        → Reads source n m (enter_at p s)
    entered (failed why at) h = h
    entered (done d) h = (
      record {
        tells = h.tells;
        from_tok = h.level;
        left = Left-same d.scanptr;
        bound = ground (arith, h.bound);
      },
      ground (arith, h.bound),
    )
