-- ===== src/Scans/ScannerLaws.antt =====
-- The scanners of tags and grammars come to an end, and lose nothing of the source.
use hemp.Base.{
  ℕ, suc, ◌≤◌, ◌≡◌, refl, ap, ◌∙◌, Option, none, some, List, [], ◌∷◌, length, arith, Left,
  length-Left, Left-more, Left-Left,
}
use hemp.Chars.{Str, after_all}
use hemp.Scans.Document.{
  Scanning, and_then, Round, run, tag_start, no_value, Tag, Document, scanned, enter_tag, leave_tag,
  tag_comment, inline_tag, outline_tag, comment_tag, control_tag, failed, not_followed,
}
use hemp.Scans.Tokens.{CLibrary}
use hemp.Scans.Told.{Tells, Between, scanned_to-Between, Comes, spent, Comes-and_then, run-Comes}
use hemp.Scans.TokenLaws.{ReadsDigits}
use hemp.Scans.LoopLaws.{unread, Goes, inline_round-Comes, outline_round-Comes, after_all-Left}
use hemp.Scans.Tags.{
  inline_round, inline_scanner, outline_round, outline_scanner, search, commented,
  comment_tag_scanner, tag_scanner,
}

-- The scanner of a tag: from behind its start, with at most `n` characters left, to behind its end.
abbrev pub Tagged : Str → List Tag → ℕ → Scanning Document → Type 0
Tagged source tags n s = Comes (Between source tags n) s

leave_tag-Comes :
    (tag : Tag) (source : Str) (tags : List Tag) (n : ℕ) (d : Document)
    → Between source (tag ∷ tags) n d
    → Tagged source tags n (leave_tag d)
unfolding leave_tag Comes
leave_tag-Comes tag source tags n d b =
    rw (leave_tag, b.tells.open_tags)
      (record {
        tells = record {
          told = b.tells.told;
          at = b.tells.at;
          placed = b.tells.placed;
          open_tags = refl;
        };
        level = b.level;
        bound = b.bound;
      })

-- A tag that is scanned by a loop.
tag_loop-Comes :
    (round : Document → Scanning (Round Document)) (tag : Tag) (source : Str) (tags : List Tag)
    (n : ℕ) (d : Document)
    → ((d' : Document)
        → Between source (tag ∷ tags) n d'
        → Comes (Goes source (tag ∷ tags) n (unread d')) (round d'))
    → Tells source tags d
    → Left d.scantok d.scanptr
    → length d.scanptr ≤ n
    → Tagged source tags n (
        and_then
          (run round (suc (length d.scanptr)) (scanned tag_start (enter_tag tag d)))
          leave_tag)
unfolding scanned enter_tag
tag_loop-Comes round tag source tags n d h t l b =
    let entered = enter_tag tag d in
    let started = scanned tag_start entered in
    let t' : Tells source (tag ∷ tags) entered = record {
      told = t.told;
      at = t.at;
      placed = t.placed;
      open_tags = ap (λ ts. tag ∷ ts) t.open_tags;
    } in
    Comes-and_then (Between source (tag ∷ tags) n) (Between source tags n)
      (run round (suc (length d.scanptr)) started) leave_tag
      (run-Comes (Between source (tag ∷ tags) n) (Between source (tag ∷ tags) n) unread round h
        (suc (length d.scanptr)) started
        (scanned_to-Between tag_start no_value d.scanptr source (tag ∷ tags) n entered t' l b)
        (ground arith))
      (leave_tag-Comes tag source tags n)

search-Left : (end src rest : Str) → search end src ≡ some rest → Left src rest
unfolding search
search-Left end [] rest e = after_all-Left end [] rest e
search-Left end (c ∷ src) rest e = first (after_all end (c ∷ src)) refl e (search-Left end src rest)
  where
    first :
        (o : Option Str)
        → after_all end (c ∷ src) ≡ o
        → (elim o [ some r ↦ some r | none ↦ search end src ]) ≡ some rest
        → (search end src ≡ some rest → Left src rest)
        → Left (c ∷ src) rest
    first (some r) a e ih = after_all-Left end (c ∷ src) rest (a ∙ e)
    first none a e ih = Left-more c src rest (ih e)

comment_tag_scanner-Comes :
    (tag : Tag) (source : Str) (tags : List Tag) (n : ℕ) (d : Document)
    → Tells source tags d
    → Left d.scantok d.scanptr
    → length d.scanptr ≤ n
    → Tagged source tags n (comment_tag_scanner tag d)
unfolding comment_tag_scanner Comes spent
comment_tag_scanner-Comes tag source tags n d t l b = found (search tag.end d.scanptr) refl
  where
    found : (o : Option Str) → search tag.end d.scanptr ≡ o → Tagged source tags n (commented d o)
    found none e = refl
    found (some rest) e =
        let left = search-Left tag.end d.scanptr rest e in
        scanned_to-Between tag_comment no_value rest source tags n d t
          (Left-Left d.scantok d.scanptr rest l left)
          (ground (arith, length-Left d.scanptr rest left))

pub tag_scanner-Comes :
    (c : CLibrary) (tag : Tag) (source : Str) (tags : List Tag) (n : ℕ) (d : Document)
    → ReadsDigits c
    → Tells source tags d
    → Left d.scantok d.scanptr
    → length d.scanptr ≤ n
    → Tagged source tags n (tag_scanner c tag d)
unfolding tag_scanner inline_scanner outline_scanner Comes spent
tag_scanner-Comes c tag source tags n d r t l b =
    elim tag.scanner
      as (λ k. Tagged source tags n (elim k [
        | inline_tag ↦ inline_scanner c tag d
        | outline_tag ↦ outline_scanner c tag d
        | comment_tag ↦ comment_tag_scanner tag d
        | control_tag ↦ failed not_followed d.scantok
      ])) [
        | inline_tag ↦
            tag_loop-Comes (inline_round c tag) tag source tags n d
              (λ d' b'. inline_round-Comes c tag source (tag ∷ tags) n d' r b') t l b
        | outline_tag ↦
            tag_loop-Comes (outline_round c tag) tag source tags n d
              (λ d' b'. outline_round-Comes c tag source (tag ∷ tags) n d' r b') t l b
        | comment_tag ↦ comment_tag_scanner-Comes tag source tags n d t l b
        | control_tag ↦ refl
      ]
