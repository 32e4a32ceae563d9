-- ===== src/Scans/LoopLaws.antt =====
-- The loops of the scanners of tags and grammars come to an end, and lose nothing of the source.
use mathlib.Core.Path.{subst}
use hemp.Base.{
  ℕ, suc, ◌<◌, ◌≡◌, refl, sym, ap, ◌∙◌, Bool, true, false, Option, none, some, List, [], ◌∷◌,
  append-nil, length, arith, Left, length-Left, Left-same, Left-more, Left-Left, ◌==◌,
  if◌then◌else◌,
}
use hemp.Chars.{Str, is_space, after_all, after_all-append}
use hemp.Ptrees.Tree.{Ptree}
use hemp.Scans.Document.{
  Scanning, done, failed, Round, more, ended, Element, tag_end, space, no_value, Tag, Document,
  scanned_to,
}
use hemp.Scans.Tokens.{CLibrary, scan_while}
use hemp.Scans.Told.{Tells, Between, scanned_to-Between, Comes, spent, Comes-if, Rounds}
use hemp.Scans.TokenLaws.{ReadsDigits, scan_while-Left}
use hemp.Scans.TagLaws.{scan_token-Comes}
use hemp.Scans.Tags.{
  scan_token, and_more, tag_end_or_token, inline_at, inline_round, is_blank, past_line_feed,
  outline_at, outline_round, grammar_at, grammar_round,
}

-- What is left to scan.
abbrev pub unread : Document → ℕ
unread d = length d.scanptr

-- What a round leaves of `m` characters, in a loop that has `n` before it.
-- `Post` holds where the loop ends.
abbrev pub GoesTo : (Document → Type 0) → Str → List Tag → ℕ → ℕ → Round Document → Type 0
GoesTo Post source tags n m = Rounds (Between source tags n) Post unread m

abbrev pub Goes : Str → List Tag → ℕ → ℕ → Round Document → Type 0
Goes source tags n m = Rounds (Between source tags n) (Between source tags n) unread m

more-Goes :
    (Post : Document → Type 0) (source : Str) (tags : List Tag) (n m : ℕ) (d : Document)
    → Between source tags m d
    → m < n
    → GoesTo Post source tags n (suc m) (more d)
unfolding Rounds
more-Goes Post source tags n m d b lt = (
  record { tells = b.tells; level = b.level; bound = ground (arith, b.bound) },
  ground (arith, b.bound),
)

and_more-Comes :
    (Post : Document → Type 0) (source : Str) (tags : List Tag) (n m : ℕ) (s : Scanning Document)
    → Comes (Between source tags m) s
    → m < n
    → Comes (GoesTo Post source tags n (suc m)) (and_more s)
unfolding Comes
and_more-Comes Post source tags n m (done d) b lt = more-Goes Post source tags n m d b lt
and_more-Comes Post source tags n m (failed why at) b lt = b

-- At a character of the source, between two tokens.
record Here (source : Str) (tags : List Tag) (n c : ℕ) (src : Str) (d : Document) : Type 0 where
  tells : Tells source tags d
  tok : d.scantok ≡ c ∷ src
  ptr : d.scanptr ≡ c ∷ src
  left : Left d.scantok (c ∷ src)
  bound : length src < n

Between-Here :
    (source : Str) (tags : List Tag) (n c : ℕ) (src : Str) (d : Document)
    → Between source tags n d
    → d.scanptr ≡ c ∷ src
    → Here source tags n c src d
Between-Here source tags n c src d b p = record {
  tells = b.tells;
  tok = b.level ∙ p;
  ptr = p;
  left = subst (λ s. Left s (c ∷ src)) (sym (b.level ∙ p)) (Left-same (c ∷ src));
  bound = ground (arith, b.bound, ap length p);
}

-- Whitespace
blank-Goes :
    (Post : Document → Type 0) (p : ℕ → Bool) (source : Str) (tags : List Tag) (n c : ℕ) (src : Str)
    (d : Document)
    → Here source tags n c src d
    → GoesTo Post source tags n
        (suc (length src))
        (more (scanned_to space no_value (scan_while p (c ∷ src)) d))
blank-Goes Post p source tags n c src d h =
    let left = scan_while-Left p c src in
    more-Goes Post source tags n (length src) _
      (scanned_to-Between space no_value _ source tags (length src) d h.tells
        (Left-Left d.scantok (c ∷ src) _ h.left (Left-more c src _ left)) (length-Left src _ left))
      h.bound

-- A tag end within the source
end-Goes :
    (source : Str) (tags : List Tag) (n c : ℕ) (src rest : Str) (d : Document)
    → Here source tags n c src d
    → Left (c ∷ src) rest
    → Goes source tags n (suc (length src)) (ended (scanned_to tag_end no_value rest d))
unfolding Rounds
end-Goes source tags n c src rest d h left =
    scanned_to-Between tag_end no_value rest source tags n d h.tells
      (Left-Left d.scantok (c ∷ src) rest h.left left)
      (ground (arith, length-Left (c ∷ src) rest left, h.bound))

token-Goes :
    (Post : Document → Type 0) (l : CLibrary) (operators : ℕ → Ptree Element) (source : Str)
    (tags : List Tag) (n c : ℕ) (src : Str) (d : Document)
    → ReadsDigits l
    → Here source tags n c src d
    → Comes (GoesTo Post source tags n (suc (length src))) (and_more (scan_token l operators d))
token-Goes Post l operators source tags n c src d r h =
    and_more-Comes Post source tags n (length src) (scan_token l operators d)
      (scan_token-Comes l operators c src source tags d r h.tells h.tok h.ptr) h.bound

pub after_all-Left : (end src rest : Str) → after_all end src ≡ some rest → Left src rest
after_all-Left end src rest e = record { taken = end; source = after_all-append end src e }

inline_at-Comes :
    (l : CLibrary) (tag : Tag) (source : Str) (tags : List Tag) (n c : ℕ) (src : Str) (d : Document)
    → ReadsDigits l
    → Here source tags n c src d
    → Comes (Goes source tags n (suc (length src))) (inline_at l tag d (c ∷ src))
unfolding Comes
inline_at-Comes l tag source tags n c src d r h =
    elim (is_space c)
      as (λ x. Comes (Goes source tags n (suc (length src))) (
        if x
        then done (more (scanned_to space no_value (scan_while is_space (c ∷ src)) d))
        else tag_end_or_token l tag d (after_all tag.end (c ∷ src)))) [
          | true ↦ blank-Goes (Between source tags n) is_space source tags n c src d h
          | false ↦ end_or_token (after_all tag.end (c ∷ src)) refl
        ]
  where
    end_or_token :
        (o : Option Str)
        → after_all tag.end (c ∷ src) ≡ o
        → Comes (Goes source tags n (suc (length src))) (tag_end_or_token l tag d o)
    end_or_token none e =
        token-Goes (Between source tags n) l tag.operators source tags n c src d r h
    end_or_token (some rest) e =
        end-Goes source tags n c src rest d h (after_all-Left tag.end (c ∷ src) rest e)

pub inline_round-Comes :
    (l : CLibrary) (tag : Tag) (source : Str) (tags : List Tag) (n : ℕ) (d : Document)
    → ReadsDigits l
    → Between source tags n d
    → Comes (Goes source tags n (unread d)) (inline_round l tag d)
unfolding inline_round Comes spent
inline_round-Comes l tag source tags n d r b = at d.scanptr refl
  where
    at : (s : Str) → d.scanptr ≡ s → Comes (Goes source tags n (length s)) (inline_at l tag d s)
    at [] e = refl
    at (c ∷ src) e =
        inline_at-Comes l tag source tags n c src d r (Between-Here source tags n c src d b e)

past_line_feed-Left : (src : Str) → Left src (past_line_feed src)
past_line_feed-Left [] = Left-same []
past_line_feed-Left (c ∷ src) =
    elim (c == 10) as (λ b. Left (c ∷ src) (if b then src else c ∷ src)) [
      | true ↦ Left-more c src src (Left-same src)
      | false ↦ Left-same (c ∷ src)
    ]

outline_at-Comes :
    (l : CLibrary) (tag : Tag) (source : Str) (tags : List Tag) (n c : ℕ) (src : Str) (d : Document)
    → ReadsDigits l
    → Here source tags n c src d
    → Comes (Goes source tags n (suc (length src))) (outline_at l tag d (c ∷ src))
unfolding Comes
outline_at-Comes l tag source tags n c src d r h =
    let P = Goes source tags n (suc (length src)) in
    let token = and_more (scan_token l tag.operators d) in
    let blank : Scanning (Round Document) =
      done (more (scanned_to space no_value (scan_while is_blank (c ∷ src)) d)) in
    let returned : Scanning (Round Document) =
      done (ended (scanned_to tag_end no_value (past_line_feed src) d)) in
    let fed : Scanning (Round Document) = done (ended (scanned_to tag_end no_value src d)) in
    let inner : Scanning (Round Document) = if is_space c then blank else token in
    let outer : Scanning (Round Document) = if c == 13 then returned else inner in
    Comes-if P (c == 10) fed outer
      (end-Goes source tags n c src src d h (Left-more c src src (Left-same src)))
      (Comes-if P (c == 13) returned inner
        (end-Goes source tags n c src (past_line_feed src) d h
          (Left-more c src (past_line_feed src) (past_line_feed-Left src)))
        (Comes-if P (is_space c) blank token
          (blank-Goes (Between source tags n) is_blank source tags n c src d h)
          (token-Goes (Between source tags n) l tag.operators source tags n c src d r h)))

pub outline_round-Comes :
    (l : CLibrary) (tag : Tag) (source : Str) (tags : List Tag) (n : ℕ) (d : Document)
    → ReadsDigits l
    → Between source tags n d
    → Comes (Goes source tags n (unread d)) (outline_round l tag d)
unfolding outline_round Comes Rounds
outline_round-Comes l tag source tags n d r b = at d.scanptr refl
  where
    at : (s : Str) → d.scanptr ≡ s → Comes (Goes source tags n (length s)) (outline_at l tag d s)
    at [] e =
        scanned_to-Between tag_end no_value [] source tags n d b.tells
          (record { taken = d.scantok; source = sym (append-nil d.scantok) }) (ground arith)
    at (c ∷ src) e =
        outline_at-Comes l tag source tags n c src d r (Between-Here source tags n c src d b e)

pub grammar_round-Comes :
    (l : CLibrary) (operators : ℕ → Ptree Element) (source : Str) (tags : List Tag) (n : ℕ)
    (d : Document)
    → ReadsDigits l
    → Between source tags n d
    → Comes
        (GoesTo (λ d'. Between source tags n d' × (d'.scanptr ≡ [])) source tags n (unread d))
        (grammar_round l operators d)
unfolding grammar_round Comes Rounds
grammar_round-Comes l operators source tags n d r b = at d.scanptr refl
  where
    Post : Document → Type 0
    Post d' = Between source tags n d' × (d'.scanptr ≡ [])

    at :
        (s : Str)
        → d.scanptr ≡ s
        → Comes (GoesTo Post source tags n (length s)) (grammar_at l operators d s)
    at [] e = (b, e)
    at (c ∷ src) e =
        let h = Between-Here source tags n c src d b e in
        Comes-if (GoesTo Post source tags n (suc (length src))) (is_space c)
          (done (more (scanned_to space no_value (scan_while is_space (c ∷ src)) d)))
          (and_more (scan_token l operators d)) (blank-Goes Post is_space source tags n c src d h)
          (token-Goes Post l operators source tags n c src d r h)
