-- ===== src/Scans/Quotes.antt =====
-- A string that is written with its quote and its backslashes escaped, read by the scanner of single-quoted
-- strings.
use hemp.Base.{
  ℕ, zero, suc, ◌+◌, ◌-◌, ◌≡◌, refl, ap, ◌∙◌, Bool, true, false, ◌&&◌, ◌||◌, not, [], ◌∷◌, ◌++◌,
  length, length-append, drop, take, take-append, take-length, leb, none, some, arith, ◌==◌,
  if◌then◌else◌, Bool-cases, inl, inr,
}
use hemp.Chars.{Str}
use hemp.Scans.Document.{
  done, Element, operator, Payload, is_source, str_value, distance, Document, scanned_to,
  add_fragment, Fragment,
}
use hemp.Scans.Quoted.{
  closed, with_escape, walk, at_end, unescape_single, quoted_to, squote_scanner, quoted_text,
  quoted_value, backslash,
}

abbrev special : ℕ → ℕ → Bool
special quote c = (c == backslash) || (c == quote)

-- A backslash in front of every quote and backslash
unfoldable pub escape : ℕ → Str → Str
escape quote [] = []
escape quote (c ∷ s) =
    let rest = escape quote s in if special quote c then backslash ∷ c ∷ rest else c ∷ rest

-- There is nothing to escape.
unfoldable pub plain : ℕ → Str → Bool
plain quote [] = true
plain quote (c ∷ s) = not (special quote c) && plain quote s

abbrev some_more : Str → Bool
some_more [] = false
some_more (c ∷ s) = true

walk_end :
    (end : Str) (c : ℕ) (t : Str)
    → at_end end (c ∷ t) ≡ true
    → walk end (c ∷ t) ≡ closed (c ∷ t) true
unfolding walk
walk_end end c [] h = rw h refl
walk_end end c (d ∷ []) h = rw h refl
walk_end end c (d ∷ e ∷ t) h = rw h refl

walk_plain :
    (end : Str) (c : ℕ) (t : Str)
    → at_end end (c ∷ t) ≡ false
    → (c == backslash) ≡ false
    → some_more t ≡ true
    → walk end (c ∷ t) ≡ walk end t
unfolding walk
walk_plain end c [] h b m = ground arith
walk_plain end c (d ∷ []) h b m = rw (h, b) refl
walk_plain end c (d ∷ e ∷ t) h b m = rw (h, b) refl

walk_escaped :
    (end : Str) (d : ℕ) (t : Str)
    → at_end end (backslash ∷ d ∷ t) ≡ false
    → some_more t ≡ true
    → walk end (backslash ∷ d ∷ t) ≡ with_escape (walk end t)
unfolding walk
walk_escaped end d [] h m = ground arith
walk_escaped end d (e ∷ t) h m = rw h refl

at_end-quote : (quote c : ℕ) (t : Str) → at_end (quote ∷ []) (c ∷ t) ≡ (c == quote)
unfolding at_end
at_end-quote quote c t = elim (Bool-cases (c == quote)) [ inl p ↦ rw p refl | inr p ↦ rw p refl ]

unescape_plain :
    (quote c n : ℕ) (t : Str)
    → (c == backslash) ≡ false
    → some_more t ≡ true
    → unescape_single quote (suc n) (c ∷ t) ≡ c ∷ unescape_single quote n t
unfolding unescape_single
unescape_plain quote c n [] b m = ground arith
unescape_plain quote c zero (d ∷ t) b m = rw b refl
unescape_plain quote c (suc n) (d ∷ t) b m = rw b refl

unescape_escaped :
    (quote d n : ℕ) (t : Str)
    → special quote d ≡ true
    → unescape_single quote (suc (suc n)) (backslash ∷ d ∷ t) ≡ d ∷ unescape_single quote n t
unfolding unescape_single
unescape_escaped quote d n t h = rw h refl

some_more-escape : (quote : ℕ) (s rest : Str) → some_more (escape quote s ++ (quote ∷ rest)) ≡ true
unfolding escape
some_more-escape quote [] rest = refl
some_more-escape quote (c ∷ s) rest =
    elim (special quote c)
      as (λ b.
        some_more
          ((if b then backslash ∷ c ∷ escape quote s else c ∷ escape quote s) ++ (quote ∷ rest))
        ≡ true) [ true ↦ refl | false ↦ refl ]

-- Where the walk ends, and what is copied.
walk-escape :
    (quote : ℕ) (s rest : Str)
    → (quote == backslash) ≡ false
    → walk (quote ∷ []) (escape quote s ++ (quote ∷ rest)) ≡ closed (quote ∷ rest) (plain quote s)
unfolding escape plain
walk-escape quote [] rest q =
    walk_end (quote ∷ []) quote rest (at_end-quote quote quote rest ∙ ground arith)
walk-escape quote (c ∷ s) rest q =
    let t = escape quote s ++ (quote ∷ rest) in
    let ih = walk-escape quote s rest q in
    elim (special quote c)
        as (λ b.
          special quote c ≡ b
          → walk (quote ∷ [])
              ((if b then backslash ∷ c ∷ escape quote s else c ∷ escape quote s) ++ (quote ∷ rest))
            ≡ closed (quote ∷ rest) (not b && plain quote s)) [
              | true ↦ λ p.
                  walk_escaped (quote ∷ []) c t
                    (at_end-quote quote backslash (c ∷ t) ∙ ground arith)
                    (some_more-escape quote s rest)
                  ∙ ap with_escape ih
              | false ↦ λ p.
                  walk_plain (quote ∷ []) c t (at_end-quote quote c t ∙ ground arith) (ground arith)
                    (some_more-escape quote s rest)
                  ∙ ih
            ]
      refl

unescape-escape :
    (quote : ℕ) (s rest : Str)
    → unescape_single quote (length (escape quote s)) (escape quote s ++ (quote ∷ rest)) ≡ s
unfolding escape unescape_single
unescape-escape quote [] rest = ground arith
unescape-escape quote (c ∷ s) rest =
    let t = escape quote s ++ (quote ∷ rest) in
    let n = length (escape quote s) in
    let ih = unescape-escape quote s rest in
    elim (special quote c)
        as (λ b.
          special quote c ≡ b
          → unescape_single quote
              (length (if b then backslash ∷ c ∷ escape quote s else c ∷ escape quote s))
              ((if b then backslash ∷ c ∷ escape quote s else c ∷ escape quote s) ++ (quote ∷ rest))
            ≡ c ∷ s) [
              | true ↦ λ p. unescape_escaped quote c n t p ∙ ap (λ r. c ∷ r) ih
              | false ↦ λ p.
                  unescape_plain quote c n t (ground arith) (some_more-escape quote s rest)
                  ∙ ap (λ r. c ∷ r) ih
            ]
      refl

plain-escape : (quote : ℕ) (s : Str) → plain quote s ≡ true → escape quote s ≡ s
unfolding plain escape
plain-escape quote [] p = refl
plain-escape quote (c ∷ s) p = elim (Bool-cases (special quote c)) [
  | inl h ↦ ground (arith, p, h)
  | inr h ↦ rw h (ap (λ r. c ∷ r) (plain-escape quote s (ground (arith, p, h))))
]

-- What is read of the string, from the walk's end on.
read_text :
    (quote : ℕ) (s rest : Str) (element : Element) (d : Document)
    → element.end ≡ quote ∷ []
    → quoted_to unescape_single element
        (escape quote s ++ (quote ∷ rest))
        d
        (closed (quote ∷ rest) (plain quote s))
      ≡ done
          (scanned_to (operator element) (if plain quote s then is_source else str_value s) rest d)
unfolding quoted_to
read_text quote s rest element d e =
    let start = escape quote s ++ (quote ∷ rest) in
    let value : Str → Payload = (λ t. if plain quote s then is_source else str_value t) in
    ap
      (λ end. done (
        scanned_to (operator element)
          (value (unescape_single quote (distance start (quote ∷ rest)) start))
          (drop (length end) (quote ∷ rest)) d))
      e
    ∙ ap (λ n. done (scanned_to (operator element) (value (unescape_single quote n start)) rest d))
        (omega (arith, length-append (escape quote s) (quote ∷ rest)))
    ∙ ap (λ t. done (scanned_to (operator element) (value t) rest d)) (unescape-escape quote s rest)

scanned_text :
    (element : Element) (quote : ℕ) (s rest : Str) (d : Document)
    → element.end ≡ quote ∷ []
    → (quote == backslash) ≡ false
    → d.scanptr ≡ escape quote s ++ (quote ∷ rest)
    → squote_scanner element d
      ≡ done
          (scanned_to (operator element) (if plain quote s then is_source else str_value s) rest d)
unfolding squote_scanner
scanned_text element quote s rest d e q p =
    ap (λ end. quoted_to unescape_single element d.scanptr d (walk end d.scanptr)) e
    ∙ ap (λ src. quoted_to unescape_single element src d (walk (quote ∷ []) src)) p
    ∙ ap (quoted_to unescape_single element (escape quote s ++ (quote ∷ rest)) d)
        (walk-escape quote s rest q)
    ∙ read_text quote s rest element d e

-- The string `s` is read, and `rest` is left.
pub record Reads (element : Element) (s rest : Str) (d d' : Document) : Type 0 where
  pub fragment : Fragment
  pub added : d'.fragments ≡ d.fragments ++ (fragment ∷ [])
  pub text : quoted_text element fragment ≡ some s
  pub left : d'.scanptr ≡ rest

-- The text between the quotes of a token
pinched :
    (start s rest : Str) (quote n : ℕ)
    → n ≡ length s
    → take n (drop (length start) (start ++ (s ++ (quote ∷ rest)))) ≡ s
pinched [] s rest quote n e =
    ap (λ m. take m (s ++ (quote ∷ rest))) e
    ∙ take-append (length s) s (quote ∷ rest) (ground arith)
    ∙ take-length s
pinched (c ∷ start) s rest quote n e = pinched start s rest quote n e

source_text :
    (element : Element) (f : Fragment) (quote : ℕ) (s rest : Str)
    → element.end ≡ quote ∷ []
    → f.token ≡ element.start ++ (s ++ (quote ∷ rest))
    → f.length ≡ distance f.token rest
    → quoted_value element f is_source ≡ some s
unfolding quoted_value
source_text element f quote s rest e t l =
    let size : f.length ≡ length element.start + length s + 1 = omega (
      arith,
      l,
      ap length t,
      length-append element.start (s ++ (quote ∷ rest)),
      length-append s (quote ∷ rest),
    ) in
    let ends = length element.start + length element.end in
    let one : length element.end ≡ 1 = ap length e in
    let fits : leb ends f.length ≡ true = ground (arith, size, one) in
    ap
      (λ b. if b then some (take (f.length - ends) (drop (length element.start) f.token)) else none)
      fits
    ∙ ap (λ tok. some (take (f.length - ends) (drop (length element.start) tok))) t
    ∙ ap some (pinched element.start s rest quote (f.length - ends) (ground (arith, size, one)))

-- The scanner of single-quoted strings reads every string that is written with its quotes and backslashes
-- escaped, up to the closing quote: it adds a fragment whose text is the string, for every quote of one
-- character but the backslash, where the token starts with the opening quote.
pub squote_scanner-Reads :
    (element : Element) (quote : ℕ) (s rest : Str) (d : Document)
    → element.end ≡ quote ∷ []
    → (quote == backslash) ≡ false
    → d.scanptr ≡ escape quote s ++ (quote ∷ rest)
    → d.scantok ≡ element.start ++ d.scanptr
    → (d' : Document) × (squote_scanner element d ≡ done d') × Reads element s rest d d'
unfolding scanned_to add_fragment quoted_text quoted_value
squote_scanner-Reads element quote s rest d e q p t = (
  scanned_to (operator element) (if plain quote s then is_source else str_value s) rest d,
  scanned_text element quote s rest d e q p,
  record { fragment = fragment; added = refl; text = text (plain quote s) refl; left = refl },
)
  where
    fragment : Fragment
    fragment = record {
      element = operator element;
      token = d.scantok;
      position = d.scanpos;
      length = distance d.scantok rest;
      value = if plain quote s then is_source else str_value s;
    }

    text :
        (b : Bool)
        → plain quote s ≡ b
        → quoted_value element fragment (if b then is_source else str_value s) ≡ some s
    text true h =
        source_text element fragment quote s rest e
          (t
            ∙ ap (λ src. element.start ++ src)
                (p ∙ ap (λ r. r ++ (quote ∷ rest)) (plain-escape quote s h)))
          refl
    text false h = refl
