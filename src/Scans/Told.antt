-- ===== src/Scans/Told.antt =====
-- What the fragments of a document tell of its source, and what a new fragment adds.
use hemp.Base.{
  ℕ, zero, suc, ◌+◌, ◌-◌, ◌≤◌, ◌<◌, ◌≡◌, refl, sym, ap, ◌∙◌, Bool, true, false, List, [], ◌∷◌, ◌++◌,
  append-nil, append_assoc, length, take, length-append, take-append, take-length, arith,
  if◌then◌else◌, Left,
}
use hemp.Chars.{Str}
use hemp.Scans.Document.{
  Failure, no_fuel, Scanning, done, failed, and_then, Round, more, ended, run_on, run, ElementType,
  Payload, Fragment, Tag, Document, distance, add_fragment, scanned_to, text_of, texts,
}

-- Every fragment is where the texts before it end, and has its length.
unfoldable pub Placed : ℕ → List Fragment → Type 0
Placed n [] = Unit
Placed n (f ∷ fs) = (f.position ≡ n) × (length (text_of f) ≡ f.length) × Placed (n + f.length) fs

-- The fragments, the token that is scanned, its position and the open tags, behind a part of the source.
pub record Told (source : Str) (tags : List Tag) (scantok : Str) (scanpos : ℕ)
    (fragments : List Fragment) (scantags : List Tag) : Type 0 where
  pub told : texts fragments ++ scantok ≡ source
  pub at : scanpos ≡ length (texts fragments)
  pub placed : Placed 0 fragments
  pub open_tags : scantags ≡ tags

abbrev pub Tells : Str → List Tag → Document → Type 0
Tells source tags d = Told source tags d.scantok d.scanpos d.fragments d.scantags

-- Between two tokens, with at most `n` characters left.
pub record Between (source : Str) (tags : List Tag) (n : ℕ) (d : Document) : Type 0 where
  pub tells : Tells source tags d
  pub level : d.scantok ≡ d.scanptr
  pub bound : length d.scanptr ≤ n

pub texts-append :
    (fs : List Fragment) (f : Fragment) → texts (fs ++ (f ∷ [])) ≡ texts fs ++ text_of f
unfolding texts
texts-append [] f = append-nil (text_of f)
texts-append (g ∷ fs) f =
    ap (λ s. text_of g ++ s) (texts-append fs f)
    ∙ sym (append_assoc (text_of g) (texts fs) (text_of f))

pub Placed-append :
    (n : ℕ) (fs : List Fragment) (f : Fragment)
    → Placed n fs
    → f.position ≡ n + length (texts fs)
    → length (text_of f) ≡ f.length
    → Placed n (fs ++ (f ∷ []))
unfolding Placed texts
Placed-append n [] f p at len = (at ∙ ground arith, len, tt)
Placed-append n (g ∷ fs) f p at len = (
  p.0,
  p.1,
  Placed-append (n + g.length) fs f p.2
      (at ∙ omega (arith, length-append (text_of g) (texts fs), p.1)) len,
)

taken-Left : (token src : Str) (l : Left token src) → take (distance token src) token ≡ l.taken
taken-Left token src l =
    ap (λ s. take (length s - length src) s) l.source
    ∙ ap (λ n. take n (l.taken ++ src)) (omega (arith, length-append l.taken src))
    ∙ take-append (length l.taken) l.taken src (ground arith)
    ∙ take-length l.taken

length-taken : (token src : Str) (l : Left token src) → length l.taken ≡ distance token src
length-taken token src l = omega (arith, ap length l.source, length-append l.taken src)

-- The texts of the fragments with the new one.
texts-scanned :
    (fs : List Fragment) (f : Fragment) (src : Str) (l : Left f.token src)
    → f.length ≡ distance f.token src
    → texts (fs ++ (f ∷ [])) ≡ texts fs ++ l.taken
texts-scanned fs f src l e =
    texts-append fs f
    ∙ ap (λ n. texts fs ++ take n f.token) e
    ∙ ap (λ s. texts fs ++ s) (taken-Left f.token src l)

-- A fragment for what is between the token and a pointer behind it.
pub scanned_to-Between :
    (element : ElementType) (value : Payload) (src source : Str) (tags : List Tag) (n : ℕ)
    (d : Document)
    → Tells source tags d
    → Left d.scantok src
    → length src ≤ n
    → Between source tags n (scanned_to element value src d)
unfolding scanned_to add_fragment
scanned_to-Between element value src source tags n d t l b =
    let size = distance d.scantok src in
    let f : Fragment = record {
      element = element;
      token = d.scantok;
      position = d.scanpos;
      length = size;
      value = value;
    } in
    let all = texts-scanned d.fragments f src l refl in
    let len : length l.taken ≡ size = length-taken d.scantok src l in
    record {
      tells = record {
        told =
            ap (λ s. s ++ src) all
            ∙ append_assoc (texts d.fragments) l.taken src
            ∙ ap (λ s. texts d.fragments ++ s) (sym l.source)
            ∙ t.told;
        at =
            omega (arith, t.at, len, length-append (texts d.fragments) l.taken)
            ∙ ap length (sym all);
        placed =
            Placed-append 0 d.fragments f t.placed (t.at ∙ ground arith)
              (ap length (taken-Left d.scantok src l) ∙ len);
        open_tags = t.open_tags;
      };
      level = refl;
      bound = b;
    }

-- A scan that has not used up its fuel, and where it is done, what holds of the result.
unfoldable pub spent : Failure → Bool
spent no_fuel = true
spent _ = false

unfoldable pub Comes {ℓ} : {A : Type ℓ} → (A → Type 0) → Scanning A → Type 0
unfolding spent
Comes P (done x) = P x
Comes P (failed why at) = spent why ≡ false

pub Comes-and_then :
    {A B : Type 0} (P : A → Type 0) (Q : B → Type 0) (s : Scanning A) (f : A → Scanning B)
    → Comes P s
    → ((x : A) → P x → Comes Q (f x))
    → Comes Q (and_then s f)
unfolding Comes
Comes-and_then P Q (done x) f p g = g x p
Comes-and_then P Q (failed why at) f p g = p

pub Comes-if :
    {A : Type 0} (P : A → Type 0) (b : Bool) (x y : Scanning A)
    → Comes P x
    → Comes P y
    → Comes P (if b then x else y)
Comes-if P true x y p q = p
Comes-if P false x y p q = q

-- What a round of a loop leaves.
unfoldable pub Rounds : {S : Type 0} → (Inv Post : S → Type 0) (size : S → ℕ) → ℕ → Round S → Type 0
Rounds Inv Post size n (more s) = Inv s × (size s < n)
Rounds Inv Post size n (ended s) = Post s

run_on-Comes :
    {S : Type 0} (Inv Post : S → Type 0) (size : S → ℕ) (go_on : S → Scanning S) (n : ℕ)
    → ((s : S) → Inv s → size s < n → Comes Post (go_on s))
    → (r : Round S) → Rounds Inv Post size n r
    → Comes Post (run_on go_on r)
unfolding run_on Rounds Comes
run_on-Comes Inv Post size go_on n h (more s) p = h s p.0 p.1
run_on-Comes Inv Post size go_on n h (ended s) p = p

-- A loop in which every round takes something comes to an end.
pub run-Comes :
    {S : Type 0} (Inv Post : S → Type 0) (size : S → ℕ) (step : S → Scanning (Round S))
    → ((s : S) → Inv s → Comes (Rounds Inv Post size (size s)) (step s))
    → (n : ℕ) (s : S) → Inv s
    → size s < n
    → Comes Post (run step n s)
unfolding run
run-Comes Inv Post size step h zero s i lt = ground arith
run-Comes Inv Post size step h (suc n) s i lt =
    Comes-and_then (Rounds Inv Post size (size s)) Post (step s) (run_on (run step n)) (h s i) (
      run_on-Comes Inv Post size (run step n) (size s)
        (λ s' i' lt'. run-Comes Inv Post size step h n s' i' (ground arith)))
