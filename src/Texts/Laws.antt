-- ===== src/Texts/Laws.antt =====
-- Each operation on a text does to its bytes what it says, inside of the allocated bytes.
use hemp.Base.{
  ℕ, zero, suc, ◌+◌, ◌-◌, ◌%◌, ◌^◌, ◌≤◌, ◌<◌, ◌≡◌, inl, inr, refl, sym, ap, ◌∙◌, true, Option, some,
  List, [], ◌∷◌, ◌++◌, append_assoc, length, take, drop, ltb, leb, ◌>>=◌, arith, Bool-cases,
  length-append, length-take, length-drop, take-append-drop,
}
use hemp.Texts.Buffer.{Text, write, read, padded, garbage, realloc, capacity, append_stringn}

take-prefix : (xs ys : List ℕ) (k : ℕ) → take (length xs + k) (xs ++ ys) ≡ xs ++ take k ys
take-prefix [] ys k = let e : 0 + k ≡ k = omega arith in rw e
take-prefix (x ∷ xs) ys k =
    let e : suc (length xs) + k ≡ suc (length xs + k) = omega arith in
    rw e (ap (λ l. x ∷ l) (take-prefix xs ys k))

drop-prefix : (xs ys : List ℕ) (k : ℕ) → drop (length xs + k) (xs ++ ys) ≡ drop k ys
drop-prefix [] ys k = let e : 0 + k ≡ k = omega arith in rw e
drop-prefix (x ∷ xs) ys k =
    let e : suc (length xs) + k ≡ suc (length xs + k) = omega arith in rw e (drop-prefix xs ys k)

take_own : (xs ys : List ℕ) → take (length xs) (xs ++ ys) ≡ xs
take_own [] ys = refl
take_own (x ∷ xs) ys = ap (λ l. x ∷ l) (take_own xs ys)

drop_own : (xs ys : List ℕ) → drop (length xs) (xs ++ ys) ≡ ys
drop_own [] ys = refl
drop_own (x ∷ xs) ys = drop_own xs ys

length-padded : (n : ℕ) (s : List ℕ) → length (padded n s) ≡ n
unfolding padded
length-padded zero s = refl
length-padded (suc n) [] = ap suc (length-padded n [])
length-padded (suc n) (c ∷ s) = ap suc (length-padded n s)

pub padded_own : (s : List ℕ) → padded (length s) s ≡ s
unfolding padded
padded_own [] = refl
padded_own (c ∷ s) = ap (λ l. c ∷ l) (padded_own s)

-- Bytes that are written over as many others.
pub write_over :
    (i : ℕ) (bytes xs ys zs buffer : List ℕ)
    → buffer ≡ xs ++ (ys ++ zs)
    → i ≡ length xs
    → length bytes ≡ length ys
    → write i bytes buffer ≡ some (xs ++ (bytes ++ zs))
unfolding write
write_over i bytes xs ys zs buffer eb ei el =
    let size : leb (length xs + length ys) (length (xs ++ (ys ++ zs))) ≡ true =
      ground (arith, length-append xs (ys ++ zs), length-append ys zs) in
    rw (
      eb,
      ei,
      el,
      size,
      take_own xs (ys ++ zs),
      drop-prefix xs (ys ++ zs) (length ys),
      drop_own ys zs,
    )

pub read_in :
    (i n : ℕ) (xs ys zs buffer : List ℕ)
    → buffer ≡ xs ++ (ys ++ zs)
    → i ≡ length xs
    → n ≡ length ys
    → read i n buffer ≡ some ys
unfolding read
read_in i n xs ys zs buffer eb ei en =
    let size : leb (length xs + length ys) (length (xs ++ (ys ++ zs))) ≡ true =
      ground (arith, length-append xs (ys ++ zs), length-append ys zs) in
    rw (eb, ei, en, size, drop_own xs (ys ++ zs), take_own ys zs)

-- A text of these bytes. It has room for as many as its capacity, and a NUL, unless that is zero.
pub record Holds (t : Text) (s : List ℕ) : Type 0 where
  pub spare : List ℕ
  pub bytes : t.string ≡ s ++ spare
  pub length_is : t.length ≡ length s
  pub fits : length s ≤ t.capacity
  pub room : t.capacity ≤ length t.string - 1

-- And a NUL behind them.
pub record Ended (t : Text) (s : List ℕ) : Type 0 where
  pub holds : Holds t s
  pub ended : (rest : List ℕ) × (t.string ≡ s ++ 0 ∷ rest)

pub split_at :
    (n : ℕ) (xs : List ℕ)
    → n ≤ length xs
    → (ys : List ℕ) × (zs : List ℕ) × (xs ≡ ys ++ zs)
      × (length ys ≡ n)
      × (length zs ≡ length xs - n)
split_at n xs h = (
  take n xs,
  drop n xs,
  sym (take-append-drop n xs),
  ground (arith, length-take n xs),
  length-drop n xs,
)

length-garbage : (fresh : ℕ → ℕ) (n : ℕ) → length (garbage fresh n) ≡ n
unfolding garbage
length-garbage fresh zero = refl
length-garbage fresh (suc n) = ap suc (length-garbage fresh n)

length-realloc : (fresh : ℕ → ℕ) (n : ℕ) (b : List ℕ) → length (realloc fresh n b) ≡ n
unfolding realloc
length-realloc fresh n b = omega (
  arith,
  length-append (take n b) (garbage fresh (n - length b)),
  length-take n b,
  length-garbage fresh (n - length b),
)

realloc-prefix :
    (fresh : ℕ → ℕ) (n : ℕ) (s b : List ℕ)
    → length s ≤ n
    → (spare : List ℕ) × (realloc fresh n (s ++ b) ≡ s ++ spare)
unfolding realloc
realloc-prefix fresh n s b h =
    let e : n ≡ length s + (n - length s) = omega arith in
    (
      take (n - length s) b ++ garbage fresh (n - length (s ++ b)),
      ap (λ l. l ++ garbage fresh (n - length (s ++ b)))
            (ap (λ k. take k (s ++ b)) e ∙ take-prefix s b (n - length s))
          ∙ append_assoc s (take (n - length s) b) (garbage fresh (n - length (s ++ b))),
    )

-- What `hemp_text_capacity` guarantees: the text as it was, and room for a NUL behind `n` bytes.
pub record Grown (t : Text) (s : List ℕ) (n : ℕ) : Type 0 where
  pub keeps : Holds t s
  pub capacious : n ≤ t.capacity
  pub long : n + 1 ≤ length t.string

module _ (fresh : ℕ → ℕ) where
  pub capacity-Grown :
      (t : Text) (s : List ℕ) (n : ℕ) → Holds t s → n + 1 < 2 ^ 64 → Grown (capacity fresh t n) s n
  unfolding capacity
  capacity-Grown t s n h small =
      let f = h.fits in
      let size : (n + 1) % 2 ^ 64 ≡ n + 1 = omega arith in
      elim (Bool-cases (ltb t.capacity (n + 1))) [
        | inl e ↦
            let (spare, found) = realloc-prefix fresh (n + 1) s h.spare (ground arith) in
            rw (size, e)
              (record {
                keeps = record {
                  spare = spare;
                  bytes = rw h.bytes found;
                  length_is = h.length_is;
                  fits = ground arith;
                  room = omega (arith, length-realloc fresh (n + 1) t.string);
                };
                capacious = omega arith;
                long = omega (arith, length-realloc fresh (n + 1) t.string);
              })
        | inr e ↦
            let r = h.room in
            rw (size, e) (record { keeps = h; capacious = ground arith; long = ground arith })
      ]

-- Bytes and a NUL that are written behind a text.
record Behind (b s bs : List ℕ) : Type 0 where
  pub middle : List ℕ
  pub rest : List ℕ
  pub first : write (length s) bs b ≡ some middle
  pub second : write (length s + length bs) (0 ∷ []) middle ≡ some ((s ++ bs) ++ 0 ∷ rest)
  pub same : length ((s ++ bs) ++ 0 ∷ rest) ≡ length b

behind-split :
    (b s bs ys zs : List ℕ) (z : ℕ)
    → b ≡ s ++ (ys ++ z ∷ zs)
    → length ys ≡ length bs
    → Behind b s bs
behind-split b s bs ys zs z e el = record {
  middle = s ++ (bs ++ z ∷ zs);
  rest = zs;
  first = write_over (length s) bs s ys (z ∷ zs) b e refl (sym el);
  second =
      write_over (length s + length bs) (0 ∷ []) (s ++ bs) (z ∷ []) zs (s ++ (bs ++ z ∷ zs))
        (sym (append_assoc s bs (z ∷ zs))) (sym (length-append s bs)) refl;
  same = rw e (
      omega (
        arith,
        length-append (s ++ bs) (0 ∷ zs),
        length-append s bs,
        length-append s (ys ++ z ∷ zs),
        length-append ys (z ∷ zs),
      ));
}

behind : (b s bs spare : List ℕ) → b ≡ s ++ spare → length bs < length spare → Behind b s bs
behind b s bs spare e h =
    let (ys, zs, es, ly, lz) = split_at (length bs) spare (omega arith) in
    behind-nonempty ys zs es ly (omega arith)
  where
    behind-nonempty :
        (ys zs : List ℕ) → spare ≡ ys ++ zs → length ys ≡ length bs → 0 < length zs → Behind b s bs
    behind-nonempty ys [] es ly p = absurd (omega arith)
    behind-nonempty ys (z ∷ zs) es ly p = behind-split b s bs ys zs z (e ∙ ap (λ l. s ++ l) es) ly

-- The operation gives a text of these bytes with a NUL behind them, inside of what is allocated.
unfoldable pub Gives : Option Text → List ℕ → Type 0
Gives o s = (t : Text) × (o ≡ some t) × Ended t s

pub Grown-spare :
    (g : Text) (s : List ℕ) (n : ℕ) (h : Grown g s n)
    → length h.keeps.spare ≡ length g.string - length s
Grown-spare g s n h =
    let b = ap (λ l. length l) h.keeps.bytes in omega (arith, b, length-append s h.keeps.spare)

-- The end of an operation that has `n` bytes and a NUL behind them.
pub finished_text :
    (g : Text) (s : List ℕ) (string rest : List ℕ) (n : ℕ)
    → string ≡ s ++ 0 ∷ rest
    → length string ≡ length g.string
    → n ≡ length s
    → n ≤ g.capacity
    → g.capacity ≤ length g.string - 1
    → Ended (record g { string = string; length = n }) s
finished_text g s string rest n e el en fits room = record {
  holds = record {
    spare = 0 ∷ rest;
    bytes = e;
    length_is = en;
    fits = omega arith;
    room = omega arith;
  };
  ended = (rest, e);
}

put_behind-Gives :
    (g : Text) (s bs : List ℕ) (n : ℕ)
    → Grown g s n
    → n ≡ length s + length bs
    → Gives
        (write g.length bs g.string >>= λ bytes.
          write n (0 ∷ []) bytes >>= λ ended. some (record g { string = ended; length = n }))
        (s ++ bs)
unfolding Gives
put_behind-Gives g s bs n h en =
    let c = h.capacious in
    let l = h.long in
    let w = behind g.string s bs h.keeps.spare h.keeps.bytes (omega (arith, Grown-spare g s n h)) in
    let done =
      finished_text g (s ++ bs) ((s ++ bs) ++ 0 ∷ w.rest) w.rest (length s + length bs) refl w.same
        (sym (length-append s bs)) (omega arith) h.keeps.room in
    rw (en, h.keeps.length_is, w.first, w.second) (_, refl, done)

module _ (fresh : ℕ → ℕ) where
  -- Appending `n` bytes of a string to a text, of less than 2 ^ 64 bytes with its NUL together, puts
  -- them behind those of the text, and NULs where the string is shorter; nothing is written outside of
  -- the allocated bytes, and a NUL follows.
  pub append_stringn-Gives :
      (t : Text) (s append : List ℕ) (n : ℕ)
      → Holds t s
      → length s + n + 1 < 2 ^ 64
      → Gives (append_stringn fresh t append n) (s ++ padded n append)
  unfolding append_stringn
  append_stringn-Gives t s append n h small =
      let l = h.length_is in
      let e : (t.length + n) % 2 ^ 64 ≡ length s + n = omega arith in
      let g = capacity-Grown fresh t s (length s + n) h (omega arith) in
      rw e (
        put_behind-Gives (capacity fresh t (length s + n)) s (padded n append) (length s + n) g
          (omega (arith, length-padded n append)))
