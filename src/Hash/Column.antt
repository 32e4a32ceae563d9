-- ===== src/Hash/Column.antt =====
-- One column of the table, read by the numerical hash of its slots.
use hemp.Base.{
  ℕ, ◌+◌, ◌≤◌, ◌≡◌, refl, ap, sym, ◌∙◌, true, Option, none, some, List, [], ◌∷◌, ◌++◌, ◌==◌,
  if◌then◌else◌, length, take, All, arith, Bool-cases, inl, inr, length-take, ==_iff,
}
use hemp.Chars.{Str}
use hemp.Hash.Match.{key_match, key_match_iff}
use hemp.Hash.Table.{HashFunction, Slot, stops, seek, assign, unlink}

module _ {ℓ} {V : Type ℓ} where
  -- The value of the first slot with this hash.
  unfoldable pub find : ℕ → List (Slot V) → Option V
  find q [] = none
  find q (s ∷ c) = if q == s.index then some s.value else find q c

  unfoldable pub count : ℕ → List (Slot V) → ℕ
  count q [] = 0
  count q (s ∷ c) = (if q == s.index then 1 else 0) + count q c

  -- The first of two answers.
  abbrev pub over : Option V → Option V → Option V
  over none b = b
  over (some a) b = some a

  pub find-eq-none : (q : ℕ) (c : List (Slot V)) → count q c ≡ 0 → find q c ≡ none
  unfolding find count
  find-eq-none q [] h = refl
  find-eq-none q (s ∷ c) h = ground (arith, find-eq-none q c)

  pub count-eq-zero : (q : ℕ) (c : List (Slot V)) → find q c ≡ none → count q c ≡ 0
  unfolding find count
  count-eq-zero q [] h = refl
  count-eq-zero q (s ∷ c) h = ground (arith, count-eq-zero q c)

  pub count-append : (q : ℕ) (a b : List (Slot V)) → count q (a ++ b) ≡ count q a + count q b
  unfolding count
  count-append q [] b = omega arith
  count-append q (s ∷ a) b = omega (arith, count-append q a b)

  pub find-append : (q : ℕ) (a b : List (Slot V)) → find q (a ++ b) ≡ over (find q a) (find q b)
  unfolding find
  find-append q [] b = refl
  find-append q (s ∷ a) b = rw (find-append q a b) (ground arith)

module _ {ℓ} {V : Type ℓ} ⦃hash : HashFunction⦄ where
  -- The slot stands under the hash of its own name.
  abbrev pub Named : Slot V → Type 0
  Named s = s.index ≡ hash.apply s.name (length s.name)

  index-match :
      (name : Str) (n : ℕ) (s : Slot V)
      → n ≤ length name
      → Named s
      → key_match s.name name n ≡ true
      → hash.apply name n ≡ s.index
  index-match name n s h named m =
      let e : s.name ≡ take n name = (key_match_iff s.name name n h).0 m in
      let size : length s.name ≡ n = ap length e ∙ omega (arith, length-take n name) in
      sym (hash.apply-take name n)
      ∙ ap (λ k. hash.apply k n) (sym e)
      ∙ ap (hash.apply s.name) (sym size)
      ∙ sym named

  -- For a slot under its own hash the test of the loops is the comparison of the hashes.
  pub stops-index :
      (name : Str) (n : ℕ) (s : Slot V)
      → n ≤ length name
      → Named s
      → stops (hash.apply name n) name n s ≡ (hash.apply name n == s.index)
  unfolding stops
  stops-index name n s h named = elim (Bool-cases (key_match s.name name n)) [
    | inl m ↦ let e = (==_iff _ _).1 (index-match name n s h named m) in rw (m, e)
    | inr m ↦ rw m (ground arith)
  ]

  module _ (name : Str) (n : ℕ) (enough : n ≤ length name) where
    pub seek-find :
        (c : List (Slot V))
        → All Named c
        → elim (seek (hash.apply name n) name n c) [ none ↦ none | some s ↦ some s.value ]
          ≡ find (hash.apply name n) c
    unfolding seek find
    seek-find [] a = refl
    seek-find (s ∷ c) a = rw (stops-index name n s enough a.0) (ground (arith, seek-find c a.1))

    pub find-assign :
        (q : ℕ) (v old : V) (c : List (Slot V))
        → All Named c
        → find (hash.apply name n) c ≡ some old
        → find q (assign (hash.apply name n) name n v c)
          ≡ (if q == hash.apply name n then some v else find q c)
    unfolding assign find
    find-assign q v old [] a h = ground arith
    find-assign q v old (s ∷ c) a h =
        rw (stops-index name n s enough a.0) (ground (arith, find-assign q v old c a.1))

    pub count-assign :
        (q : ℕ) (v : V) (c : List (Slot V))
        → count q (assign (hash.apply name n) name n v c) ≡ count q c
    unfolding assign count
    count-assign q v [] = refl
    count-assign q v (s ∷ c) = ground (arith, count-assign q v c)

    pub length-assign :
        (v : V) (c : List (Slot V)) → length (assign (hash.apply name n) name n v c) ≡ length c
    unfolding assign
    length-assign v [] = refl
    length-assign v (s ∷ c) = ground (arith, length-assign v c)

    pub assign-Named :
        (v : V) (c : List (Slot V))
        → All Named c
        → All Named (assign (hash.apply name n) name n v c)
    unfolding assign
    assign-Named v [] a = a
    assign-Named v (s ∷ c) a = ground (arith, assign-Named v c a.1)

    pub find-unlink :
        (q : ℕ) (c : List (Slot V))
        → All Named c
        → count q c ≤ 1
        → find q (unlink (hash.apply name n) name n c)
          ≡ (if q == hash.apply name n then none else find q c)
    unfolding unlink find count
    find-unlink q [] a h = ground arith
    find-unlink q (s ∷ c) a h =
        rw (stops-index name n s enough a.0) (ground (arith, find-unlink q c a.1, find-eq-none q c))

    pub count-unlink :
        (q : ℕ) (c : List (Slot V)) → count q (unlink (hash.apply name n) name n c) ≤ count q c
    unfolding unlink count
    count-unlink q [] = omega arith
    count-unlink q (s ∷ c) = ground (arith, count-unlink q c)

    pub length-unlink :
        (c : List (Slot V)) (old : V)
        → All Named c
        → find (hash.apply name n) c ≡ some old
        → length (unlink (hash.apply name n) name n c) + 1 ≡ length c
    unfolding unlink find
    length-unlink [] old a h = ground arith
    length-unlink (s ∷ c) old a h =
        rw (stops-index name n s enough a.0) (ground (arith, length-unlink c old a.1))

    pub unlink-Named :
        (c : List (Slot V)) → All Named c → All Named (unlink (hash.apply name n) name n c)
    unfolding unlink
    unlink-Named [] a = a
    unlink-Named (s ∷ c) a = ground (arith, unlink-Named c a.1)
