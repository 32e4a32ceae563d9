-- ===== src/Hash/Grow.antt =====
-- `hemp_hash_wider` and `hemp_hash_grow`.
use hemp.Base.{
  ℕ, zero, suc, ◌+◌, ◌%◌, ◌/◌, ◌≤◌, ◌<◌, ◌≡◌, ◌≢◌, refl, ap, ◌∙◌, false, Option, none, some, List,
  [], ◌∷◌, ◌++◌, ◌==◌, if◌then◌else◌, ltb, length, All, arith, Bool-cases, inl, inr, get_or,
  length-append, replicate, All-append,
}
use mathlib.Core.List.{flatten}
use hemp.Hash.Table.{
  HashFunction, Slot, Table, column, primes, first_above, wider, grow, relink, move_column,
  move_columns, widen, density,
}
use hemp.Hash.Column.{
  find, count, Named, find-eq-none, count-append, find-append, over, count-eq-zero,
}
use hemp.Hash.Valid.{entries, entries-set, view, IsValid, with_column-Updates, empty-IsValid}

first_above-pos :
    (n : ℕ) (ps : List ℕ) (last : ℕ) → All (λ p. 0 < p) ps → 0 < last → 0 < first_above n ps last
unfolding first_above
first_above-pos n [] last h k = k
first_above-pos n (p ∷ ps) last h k = ground (arith, first_above-pos n ps last h.1 k)

pub wider-pos : (n : ℕ) → 0 < wider n
unfolding wider
wider-pos n = first_above-pos n primes _ (omega arith) (omega arith)

first_above-lt : (n : ℕ) (ps : List ℕ) (last : ℕ) → n < last → n < first_above n ps last
unfolding first_above
first_above-lt n [] last h = h
first_above-lt n (p ∷ ps) last h = ground (arith, first_above-lt n ps last h)

first_above-last :
    (n : ℕ) (ps : List ℕ) (last : ℕ)
    → All (λ p. p ≤ last) ps
    → last ≤ n
    → first_above n ps last ≡ last
unfolding first_above
first_above-last n [] last h k = refl
first_above-last n (p ∷ ps) last h k = ground (arith, first_above-last n ps last h.1 k)

-- A wider table is really wider, up to the last entry of the table of primes, which is kept.
pub wider_lem : (n : ℕ) → (n < 1073741909 → n < wider n) × (1073741909 ≤ n → wider n ≡ 1073741909)
unfolding wider
wider_lem n = (first_above-lt n primes _, first_above-last n primes _ (omega arith))

module _ {ℓ} {V : Type ℓ} where
  move_column-append :
      (w : ℕ) (a b : List (Slot V)) (fresh : List (List (Slot V)))
      → move_column w (a ++ b) fresh ≡ move_column w b (move_column w a fresh)
  unfolding move_column
  move_column-append w [] b fresh = refl
  move_column-append w (s ∷ a) b fresh = move_column-append w a b (relink w s fresh)

  -- The two nested loops are one loop over all the slots.
  move_columns-flatten :
      (w : ℕ) (cs fresh : List (List (Slot V)))
      → move_columns w cs fresh ≡ move_column w (flatten cs) fresh
  unfolding move_columns flatten move_column
  move_columns-flatten w [] fresh = refl
  move_columns-flatten w (c ∷ cs) fresh =
      rw move_column-append (move_columns-flatten w cs (move_column w c fresh))

  entries-flatten : (cs : List (List (Slot V))) → entries cs ≡ length (flatten cs)
  unfolding entries flatten
  entries-flatten [] = refl
  entries-flatten (c ∷ cs) = omega (arith, entries-flatten cs, length-append c (flatten cs))

  absent-flatten :
      (q : ℕ) (cs : List (List (Slot V)))
      → ((i : ℕ) → count q (get_or cs i []) ≡ 0)
      → count q (flatten cs) ≡ 0
  unfolding flatten count
  absent-flatten q [] h = refl
  absent-flatten q (c ∷ cs) h =
      omega (arith, h 0, absent-flatten q cs (λ i. h (suc i)), count-append q c (flatten cs))

  pub over-none : (o : Option V) → over o none ≡ o
  over-none none = refl
  over-none (some v) = refl

  -- All the slots in a row read as the one column `j` that can hold the hash.
  flatten-home :
      (q : ℕ) (cs : List (List (Slot V))) (j : ℕ)
      → ((i : ℕ) → j ≢ i → count q (get_or cs i []) ≡ 0)
      → (find q (flatten cs) ≡ find q (get_or cs j []))
        × (count q (flatten cs) ≡ count q (get_or cs j []))
  unfolding flatten
  flatten-home q [] j h = (refl, refl)
  flatten-home q (c ∷ cs) zero h =
      let rest = absent-flatten q cs (λ i. h (suc i) (omega arith)) in
      (
        rw (find-append, find-eq-none q (flatten cs) rest) (over-none (find q c)),
        omega (arith, count-append q c (flatten cs)),
      )
  flatten-home q (c ∷ cs) (suc j) h =
      let here = h 0 (omega arith) in
      let (found, counted) = flatten-home q cs j (λ i n. h (suc i) (omega arith)) in
      (rw (find-append, find-eq-none q c here) found, omega (arith, count-append q c (flatten cs)))

module _ {ℓ} {V : Type ℓ} ⦃hash : HashFunction⦄ where
  pub flatten-Named :
      (cs : List (List (Slot V))) → ((i : ℕ) → All Named (get_or cs i [])) → All Named (flatten cs)
  unfolding flatten
  flatten-Named [] h = tt
  flatten-Named (c ∷ cs) h =
      All-append Named c (flatten cs) (h 0) (flatten-Named cs (λ i. h (suc i)))

  pub over-cons :
      (q : ℕ) (s : Slot V) (c : List (Slot V)) (old : Option V)
      → count q (s ∷ c) ≤ 1
      → over (find q c) (if q == s.index then some s.value else old) ≡ over (find q (s ∷ c)) old
  unfolding find count
  over-cons q s c old h = elim (Bool-cases (q == s.index)) [
    | inl e ↦ let none_left = find-eq-none q c (ground arith) in rw (e, none_left)
    | inr e ↦ rw e
  ]

  other_hash :
      (q : ℕ) (s : Slot V) (c : List (Slot V)) (a b : Option V)
      → count q (s ∷ c) ≤ 1
      → 0 < count q c
      → (if q == s.index then a else b) ≡ b
  unfolding count
  other_hash q s c a b h k = let e : (q == s.index) ≡ false = ground arith in rw e

  -- A table that has taken in the slots of a row.
  record Moved (t u : Table V) (c : List (Slot V)) : Type ℓ where
    valid : IsValid u
    reads : (q : ℕ) → view u q ≡ over (find q c) (view t q)
    total : entries u.slots ≡ entries t.slots + length c

  pub home : {t : Table V} (k : ℕ) → IsValid t → k % t.width < length t.slots
  home k valid = rw valid.width (let h = valid.wide in omega arith)

  move_column-Moved :
      (w size : ℕ) (c : List (Slot V)) (fresh : List (List (Slot V)))
      → let t : Table V = record { width = w; size = size; slots = fresh } in
        IsValid t
        → entries fresh + length c ≤ size
        → All Named c
        → ((q : ℕ) → count q c ≤ 1)
        → ((q : ℕ) → 0 < count q c → view t q ≡ none)
        → Moved t (record { width = w; size = size; slots = move_column w c fresh }) c
  unfolding move_column relink count
  move_column-Moved w size [] fresh valid room named once apart = record {
    valid = valid;
    reads = λ q. unfold find in refl;
    total = omega arith;
  }
  move_column-Moved w size (s ∷ c) fresh valid room named once apart =
      let t : Table V = record { width = w; size = size; slots = fresh } in
      let free : view t s.index ≡ none = apart s.index (ground arith) in
      let gone : count s.index (column t s.index) ≡ 0 =
        count-eq-zero s.index _ (unfold view in free) in
      let step =
        with_column-Updates t valid s.index (some s.value) (s ∷ column t s.index) size (omega arith)
          (λ q. ground (arith, gone)) (λ q. unfold find in refl) (named.0, valid.named _) in
      let more = entries-set fresh (s.index % w) (s ∷ column t s.index) (home s.index valid) in
      let rest =
        move_column-Moved w size c (relink w s fresh) step.valid (omega arith) named.1
          (λ q. omega (arith, once q))
          (λ q h. step.reads q ∙ other_hash q s c _ _ (once q) h ∙ apart q (omega arith)) in
      record {
        valid = rest.valid;
        reads = λ q. rest.reads q ∙ rw (step.reads q) (over-cons q s c (view t q) (once q));
        total = omega (arith, rest.total);
      }

  -- The shared core of the two loops over a whole table.
  pub flatten_reads :
      (t : Table V) (q : ℕ)
      → IsValid t
      → (find q (flatten t.slots) ≡ view t q) × (count q (flatten t.slots) ≤ 1)
  unfolding view
  flatten_reads t q valid =
      let (found, counted) = flatten-home q t.slots (q % t.width) (λ i n. (valid.placed q i).1 n) in
      (found, rw counted (valid.placed q _).0)

  -- Growing keeps the invariant, every lookup and the size.
  pub grow-IsValid :
      (t : Table V)
      → IsValid t
      → IsValid (grow t)
        × ((q : ℕ) → view (grow t) q ≡ view t q)
        × ((grow t).size ≡ t.size)
        × (entries (grow t).slots ≡ entries t.slots)
  unfolding grow
  grow-IsValid t valid = elim (Bool-cases (t.width == wider t.width)) [
    | inl e ↦ rw e (valid, (λ q. refl), refl, refl)
    | inr e ↦
        let w : ℕ = wider t.width in
        let start = empty-IsValid V w t.size (wider-pos t.width) in
        let moved =
          move_column-Moved w t.size (flatten t.slots) (replicate w []) start.0
            (omega (arith, start.2, entries-flatten t.slots, valid.counted))
            (flatten-Named t.slots valid.named) (λ q. (flatten_reads t q valid).1)
            (λ q _. start.1 q) in
        rw (e, move_columns-flatten)
          (
            moved.valid,
            (λ q.
                moved.reads q
                ∙ ap (over (find q (flatten t.slots))) (start.1 q)
                ∙ over-none (find q (flatten t.slots))
                ∙ (flatten_reads t q valid).0),
            refl,
            omega (arith, moved.total, start.2, entries-flatten t.slots),
          )
  ]

  pub widen-IsValid :
      (t : Table V)
      → IsValid t
      → IsValid (widen t)
        × ((q : ℕ) → view (widen t) q ≡ view t q)
        × ((widen t).size ≡ t.size)
        × (entries (widen t).slots ≡ entries t.slots)
  unfolding widen
  widen-IsValid t valid = elim (Bool-cases (ltb density (t.size / t.width))) [
    | inl e ↦ rw e (grow-IsValid t valid)
    | inr e ↦ rw e (valid, (λ q. refl), refl, refl)
  ]
