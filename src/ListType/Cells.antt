-- ===== src/ListType/Cells.antt =====
-- Reads and writes of the cells of a list, and the growth of the cells.
use hemp.Base.{
  ℕ, zero, suc, ◌+◌, ◌*◌, ◌%◌, ◌^◌, ◌≤◌, ◌<◌, ◌≡◌, ◌⊎◌, inl, inr, refl, ap, sym, ◌∙◌, true, false,
  none, some, List, [], ◌∷◌, ◌++◌, ltb, length, set, take, replicate, arith, Bool-cases, length-set,
  append-nil, append_assoc,
}
use hemp.ListType.Items.{doubled, peek, poke, fill}

-- `n` doubled `d` times.
unfoldable pub twice : ℕ → ℕ → ℕ
twice zero n = n
twice (suc d) n = twice d (n + n)

pub twice-ge : (d n : ℕ) → n ≤ twice d n
unfolding twice
twice-ge zero n = omega arith
twice-ge (suc d) n = omega (arith, twice-ge d (n + n))

-- A size that doubles to 2 ^ 15, as every size above 0 that the growth produces.
abbrev pub Doubles : ℕ → Type 0
Doubles n = (d : ℕ) × (twice d n ≡ 32768)

-- Up to 2 ^ 15 the loop ends with a size that is large enough.
pub doubled-ends :
    (f min_size n : ℕ)
    → Doubles n
    → 1 ≤ n
    → min_size ≤ 32768
    → min_size ≤ f + n
    → (m : ℕ) × (doubled f min_size n ≡ some m) × (min_size ≤ m) × (n ≤ m) × Doubles m
unfolding doubled twice
doubled-ends zero min_size n h p small enough =
    let e : ltb n min_size ≡ false = ground arith in (n, rw e, omega arith, omega arith, h)
doubled-ends (suc f) min_size n (zero, h) p small enough =
    let last : n ≡ 32768 = h in
    let e : ltb n min_size ≡ false = ground arith in (n, rw e, omega arith, omega arith, (0, h))
doubled-ends (suc f) min_size n (suc d, h) p small enough = elim (Bool-cases (ltb n min_size)) [
  | inr e ↦ (n, rw e, ground arith, omega arith, (suc d, h))
  | inl e ↦
      let bound = twice-ge d (n + n) in
      let next : n * 2 % 2 ^ 16 ≡ n + n = omega arith in
      let (m, found, above, grown, size) =
        doubled-ends f min_size (n + n) (d, h) (omega arith) small (omega arith) in
      (m, rw e (ap (λ k. doubled f min_size k) next ∙ found), above, omega arith, size)
]

-- The next size, once the loop has come to 2 ^ 15 or to 0, is 0.
next_size :
    (n : ℕ) → (n ≡ 0) ⊎ Doubles n → (n ≤ 32768) × ((n * 2 % 2 ^ 16 ≡ 0) ⊎ Doubles (n * 2 % 2 ^ 16))
unfolding twice
next_size n (inl e) = (omega arith, inl (omega arith))
next_size n (inr (zero, h)) = let last : n ≡ 32768 = h in (omega arith, inl (omega arith))
next_size n (inr (suc d, h)) =
    let bound = twice-ge d (n + n) in
    let next : n * 2 % 2 ^ 16 ≡ n + n = omega arith in (omega arith, inr (d, rw next h))

-- Where more than 2 ^ 15 is asked for, the size comes to 2 ^ 15, wraps to 0 and stays there: from 0 or
-- a size that doubles to 2 ^ 15, the loop does not end in any number of rounds.
doubled_hangs :
    (f min_size n : ℕ) → (n ≡ 0) ⊎ Doubles n → 32768 < min_size → doubled f min_size n ≡ none
unfolding doubled
doubled_hangs zero min_size n size large =
    let (bound, _) = next_size n size in let e : ltb n min_size ≡ true = ground arith in rw e
doubled_hangs (suc f) min_size n size large =
    let (bound, next) = next_size n size in
    let e : ltb n min_size ≡ true = ground arith in
    rw e (doubled_hangs f min_size (n * 2 % 2 ^ 16) next large)

module _ {ℓ} {V : Type ℓ} where
  pub peek_in : (items : List V) (i : ℕ) → i < length items → (v : V) × (peek items i ≡ some v)
  unfolding peek
  peek_in [] i h = elim h [ ]
  peek_in (x ∷ items) zero h = (x, refl)
  peek_in (x ∷ items) (suc i) h = peek_in items i (omega arith)

  pub poke_in :
      (items : List V) (i : ℕ) (v : V) → i < length items → poke items i v ≡ some (set items i v)
  unfolding poke
  poke_in items i v h = let e : ltb i (length items) ≡ true = ground arith in rw e

  pub take-set :
      (n : ℕ) (items : List V) (v : V)
      → n < length items
      → take (suc n) (set items n v) ≡ take n items ++ v ∷ []
  take-set n [] v h = elim h [ ]
  take-set zero (x ∷ items) v h = refl
  take-set (suc n) (x ∷ items) v h = ap (λ xs. x ∷ xs) (take-set n items v (omega arith))

  pub take_succ :
      (n : ℕ) (items : List V) (v : V)
      → peek items n ≡ some v
      → take (suc n) items ≡ take n items ++ v ∷ []
  unfolding peek
  take_succ n [] v h = ground arith
  take_succ zero (x ∷ items) v h = ground arith
  take_succ (suc n) (x ∷ items) v h = ap (λ xs. x ∷ xs) (take_succ n items v h)

  -- A run of writes inside of the cells.
  pub fill_in :
      (n : ℕ) (v : V) (pos : ℕ) (items : List V)
      → pos + n ≤ length items
      → (cells : List V) × (fill n v pos items ≡ some cells)
        × (length cells ≡ length items)
        × (take (pos + n) cells ≡ take pos items ++ replicate n v)
  unfolding fill
  fill_in zero v pos items h =
      let e : pos + 0 ≡ pos = omega arith in
      (items, refl, refl, rw e (sym (append-nil (take pos items))))
  fill_in (suc n) v pos items h =
      let size = length-set items pos v in
      let (cells, found, same, filled) = fill_in n v (pos + 1) (set items pos v) (omega arith) in
      let e : pos + suc n ≡ pos + 1 + n = omega arith in
      let one : pos + 1 ≡ suc pos = omega arith in
      (
        cells,
        rw (poke_in items pos v (omega arith)) found,
        same ∙ size,
        rw (e, filled, one, take-set pos items v (omega arith), append_assoc),
      )
