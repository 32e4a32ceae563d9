-- ===== src/Hash/Valid.antt =====
-- The invariant of a table, what a table means, and the replacement of one column.
use hemp.Base.{
  ℕ, zero, suc, ◌+◌, ◌%◌, ◌≤◌, ◌<◌, ◌≡◌, ◌≢◌, refl, ap, ◌∙◌, Bool, true, false, Option, none, List,
  [], ◌∷◌, ◌==◌, if◌then◌else◌, length, All, arith, Bool-cases, inl, inr, set, get_or, length-set,
  get_or-set_self, get_or-set_ne, max, replicate, length-replicate, get_or-replicate,
}
use hemp.Hash.Table.{HashFunction, Slot, Table, init, wider, column, with_column}
use hemp.Hash.Column.{find, count, Named}

module _ {ℓ} {V : Type ℓ} where
  -- The number of slots that can be reached.
  unfoldable pub entries : List (List (Slot V)) → ℕ
  entries [] = 0
  entries (c ∷ cs) = length c + entries cs

  pub entries-set :
      (cs : List (List (Slot V))) (i : ℕ) (c : List (Slot V))
      → i < length cs
      → entries (set cs i c) + length (get_or cs i []) ≡ entries cs + length c
  unfolding entries
  entries-set [] i c h = absurd (omega arith)
  entries-set (x ∷ cs) zero c h = omega arith
  entries-set (x ∷ cs) (suc i) c h = omega (arith, entries-set cs i c (omega arith))

  -- The abstract view: a finite map from hash values.
  unfoldable pub view : Table V → ℕ → Option V
  view t q = find q (column t q)

  -- The slots with one hash are one at most, and in their column.
  abbrev pub IsPlaced : ℕ → List (List (Slot V)) → Type 0
  IsPlaced width slots =
      (q i : ℕ)
      → (count q (get_or slots i []) ≤ 1) × (q % width ≢ i → count q (get_or slots i []) ≡ 0)

module _ {ℓ} {V : Type ℓ} ⦃hash : HashFunction⦄ where
  pub record IsValid (t : Table V) : Type 0 where
    pub width : length t.slots ≡ t.width
    pub wide : 0 < t.width
    pub placed : IsPlaced t.width t.slots
    pub named : (i : ℕ) → All Named (get_or t.slots i [])
    pub counted : entries t.slots ≤ t.size

  -- A column is replaced, and the map changes at `k` alone.
  pub record Updates (t u : Table V) (k : ℕ) (v : Option V) : Type ℓ where
    pub valid : IsValid u
    pub reads : (q : ℕ) → view u q ≡ (if q == k then v else view t q)

  All-choice :
      (b : Bool) (c d : List (Slot V)) → All Named c → All Named d → All Named (if b then c else d)
  All-choice true c d h k = h
  All-choice false c d h k = k

  module _ (t : Table V) (valid : IsValid t) (k : ℕ) where
    home-lt : k % t.width < length t.slots
    home-lt = rw valid.width (let h : 0 < t.width = valid.wide in omega arith)

    read :
        (c : List (Slot V)) (i : ℕ)
        → get_or (set t.slots (k % t.width) c) i []
          ≡ (if k % t.width == i then c else get_or t.slots i [])
    read c i = elim (Bool-cases (k % t.width == i)) [
      | inl e ↦
          let p : k % t.width ≡ i = ground arith in
          rw (e, ← p) (get_or-set_self t.slots _ c [] home-lt)
      | inr e ↦ rw e (get_or-set_ne t.slots _ i c [] (ground arith))
    ]

    reads_at :
        (v : Option V) (c : List (Slot V)) (q : ℕ)
        → find q c ≡ (if q == k then v else find q (column t k))
        → find q (if k % t.width == q % t.width then c else column t q)
          ≡ (if q == k then v else find q (column t q))
    reads_at v c q h = elim (Bool-cases (k % t.width == q % t.width)) [
      | inl e ↦
          let p : k % t.width ≡ q % t.width = ground arith in
          rw e (rw h (ap (λ j. if q == k then v else find q (get_or t.slots j [])) p))
      | inr e ↦ let p : (q == k) ≡ false = ground arith in rw (e, p)
    ]

    pub with_column-Updates :
        (v : Option V) (c : List (Slot V)) (size : ℕ)
        → entries t.slots + length c ≤ size + length (column t k)
        → ((q : ℕ) → count q c ≤ max (if q == k then 1 else 0) (count q (column t k)))
        → ((q : ℕ) → find q c ≡ (if q == k then v else find q (column t k)))
        → All Named c
        → Updates t (with_column t k c size) k v
    unfolding view
    with_column-Updates v c size room few reads named = record {
      valid = record {
        width = length-set t.slots _ c ∙ valid.width;
        wide = valid.wide;
        placed = λ q i.
            rw (read c i) (ground (arith, few q, valid.placed q i, valid.placed q (k % t.width)));
        named = λ i. rw (read c i) (All-choice (k % t.width == i) c _ named (valid.named i));
        counted = omega (arith, entries-set t.slots _ c home-lt);
      };
      reads = λ q. rw (read c (q % t.width)) (reads_at v c q (reads q));
    }

-- A new table is valid and empty.
entries-replicate {ℓ} : (V : Type ℓ) (n : ℕ) → entries {V = V} (replicate n []) ≡ 0
unfolding entries
entries-replicate V zero = refl
entries-replicate V (suc n) = omega (arith, entries-replicate V n)

empty-IsPlaced {ℓ} : (V : Type ℓ) (w n : ℕ) → IsPlaced {V = V} w (replicate n [])
unfolding count
empty-IsPlaced V w n q i = rw get_or-replicate (omega arith)

-- Columns with nothing in them make a valid table, in which no lookup succeeds.
pub empty-IsValid {ℓ} :
    (V : Type ℓ) ⦃hash : HashFunction⦄ (w size : ℕ)
    → 0 < w
    → let t : Table V = record { width = w; size = size; slots = replicate w [] } in
      IsValid t × ((q : ℕ) → view t q ≡ none) × (entries t.slots ≡ 0)
unfolding count view find
empty-IsValid V w size h = (
  record {
    width = length-replicate {A = List (Slot V)} w [];
    wide = h;
    placed = empty-IsPlaced V w w;
    named = λ i. rw get_or-replicate tt;
    counted = rw entries-replicate (omega arith);
  },
  (λ q. rw get_or-replicate),
  entries-replicate V w,
)

-- A new table is valid.
pub init-IsValid {ℓ} : (V : Type ℓ) ⦃hash : HashFunction⦄ → IsValid {V = V} init
unfolding init wider
init-IsValid V = (empty-IsValid V 11 0 (omega arith)).0
