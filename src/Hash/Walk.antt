-- ===== src/Hash/Walk.antt =====
-- The walks over a whole table: `hemp_type_hash_pairs` and `hemp_hash_each`.
use hemp.Base.{ℕ, ◌+◌, ◌≤◌, ◌≡◌, refl, ap, sym, ◌∙◌, Bool, true, List, [], ◌∷◌, ◌++◌, All, arith}
use mathlib.Core.List.{flatten}
use hemp.Hash.Table.{
  HashFunction, Slot, Table, store, pairs_column, pairs_columns, pairs, each_column, each_columns,
  each,
}
use hemp.Hash.Column.{find, count, Named, over}
use hemp.Hash.Valid.{view, IsValid}
use hemp.Hash.Grow.{flatten_reads, flatten-Named, over-cons}
use hemp.Hash.Laws.{store-Updates}

module _ {ℓ} {V : Type ℓ} ⦃hash : HashFunction⦄ where
  pairs_column-append :
      (a b : List (Slot V)) (into : Table V)
      → pairs_column (a ++ b) into ≡ pairs_column b (pairs_column a into)
  unfolding pairs_column
  pairs_column-append [] b into = refl
  pairs_column-append (s ∷ a) b into = pairs_column-append a b (store into s.name s.value)

  pairs_columns-flatten :
      (cs : List (List (Slot V))) (into : Table V)
      → pairs_columns cs into ≡ pairs_column (flatten cs) into
  unfolding pairs_columns flatten pairs_column
  pairs_columns-flatten [] into = refl
  pairs_columns-flatten (c ∷ cs) into =
      rw pairs_column-append (pairs_columns-flatten cs (pairs_column c into))

  pairs_column-view :
      (c : List (Slot V)) (into : Table V)
      → IsValid into
      → All Named c
      → ((q : ℕ) → count q c ≤ 1)
      → IsValid (pairs_column c into)
        × ((q : ℕ) → view (pairs_column c into) q ≡ over (find q c) (view into q))
  unfolding pairs_column find count
  pairs_column-view [] into valid named once = (valid, λ q. refl)
  pairs_column-view (s ∷ c) into valid named once =
      let (good, reads, _, _) = store-Updates into s.name s.value valid in
      let (valid', rest) =
        pairs_column-view c (store into s.name s.value) good named.1 (λ q. omega (arith, once q)) in
      (valid', λ q. rest q ∙ rw (reads q, ← named.0) (over-cons q s c (view into q) (once q)))

  -- The pairs of a table written over another: the table's own entries, and those of the other at
  -- every hash value that the table lacks.
  pub pairs-view :
      (t into : Table V)
      → IsValid t
      → IsValid into
      → IsValid (pairs t into) × ((q : ℕ) → view (pairs t into) q ≡ over (view t q) (view into q))
  unfolding pairs
  pairs-view t into valid other =
      let (good, reads) =
        pairs_column-view (flatten t.slots) into other (flatten-Named t.slots valid.named)
          (λ q. (flatten_reads t q valid).1) in
      rw pairs_columns-flatten
        (good, λ q. reads q ∙ ap (λ o. over o (view into q)) (flatten_reads t q valid).0)

module _ {ℓ κ} {V : Type ℓ} {S : Type κ} (g : ℕ → Slot V → S → S) where
  -- One pass over a row of slots, numbered from `n` on.
  pub visit : List (Slot V) → ℕ → S → S
  visit [] n s = s
  visit (x ∷ c) n s = visit c (n + 1) (g n x s)

  abbrev keep_on : ℕ → Slot V → S → Bool × S
  keep_on n x s = (true, g n x s)

  each_column-visit :
      (c rest : List (Slot V)) (n : ℕ) (s : S)
      → visit (c ++ rest) n s
        ≡ (let r = each_column (λ n x s. (true, g n x s)) c n s in visit rest r.0 r.1)
  unfolding each_column visit
  each_column-visit [] rest n s = refl
  each_column-visit (x ∷ c) rest n s = each_column-visit c rest (n + 1) (g n x s)

  each_columns-visit :
      (cs : List (List (Slot V))) (n : ℕ) (s : S)
      → (each_columns (λ n x s. (true, g n x s)) cs n s).1 ≡ visit (flatten cs) n s
  unfolding each_columns visit flatten
  each_columns-visit [] n s = refl
  each_columns-visit (c ∷ cs) n s =
      let r = each_column (λ n x s. (true, g n x s)) c n s in
      each_columns-visit cs r.0 r.1 ∙ sym (each_column-visit c (flatten cs) n s)

  -- A callback that never answers false is called once for each slot, column after column, with
  -- consecutive numbers from 0 on.
  pub each-visit :
      (t : Table V) (s : S) → each (λ n x s. (true, g n x s)) t s ≡ visit (flatten t.slots) 0 s
  unfolding each
  each-visit t s = each_columns-visit t.slots 0 s
