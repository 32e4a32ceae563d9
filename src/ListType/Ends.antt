-- ===== src/ListType/Ends.antt =====
-- The two ends of a list: `hemp_list_pop` and `hemp_list_shift`.
use hemp.Base.{
  ℕ, suc, ◌+◌, ◌-◌, ◌≤◌, ◌≡◌, inl, inr, ap, sym, ◌∙◌, true, false, some, List, [], ◌∷◌, ◌++◌, ◌==◌,
  ltb, leb, length, take, drop, arith, Bool-cases, length-append, length-take, ==_iff, take-append,
  take-take, length-drop,
}
use hemp.ListType.Items.{HempList, Values, peek, slide, shift, pop}
use hemp.ListType.Cells.{peek_in, take_succ}
use hemp.ListType.Laws.{IsValid, contents}

module _ {ℓ} {V : Type ℓ} where
  take_first :
      (n : ℕ) (items : List V) (v : V)
      → peek items 0 ≡ some v
      → take (suc n) items ≡ v ∷ take n (drop 1 items)
  unfolding peek
  take_first n [] v h = ground arith
  take_first n (x ∷ items) v h = ground arith

  slide_in :
      (n : ℕ) (items : List V)
      → n + 1 ≤ length items
      → (cells : List V) × (slide n items ≡ some cells)
        × (length cells ≡ length items)
        × (take n cells ≡ take n (drop 1 items))
  unfolding slide
  slide_in n items h =
      let e : leb (n + 1) (length items) ≡ true = ground arith in
      let front = length-take n (drop 1 items) in
      let behind = length-drop 1 items in
      (
        take n (drop 1 items) ++ drop n items,
        rw e,
        omega (
          arith,
          length-append (take n (drop 1 items)) (drop n items),
          length-drop n items,
          front,
          behind,
        ),
        take-append n (take n (drop 1 items)) (drop n items) (omega (arith, front, behind))
            ∙ take-take n n (drop 1 items) (omega arith),
      )

module _ {ℓ} {V : Type ℓ} ⦃vals : Values V⦄ where
  -- A pop takes the last item away.
  pub pop-last :
      (l : HempList V)
      → IsValid l
      → 1 ≤ l.length
      → (v : V) × (l' : HempList V) × (pop l ≡ some (v, l'))
        × IsValid l'
        × (contents l ≡ contents l' ++ v ∷ [])
  unfolding pop contents
  pop-last l valid some_there =
      let n : ℕ = l.length - 1 in
      let e : ltb l.length 1 ≡ false = ground arith in
      let one : l.length ≡ suc (l.length - 1) = omega arith in
      let (v, read) = peek_in l.items (l.length - 1) (omega (arith, valid.cells, valid.used)) in
      (
        v,
        record l { length = l.length - 1 },
        rw (e, read),
        record { cells = valid.cells; used = omega (arith, valid.used); size = valid.size },
        ap (λ k. take k l.items) one ∙ take_succ (l.length - 1) l.items v read,
      )

  -- A shift takes the first item away.
  pub shift-first :
      (l : HempList V)
      → IsValid l
      → 1 ≤ l.length
      → (v : V) × (l' : HempList V) × (shift l ≡ some (v, l'))
        × IsValid l'
        × (contents l ≡ v ∷ contents l')
  unfolding shift contents
  shift-first l valid some_there =
      let e : ltb l.length 1 ≡ false = ground arith in
      let one : l.length ≡ suc (l.length - 1) = omega arith in
      let (v, read) = peek_in l.items 0 (omega (arith, valid.cells, valid.used)) in
      let first : take l.length l.items ≡ v ∷ take (l.length - 1) (drop 1 l.items) =
        ap (λ k. take k l.items) one ∙ take_first (l.length - 1) l.items v read in
      elim (Bool-cases (l.length - 1 == 0)) [
        | inl z ↦
            let zero_left = (==_iff (l.length - 1) 0).0 z in
            (
              v,
              record l { length = l.length - 1 },
              rw (e, read, z),
              record { cells = valid.cells; used = omega (arith, valid.used); size = valid.size },
              first ∙ rw zero_left,
            )
        | inr z ↦
            let (items, slid, same, kept) =
              slide_in (l.length - 1) l.items (omega (arith, valid.cells, valid.used)) in
            (
              v,
              record l { items = items; length = l.length - 1 },
              rw (e, read, z, slid),
              record {
                cells = same ∙ valid.cells;
                used = omega (arith, valid.used);
                size = valid.size;
              },
              first ∙ ap (λ xs. v ∷ xs) (sym kept),
            )
      ]
