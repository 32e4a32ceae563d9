-- ===== src/ListType/Laws.antt =====
-- The operations on lists implement those on sequences, as long as no more than 2 ^ 15 items are
-- asked for.
use hemp.Base.{
  ℕ, zero, suc, ◌+◌, ◌-◌, ◌%◌, ◌^◌, ◌≤◌, ◌<◌, ◌≡◌, ◌⊎◌, inl, inr, refl, ap, sym, ◌∙◌, Bool, true,
  false, Option, some, List, [], ◌∷◌, ◌++◌, ◌==◌, if◌then◌else◌, ltb, leb, length, set, take,
  replicate, arith, Bool-cases, length-set, append-nil, append_assoc, length-append, length-take,
  length-replicate, ==_iff, leb→le, take_all, take-append,
}
use hemp.ListType.Items.{
  HempList, Values, first_size, put, copy_items, resized, grow, push, push_list,
}
use hemp.ListType.Cells.{
  Doubles, twice, doubled-ends, twice-ge, peek_in, poke_in, take-set, take_succ,
}

module _ {ℓ} {V : Type ℓ} where
  -- The capacity counts the cells, is 0 or comes to 2 ^ 15 by doubling, and holds the items.
  pub record IsValid (l : HempList V) : Type 0 where
    pub cells : length l.items ≡ l.capacity
    pub used : l.length ≤ l.capacity
    pub size : (l.capacity ≡ 0) ⊎ Doubles l.capacity

  -- The items of a list.
  unfoldable pub contents : HempList V → List V
  contents l = take l.length l.items

  -- The step ends with a valid list of these items.
  abbrev pub Yields : Option (HempList V) → List V → Type ℓ
  Yields r xs = (l : HempList V) × (r ≡ some l) × IsValid l × (contents l ≡ xs)

  pub length-contents : (l : HempList V) → IsValid l → length (contents l) ≡ l.length
  unfolding contents
  length-contents l valid = omega (arith, length-take l.length l.items, valid.cells, valid.used)

  pub put_in :
      (v : V) (l : HempList V)
      → IsValid l
      → l.length < l.capacity
      → (l' : HempList V) × (put v l ≡ some l')
        × IsValid l'
        × (contents l' ≡ contents l ++ v ∷ [])
        × (l'.length ≡ l.length + 1)
        × (l'.capacity ≡ l.capacity)
  unfolding put contents
  put_in v l valid room =
      let e : l.length + 1 ≡ suc l.length = omega arith in
      let inside : l.length < length l.items = omega (arith, valid.cells) in
      let l' : HempList V = record l { items = set l.items l.length v; length = l.length + 1 } in
      (
        l',
        rw (poke_in l.items l.length v inside),
        record {
          cells = length-set l.items l.length v ∙ valid.cells;
          used = omega arith;
          size = valid.size;
        },
        rw e (take-set l.length l.items v inside),
        refl,
        refl,
      )

start_size :
    (c : ℕ)
    → (c ≡ 0) ⊎ Doubles c
    → (1 ≤ first_size (c % 2 ^ 16))
      × (c ≤ first_size (c % 2 ^ 16))
      × Doubles (first_size (c % 2 ^ 16))
unfolding twice
start_size zero size = (omega arith, omega arith, (15, refl))
start_size (suc c) (inl e) = absurd (omega arith)
start_size (suc c) (inr (d, h)) =
    let bound = twice-ge d (suc c) in
    let e : suc c % 2 ^ 16 ≡ suc c = omega arith in rw e (omega arith, omega arith, (d, h))

size_le : (c : ℕ) → (c ≡ 0) ⊎ Doubles c → c ≤ 32768
size_le c (inl e) = omega arith
size_le c (inr (d, h)) = omega (arith, twice-ge d c)

pub capacity_le {ℓ} : {V : Type ℓ} (l : HempList V) → IsValid l → l.capacity ≤ 32768
capacity_le l valid = size_le l.capacity valid.size

module _ {ℓ} {V : Type ℓ} ⦃vals : Values V⦄ where
  length-resized : (n : ℕ) (items : List V) → length items ≤ n → length (resized n items) ≡ n
  unfolding resized
  length-resized n items h = omega (
    arith,
    length-append (take n items) (replicate (n - length items) vals.junk),
    length-take n items,
    length-replicate (n - length items) vals.junk,
  )

  take-resized :
      (n m : ℕ) (items : List V)
      → length items ≤ n
      → m ≤ length items
      → take m (resized n items) ≡ take m items
  unfolding resized
  take-resized n m items h k =
      rw (take_all n items h) (take-append m items (replicate (n - length items) vals.junk) k)

  -- Growing keeps the items and makes room for `min_size` of them.
  pub grow_in :
      (min_size : ℕ) (l : HempList V)
      → IsValid l
      → min_size ≤ 32768
      → (l' : HempList V) × (grow min_size l ≡ some l')
        × IsValid l'
        × (contents l' ≡ contents l)
        × (l'.length ≡ l.length)
        × (min_size ≤ l'.capacity)
  unfolding grow contents
  grow_in min_size l valid small =
      let (above, _, size) = start_size l.capacity valid.size in
      let (new_size, found, enough, _, size') =
        doubled-ends min_size min_size (first_size (l.capacity % 2 ^ 16)) size above small
          (omega arith) in
      elim (Bool-cases (leb new_size l.capacity)) [
        | inl e ↦ (l, rw (found, e), valid, refl, refl, omega (arith, leb→le new_size l.capacity e))
        | inr e ↦
            let more : l.capacity ≤ new_size = ground arith in
            let l' : HempList V = record l {
              items = resized new_size l.items;
              capacity = new_size;
            } in
            (
              l',
              rw (found, e),
              record {
                cells = length-resized new_size l.items (omega (arith, valid.cells));
                used = omega (arith, valid.used);
                size = inr size';
              },
              take-resized new_size l.length l.items (omega (arith, valid.cells))
                  (omega (arith, valid.cells, valid.used)),
              refl,
              enough,
            )
      ]

  -- A push onto a valid list of fewer than 32768 items adds an item at the end, and the list stays valid.
  pub push-Yields :
      (v : V) (l : HempList V)
      → IsValid l
      → l.length < 32768
      → Yields (push v l) (contents l ++ v ∷ [])
  unfolding push
  push-Yields v l valid small = elim (Bool-cases (l.length == l.capacity)) [
    | inl e ↦
        let (l', grown, valid', same, size, room) =
          grow_in (l.capacity + 1) l valid (omega (arith, (==_iff l.length l.capacity).0 e)) in
        let full = (==_iff l.length l.capacity).0 e in
        let (l'', found, valid'', new, _, _) = put_in v l' valid' (omega arith) in
        (l'', rw (e, grown) found, valid'', new ∙ ap (λ xs. xs ++ v ∷ []) same)
    | inr e ↦
        let room : l.length < l.capacity = ground (arith, valid.used) in
        let (l'', found, valid'', new, _, _) = put_in v l valid room in
        (l'', rw e found, valid'', new)
  ]

  -- `if (length > list->capacity) hemp_list_grow (list, length)`
  pub roomy :
      (more : Bool) (size : ℕ) (l : HempList V)
      → IsValid l
      → size ≤ 32768
      → (more ≡ false → size ≤ l.capacity)
      → (l' : HempList V) × ((if more then grow size l else some l) ≡ some l')
        × IsValid l'
        × (contents l' ≡ contents l)
        × (l'.length ≡ l.length)
        × (size ≤ l'.capacity)
  roomy true size l valid small h = grow_in size l valid small
  roomy false size l valid small h = (l, refl, valid, refl, refl, h refl)

  -- The loop over the items of the other list.
  copy_items_in :
      (n from : ℕ) (values l : HempList V)
      → IsValid l
      → l.length + n ≤ l.capacity
      → from + n ≤ length values.items
      → (xs : List V) × Yields (copy_items n values.items from l) (contents l ++ xs)
        × (take (from + n) values.items ≡ take from values.items ++ xs)
  unfolding copy_items
  copy_items_in zero from values l valid room there =
      let e : from + 0 ≡ from = omega arith in
      (
        [],
        (l, refl, valid, sym (append-nil (contents l))),
        rw e (sym (append-nil (take from values.items))),
      )
  copy_items_in (suc n) from values l valid room there =
      let (v, read) = peek_in values.items from (omega arith) in
      let (l', found, valid', new, longer, same) = put_in v l valid (omega arith) in
      let (xs, (l'', found', valid'', new'), all) =
        copy_items_in n (from + 1) values l' valid' (omega arith) (omega arith) in
      let e : from + suc n ≡ from + 1 + n = omega arith in
      let one : from + 1 ≡ suc from = omega arith in
      (
        v ∷ xs,
        (
          l'',
          rw (read, found) found',
          valid'',
          new' ∙ (ap (λ ys. ys ++ xs) new ∙ append_assoc (contents l) (v ∷ []) xs),
        ),
        rw e (
            all
            ∙ rw (one, take_succ from values.items v read)
                (append_assoc (take from values.items) (v ∷ []) xs)),
      )

  copied_all :
      (values : HempList V) (xs : List V)
      → take (0 + values.length) values.items ≡ take 0 values.items ++ xs
      → contents values ≡ xs
  unfolding contents
  copied_all values xs all =
      let e : values.length ≡ 0 + values.length = omega arith in
      ap (λ k. take k values.items) e ∙ all

  -- A list pushed onto another adds its items at the end, in their order.
  pub push_list-Yields :
      (values l : HempList V)
      → IsValid values
      → IsValid l
      → l.length + values.length ≤ 32768
      → Yields (push_list values l) (contents l ++ contents values)
  unfolding push_list
  push_list-Yields values l source valid small =
      let size = l.length + values.length in
      let (l', made, valid', same, kept, room) =
        roomy (ltb l.capacity size) size l valid small (λ e. ground (arith, e)) in
      let (xs, (l'', found, valid'', new), all) =
        copy_items_in values.length 0 values l' valid' (omega (arith, kept, room))
          (omega (arith, source.cells, source.used)) in
      (
        l'',
        rw made found,
        valid'',
        new
            ∙ (ap (λ ys. ys ++ xs) same
                ∙ ap (λ ys. contents l ++ ys) (sym (copied_all values xs all))),
      )
