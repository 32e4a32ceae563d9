-- ===== src/ListType/Stores.antt =====
-- Positions in a list: `hemp_list_resize`, `hemp_type_list_fetch` and `hemp_type_list_store`.
use hemp.Base.{
  ℕ, zero, suc, ◌+◌, ◌-◌, ◌%◌, ◌^◌, ◌≤◌, ◌<◌, ◌≡◌, inl, inr, refl, ap, sym, ◌∙◌, true, some, List,
  [], ◌∷◌, ◌++◌, ltb, leb, length, set, take, drop, replicate, arith, Bool-cases, length-set,
  append-nil, append_assoc, length-append, length-take, length-drop, leb→le, take_all, take-append,
  take-take, take-set_in, get_or,
}
use hemp.ListType.Items.{
  HempList, Values, peek, init, fill, grow, resize, at, fetch, store_at, store, copy,
}
use hemp.ListType.Cells.{poke_in, take-set, fill_in}
use hemp.ListType.Laws.{IsValid, contents, Yields, grow_in, roomy, capacity_le}

module _ {ℓ} {V : Type ℓ} where
  peek-get_or :
      (n i : ℕ) (items : List V) (d : V)
      → i < n
      → i < length items
      → peek items i ≡ some (get_or (take n items) i d)
  unfolding peek
  peek-get_or n i [] d h k = elim k [ ]
  peek-get_or zero i (x ∷ items) d h k = elim h [ ]
  peek-get_or (suc n) zero (x ∷ items) d h k = refl
  peek-get_or (suc n) (suc i) (x ∷ items) d h k =
      peek-get_or n i items d (omega arith) (omega arith)

  get_or_past : (n i : ℕ) (items : List V) (d : V) → n ≤ i → get_or (take n items) i d ≡ d
  get_or_past zero i items d h = refl
  get_or_past (suc n) i [] d h = refl
  get_or_past (suc n) zero (x ∷ items) d h = absurd (omega arith)
  get_or_past (suc n) (suc i) (x ∷ items) d h = get_or_past n i items d (omega arith)

module _ {ℓ} {V : Type ℓ} ⦃vals : Values V⦄ where
  -- A fetch reads an item, and answers the missing value at every other position.
  pub fetch-contents :
      (i : ℕ) (l : HempList V)
      → IsValid l
      → fetch (at i) l ≡ some (get_or (contents l) i vals.missing)
  unfolding fetch contents
  fetch-contents i l valid = elim (Bool-cases (leb l.length i)) [
    | inl e ↦
        rw (e, get_or_past l.length i l.items vals.missing (omega (arith, leb→le l.length i e)))
    | inr e ↦
        let inside : i < l.length = ground arith in
        rw e (
          peek-get_or l.length i l.items vals.missing inside
            (omega (arith, valid.cells, valid.used)))
  ]

  resize_steps :
      (n : ℕ) (l l' : HempList V) (cells : List V)
      → l.length % 2 ^ 16 ≡ l.length
      → ltb l.length n ≡ true
      → grow n l ≡ some l'
      → fill (n - l.length) vals.missing l.length l'.items ≡ some cells
      → resize n l ≡ some (record l' { items = cells; length = n })
  unfolding resize
  resize_steps n l l' cells old e grown filled = rw (old, e, grown, filled)

  -- A resize cuts the items or adds missing values.
  pub resize-Yields :
      (n : ℕ) (l : HempList V)
      → IsValid l
      → n ≤ 32768
      → Yields (resize n l) (take n (contents l) ++ replicate (n - l.length) vals.missing)
  unfolding resize contents
  resize-Yields n l valid small =
      let bound = capacity_le l valid in
      let old : l.length % 2 ^ 16 ≡ l.length = omega (arith, valid.used) in
      elim (Bool-cases (ltb l.length n)) [
        | inl e ↦
            let longer : l.length < n = ground arith in
            let (l', grown, valid', same, kept, room) = grow_in n l valid small in
            let (cells, filled, size, all) =
              fill_in (n - l.length) vals.missing l.length l'.items
                (omega (arith, room, valid'.cells, longer)) in
            let whole : n ≡ l.length + (n - l.length) = omega arith in
            let short : length (take l.length l.items) ≤ n =
              omega (arith, length-take l.length l.items) in
            (
              record l' { items = cells; length = n },
              resize_steps n l l' cells old e grown filled,
              record {
                cells = size ∙ valid'.cells;
                used = omega (arith, room);
                size = valid'.size;
              },
              ap (λ k. take k cells) whole
                  ∙ all
                  ∙ ap (λ xs. xs ++ replicate (n - l.length) vals.missing)
                      (ap (λ k. take k l'.items) (sym kept)
                        ∙ same
                        ∙ sym (take_all n (take l.length l.items) short)),
            )
        | inr e ↦
            let shorter : n ≤ l.length = ground arith in
            let none_more : n - l.length ≡ 0 = omega arith in
            (
              record l { length = n },
              rw (old, e),
              record { cells = valid.cells; used = omega (arith, valid.used); size = valid.size },
              rw (none_more, append-nil) (sym (take-take n l.length l.items shorter)),
            )
      ]

  -- The cells of a store, once there is room for the position.
  store_at_in :
      (i : ℕ) (v : V) (l : HempList V)
      → IsValid l
      → i + 1 ≤ l.capacity
      → (l' : HempList V) × (store_at i v l ≡ some (v, l'))
        × IsValid l'
        × (i < l.length → contents l' ≡ set (contents l) i v)
        × (l.length ≤ i
            → contents l' ≡ contents l ++ (replicate (i - l.length) vals.nothing ++ v ∷ []))
  unfolding store_at contents
  store_at_in i v l valid room =
      let (cells, filled, size, all) =
        fill_in (i - l.length) vals.nothing l.length l.items
          (omega (arith, room, valid.cells, valid.used)) in
      let inside : i < length cells = omega (arith, size, valid.cells, room) in
      let same = length-set cells i v in
      let written = poke_in cells i v inside in
      elim (Bool-cases (leb l.length i)) [
        | inl e ↦
            let past = leb→le l.length i e in
            let whole : i ≡ l.length + (i - l.length) = omega arith in
            let one : i + 1 ≡ suc i = omega arith in
            (
              record l { items = set cells i v; length = i + 1 },
              rw (filled, written, e),
              record { cells = same ∙ (size ∙ valid.cells); used = room; size = valid.size },
              (λ below. absurd (omega arith)),
              (λ _.
                  ap (λ k. take k (set cells i v)) one
                  ∙ (take-set i cells v inside
                      ∙ (ap (λ xs. xs ++ v ∷ []) (ap (λ k. take k cells) whole ∙ all)
                          ∙ append_assoc (take l.length l.items)
                              (replicate (i - l.length) vals.nothing) (v ∷ [])))),
            )
        | inr e ↦
            let below : i < l.length = ground arith in
            let none_more : i - l.length ≡ 0 = omega arith in
            let whole : l.length ≡ l.length + (i - l.length) = omega arith in
            let kept : take l.length cells ≡ take l.length l.items =
              ap (λ k. take k cells) whole
              ∙ (all
                  ∙ (ap (λ n. take l.length l.items ++ replicate n vals.nothing) none_more
                      ∙ append-nil (take l.length l.items))) in
            (
              record l { items = set cells i v; length = l.length },
              rw (filled, written, e),
              record { cells = same ∙ (size ∙ valid.cells); used = valid.used; size = valid.size },
              (λ _. take-set_in l.length i cells v ∙ ap (λ xs. set xs i v) kept),
              (λ past. absurd (omega arith)),
            )
      ]

  -- A store at a position below 32768, in a valid list, answers the value and leaves a valid list; it changes the
  -- item there, or adds it behind the others, with nothing in the places between.
  pub store-Yields :
      (i : ℕ) (v : V) (l : HempList V)
      → IsValid l
      → i < 32768
      → (l' : HempList V) × (store (at i) v l ≡ some (v, l'))
        × IsValid l'
        × (i < l.length → contents l' ≡ set (contents l) i v)
        × (l.length ≤ i
            → contents l' ≡ contents l ++ (replicate (i - l.length) vals.nothing ++ v ∷ []))
  unfolding store
  store-Yields i v l valid small =
      let (l', made, valid', same, kept, room) =
        roomy (leb l.capacity i) (i + 1) l valid (omega arith) (λ e. ground (arith, e)) in
      let (l'', found, valid'', inside, past) = store_at_in i v l' valid' room in
      (
        l'',
        rw made found,
        valid'',
        (λ below. inside (omega (arith, kept)) ∙ ap (λ xs. set xs i v) same),
        (λ above.
            past (omega (arith, kept))
            ∙ (ap (λ n. contents l' ++ (replicate (i - n) vals.nothing ++ v ∷ [])) kept
                ∙ ap (λ xs. xs ++ (replicate (i - l.length) vals.nothing ++ v ∷ [])) same)),
      )

  init-IsValid : IsValid (init {V = V})
  unfolding init
  init-IsValid = record { cells = refl; used = omega arith; size = inl refl }

  -- A copy has the items of the source.
  pub copy-Yields :
      (src : HempList V) → IsValid src → src.length ≤ 32768 → Yields (copy src) (contents src)
  unfolding copy contents
  copy-Yields src valid small =
      let (l, grown, valid', _, _, room) = grow_in src.length init init-IsValid small in
      let n : ℕ = src.length in
      let there : leb src.length (length src.items) ≡ true =
        ground (arith, valid.cells, valid.used) in
      let fits : leb src.length (length l.items) ≡ true = ground (arith, valid'.cells, room) in
      let front = length-take src.length src.items in
      (
        record l {
          items = take src.length src.items ++ drop src.length l.items;
          length = src.length;
        },
        rw (grown, there, fits),
        record {
          cells = omega (
            arith,
            length-append (take src.length src.items) (drop src.length l.items),
            front,
            length-drop src.length l.items,
            valid.cells,
            valid.used,
            valid'.cells,
            room,
          );
          used = room;
          size = valid'.size;
        },
        take-append src.length (take src.length src.items) (drop src.length l.items)
              (omega (arith, front, valid.cells, valid.used))
            ∙ take-take src.length src.length src.items (omega arith),
      )
