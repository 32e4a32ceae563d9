-- ===== src/ListType/Tests.antt =====
-- Runs of the lists on small inputs, and the theorems at them.
use hemp.Base.{ℕ, ◌-◌, ◌≤◌, ◌<◌, ◌≡◌, inr, refl, some, [], ◌∷◌, ◌++◌, set, replicate, arith}
use hemp.ListType.Items.{
  HempList, Values, doubled, peek, poke, put, init, fill, copy_items, resized, grow, push,
  push_list, resize, slide, shift, pop, copy, at, fetch, store_at, store,
}
use hemp.ListType.Cells.{twice}
use hemp.ListType.Laws.{IsValid, contents, Yields, push-Yields}
use hemp.ListType.Stores.{store-Yields, copy-Yields}

-- Unwritten cells hold 99, a missing value is 0, nothing is 1.
instance abbrev numbers : Values ℕ
numbers = record { junk = 99; missing = 0; nothing = 1 }

-- Two items in four cells.
abbrev two : HempList ℕ
two = record { items = 7 ∷ 8 ∷ 99 ∷ 99 ∷ []; capacity = 4; length = 2 }

two-IsValid : IsValid two
unfolding twice
two-IsValid = record { cells = refl; used = omega arith; size = inr (13, refl) }

abbrev full : HempList ℕ
full = record { items = 7 ∷ []; capacity = 1; length = 1 }

full-IsValid : IsValid full
unfolding twice
full-IsValid = record { cells = refl; used = omega arith; size = inr (15, refl) }

program : Unit {0}
unfolding doubled peek poke put init fill copy_items resized grow push push_list resize slide shift
    pop copy fetch store_at store
program =
    let t0 : push 8 full ≡ some (record { items = 7 ∷ 8 ∷ []; capacity = 2; length = 2 }) = refl in
    let t1 : push_list two full
        ≡ some (record { items = 7 ∷ 7 ∷ 8 ∷ 99 ∷ []; capacity = 4; length = 3 }) =
      refl in
    let t2 : shift two
        ≡ some (7, record { items = 8 ∷ 8 ∷ 99 ∷ 99 ∷ []; capacity = 4; length = 1 }) =
      refl in
    let t3 : pop two ≡ some (8, record { items = 7 ∷ 8 ∷ 99 ∷ 99 ∷ []; capacity = 4; length = 1 }) =
      refl in
    let t4 : store (at 3) 5 full
        ≡ some (5, record { items = 7 ∷ 1 ∷ 1 ∷ 5 ∷ []; capacity = 4; length = 4 }) =
      refl in
    let t5 : fetch (at 2) two ≡ some 0 = refl in
    let t6 : resize 3 two
        ≡ some (record { items = 7 ∷ 8 ∷ 0 ∷ 99 ∷ []; capacity = 4; length = 3 }) =
      refl in
    let t7 : pop {V = ℕ} (record { items = []; capacity = 0; length = 0 })
        ≡ some (0, record { items = []; capacity = 0; length = 0 }) =
      refl in
    tt

push-Yields_example : Yields (push 8 full) (contents full ++ 8 ∷ [])
push-Yields_example = push-Yields 8 full full-IsValid (omega arith)

store-Yields_example :
    (l' : HempList ℕ) × (store (at 5) 3 two ≡ some (3, l'))
    × IsValid l'
    × (5 < 2 → contents l' ≡ set (contents two) 5 3)
    × (2 ≤ 5 → contents l' ≡ contents two ++ (replicate (5 - 2) 1 ++ 3 ∷ []))
store-Yields_example = store-Yields 5 3 two two-IsValid (omega arith)

copy-Yields_example : Yields (copy two) (contents two)
copy-Yields_example = copy-Yields two two-IsValid (omega arith)
