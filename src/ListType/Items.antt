-- ===== src/ListType/Items.antt =====
-- The lists of library/type/list.c and include/hemp/type/list.h.
--
-- `items` holds the allocated cells, all of them: those behind `length` have any content. An access
-- outside of them is the answer `none`, as is a growth that does not end. A cell that `realloc`
-- adds holds `junk`. The cleaner, which only `hemp_list_release` calls, is left out.
use hemp.Base.{
  ℕ, zero, suc, ◌+◌, ◌-◌, ◌*◌, ◌%◌, ◌^◌, Option, none, some, List, [], ◌∷◌, ◌++◌, ◌==◌,
  if◌then◌else◌, ltb, leb, length, set, take, drop, replicate, ◌>>=◌,
}

pub record HempList {ℓ} (V : Type ℓ) : Type ℓ where
  pub items : List V
  pub capacity : ℕ
  pub length : ℕ

-- The loop `while (min_size > new_size) new_size = new_size << 1` on 16 bits.
unfoldable pub doubled : ℕ → ℕ → ℕ → Option ℕ
doubled zero min_size new_size = if ltb new_size min_size then none else some new_size
doubled (suc f) min_size new_size =
    let rest = doubled f min_size (new_size * 2 % 2 ^ 16) in
    if ltb new_size min_size then rest else some new_size

-- `if (! new_size) new_size = 1`
abbrev pub first_size : ℕ → ℕ
first_size zero = 1
first_size (suc n) = suc n

-- What `hemp_list_index` makes of a key: no index, a number below zero, or a position.
pub data Index : Type 0 where
  no_index : Index
  below_zero : Index
  at : ℕ → Index

-- The values that the code has names for, and the content of a cell that nothing was written to.
pub record Values {ℓ} (V : Type ℓ) : Type ℓ where
  pub junk : V
  pub missing : V
  pub nothing : V

module _ {ℓ} {V : Type ℓ} where
  -- `items[i]`
  unfoldable pub peek : List V → ℕ → Option V
  peek [] i = none
  peek (x ∷ items) zero = some x
  peek (x ∷ items) (suc i) = peek items i

  -- `items[i] = v`
  unfoldable pub poke : List V → ℕ → V → Option (List V)
  poke items i v = if ltb i (length items) then some (set items i v) else none

  -- `hemp_list_init`
  unfoldable pub init : HempList V
  init = record { items = []; capacity = 0; length = 0 }

  -- `list->items[list->length++] = v`
  unfoldable pub put : V → HempList V → Option (HempList V)
  put v l = do
    items ← poke l.items l.length v
    some (record l { items = items; length = l.length + 1 })

  -- The loop of `hemp_list_push_list`, with `n` items to go. The other list is another object.
  unfoldable pub copy_items : ℕ → List V → ℕ → HempList V → Option (HempList V)
  copy_items zero values from l = some l
  copy_items (suc n) values from l = do
    v ← peek values from
    l' ← put v l
    copy_items n values (from + 1) l'

  -- `n` cells from `pos` on are set to `v`.
  unfoldable pub fill : ℕ → V → ℕ → List V → Option (List V)
  fill zero v pos items = some items
  fill (suc n) v pos items = poke items pos v >>= fill n v (pos + 1)

  -- `hemp_mem_copy` of `n` items from the second cell on to the first.
  unfoldable pub slide : ℕ → List V → Option (List V)
  slide n items =
      if leb (n + 1) (length items) then some (take n (drop 1 items) ++ drop n items) else none

module _ {ℓ} {V : Type ℓ} ⦃vals : Values V⦄ where
  -- The cells after `hemp_mem_resize`.
  unfoldable pub resized : ℕ → List V → List V
  resized n items = take n items ++ replicate (n - length items) vals.junk

  unfoldable pub grow : ℕ → HempList V → Option (HempList V)
  unfolding doubled
  grow min_size l = do
    new_size ← doubled min_size min_size (first_size (l.capacity % 2 ^ 16))
    if leb new_size l.capacity
        then some l
        else some (record l { items = resized new_size l.items; capacity = new_size })

  unfoldable pub push : V → HempList V → Option (HempList V)
  push v l = (if l.length == l.capacity then grow (l.capacity + 1) l else some l) >>= put v

  unfoldable pub push_list : HempList V → HempList V → Option (HempList V)
  push_list values l =
      let size = l.length + values.length in
      (if ltb l.capacity size then grow size l else some l)
      >>= copy_items values.length values.items 0

  unfoldable pub resize : ℕ → HempList V → Option (HempList V)
  resize new_size l =
      let old_size = l.length % 2 ^ 16 in
      if ltb old_size new_size
      then (do
        l' ← grow new_size l
        items ← fill (new_size - old_size) vals.missing old_size l'.items
        some (record l' { items = items; length = new_size }))
      else some (record l { length = new_size })

  unfoldable pub copy : HempList V → Option (HempList V)
  copy src = do
    l ← grow src.length init
    if leb src.length (length src.items)
        then (if leb src.length (length l.items)
            then some (record l {
              items = take src.length src.items ++ drop src.length l.items;
              length = src.length;
            })
            else none)
        else none

  unfoldable pub shift : HempList V → Option (V × HempList V)
  shift l = if ltb l.length 1 then some (vals.missing, l) else (do
    value ← peek l.items 0
    items ← (if l.length - 1 == 0 then some l.items else slide (l.length - 1) l.items)
    some (value, record l { items = items; length = l.length - 1 }))

  unfoldable pub pop : HempList V → Option (V × HempList V)
  pop l = if ltb l.length 1 then some (vals.missing, l) else (do
    value ← peek l.items (l.length - 1)
    some (value, record l { length = l.length - 1 }))

  -- `hemp_type_list_fetch`
  unfoldable pub fetch : Index → HempList V → Option V
  fetch no_index l = some vals.missing
  fetch below_zero l = some vals.missing
  fetch (at i) l = if leb l.length i then some vals.missing else peek l.items i

  -- The part of `hemp_type_list_store` behind the growth.
  unfoldable pub store_at : ℕ → V → HempList V → Option (V × HempList V)
  store_at i v l = do
    items ← fill (i - l.length) vals.nothing l.length l.items
    items' ← poke items i v
    some (v, record l { items = items'; length = if leb l.length i then i + 1 else l.length })

  -- `hemp_type_list_store`: the value that it answers, and the list.
  unfoldable pub store : Index → V → HempList V → Option (V × HempList V)
  store no_index v l = some (vals.missing, l)
  store below_zero v l = some (vals.missing, l)
  store (at i) v l = (if leb l.capacity i then grow (i + 1) l else some l) >>= store_at i v
