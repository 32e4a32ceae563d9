-- ===== src/Ptrees/Tree.antt =====
-- The tree of library/ptree.c: a node has a key, which is not empty, its first character apart, a
-- payload or none, and three children. A NULL child is `empty`.
use hemp.Base.{
  ℕ, ◌+◌, ◌%◌, Bool, not, ◌&&◌, ◌||◌, Option, none, some, [], ◌∷◌, ltb, ◌==◌, if◌then◌else◌,
}
use hemp.Chars.{Str}

pub data Ptree {ℓ} (V : Type ℓ) : Type ℓ where
  empty : Ptree V
  node : ℕ → Str → Option V → Ptree V → Ptree V → Ptree V → Ptree V

-- `*s`
abbrev pub head_char : Str → ℕ
head_char [] = 0
head_char (c ∷ _) = c

-- `c < d` and `c > d`, on characters that are signed: from 128 on they are negative.
unfoldable pub char_lt : ℕ → ℕ → Bool
char_lt c d = ltb ((c + 128) % 256) ((d + 128) % 256)

unfoldable pub char_gt : ℕ → ℕ → Bool
unfolding char_lt
char_gt c d = not (c == d) && not (char_lt c d)

-- A position in the key of a node: what is left of it, and the other fields of the node.
pub record Cursor {ℓ} (V : Type ℓ) : Type ℓ where
  pub rest : Str
  pub value : Option V
  pub before : Ptree V
  pub equal : Ptree V
  pub next : Ptree V

unfoldable pub tail_of : Str → Str
tail_of [] = []
tail_of (c ∷ s) = s

module _ {ℓ} {V : Type ℓ} where
  -- `hemp_ptree_node`
  unfoldable pub new_node : Str → Option V → Ptree V
  new_node [] v = empty
  new_node (c ∷ cs) v = node c cs v empty empty empty

  -- Where the insert key ends behind the first character of a node; `none` for a duplicate.
  unfoldable pub store_end : V → ℕ → Str → Option V → Ptree V → Ptree V → Ptree V → Option (Ptree V)
  unfolding new_node
  store_end v c cs none before equal next = some (node c cs (some v) before equal next)
  store_end v c [] (some w) before equal next = none
  store_end v c (k ∷ ks) (some w) before empty next =
      some (node c (k ∷ ks) (some v) before (new_node (k ∷ ks) (some w)) next)
  store_end v c (k ∷ ks) (some w) before (node d ds x b e a) next = none

  -- Where the insert key `key` goes on behind the first character of a node. `go_on` stores it in the
  -- tree below.
  unfoldable pub store_more :
      (Ptree V → Option (Ptree V))
      → V
      → Str
      → ℕ
      → Str
      → Option V
      → Ptree V
      → Ptree V
      → Ptree V
      → Option (Ptree V)
  unfolding new_node
  store_more go_on v key c cs value before (node d ds x b e a) next =
      elim (go_on (node d ds x b e a)) [
        | some equal ↦ some (node c cs value before equal next)
        | none ↦ none
      ]
  store_more go_on v key c (k ∷ ks) value before empty next =
      elim (go_on (new_node (k ∷ ks) value)) [
        | some equal ↦ some (node c (k ∷ ks) none before equal next)
        | none ↦ none
      ]
  store_more go_on v key c [] value before empty next =
      some (node c [] value before (new_node key (some v)) next)

  -- Behind a first character that matched.
  unfoldable pub store_equal :
      (Ptree V → Option (Ptree V))
      → V
      → Str
      → ℕ
      → Str
      → Option V
      → Ptree V
      → Ptree V
      → Ptree V
      → Option (Ptree V)
  unfolding store_end store_more
  store_equal go_on v [] c cs value before equal next = store_end v c cs value before equal next
  store_equal go_on v (k ∷ ks) c cs value before equal next =
      store_more go_on v (k ∷ ks) c cs value before equal next

  -- The walk over the nodes of one level, for the insert key `c ∷ cs`.
  unfoldable pub store_at : (Ptree V → Option (Ptree V)) → V → ℕ → Str → Ptree V → Option (Ptree V)
  unfolding char_lt new_node store_equal
  store_at go_on v c cs empty = some (new_node (c ∷ cs) (some v))
  store_at go_on v c cs (node k ks value before equal next) =
      let earlier = store_at go_on v c cs before in
      let later = store_at go_on v c cs next in
      if c == k
      then store_equal go_on v cs k ks value before equal next
      else if char_lt c k
      then (elim earlier [ some b ↦ some (node k ks value b equal next) | none ↦ none ])
      else (elim later [ some a ↦ some (node k ks value before equal a) | none ↦ none ])

  -- `hemp_ptree_store` from a root on
  unfoldable pub store : Str → V → Ptree V → Option (Ptree V)
  unfolding store_at
  store [] v t = none
  store (c ∷ cs) v t = store_at (store cs v) v c cs t

  -- The walk over the nodes of a level to the one whose key starts with the character.
  unfoldable pub seek : ℕ → Ptree V → Option (Cursor V)
  unfolding char_lt char_gt
  seek c empty = none
  seek c (node k ks value before equal next) =
      let earlier = seek c before in
      let later = seek c next in
      if c == k
      then some
          (record { rest = k ∷ ks; value = value; before = before; equal = equal; next = next })
      else if char_lt c k
      then earlier
      else if char_gt c k
      then later
      else none

  -- The same from a position in a key on.
  unfoldable pub seek_at : ℕ → Cursor V → Option (Cursor V)
  unfolding seek char_lt char_gt
  seek_at c cur =
      if c == head_char cur.rest
      then some cur
      else if char_lt c (head_char cur.rest)
      then seek c cur.before
      else if char_gt c (head_char cur.rest)
      then seek c cur.next
      else none

  -- Where the fetch goes on behind a character that matched.
  unfoldable pub step : Cursor V → Cursor V
  unfolding tail_of
  step cur = elim cur.equal [
    | empty ↦ record cur { rest = tail_of cur.rest }
    | node k ks v b e a ↦ record { rest = k ∷ ks; value = v; before = b; equal = e; next = a }
  ]

  -- The payload where the fetch ends behind a character that matched.
  unfoldable pub final : Str → Ptree V → Option V → Option V
  final (k ∷ d ∷ ds) empty value = none
  final _ equal value = value

  -- The loop of `hemp_ptree_fetch`
  unfoldable pub fetch_at : Str → Cursor V → Option V
  unfolding seek_at step final
  fetch_at [] cur = none
  fetch_at (c ∷ []) cur = elim (seek_at c cur) [
    | none ↦ none
    | some found ↦ final found.rest found.equal found.value
  ]
  fetch_at (c ∷ d ∷ src) cur = elim (seek_at c cur) [
    | none ↦ none
    | some found ↦ fetch_at (d ∷ src) (step found)
  ]

  -- `hemp_ptree_fetch` from a root on
  unfoldable pub fetch : Str → Ptree V → Option V
  unfolding fetch_at
  fetch key empty = none
  fetch key (node k ks v b e a) =
      fetch_at key (record { rest = k ∷ ks; value = v; before = b; equal = e; next = a })

  -- `hemp_pnode_match_more` behind a character that matched, by the tree below and by what is left of the
  -- key. `value` is the payload so far.
  unfoldable pub match_step :
      (Cursor V → Option V → Option V × Str)
      → Str
      → Cursor V
      → Option V
      → Ptree V
      → Str
      → Option V × Str
  match_step go_on src cur value (node k ks v b e a) tail =
      go_on (record { rest = k ∷ ks; value = v; before = b; equal = e; next = a }) cur.value
  match_step go_on src cur value empty [] = (cur.value, src)
  match_step go_on src cur value empty (d ∷ ds) = go_on (record cur { rest = d ∷ ds }) value

  -- The loop of `hemp_pnode_match_more`: the payload, and where the source stands.
  unfoldable pub match_at : Str → Cursor V → Option V → Option V × Str
  unfolding seek_at match_step tail_of
  match_at [] cur value = (value, [])
  match_at (c ∷ src) cur value = elim (seek_at c cur) [
    | none ↦ (value, c ∷ src)
    | some found ↦ match_step (match_at src) src found value found.equal (tail_of found.rest)
  ]

  abbrev pub moved_on : Option V → Str → Option (V × Str)
  moved_on none src = none
  moved_on (some v) src = some (v, src)

  -- `hemp_pnode_match_more`: the source is moved on only with a payload.
  unfoldable pub match_more : Ptree V → Str → Option (V × Str)
  unfolding match_at
  match_more empty src = none
  match_more (node k ks v b e a) src =
      let (found, rest) =
        match_at src (record { rest = k ∷ ks; value = v; before = b; equal = e; next = a }) none in
      moved_on found rest

-- `*key % HEMP_PTREE_SIZE` on a signed character: the remainder of a negative one is not positive, and a
-- negative position is none in the array of the roots.
unfoldable pub position : ℕ → Option ℕ
position c = if ltb c 128 || (c % 8 == 0) then some (c % 8) else none

-- `hemp_ptree_root`, whose character is unsigned
unfoldable pub root_position : Str → ℕ
root_position src = head_char src % 8
