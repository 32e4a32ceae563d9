-- ===== src/Ptrees/Tests.antt =====
-- Runs of the prefix tree on the keys of a few operators.
use hemp.Base.{ℕ, ◌≡◌, refl, Option, none, some, [], ◌∷◌, true, is_some}
use hemp.Chars.{Str}
use hemp.Ptrees.Tree.{Ptree, empty, node, store, fetch, match_more}
use hemp.Ptrees.Laws.{Filled, Stores, find}
use hemp.Ptrees.Stores.{store-Stores}
use hemp.Ptrees.RoundTrip.{fetch-stored}

-- `=` with `=>` behind it, and `+=` before them
abbrev operators : Ptree ℕ
operators =
    node 61 [] (some 1) (node 43 (61 ∷ []) (some 3) empty empty empty)
      (node 62 [] (some 2) empty empty empty) empty

operators-Filled : Filled operators
unfolding Filled
operators-Filled = (tt, (tt, tt, tt, tt), (tt, tt, tt, tt), tt)

-- `++` splits the node of `+=`.
abbrev with_increment : Ptree ℕ
with_increment =
    node 61 [] (some 1)
      (node 43 (61 ∷ []) none empty
        (node 61 [] (some 3) (node 43 [] (some 4) empty empty empty) empty empty) empty)
      (node 62 [] (some 2) empty empty empty) empty

store_increment : store (43 ∷ 43 ∷ []) 4 operators ≡ some with_increment
unfolding store
store_increment = refl

store-Stores_example : Stores (43 ∷ 43 ∷ []) 4 operators with_increment
store-Stores_example =
    store-Stores (43 ∷ 43 ∷ []) 4 operators with_increment operators-Filled store_increment

fetch-stored_example :
    (fetch (43 ∷ 43 ∷ []) with_increment ≡ some 4)
    × ((j : Str) (w : ℕ) → find j operators ≡ some w → fetch j with_increment ≡ some w)
fetch-stored_example =
    fetch-stored (43 ∷ 43 ∷ []) 4 operators with_increment operators-Filled store_increment

-- The keys `foo` and `fp`: a match of `fop` gives the payload of `fp`, as does a fetch.
abbrev mixed : Option (Ptree ℕ)
mixed = elim (store {V = ℕ} (102 ∷ 111 ∷ 111 ∷ []) 1 empty) [
  | some t ↦ store (102 ∷ 112 ∷ []) 2 t
  | none ↦ none
]

abbrev matched : Option (Ptree ℕ) → Str → Option (ℕ × Str)
matched none src = none
matched (some t) src = match_more t src

match-mixed : matched mixed (102 ∷ 111 ∷ 112 ∷ []) ≡ some (2, [])
unfolding store match_more
match-mixed = refl

fetch-mixed : (elim mixed [ some t ↦ fetch (102 ∷ 111 ∷ 112 ∷ []) t | none ↦ none ]) ≡ some 2
unfolding store fetch
fetch-mixed = refl

-- The operators `a`, `abc` and `abd`: a match of `abx` gives none, though `a` is an operator.
abbrev trashed : Option (Ptree ℕ)
trashed = elim (store {V = ℕ} (97 ∷ []) 1 empty) [
  | some t ↦ elim (store {V = ℕ} (97 ∷ 98 ∷ 99 ∷ []) 2 t) [
    | some u ↦ store (97 ∷ 98 ∷ 100 ∷ []) 3 u
    | none ↦ none
  ]
  | none ↦ none
]

match-trashed : (is_some trashed ≡ true) × (matched trashed (97 ∷ 98 ∷ 120 ∷ []) ≡ none)
unfolding store match_more
match-trashed = (refl, refl)
