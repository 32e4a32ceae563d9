-- ===== src/Registry/Forest.antt =====
-- The roots of a prefix tree, hemp_ptree_store and hemp_ptree_fetch of library/ptree.c as a whole: the tree that a
-- key goes to, over the trees of Ptrees. The answer `none` is an access in front of the array of roots.
use hemp.Base.{
  ℕ, ◌<◌, ◌≡◌, refl, sym, ap, ◌∙◌, Bool, true, false, Option, none, some, List, ◌∷◌, length, set,
  get_or, replicate, get_or-replicate, get_or-set_self, get_or-set_ne, length-set, length-replicate,
  ◌==◌, if◌then◌else◌, arith, Bool-cases, Option-cases, inl, inr, ==_refl, ==_iff, ◌>>=◌, is_some,
  not,
}
use mathlib.Core.Option.{some-injective}
use hemp.Chars.{Str, str_eq, str_eq_iff}
use hemp.Ptrees.Tree.{Ptree, empty, store, fetch, head_char, position}
use hemp.Ptrees.Laws.{find, Filled, Stores}
use hemp.Ptrees.Stores.{store-Stores}
use hemp.Ptrees.Duplicates.{store-is_some}
use hemp.Ptrees.Fetch.{fetch-find}

-- HEMP_PTREE_SIZE
abbrev pub ptree_size : ℕ
ptree_size = 8

module _ {ℓ} {V : Type ℓ} where
  -- `hemp_ptree_new`
  unfoldable pub new_ptree : List (Ptree V)
  new_ptree = replicate ptree_size empty

  -- `none` is the NULL that a duplicate gives. The code may then have split nodes on its way, which changes the shape of
  -- the tree and no entry of it; here the tree is left as it was.
  abbrev pub set_root : List (Ptree V) → ℕ → Option (Ptree V) → Bool × List (Ptree V)
  set_root roots i none = (false, roots)
  set_root roots i (some tree) = (true, set roots i tree)

  -- `hemp_ptree_store`, for a key that is not empty
  unfoldable pub ptree_store : List (Ptree V) → ℕ → Str → V → Option (Bool × List (Ptree V))
  unfolding position
  ptree_store roots c cs value =
      position c >>= λ i. some (set_root roots i (store (c ∷ cs) value (get_or roots i empty)))

  -- `hemp_ptree_fetch`, for a key that is not empty
  unfoldable pub ptree_fetch : List (Ptree V) → ℕ → Str → Option (Option V)
  unfolding position
  ptree_fetch roots c cs = position c >>= λ i. some (fetch (c ∷ cs) (get_or roots i empty))

  -- The payload that the roots have for a key.
  unfoldable pub find_in : List (Ptree V) → ℕ → Str → Option V
  unfolding position find
  find_in roots c cs = position c >>= λ i. find (c ∷ cs) (get_or roots i empty)

  -- Eight roots, in whose trees every node without a payload has a tree below
  pub record IsForest (roots : List (Ptree V)) : Type 0 where
    pub width : length roots ≡ ptree_size
    pub filled : (i : ℕ) → Filled (get_or roots i empty)

  pub new_ptree-IsForest : IsForest new_ptree
  unfolding new_ptree Filled
  new_ptree-IsForest = record {
    width = length-replicate {A = Ptree V} ptree_size empty;
    filled = λ i. rw (get_or-replicate {A = Ptree V} ptree_size i empty) tt;
  }

  pub find_in-new : (c : ℕ) (cs : Str) → find_in new_ptree c cs ≡ none
  unfolding find_in new_ptree find
  find_in-new c cs = at (position c)
    where
      at :
          (o : Option ℕ)
          → (o >>= λ i. find {V = V} (c ∷ cs) (get_or (replicate ptree_size empty) i empty)) ≡ none
      at none = refl
      at (some i) = rw (get_or-replicate {A = Ptree V} ptree_size i empty) refl

position-bound : (c p : ℕ) → position c ≡ some p → p < ptree_size
unfolding position
position-bound c p e = ground (arith, e)

same_root :
    (c d p q : ℕ) (cs ds : Str)
    → position c ≡ some p
    → position d ≡ some q
    → (q == p) ≡ false
    → str_eq (d ∷ ds) (c ∷ cs) ≡ false
same_root c d p q cs ds e k other = elim (Bool-cases (str_eq (d ∷ ds) (c ∷ cs))) [
  | inr other_key ↦ other_key
  | inl same ↦
      let chars : d ≡ c = ap head_char ((str_eq_iff (d ∷ ds) (c ∷ cs)).0 same) in
      let roots : q ≡ p = some-injective _ _ (sym k ∙ ap position chars ∙ e) in
      ground (arith, other, roots)
]

no_root :
    (c d p : ℕ) (cs ds : Str)
    → position c ≡ some p
    → position d ≡ none
    → str_eq (d ∷ ds) (c ∷ cs) ≡ false
no_root c d p cs ds e k = elim (Bool-cases (str_eq (d ∷ ds) (c ∷ cs))) [
  | inr other_key ↦ other_key
  | inl same ↦
      let chars : d ≡ c = ap head_char ((str_eq_iff (d ∷ ds) (c ∷ cs)).0 same) in
      let gone : none ≡ some p = sym k ∙ ap position chars ∙ e in ground (arith, gone)
]

module _ {ℓ} {V : Type ℓ} where
  -- A key has its payload then, every other key what it had.
  pub record Plants (c : ℕ) (cs : Str) (v : V) (roots roots' : List (Ptree V)) : Type ℓ where
    pub forest : IsForest roots'
    pub reads :
        (d : ℕ) (ds : Str)
        → find_in roots' d ds ≡ (if str_eq (d ∷ ds) (c ∷ cs) then some v else find_in roots d ds)

  read :
      (roots : List (Ptree V)) (p : ℕ) (tree : Ptree V)
      → p < length roots
      → (i : ℕ)
      → get_or (set roots p tree) i empty ≡ (if i == p then tree else get_or roots i empty)
  read roots p tree inside i = elim (Bool-cases (i == p)) [
    | inl same ↦ rw same (
        ap (λ j. get_or (set roots p tree) j empty) ((==_iff i p).0 same)
        ∙ get_or-set_self roots p tree empty inside)
    | inr other ↦ rw other (get_or-set_ne roots p i tree empty (λ e. ground (arith, other, e)))
  ]

  Filled-choice : (b : Bool) (t u : Ptree V) → Filled t → Filled u → Filled (if b then t else u)
  Filled-choice true t u f g = f
  Filled-choice false t u f g = g

  set-Plants :
      (c : ℕ) (cs : Str) (v : V) (roots : List (Ptree V)) (p : ℕ) (tree : Ptree V)
      → IsForest roots
      → position c ≡ some p
      → Stores (c ∷ cs) v (get_or roots p empty) tree
      → Plants c cs v roots (set roots p tree)
  unfolding find_in
  set-Plants c cs v roots p tree forest e s =
      let inside : p < length roots = rw forest.width (position-bound c p e) in
      let reads = read roots p tree inside in
      record {
        forest = record {
          width = length-set roots p tree ∙ forest.width;
          filled = λ i. rw (reads i) (Filled-choice (i == p) tree _ s.filled (forest.filled i));
        };
        reads = λ d ds. elim (Option-cases (position d)) [
          | inl none_there ↦ rw (find_in, none_there, no_root c d p cs ds e none_there)
          | inr (q, k) ↦ elim (Bool-cases (q == p)) [
            | inl same ↦
                let here : position d ≡ some p = k ∙ ap some ((==_iff q p).0 same) in
                rw (find_in, here, reads p, ==_refl p) (s.reads (d ∷ ds))
            | inr other ↦ rw (find_in, k, reads q, other, same_root c d p q cs ds e k other)
          ]
        ];
      }

  -- A key without a payload, whose root is in the array, is never refused.
  pub ptree_store-Plants :
      (roots : List (Ptree V)) (c p : ℕ) (cs : Str) (v : V)
      → IsForest roots
      → position c ≡ some p
      → find_in roots c cs ≡ none
      → (after : List (Ptree V)) × (ptree_store roots c cs v ≡ some (true, after))
        × Plants c cs v roots after
  unfolding ptree_store find_in
  ptree_store-Plants roots c p cs v forest e free =
      let free' : find (c ∷ cs) (get_or roots p empty) ≡ none = sym (rw (find_in, e) refl) ∙ free in
      elim (Option-cases (store (c ∷ cs) v (get_or roots p empty))) [
        | inl refused ↦ absurd (taken (store-is_some c cs v (get_or roots p empty)) refused free')
        | inr (tree, stored) ↦ (
          set roots p tree,
          rw (ptree_store, e, stored),
          set-Plants c cs v roots p tree forest e
              (store-Stores (c ∷ cs) v (get_or roots p empty) tree (forest.filled p) stored),
        )
      ]
    where
      taken :
          {o : Option (Ptree V)} {w : Option V}
          → is_some o ≡ not (is_some w)
          → o ≡ none
          → w ≡ none
          → ⊥
      taken h a b = ground (arith, h, a, b)

  -- A fetch gives what the roots have.
  pub ptree_fetch-find_in :
      (roots : List (Ptree V)) (c p : ℕ) (cs : Str) (v : V)
      → position c ≡ some p
      → find_in roots c cs ≡ some v
      → ptree_fetch roots c cs ≡ some (some v)
  unfolding ptree_fetch find_in
  ptree_fetch-find_in roots c p cs v e h =
      let h' : find (c ∷ cs) (get_or roots p empty) ≡ some v = sym (rw (find_in, e) refl) ∙ h in
      rw (ptree_fetch, e, fetch-find (c ∷ cs) v (get_or roots p empty) h')
