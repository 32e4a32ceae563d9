-- ===== src/Ptrees/Laws.antt =====
-- What a tree says of keys, and what a store does to it.
use hemp.Base.{
  ℕ, ◌≡◌, refl, ap, ◌∙◌, Option, none, some, [], ◌∷◌, ◌==◌, if◌then◌else◌, arith, Bool-cases, inl,
  inr,
}
use hemp.Chars.{Str, str_eq}
use hemp.Ptrees.Tree.{Ptree, empty, node, char_lt, new_node, store}

module _ {ℓ} {V : Type ℓ} where
  -- The payload of a key that has `rest` left behind the first character of a node, by the rest of the
  -- node's key, its payload and the tree below.
  unfoldable pub found : (Ptree V → Option V) → Str → Str → Option V → Ptree V → Option V
  found go rest ks value empty = if str_eq rest ks then value else none
  found go [] ks value (node d ds x b e a) = value
  found go (c ∷ cs) ks value (node d ds x b e a) = go (node d ds x b e a)

  unfoldable pub find_at : (Ptree V → Option V) → ℕ → Str → Ptree V → Option V
  unfolding found
  find_at go c cs empty = none
  find_at go c cs (node k ks value before equal next) =
      let earlier = find_at go c cs before in
      let later = find_at go c cs next in
      if c == k then found go cs ks value equal else if char_lt c k then earlier else later

  -- The payload that the tree has for a key.
  unfoldable pub find : Str → Ptree V → Option V
  unfolding find_at
  find [] t = none
  find (c ∷ cs) t = find_at (find cs) c cs t

  unfoldable pub Inner : Option V → Ptree V → Type 0
  Inner (some v) t = Unit
  Inner none empty = ⊥
  Inner none (node k ks v b e a) = Unit

  -- A node without a payload has a tree below.
  unfoldable pub Filled : Ptree V → Type 0
  unfolding Inner
  Filled empty = Unit
  Filled (node k ks value before equal next) =
      Inner value equal × Filled before × Filled equal × Filled next

  unfoldable pub IsNode : Ptree V → Type 0
  IsNode empty = ⊥
  IsNode (node k ks v b e a) = Unit

  -- What a store does: the key has the value then, and every other key has what it had.
  pub record Stores (key : Str) (v : V) (t t' : Ptree V) : Type ℓ where
    pub filled : Filled t'
    pub is_node : IsNode t'
    pub reads : (j : Str) → find j t' ≡ (if str_eq j key then some v else find j t)

  pub find-new_node :
      (j : Str) (k : ℕ) (ks : Str) (v : Option V)
      → find j (new_node (k ∷ ks) v) ≡ (if str_eq j (k ∷ ks) then v else none)
  unfolding find find_at found new_node str_eq
  find-new_node [] k ks v = refl
  find-new_node (c ∷ cs) k ks v = ground arith

  -- What `store` is to do with the rest of a key.
  abbrev pub Step : Str → V → Type ℓ
  Step key v = (t t' : Ptree V) → Filled t → store key v t ≡ some t' → Stores key v t t'

  -- The tree below a first character that the key has in common with a node, before and after.
  abbrev pub Below : Str → V → Str → Option V → Ptree V → Str → Option V → Ptree V → Type ℓ
  Below cs v ks value equal ks' value' equal' =
      (j : Str)
      → found (find j) j ks' value' equal'
        ≡ (if str_eq j cs then some v else found (find j) j ks value equal)

  pub Below-value : (v : V) (ks : Str) (e : Ptree V) → IsNode e → Below [] v ks none e ks (some v) e
  unfolding found str_eq IsNode
  Below-value v ks empty n j = elim n [ ]
  Below-value v ks (node d ds x b e a) n [] = refl
  Below-value v ks (node d ds x b e a) n (c ∷ cs) = refl

  pub Below-prefix :
      (v w : V) (k : ℕ) (ks : Str)
      → Below [] v (k ∷ ks) (some w) empty (k ∷ ks) (some v) (new_node (k ∷ ks) (some w))
  unfolding found str_eq new_node
  Below-prefix v w k ks [] = refl
  Below-prefix v w k ks (c ∷ cs) = find-new_node (c ∷ cs) k ks (some w)

  pub Below-node :
      (v : V) (d : ℕ) (ds ks : Str) (value : Option V) (e e' : Ptree V)
      → IsNode e
      → Stores (d ∷ ds) v e e'
      → Below (d ∷ ds) v ks value e ks value e'
  unfolding found str_eq IsNode
  Below-node v d ds ks value empty e' n s j = elim n [ ]
  Below-node v d ds ks value (node _ _ _ _ _ _) empty n s j = elim s.is_node [ ]
  Below-node v d ds ks value (node _ _ _ _ _ _) (node _ _ _ _ _ _) n s [] = refl
  Below-node v d ds ks value (node _ _ _ _ _ _) (node _ _ _ _ _ _) n s (c ∷ cs) = s.reads (c ∷ cs)

  pub Below-split :
      (v : V) (d : ℕ) (ds : Str) (k : ℕ) (ks : Str) (value : Option V) (e' : Ptree V)
      → Stores (d ∷ ds) v (new_node (k ∷ ks) value) e'
      → Below (d ∷ ds) v (k ∷ ks) value empty (k ∷ ks) none e'
  unfolding found str_eq IsNode
  Below-split v d ds k ks value empty s j = elim s.is_node [ ]
  Below-split v d ds k ks value (node _ _ _ _ _ _) s [] = refl
  Below-split v d ds k ks value (node _ _ _ _ _ _) s (c ∷ cs) =
      s.reads (c ∷ cs)
      ∙ ap (λ o. if str_eq (c ∷ cs) (d ∷ ds) then some v else o) (find-new_node (c ∷ cs) k ks value)

  pub Below-new :
      (v : V) (d : ℕ) (ds : Str) (value : Option V)
      → Below (d ∷ ds) v [] value empty [] value (new_node (d ∷ ds) (some v))
  unfolding found str_eq new_node
  Below-new v d ds value [] = refl
  Below-new v d ds value (c ∷ cs) = find-new_node (c ∷ cs) d ds (some v)

  -- A change below the first character of a node is that of the whole keys.
  pub level-Stores :
      (k : ℕ) (cs : Str) (v : V) (ks ks' : Str) (value value' : Option V) (b e e' a : Ptree V)
      → Filled (node k ks' value' b e' a)
      → Below cs v ks value e ks' value' e'
      → Stores (k ∷ cs) v (node k ks value b e a) (node k ks' value' b e' a)
  unfolding find find_at str_eq IsNode
  level-Stores k cs v ks ks' value value' b e e' a f h = record {
    filled = f;
    is_node = tt;
    reads = reads;
  }
    where
      reads :
          (j : Str)
          → find j (node k ks' value' b e' a)
            ≡ (if str_eq j (k ∷ cs) then some v else find j (node k ks value b e a))
      reads [] = refl
      reads (j ∷ js) = elim (Bool-cases (j == k)) [ inl p ↦ rw p (h js) | inr p ↦ rw p refl ]
