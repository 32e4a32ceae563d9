-- ===== src/Ptrees/Duplicates.antt =====
-- When `store` of the tree returns NULL.
use hemp.Base.{
  ℕ, ◌≡◌, refl, ap, ◌∙◌, not, Option, none, some, [], ◌∷◌, ◌==◌, is_some, Bool-cases, inl, inr,
}
use hemp.Chars.{Str, str_eq}
use hemp.Ptrees.Tree.{
  Ptree, empty, node, char_lt, new_node, store_end, store_more, store_equal, store_at, store,
}
use hemp.Ptrees.Laws.{found, find_at, find, find-new_node}

is_some-changed {ℓ} :
    {A B : Type ℓ} (o : Option A) (f : A → B)
    → is_some (elim o [ some b ↦ some (f b) | none ↦ none ]) ≡ is_some o
is_some-changed none f = refl
is_some-changed (some x) f = refl

module _ {ℓ} {V : Type ℓ} where
  -- What is to hold of the rest of a key.
  abbrev Refuses : Str → V → Type ℓ
  Refuses [] v = Unit
  Refuses (c ∷ cs) v =
      (t : Ptree V) → is_some (store (c ∷ cs) v t) ≡ not (is_some (find (c ∷ cs) t))

  store_equal-is_some :
      (cs : Str) (v : V) (k : ℕ) (ks : Str) (value : Option V) (b e a : Ptree V)
      → Refuses cs v
      → is_some (store_equal (store cs v) v cs k ks value b e a)
        ≡ not (is_some (found (find cs) cs ks value e))
  unfolding store_equal store_end store_more found str_eq new_node
  store_equal-is_some [] v k [] none b empty a r = refl
  store_equal-is_some [] v k (l ∷ ks) none b empty a r = refl
  store_equal-is_some [] v k ks none b (node _ _ _ _ _ _) a r = refl
  store_equal-is_some [] v k [] (some w) b empty a r = refl
  store_equal-is_some [] v k (l ∷ ks) (some w) b empty a r = refl
  store_equal-is_some [] v k [] (some w) b (node _ _ _ _ _ _) a r = refl
  store_equal-is_some [] v k (l ∷ ks) (some w) b (node _ _ _ _ _ _) a r = refl
  store_equal-is_some (d ∷ ds) v k [] value b (node l ls x b' e' a') a r =
      is_some-changed _ _ ∙ r (node l ls x b' e' a')
  store_equal-is_some (d ∷ ds) v k (m ∷ ks) value b (node l ls x b' e' a') a r =
      is_some-changed _ _ ∙ r (node l ls x b' e' a')
  store_equal-is_some (d ∷ ds) v k [] value b empty a r = refl
  store_equal-is_some (d ∷ ds) v k (l ∷ ks) value b empty a r =
      is_some-changed _ _
      ∙ r (new_node (l ∷ ks) value)
      ∙ ap (λ o. not (is_some o)) (find-new_node (d ∷ ds) l ks value)

  store_at-is_some :
      (c : ℕ) (cs : Str) (v : V) (t : Ptree V)
      → Refuses cs v
      → is_some (store_at (store cs v) v c cs t) ≡ not (is_some (find_at (find cs) c cs t))
  unfolding store_at find_at new_node
  store_at-is_some c cs v empty r = refl
  store_at-is_some c cs v (node k ks value b e a) r = elim (Bool-cases (c == k)) [
    | inl p ↦ rw p (store_equal-is_some cs v k ks value b e a r)
    | inr p ↦ elim (Bool-cases (char_lt c k)) [
      | inl l ↦ rw (p, l) (is_some-changed _ _ ∙ store_at-is_some c cs v b r)
      | inr l ↦ rw (p, l) (is_some-changed _ _ ∙ store_at-is_some c cs v a r)
    ]
  ]

  -- A store under a key that is not empty returns NULL just when the tree already has a payload for the key.
  pub store-is_some :
      (c : ℕ) (cs : Str) (v : V) (t : Ptree V)
      → is_some (store (c ∷ cs) v t) ≡ not (is_some (find (c ∷ cs) t))
  unfolding store find
  store-is_some c [] v t = store_at-is_some c [] v t tt
  store-is_some c (d ∷ ds) v t = store_at-is_some c (d ∷ ds) v t (store-is_some d ds v)
