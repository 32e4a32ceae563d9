-- ===== src/Ptrees/Stores.antt =====
-- What `store` of the tree does on each of its branches, put together.
use mathlib.Core.Path.{subst}
use mathlib.Core.Option.{some-injective}
use hemp.Base.{
  ℕ, ◌≡◌, refl, sym, ap, ◌∙◌, true, false, Option, none, some, [], ◌∷◌, ◌==◌, if◌then◌else◌, arith,
  Bool-cases, inl, inr,
}
use hemp.Chars.{Str, str_eq}
use hemp.Ptrees.Tree.{
  Ptree, empty, node, char_lt, new_node, store_end, store_more, store_equal, store_at, store,
}
use hemp.Ptrees.Laws.{
  find_at, find, Inner, Filled, IsNode, Stores, find-new_node, Step, Below-value, Below-prefix,
  Below-node, Below-split, Below-new, level-Stores,
}

-- A call that goes on in a child has changed that child.
child_changed {ℓ ℓ'} :
    {A : Type ℓ} (P : A → Type ℓ') {t : A} (o : Option A) (f : A → A)
    → ((b : A) → o ≡ some b → P (f b))
    → (elim o [ some b ↦ some (f b) | none ↦ none ]) ≡ some t
    → P t
child_changed P none f g e = ground arith
child_changed P {t = t} (some b) f g e = subst P (some-injective (f b) t e) (g b refl)

true-false : true ≡ false → ⊥
true-false e = ground arith

other_head :
    (j : ℕ) (js : Str) (c : ℕ) (cs : Str) (k : ℕ)
    → (j == k) ≡ true
    → (c == k) ≡ false
    → str_eq (j ∷ js) (c ∷ cs) ≡ false
unfolding str_eq
other_head j js c cs k p q = ground arith

other_side :
    (j : ℕ) (js : Str) (c : ℕ) (cs : Str) (k : ℕ) → (j ≡ c → ⊥) → str_eq (j ∷ js) (c ∷ cs) ≡ false
unfolding str_eq
other_side j js c cs k p = ground arith

eq-sym : (c k : ℕ) → (c == k) ≡ true → k ≡ c
eq-sym c k p = ground arith

module _ {ℓ} {V : Type ℓ} where
  new_node-Filled : (c : ℕ) (cs : Str) (v : V) → Filled (new_node (c ∷ cs) (some v))
  unfolding Filled new_node Inner
  new_node-Filled c cs v = (tt, tt, tt, tt)

  new_node-Stores :
      (c : ℕ) (cs : Str) (v : V) → Stores (c ∷ cs) v empty (new_node (c ∷ cs) (some v))
  unfolding find find_at IsNode new_node
  new_node-Stores c cs v = record { filled = new_node-Filled c cs v; is_node = tt; reads = reads }
    where
      reads :
          (j : Str)
          → find j (new_node (c ∷ cs) (some v))
            ≡ (if str_eq j (c ∷ cs) then some v else find j empty)
      reads [] = find-new_node [] c cs (some v)
      reads (j ∷ js) = find-new_node (j ∷ js) c cs (some v)

  -- The insert key ends behind the first character.
  store_end-Stores :
      (v : V) (c : ℕ) (cs : Str) (value : Option V) (b e a t' : Ptree V)
      → Filled (node c cs value b e a)
      → store_end v c cs value b e a ≡ some t'
      → Stores (c ∷ []) v (node c cs value b e a) t'
  unfolding store_end Filled Inner IsNode new_node
  store_end-Stores v c cs none b empty a t' f e = elim f.0 [ ]
  store_end-Stores v c cs none b (node d ds x b' e' a') a t' f e =
      subst (Stores (c ∷ []) v (node c cs none b (node d ds x b' e' a') a)) (some-injective _ t' e)
        (level-Stores c [] v cs cs none (some v) b _ _ a (tt, f.1, f.2, f.3)
          (Below-value v cs _ tt))
  store_end-Stores v c [] (some w) b q a t' f e = ground arith
  store_end-Stores v c (k ∷ ks) (some w) b empty a t' f e =
      subst (Stores (c ∷ []) v (node c (k ∷ ks) (some w) b empty a)) (some-injective _ t' e) (
        level-Stores c [] v (k ∷ ks) (k ∷ ks) (some w) (some v) b _ _ a
          (tt, f.1, new_node-Filled k ks w, f.3) (Below-prefix v w k ks))
  store_end-Stores v c (k ∷ ks) (some w) b (node _ _ _ _ _ _) a t' f e = ground arith

  IsNode-Inner : (value : Option V) (t : Ptree V) → IsNode t → Inner value t
  unfolding IsNode Inner
  IsNode-Inner (some v) t n = tt
  IsNode-Inner none empty n = elim n [ ]
  IsNode-Inner none (node _ _ _ _ _ _) n = tt

  -- The insert key goes on behind the first character.
  store_more-Stores :
      (d : ℕ) (ds : Str) (v : V) (c : ℕ) (cs : Str) (value : Option V) (b e a t' : Ptree V)
      → Step (d ∷ ds) v
      → Filled (node c cs value b e a)
      → store_more (store (d ∷ ds) v) v (d ∷ ds) c cs value b e a ≡ some t'
      → Stores (c ∷ d ∷ ds) v (node c cs value b e a) t'
  unfolding store_more Filled Inner IsNode new_node
  store_more-Stores d ds v c cs value b (node k ks x b' e' a') a t' step f e =
      child_changed (Stores (c ∷ d ∷ ds) v (node c cs value b (node k ks x b' e' a') a))
        (store (d ∷ ds) v (node k ks x b' e' a')) (λ t. node c cs value b t a)
        (λ t eq.
          let s = step _ t f.2 eq in
          level-Stores c (d ∷ ds) v cs cs value value b _ t a
            (IsNode-Inner value t s.is_node, f.1, s.filled, f.3)
            (Below-node v d ds cs value _ t tt s))
        e
  store_more-Stores d ds v c cs none b empty a t' step f e = elim f.0 [ ]
  store_more-Stores d ds v c (k ∷ ks) (some w) b empty a t' step f e =
      child_changed (Stores (c ∷ d ∷ ds) v (node c (k ∷ ks) (some w) b empty a))
        (store (d ∷ ds) v (new_node (k ∷ ks) (some w))) (λ t. node c (k ∷ ks) none b t a)
        (λ t eq.
          let s = step _ t (new_node-Filled k ks w) eq in
          level-Stores c (d ∷ ds) v (k ∷ ks) (k ∷ ks) (some w) none b _ t a
            (IsNode-Inner none t s.is_node, f.1, s.filled, f.3)
            (Below-split v d ds k ks (some w) t s))
        e
  store_more-Stores d ds v c [] (some w) b empty a t' step f e =
      subst (Stores (c ∷ d ∷ ds) v (node c [] (some w) b empty a)) (some-injective _ t' e) (
        level-Stores c (d ∷ ds) v [] [] (some w) (some w) b _ _ a
          (tt, f.1, new_node-Filled d ds v, f.3) (Below-new v d ds (some w)))

  -- A change before a node or behind it.
  before-Stores :
      (c : ℕ) (cs : Str) (v : V) (k : ℕ) (ks : Str) (value : Option V) (b b' e a : Ptree V)
      → (c == k) ≡ false
      → char_lt c k ≡ true
      → Filled (node k ks value b e a)
      → Stores (c ∷ cs) v b b'
      → Stores (c ∷ cs) v (node k ks value b e a) (node k ks value b' e a)
  unfolding Filled IsNode find find_at
  before-Stores c cs v k ks value b b' e a ne lt f s = record {
    filled = (f.0, s.filled, f.2, f.3);
    is_node = tt;
    reads = reads;
  }
    where
      reads :
          (j : Str)
          → find j (node k ks value b' e a)
            ≡ (if str_eq j (c ∷ cs) then some v else find j (node k ks value b e a))
      reads [] = s.reads []
      reads (j ∷ js) = elim (Bool-cases (j == k)) [
        | inl p ↦ rw (p, other_head j js c cs k p ne) refl
        | inr p ↦ elim (Bool-cases (char_lt j k)) [
          | inl l ↦ rw (p, l) (s.reads (j ∷ js))
          | inr l ↦
              rw
                (
                  p,
                  l,
                  other_side j js c cs k
                      (λ eq. true-false (sym lt ∙ ap (λ d. char_lt d k) (sym eq) ∙ l)),
                )
                refl
        ]
      ]

  after-Stores :
      (c : ℕ) (cs : Str) (v : V) (k : ℕ) (ks : Str) (value : Option V) (b e a a' : Ptree V)
      → (c == k) ≡ false
      → char_lt c k ≡ false
      → Filled (node k ks value b e a)
      → Stores (c ∷ cs) v a a'
      → Stores (c ∷ cs) v (node k ks value b e a) (node k ks value b e a')
  unfolding Filled IsNode find find_at
  after-Stores c cs v k ks value b e a a' ne lt f s = record {
    filled = (f.0, f.1, f.2, s.filled);
    is_node = tt;
    reads = reads;
  }
    where
      reads :
          (j : Str)
          → find j (node k ks value b e a')
            ≡ (if str_eq j (c ∷ cs) then some v else find j (node k ks value b e a))
      reads [] = s.reads []
      reads (j ∷ js) = elim (Bool-cases (j == k)) [
        | inl p ↦ rw (p, other_head j js c cs k p ne) refl
        | inr p ↦ elim (Bool-cases (char_lt j k)) [
          | inr l ↦ rw (p, l) (s.reads (j ∷ js))
          | inl l ↦
              rw
                (
                  p,
                  l,
                  other_side j js c cs k (λ eq. true-false (sym l ∙ ap (λ d. char_lt d k) eq ∙ lt)),
                )
                refl
        ]
      ]

  store_equal-Stores :
      (c : ℕ) (cs : Str) (v : V) (k : ℕ) (ks : Str) (value : Option V) (b e a t' : Ptree V)
      → Step cs v
      → (c == k) ≡ true
      → Filled (node k ks value b e a)
      → store_equal (store cs v) v cs k ks value b e a ≡ some t'
      → Stores (c ∷ cs) v (node k ks value b e a) t'
  unfolding store_equal
  store_equal-Stores c cs v k ks value b e a t' step p f eq =
      subst (λ d. Stores (d ∷ cs) v (node k ks value b e a) t') (eq-sym c k p) (go cs step eq)
    where
      go :
          (cs : Str)
          → Step cs v
          → store_equal (store cs v) v cs k ks value b e a ≡ some t'
          → Stores (k ∷ cs) v (node k ks value b e a) t'
      go [] step eq = store_end-Stores v k ks value b e a t' f eq
      go (d ∷ ds) step eq = store_more-Stores d ds v k ks value b e a t' step f eq

  -- What a store does at one level, when it does it below.
  store_at-Stores :
      (c : ℕ) (cs : Str) (v : V) (t t' : Ptree V)
      → Step cs v
      → Filled t
      → store_at (store cs v) v c cs t ≡ some t'
      → Stores (c ∷ cs) v t t'
  unfolding store_at Filled
  store_at-Stores c cs v empty t' step f e =
      subst (Stores (c ∷ cs) v empty) (some-injective _ t' e) (new_node-Stores c cs v)
  store_at-Stores c cs v (node k ks value b q a) t' step f e =
      let stored = Stores (c ∷ cs) v (node k ks value b q a) in
      let go = store_at (store cs v) v c cs in
      let earlier : Option (Ptree V) = (elim (go b) [
        | some b' ↦ some (node k ks value b' q a)
        | none ↦ none
      ]) in
      let later : Option (Ptree V) = (elim (go a) [
        | some a' ↦ some (node k ks value b q a')
        | none ↦ none
      ]) in
      (elim (c == k)
          as (λ x.
            (c == k) ≡ x
            → (if x
                then store_equal (store cs v) v cs k ks value b q a
                else if char_lt c k
                then earlier
                else later)
              ≡ some t'
            → stored t') [
              | true ↦ λ p e. store_equal-Stores c cs v k ks value b q a t' step p f e
              | false ↦ λ p.
                  elim (char_lt c k)
                      as (λ x.
                        char_lt c k ≡ x → (if x then earlier else later) ≡ some t' → stored t') [
                          | true ↦ λ l e.
                              child_changed stored (go b) (λ t. node k ks value t q a)
                                (λ t eq.
                                  before-Stores c cs v k ks value b t q a p l f
                                    (store_at-Stores c cs v b t step f.1 eq))
                                e
                          | false ↦ λ l e.
                              child_changed stored (go a) (λ t. node k ks value b q t)
                                (λ t eq.
                                  after-Stores c cs v k ks value b q a t p l f
                                    (store_at-Stores c cs v a t step f.3 eq))
                                e
                        ]
                    refl
            ])
        refl e

  -- A store that succeeds in a tree where every node without a payload has a tree below leaves such a tree,
  -- in which the key that was stored has the payload that was given, and every other key what it had
  -- before: the split of a key's node in two, the new branch and the new tail move no other entry.
  pub store-Stores :
      (key : Str) (v : V) (t t' : Ptree V) → Filled t → store key v t ≡ some t' → Stores key v t t'
  unfolding store
  store-Stores [] v t t' f e = ground arith
  store-Stores (c ∷ cs) v t t' f e = store_at-Stores c cs v t t' (store-Stores cs v) f e
