-- ===== src/Ptrees/Fetch.antt =====
-- What `fetch` of the tree finds.
use mathlib.Core.Path.{subst}
use hemp.Base.{
  ℕ, ◌≡◌, refl, sym, ◌∙◌, true, false, Option, none, some, [], ◌∷◌, ◌==◌, if◌then◌else◌, arith,
}
use hemp.Chars.{Str, str_eq, str_eq_iff}
use hemp.Ptrees.Tree.{
  Ptree, empty, node, Cursor, char_lt, char_gt, tail_of, seek, seek_at, step, final, fetch_at,
  fetch,
}
use hemp.Ptrees.Laws.{found, find_at, find}

eq_refl : (c : ℕ) → (c == c) ≡ true
eq_refl c = ground arith

module _ {ℓ} {V : Type ℓ} where
  -- The walk has come to the node that the payload `v` is at or below.
  record Sought (go : Ptree V → Option V) (c : ℕ) (cs : Str) (v : V) (t : Ptree V) : Type ℓ where
    pub at : Cursor V
    pub ks : Str
    pub sought : seek c t ≡ some at
    pub key : at.rest ≡ c ∷ ks
    pub below : found go cs ks at.value at.equal ≡ some v

  seek-Sought :
      (go : Ptree V → Option V) (c : ℕ) (cs : Str) (v : V) (t : Ptree V)
      → find_at go c cs t ≡ some v
      → Sought go c cs v t
  unfolding find_at seek char_gt
  seek-Sought go c cs v empty e = ground arith
  seek-Sought go c cs v (node k ks value b q a) e =
      elim (c == k)
          as (λ x.
            (c == k) ≡ x
            → (if x
                then found go cs ks value q
                else if char_lt c k
                then find_at go c cs b
                else find_at go c cs a)
              ≡ some v
            → Sought go c cs v (node k ks value b q a)) [
              | true ↦ λ p e. record {
                at = record { rest = k ∷ ks; value = value; before = b; equal = q; next = a };
                ks = ks;
                sought = rw p refl;
                key = ground arith;
                below = e;
              }
              | false ↦ λ p.
                  elim (char_lt c k)
                      as (λ x.
                        char_lt c k ≡ x
                        → (if x then find_at go c cs b else find_at go c cs a) ≡ some v
                        → Sought go c cs v (node k ks value b q a)) [
                          | true ↦ λ l e.
                              let s = seek-Sought go c cs v b e in
                              record {
                                at = s.at;
                                ks = s.ks;
                                sought = rw (p, l) s.sought;
                                key = s.key;
                                below = s.below;
                              }
                          | false ↦ λ l e.
                              let s = seek-Sought go c cs v a e in
                              record {
                                at = s.at;
                                ks = s.ks;
                                sought = rw (p, l) s.sought;
                                key = s.key;
                                below = s.below;
                              }
                        ]
                    refl
            ]
        refl e

  -- Within the key of a node that has no tree below, the rest of the key is read.
  fetch_at-rest :
      (c : ℕ) (src : Str) (value : Option V) (b a : Ptree V)
      → fetch_at
          (c ∷ src)
          (record { rest = c ∷ src; value = value; before = b; equal = empty; next = a })
        ≡ value
  unfolding fetch_at seek_at step final tail_of
  fetch_at-rest c [] value b a = ground arith
  fetch_at-rest c (d ∷ src) value b a = rw (fetch_at, eq_refl c) (fetch_at-rest d src value b a)

  -- The start of a fetch, at a node.
  abbrev start : ℕ → Str → Option V → Ptree V → Ptree V → Ptree V → Cursor V
  start k ks v b e a = record { rest = k ∷ ks; value = v; before = b; equal = e; next = a }

  seek_at-start :
      (c k : ℕ) (ks : Str) (v : Option V) (b e a : Ptree V)
      → seek_at c (start k ks v b e a) ≡ seek c (node k ks v b e a)
  unfolding seek_at seek
  seek_at-start c k ks v b e a = refl

  -- The last character of the key.
  final-found :
      (go : Ptree V → Option V) (k : ℕ) (ks : Str) (value : Option V) (t : Ptree V)
      → final (k ∷ ks) t value ≡ found go [] ks value t
  unfolding final found str_eq
  final-found go k [] value empty = refl
  final-found go k (d ∷ ks) value empty = refl
  final-found go k [] value (node _ _ _ _ _ _) = refl
  final-found go k (d ∷ ks) value (node _ _ _ _ _ _) = refl

  -- What is to hold of the rest of the key, in a tree below.
  abbrev Fetches : Str → V → Type ℓ
  Fetches src v =
      (k : ℕ) (ks : Str) (x : Option V) (b e a : Ptree V)
      → find src (node k ks x b e a) ≡ some v
      → fetch_at src (start k ks x b e a) ≡ some v

  matched :
      (src ks : Str) (value : Option V) {v : V}
      → (if str_eq src ks then value else none) ≡ some v
      → (src ≡ ks) × (value ≡ some v)
  matched src ks value {v = v} e =
      elim (str_eq src ks)
          as (λ x.
            str_eq src ks ≡ x
            → (if x then value else none) ≡ some v
            → (src ≡ ks) × (value ≡ some v)) [
              | true ↦ λ p e. ((str_eq_iff src ks).0 p, e)
              | false ↦ λ p e. ground arith
            ]
        refl e

  step-found :
      (v : V) (c d : ℕ) (ds ks : Str) (value : Option V) (b e a : Ptree V)
      → Fetches (d ∷ ds) v
      → found (find (d ∷ ds)) (d ∷ ds) ks value e ≡ some v
      → fetch_at
          (d ∷ ds)
          (step (record { rest = c ∷ ks; value = value; before = b; equal = e; next = a }))
        ≡ some v
  unfolding step found tail_of
  step-found v c d ds ks value b empty a ih f =
      let r = matched (d ∷ ds) ks value f in
      subst
        (λ s.
          fetch_at (d ∷ ds)
            (record { rest = s; value = value; before = b; equal = empty; next = a })
          ≡ some v)
        r.0 (fetch_at-rest d ds value b a ∙ r.1)
  step-found v c d ds ks value b (node k ls x b' e' a') a ih f = ih k ls x b' e' a' f

  fetch_at-find : (c : ℕ) (cs : Str) (v : V) → Fetches (c ∷ cs) v
  unfolding fetch_at find
  fetch_at-find c [] v k ks x b e a f =
      let s = seek-Sought (find []) c [] v (node k ks x b e a) f in
      rw (fetch_at, seek_at-start c k ks x b e a, s.sought, s.key)
        (final-found (find []) c s.ks _ _ ∙ s.below)
  fetch_at-find c (d ∷ ds) v k ks x b e a f =
      let s = seek-Sought (find (d ∷ ds)) c (d ∷ ds) v (node k ks x b e a) f in
      rw (fetch_at, seek_at-start c k ks x b e a, s.sought)
        (subst (λ r. fetch_at (d ∷ ds) (step (record s.at { rest = r })) ≡ some v) (sym s.key)
          (step-found v c d ds s.ks s.at.value s.at.before s.at.equal s.at.next
            (fetch_at-find d ds v) s.below))

  -- A key that the tree has a payload for is fetched: the walk finds the payload wherever stores have split
  -- the keys of the nodes.
  pub fetch-find : (key : Str) (v : V) (t : Ptree V) → find key t ≡ some v → fetch key t ≡ some v
  unfolding fetch find find_at
  fetch-find [] v t f = ground arith
  fetch-find (c ∷ cs) v empty f = ground arith
  fetch-find (c ∷ cs) v (node k ks x b e a) f = fetch_at-find c cs v k ks x b e a f
