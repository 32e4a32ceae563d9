-- ===== src/Hash/Laws.antt =====
-- What the operations of the hash table do to the map from hash values that the table stands for.
use hemp.Base.{
  ℕ, ◌+◌, ◌%◌, ◌≤◌, ◌≡◌, refl, ap, sym, ◌∙◌, Option, none, some, List, [], ◌∷◌, ◌==◌, if◌then◌else◌,
  length, arith, Bool-cases, Option-cases, inl, inr, ==_iff,
}
use hemp.Chars.{Str}
use hemp.Hash.Table.{
  HashFunction, Table, column, seek, assign, unlink, widen, store_into, store, fetch_keylen, fetch,
  delete,
}
use hemp.Hash.Column.{
  find, count, count-eq-zero, over, seek-find, find-assign, count-assign, length-assign,
  assign-Named, find-unlink, count-unlink, length-unlink, unlink-Named,
}
use hemp.Hash.Valid.{entries, entries-set, view, IsValid, Updates, with_column-Updates}
use hemp.Hash.Grow.{widen-IsValid, home, over-none}

-- The hash value of a whole name.
abbrev pub hash_of : ⦃hash : HashFunction⦄ → Str → ℕ
hash_of ⦃hash⦄ name = hash.apply name (length name)

module _ {ℓ} {V : Type ℓ} ⦃hash : HashFunction⦄ where
  -- Where the walk ends, the map tells.
  seek-view :
      (t : Table V) (name : Str) (n : ℕ)
      → n ≤ length name
      → IsValid t
      → elim (seek (hash.apply name n) name n (column t (hash.apply name n))) [
        | none ↦ none
        | some s ↦ some s.value
      ]
        ≡ view t (hash.apply name n)
  unfolding view
  seek-view t name n h valid = seek-find name n h _ (valid.named _)

  abbrev pub is_none : Option V → ℕ
  is_none none = 1
  is_none (some v) = 0

  -- What a store does, and how it counts.
  record Stores (t u : Table V) (k : ℕ) (v : V) : Type ℓ where
    updates : Updates t u k (some v)
    size : u.size ≡ t.size + is_none (view t k)
    total : entries u.slots ≡ entries t.slots + is_none (view t k)

  store_into-Stores :
      (t : Table V) (name : Str) (v : V)
      → IsValid t
      → Stores t (store_into t name v (length name)) (hash_of name) v
  unfolding store_into view
  store_into-Stores t name v valid =
      let n : ℕ = length name in
      let k : ℕ = hash_of name in
      let c = column t k in
      let found = seek-view t name n (omega arith) valid in
      elim (Option-cases (seek k name n c)) [
        | inl e ↦
            let absent : find k c ≡ none = sym found ∙ rw e in
            let gone = count-eq-zero k c absent in
            rw (e, store_into)
              (record {
                updates =
                    with_column-Updates t valid k (some v) _ (t.size + 1)
                      (omega (arith, valid.counted)) (λ q. unfold count in ground (arith, gone))
                      (λ q. unfold find in refl) (refl, valid.named _);
                size = rw absent;
                total = rw absent (
                    omega (
                      arith,
                      entries-set t.slots (k % t.width)
                          (record { index = k; name = name; value = v } ∷ c) (home k valid),
                    ));
              })
        | inr (s, e) ↦
            let present : find k c ≡ some s.value = sym found ∙ rw e in
            rw (e, store_into)
              (record {
                updates =
                    with_column-Updates t valid k (some v) _ t.size
                      (omega (arith, length-assign name n (omega arith) v c, valid.counted))
                      (λ q. omega (arith, count-assign name n (omega arith) q v c))
                      (λ q. find-assign name n (omega arith) q v s.value c (valid.named _) present)
                      (assign-Named name n (omega arith) v c (valid.named _));
                size = rw present (omega arith);
                total = rw present (
                    omega (
                      arith,
                      length-assign name n (omega arith) v c,
                      entries-set t.slots (k % t.width) (assign k name n v c) (home k valid),
                    ));
              })
      ]

  -- A store under a name writes the entry of the name's hash and no other; the table stays valid,
  -- whether it grows or not, and `size` and the number of slots both rise by one exactly if the
  -- entry is new.
  pub store-Updates :
      (t : Table V) (name : Str) (v : V)
      → IsValid t
      → IsValid (store t name v)
        × ((q : ℕ) → view (store t name v) q ≡ (if q == hash_of name then some v else view t q))
        × ((store t name v).size ≡ t.size + is_none (view t (hash_of name)))
        × (entries (store t name v).slots ≡ entries t.slots + is_none (view t (hash_of name)))
  unfolding store
  store-Updates t name v valid =
      let (good, reads, size, total) = widen-IsValid t valid in
      let s = store_into-Stores (widen t) name v good in
      (
        s.updates.valid,
        (λ q. rw (s.updates.reads q, reads q)),
        rw (s.size, size, reads (hash_of name)),
        rw (s.total, total, reads (hash_of name)),
      )

  -- A fetch reads the entry of the hash of the first `n` bytes, in the nearest table that has one.
  pub fetch_keylen-view :
      (t : Table V) (parents : List (Table V)) (name : Str) (n : ℕ)
      → IsValid t
      → n ≤ length name
      → fetch_keylen (t ∷ parents) name n
        ≡ over (view t (hash.apply name n)) (fetch_keylen parents name n)
  unfolding fetch_keylen
  fetch_keylen-view t parents name n valid h =
      let found = seek-view t name n h valid in
      elim (Option-cases (seek (hash.apply name n) name n (column t (hash.apply name n)))) [
        | inl e ↦ rw (e, fetch_keylen, ← found, e)
        | inr (s, e) ↦ rw (e, fetch_keylen, ← found, e)
      ]

  pub fetch-view :
      (t : Table V) (name : Str) → IsValid t → fetch (t ∷ []) name ≡ view t (hash_of name)
  unfolding fetch
  fetch-view t name valid =
      fetch_keylen-view t [] name (length name) valid (omega arith)
      ∙ over-none (view t (hash_of name))

  -- A fetch after a store sees the new value under every name with the same hash value, and what it
  -- saw before under every other name.
  pub fetch-store :
      (t : Table V) (name other : Str) (v : V)
      → IsValid t
      → fetch (store t name v ∷ []) other
        ≡ (if hash_of other == hash_of name then some v else fetch (t ∷ []) other)
  fetch-store t name other v valid =
      let (good, reads, _, _) = store-Updates t name v valid in
      fetch-view (store t name v) other good ∙ reads (hash_of other) ∙ rw (fetch-view t other valid)

  clear_absent :
      (t : Table V) (k q : ℕ) → view t k ≡ none → view t q ≡ (if q == k then none else view t q)
  clear_absent t k q h = elim (Bool-cases (q == k)) [
    | inl e ↦ let p : q ≡ k = (==_iff q k).0 e in rw e (ap (view t) p ∙ h)
    | inr e ↦ rw e
  ]

  -- A delete hands back the value that a fetch finds and clears the entry of the name's hash alone.
  -- It leaves `size` as it is, though a slot that was found is gone.
  pub delete-Updates :
      (t : Table V) (name : Str)
      → IsValid t
      → ((delete t name).0 ≡ view t (hash_of name))
        × IsValid (delete t name).1
        × ((q : ℕ) → view (delete t name).1 q ≡ (if q == hash_of name then none else view t q))
        × ((delete t name).1.size ≡ t.size)
        × (entries (delete t name).1.slots + 1 ≡ entries t.slots + is_none (view t (hash_of name)))
  unfolding delete view
  delete-Updates t name valid =
      let n : ℕ = length name in
      let k : ℕ = hash_of name in
      let c = column t k in
      let found = seek-view t name n (omega arith) valid in
      elim (Option-cases (seek k name n c)) [
        | inl e ↦
            let absent : view t k ≡ none = sym found ∙ rw e in
            rw (e, delete) (sym absent, valid, (λ q. clear_absent t k q absent), refl, rw absent)
        | inr (s, e) ↦
            let present : view t k ≡ some s.value = sym found ∙ rw e in
            let shorter = length-unlink name n (omega arith) c s.value (valid.named _) present in
            let u =
              with_column-Updates t valid k none (unlink k name n c) t.size
                (omega (arith, valid.counted))
                (λ q. omega (arith, count-unlink name n (omega arith) q c))
                (λ q. find-unlink name n (omega arith) q c (valid.named _) (valid.placed q _).0)
                (unlink-Named name n (omega arith) c (valid.named _)) in
            rw (e, delete)
              (
                sym present,
                u.valid,
                u.reads,
                refl,
                rw present (
                    omega (
                      arith,
                      entries-set t.slots (k % t.width) (unlink k name n c) (home k valid),
                    )),
              )
      ]
