-- ===== src/Texts/Edits.antt =====
-- Insertion, replacement and truncation of a text.
use mathlib.Core.Path.{subst}
use hemp.Base.{
  ℕ, zero, suc, ◌+◌, ◌-◌, ◌%◌, ◌^◌, ◌≤◌, ◌<◌, ◌≡◌, refl, inl, inr, ap, ◌∙◌, true, false, List, [],
  ◌∷◌, ◌++◌, append-nil, length, take, drop, ltb, ◌||◌, ◌==◌, if◌then◌else◌, arith, Bool-cases,
  length-append, length-take, length-drop, take-append-drop, take_all,
}
use hemp.Values.Signed.{ℤ, pos, negsuc, signed}
use hemp.Texts.Buffer.{
  Text, capacity, append_string, insert_at, replace_string, truncate, insert_string, from_end,
}
use hemp.Texts.Laws.{Holds, Ended, Gives, padded_own, capacity-Grown, append_stringn-Gives}
use hemp.Texts.Moves.{put_inside-Gives, replaced, truncated-split}

-- The position of an offset in a text of `len` bytes: a negative one counts from the end.
unfoldable pub position : ℕ → ℤ → ℕ
position len (pos offset) = if ltb len offset then len else offset
position len (negsuc k) = len - (k + 1)

position-negsuc : (len k : ℕ) → position len (negsuc k) ≡ len - (k + 1)
unfolding position
position-negsuc len k = refl

position-behind :
    (len offset : ℕ) → (ltb len offset || (len == 0)) ≡ true → len ≤ position len (pos offset)
unfolding position
position-behind len offset h = ground arith

position-inside : (len offset : ℕ) → offset ≤ len → position len (pos offset) ≡ offset
unfolding position
position-inside len offset h = ground arith

-- An offset of 32 bits.
unfoldable pub IsOffset : ℤ → Type 0
IsOffset (pos n) = n < 2 ^ 31
IsOffset (negsuc n) = n < 2 ^ 31

IsOffset-negsuc : (k : ℕ) → IsOffset (negsuc k) → k < 2 ^ 31
unfolding IsOffset
IsOffset-negsuc k h = h

position-take : (s : List ℕ) (n : ℕ) → length s ≤ n → (take n s ≡ s) × (drop n s ≡ [])
position-take s n h = (take_all n s h, drop-nil s n h)
  where
    drop-nil : (s : List ℕ) (n : ℕ) → length s ≤ n → drop n s ≡ []
    drop-nil [] zero h = refl
    drop-nil [] (suc n) h = refl
    drop-nil (x ∷ s) zero h = absurd (omega arith)
    drop-nil (x ∷ s) (suc n) h = drop-nil s n (omega arith)

from_end-position : (len k : ℕ) → len < 2 ^ 31 → k < 2 ^ 31 → from_end len k ≡ len - (k + 1)
unfolding from_end signed
from_end-position len k hl hk = ground arith

module _ (fresh : ℕ → ℕ) where
  insert_between :
      (t : Text) (a b insert : List ℕ)
      → Holds t (a ++ b)
      → length (a ++ b) + length insert + 1 < 2 ^ 64
      → Gives (insert_at fresh t (length a) insert) (a ++ insert ++ b)
  unfolding insert_at
  insert_between t a b insert h small =
      let l = h.length_is in
      let la = length-append a b in
      let li = length-append a insert in
      let all = length-append (a ++ insert) b in
      let e : (t.length + length insert) % 2 ^ 64 ≡ length (a ++ insert ++ b) = omega arith in
      let g = capacity-Grown fresh t (a ++ b) (length (a ++ insert ++ b)) h (omega arith) in
      rw e (
        put_inside-Gives (capacity fresh t (length (a ++ insert ++ b))) a b insert
          (length (a ++ insert ++ b)) g refl)

  insert_at-Gives :
      (t : Text) (s insert : List ℕ) (offset : ℕ)
      → Holds t s
      → offset ≤ length s
      → length s + length insert + 1 < 2 ^ 64
      → Gives (insert_at fresh t offset insert) (take offset s ++ insert ++ drop offset s)
  insert_at-Gives t s insert offset h le small =
      let ab = take-append-drop offset s in
      let o : length (take offset s) ≡ offset = ground (arith, length-take offset s) in
      subst (λ k. Gives (insert_at fresh t k insert) (take offset s ++ insert ++ drop offset s)) o
        (insert_between t (take offset s) (drop offset s) insert (rw ab h) (rw ab small))

  append_string-Gives :
      (t : Text) (s append : List ℕ)
      → Holds t s
      → length s + length append + 1 < 2 ^ 64
      → Gives (append_string fresh t append) (s ++ append)
  unfolding append_string
  append_string-Gives t s append h small =
      subst (λ l. Gives (append_string fresh t append) (s ++ l)) (padded_own append)
        (append_stringn-Gives fresh t s append (length append) h small)

  inserted_behind :
      (t : Text) (s insert : List ℕ) (offset : ℕ)
      → (ltb t.length offset || (t.length == 0)) ≡ true
      → insert_string fresh t (pos offset) insert ≡ append_string fresh t insert
  unfolding insert_string
  inserted_behind t s insert offset e = rw e refl

  inserted_before :
      (t : Text) (s insert : List ℕ) (offset : ℕ)
      → (ltb t.length offset || (t.length == 0)) ≡ false
      → insert_string fresh t (pos offset) insert ≡ insert_at fresh t offset insert
  unfolding insert_string
  inserted_before t s insert offset e = rw e refl

  inserted_from_end :
      (t : Text) (insert : List ℕ) (k : ℕ)
      → insert_string fresh t (negsuc k) insert ≡ insert_at fresh t (from_end t.length k) insert
  unfolding insert_string
  inserted_from_end t insert k = refl

  append_behind :
      (t : Text) (s insert : List ℕ) (p : ℕ)
      → Holds t s
      → length s + length insert + 1 < 2 ^ 64
      → length s ≤ p
      → Gives (append_string fresh t insert) (take p s ++ insert ++ drop p s)
  append_behind t s insert p h small le =
      let (a, b) = position-take s p le in
      rw (a, b, append-nil (s ++ insert)) (append_string-Gives t s insert h small)

  -- An insertion at an offset of 32 bits into a text below 2 ^ 31 bytes puts the string in front of the
  -- byte at the position of the offset, or behind the text where that is no position in it; nothing is
  -- written outside of the allocated bytes, and a NUL follows.
  pub insert_string-Gives :
      (t : Text) (s insert : List ℕ) (offset : ℤ)
      → Holds t s
      → IsOffset offset
      → length s < 2 ^ 31
      → length s + length insert + 1 < 2 ^ 64
      → Gives
          (insert_string fresh t offset insert)
          (take (position (length s) offset) s ++ insert ++ drop (position (length s) offset) s)
  insert_string-Gives t s insert (negsuc k) h o short small =
      let l = h.length_is in
      let e =
        from_end-position t.length k (omega arith) (IsOffset-negsuc k o)
        ∙ ap (λ n. n - (k + 1)) l in
      rw (inserted_from_end t insert k, e, position-negsuc (length s) k)
        (insert_at-Gives t s insert (length s - (k + 1)) h (omega arith) small)
  insert_string-Gives t s insert (pos offset) h o short small =
      let l = h.length_is in
      elim (Bool-cases (ltb t.length offset || (t.length == 0))) [
        | inl e ↦ rw (inserted_behind t s insert offset e) (
            append_behind t s insert (position (length s) (pos offset)) h small
              (position-behind (length s) offset (ground arith)))
        | inr e ↦
            rw
              (
                inserted_before t s insert offset e,
                position-inside (length s) offset (ground arith),
              )
              (insert_at-Gives t s insert offset h (ground arith) small)
      ]

  -- A replacement leaves the bytes of the other string, whatever the text had.
  pub replace_string-Gives :
      (t : Text) (s r : List ℕ)
      → Holds t s
      → length r + 1 < 2 ^ 64
      → Gives (replace_string fresh t r) r
  unfolding replace_string
  replace_string-Gives t s r h small =
      replaced (capacity fresh t (length r)) s r (length r)
        (capacity-Grown fresh t s (length r) h small) refl

-- Truncation of a text that ends in a NUL leaves the first bytes, all of them where there are no more,
-- and a NUL behind them, inside of the allocated bytes.
pub truncate-Gives : (t : Text) (s : List ℕ) (n : ℕ) → Ended t s → Gives (truncate t n) (take n s)
unfolding truncate Gives
truncate-Gives t s n h =
    let l = h.holds.length_is in
    let all = take-append-drop n s in
    elim (Bool-cases (ltb n t.length)) [
      | inl e ↦ rw e (
          truncated-split t (take n s) (drop n s) n (rw all h.holds)
            (ground (arith, length-take n s)) (ground (arith, length-drop n s)))
      | inr e ↦ rw (e, take_all n s (ground arith)) (t, refl, h)
    ]
