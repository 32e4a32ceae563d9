-- ===== src/Hash/Match.antt =====
-- `hemp_hash_key_match` of include/hemp/type/hash.h.
use hemp.Base.{
  ℕ, zero, suc, ◌-◌, ◌^◌, ◌≤◌, ◌≡◌, ◌↔◌, Bool, true, false, [], ◌∷◌, arith, ◌==◌, if◌then◌else◌,
  length, take,
}
use hemp.Chars.{Str}

-- `length || *key1 ? HEMP_FALSE : HEMP_TRUE`, where the loop has stopped.
abbrev key_done : Str → ℕ → Bool
key_done [] n = n == 0
key_done (_ ∷ _) n = false

-- The loop. The byte behind the last of `key2` is its NUL, which no byte of `key1` equals. When the
-- length is used up and the bytes still agree, `length--` leaves the largest `HempSize` behind.
unfoldable pub key_match : Str → Str → ℕ → Bool
key_match [] key2 n = key_done [] n
key_match (c ∷ key1) [] n = key_done (c ∷ key1) n
key_match (c ∷ key1) (d ∷ key2) zero =
    if c == d then key_done (c ∷ key1) (2 ^ 64 - 1) else key_done (c ∷ key1) 0
key_match (c ∷ key1) (d ∷ key2) (suc n) =
    let rest = key_match key1 key2 n in if c == d then rest else key_done (c ∷ key1) (suc n)

-- Where the search key has `n` bytes, it matches exactly if the slot's key is these bytes: the
-- search key may be longer, the slot key may not.
pub key_match_iff :
    (key1 key2 : Str) (n : ℕ)
    → n ≤ length key2
    → (key_match key1 key2 n ≡ true) ↔ (key1 ≡ take n key2)
unfolding key_match
key_match_iff [] key2 zero h = ground arith
key_match_iff [] [] (suc n) h = absurd (omega arith)
key_match_iff [] (d ∷ key2) (suc n) h = ground arith
key_match_iff (c ∷ key1) [] zero h = ground arith
key_match_iff (c ∷ key1) [] (suc n) h = absurd (omega arith)
key_match_iff (c ∷ key1) (d ∷ key2) zero h = ground arith
key_match_iff (c ∷ key1) (d ∷ key2) (suc n) h =
    let ih = key_match_iff key1 key2 n (omega arith) in ground (arith, ih.0, ih.1)
