-- ===== src/Hash/Jenkins.antt =====
-- The hash functions at the end of library/type/hash.c. `HempU32` and `unsigned int` are 32 bits
-- wide, `HempSize` is 64, and a plain `char` is signed.
use hemp.Base.{
  ℕ, zero, suc, ◌+◌, ◌-◌, ◌*◌, ◌/◌, ◌%◌, ◌^◌, ◌≡◌, ap, ◌∙◌, arith, bit_xor, ltb, leb, if◌then◌else◌,
  Bool-cases, inl, inr, get_or, take, drop, get_or-take, drop-take, leb→le,
}
use hemp.Chars.{Str}

abbrev u32 : ℕ
u32 = 2 ^ 32

-- A `char` converted to 32 bits: the sign is extended.
abbrev char_bits : ℕ → ℕ
char_bits b = if ltb b 128 then b else u32 - 256 + b

-- `hemp_keychar`: the byte at `i`, shifted to the left by `s`.
keychar : Str → ℕ → ℕ → ℕ
keychar k i s = char_bits (get_or k i 0) * 2 ^ s % u32

-- `hemp_keychars`, the sum of four bytes.
keychars : Str → ℕ → ℕ → ℕ → ℕ → ℕ
unfolding keychar
keychars k a b c d = (keychar k a 0 + keychar k b 8 + keychar k c 16 + keychar k d 24) % u32

pub record Mix : Type 0 where
  pub a : ℕ
  pub b : ℕ
  pub c : ℕ

-- `x = x - y; x = x - z;`, then the exclusive or with `z >> s` or `z << s`.
sub_two : ℕ → ℕ → ℕ → ℕ
sub_two x y z = (x + u32 - y + u32 - z) % u32

xor_right : ℕ → ℕ → ℕ → ℕ
xor_right x z s = bit_xor x (z / 2 ^ s)

xor_left : ℕ → ℕ → ℕ → ℕ
xor_left x z s = bit_xor x (z * 2 ^ s % u32)

-- `hemp_hash_jenkins32_mix`: three rounds of three lines.
mix : Mix → Mix
unfolding sub_two xor_right xor_left
mix m =
    let a : ℕ = xor_right (sub_two m.a m.b m.c) m.c 13 in
    let b : ℕ = xor_left (sub_two m.b m.c a) a 8 in
    let c : ℕ = xor_right (sub_two m.c a b) b 13 in
    let a' : ℕ = xor_right (sub_two a b c) c 12 in
    let b' : ℕ = xor_left (sub_two b c a') a' 16 in
    let c' : ℕ = xor_right (sub_two c a' b') b' 5 in
    let a'' : ℕ = xor_right (sub_two a' b' c') c' 3 in
    let b'' : ℕ = xor_left (sub_two b' c' a'') a'' 10 in
    let c'' : ℕ = xor_right (sub_two c' a'' b'') b'' 15 in record { a = a''; b = b''; c = c'' }

-- The body of the loop over twelve bytes.
absorb : Str → Mix → Mix
unfolding keychars mix
absorb k m = mix (record {
  a = (m.a + keychars k 0 1 2 3) % u32;
  b = (m.b + keychars k 4 5 6 7) % u32;
  c = (m.c + keychars k 8 9 10 11) % u32;
})

-- One case of the `switch`, whose cases fall through: byte `i` is added if it is there.
case_of : Str → ℕ → ℕ → ℕ → ℕ → ℕ
unfolding keychar
case_of k remain i s x = if ltb i remain then (x + keychar k i s) % u32 else x

-- What follows the loop; `c` has taken the length in.
last_bytes : Str → ℕ → Mix → Mix
unfolding case_of
last_bytes k remain m = record {
  a =
      case_of k remain 0 0
        (case_of k remain 1 8 (case_of k remain 2 16 (case_of k remain 3 24 m.a)));
  b =
      case_of k remain 4 0
        (case_of k remain 5 8 (case_of k remain 6 16 (case_of k remain 7 24 m.b)));
  c = case_of k remain 8 8 (case_of k remain 9 16 (case_of k remain 10 24 m.c));
}

-- The rest of the function once the loop has stopped.
finish : Str → ℕ → ℕ → Mix → ℕ
unfolding last_bytes mix
finish k size remain m = (mix (last_bytes k remain (record m { c = (m.c + size) % u32 }))).c

-- `while (remain >= 12)`, with a round of fuel for each byte.
rounds : ℕ → Str → ℕ → ℕ → Mix → ℕ
rounds zero k size remain m = finish k size remain m
rounds (suc f) k size remain m =
    let rest : ℕ = rounds f (drop 12 k) size (remain - 12) (absorb k m) in
    if leb 12 remain then rest else finish k size remain m

unfoldable pub jenkins32 : Str → ℕ → ℕ
unfolding rounds absorb finish
jenkins32 k size = rounds size k size size (record { a = 0x9e3779b9; b = 0x9e3779b9; c = 42 })

case_of-take :
    (k : Str) (remain i s x : ℕ) → case_of (take remain k) remain i s x ≡ case_of k remain i s x
unfolding case_of keychar
case_of-take k remain i s x = elim (Bool-cases (ltb i remain)) [
  | inl t ↦ rw (t, get_or-take remain i k 0 (ground arith))
  | inr t ↦ rw t
]

finish-take :
    (k : Str) (size remain : ℕ) (m : Mix)
    → finish (take remain k) size remain m ≡ finish k size remain m
unfolding finish last_bytes
finish-take k size remain m = simp case_of-take

absorb-take : (k : Str) (n : ℕ) (m : Mix) → absorb (take (12 + n) k) m ≡ absorb k m
unfolding absorb keychars keychar
absorb-take k n m = rw (
  get_or-take (12 + n) 0 k 0 (omega arith),
  get_or-take (12 + n) 1 k 0 (omega arith),
  get_or-take (12 + n) 2 k 0 (omega arith),
  get_or-take (12 + n) 3 k 0 (omega arith),
  get_or-take (12 + n) 4 k 0 (omega arith),
  get_or-take (12 + n) 5 k 0 (omega arith),
  get_or-take (12 + n) 6 k 0 (omega arith),
  get_or-take (12 + n) 7 k 0 (omega arith),
  get_or-take (12 + n) 8 k 0 (omega arith),
  get_or-take (12 + n) 9 k 0 (omega arith),
  get_or-take (12 + n) 10 k 0 (omega arith),
  get_or-take (12 + n) 11 k 0 (omega arith),
)

drop-prefix :
    (k : Str) (remain : ℕ)
    → remain ≡ 12 + (remain - 12)
    → drop 12 (take remain k) ≡ take (remain - 12) (drop 12 k)
drop-prefix k remain e = ap (λ n. drop 12 (take n k)) e ∙ drop-take 12 (remain - 12) k

absorb-prefix :
    (k : Str) (remain : ℕ) (m : Mix)
    → remain ≡ 12 + (remain - 12)
    → absorb (take remain k) m ≡ absorb k m
absorb-prefix k remain m e = ap (λ n. absorb (take n k) m) e ∙ absorb-take k (remain - 12) m

rounds-take :
    (f : ℕ) (k : Str) (size remain : ℕ) (m : Mix)
    → rounds f (take remain k) size remain m ≡ rounds f k size remain m
unfolding rounds
rounds-take zero k size remain m = finish-take k size remain m
rounds-take (suc f) k size remain m = elim (Bool-cases (leb 12 remain)) [
  | inr t ↦ rw t (finish-take k size remain m)
  | inl t ↦
      let e : remain ≡ 12 + (remain - 12) = omega (arith, leb→le 12 remain t) in
      rw t (
        rw (drop-prefix k remain e, absorb-prefix k remain m e)
          (rounds-take f (drop 12 k) size (remain - 12) (absorb k m)))
]

-- The Jenkins hash of a key of length `n` depends on its first `n` bytes alone.
pub jenkins32-take : (k : Str) (n : ℕ) → jenkins32 (take n k) n ≡ jenkins32 k n
unfolding jenkins32
jenkins32-take k n = rounds-take n k n n (record { a = 0x9e3779b9; b = 0x9e3779b9; c = 42 })
