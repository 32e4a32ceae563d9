-- ===== src/Chars.antt =====
-- C strings as the lists of their bytes before the NUL, and what the sources use of <ctype.h> (in
-- the C locale) and <string.h>.
use Prim.Native.Char.{code}
use Prim.Native.String.{String}
use hemp.Base.{
  ℕ, ◌+◌, ◌<◌, ◌≤◌, ◌≡◌, refl, ◌↔◌, Bool, true, false, ◌&&◌, ◌||◌, Option, none, some, List, [],
  ◌∷◌, ◌++◌, arith, Option-cases, inl, inr, leb, ◌==◌, if◌then◌else◌, length, All,
}

abbrev pub Str : Type 0
Str = List ℕ

-- The bytes of a literal
abbrev pub codes : String → Str
codes String.[] = []
codes (String.◌∷◌ c s) = code c ∷ codes s

unfoldable pub is_digit : ℕ → Bool
is_digit c = leb b'0' c && leb c b'9'

unfoldable pub is_alpha : ℕ → Bool
is_alpha c = (leb b'a' c && leb c b'z') || (leb b'A' c && leb c b'Z')

unfoldable pub is_alnum : ℕ → Bool
unfolding is_alpha is_digit
is_alnum c = is_alpha c || is_digit c

unfoldable pub is_space : ℕ → Bool
is_space c = c == 32 || (leb 9 c && leb c 13)

-- `while (*s && p(*s)) s++`: what is passed over, and what is left.
unfoldable pub span : (ℕ → Bool) → Str → Str × Str
span p [] = ([], [])
span p (c ∷ s) = let (a, r) = span p s in if p c then (c ∷ a, r) else ([], c ∷ s)

pub span-append : (p : ℕ → Bool) (s : Str) → (span p s).0 ++ (span p s).1 ≡ s
unfolding span
span-append p [] = refl
span-append p (c ∷ s) = ground (arith, span-append p s)

-- A walk stops at the first character that fails the test.
pub span-stop :
    (p : ℕ → Bool) (a : Str) (c : ℕ) (r : Str)
    → All (λ d. p d ≡ true) a
    → p c ≡ false
    → span p (a ++ c ∷ r) ≡ (a, c ∷ r)
unfolding span
span-stop p [] c r h f = rw f
span-stop p (d ∷ a) c r h f = rw (h.0, span-stop p a c r h.1 f)

pub span-All : (p : ℕ → Bool) (a : Str) → All (λ d. p d ≡ true) a → span p a ≡ (a, [])
unfolding span
span-All p [] h = refl
span-All p (d ∷ a) h = rw (h.0, span-All p a h.1)

-- What is left is shorter by what is passed over.
pub length-span : (p : ℕ → Bool) (s : Str) → length (span p s).0 + length (span p s).1 ≡ length s
unfolding span
length-span p [] = omega arith
length-span p (c ∷ s) = ground (arith, length-span p s)

pub length-span_lt :
    (p : ℕ → Bool) (c : ℕ) (s : Str) → p c ≡ true → length (span p (c ∷ s)).1 ≤ length s
unfolding span
length-span_lt p c s h = rw h (omega (arith, length-span p s))

-- `*s == c`, and the string behind it.
unfoldable pub after : ℕ → Str → Option Str
after c [] = none
after c (d ∷ s) = if d == c then some s else none

pub after-cons : (c : ℕ) (s : Str) {r : Str} → after c s ≡ some r → s ≡ c ∷ r
unfolding after
after-cons c [] h = ground arith
after-cons c (d ∷ s) h = ground arith

-- `strncmp (s, p, strlen (p)) == 0`, and the string behind the prefix.
unfoldable pub after_all : Str → Str → Option Str
unfolding after
after_all [] s = some s
after_all (c ∷ p) [] = none
after_all (c ∷ p) (d ∷ s) = let rest = after_all p s in if d == c then rest else none

pub after_all-append : (p s : Str) {r : Str} → after_all p s ≡ some r → s ≡ p ++ r
unfolding after_all
after_all-append [] s h = ground arith
after_all-append (c ∷ p) [] h = ground arith
after_all-append (c ∷ p) (d ∷ s) {r} h = ground (arith, after_all-append p s {r = r})

-- `strcmp (s, t) == 0`
unfoldable pub str_eq : Str → Str → Bool
str_eq [] [] = true
str_eq [] (d ∷ t) = false
str_eq (c ∷ s) [] = false
str_eq (c ∷ s) (d ∷ t) = let rest = str_eq s t in if c == d then rest else false

pub str_eq_iff : (s t : Str) → (str_eq s t ≡ true) ↔ (s ≡ t)
unfolding str_eq
str_eq_iff [] [] = ground arith
str_eq_iff [] (d ∷ t) = ground arith
str_eq_iff (c ∷ s) [] = ground arith
str_eq_iff (c ∷ s) (d ∷ t) = let ih = str_eq_iff s t in ground (arith, ih.0, ih.1)

-- `strrchr (s, '/')`, as an offset.
unfoldable pub last_slash : Str → Option ℕ
last_slash [] = none
last_slash (c ∷ s) = elim (last_slash s) [
  | some i ↦ some (i + 1)
  | none ↦ if c == b'/' then some 0 else none
]

pub last_slash-lt : (s : Str) {i : ℕ} → last_slash s ≡ some i → i < length s
unfolding last_slash
last_slash-lt [] h = ground arith
last_slash-lt (c ∷ s) {i} h = elim (Option-cases (last_slash s)) [
  | inl e ↦ ground arith
  | inr (j, e) ↦ let ih : j < length s = last_slash-lt s e in ground arith
]
