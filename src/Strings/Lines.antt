-- ===== src/Strings/Lines.antt =====
-- The lines of `hemp_string_location`.
use hemp.Base.{
  ℕ, zero, suc, ◌+◌, ◌-◌, ◌≤◌, ◌<◌, ◌≡◌, ◌⊎◌, refl, none, some, [], ◌∷◌, ◌==◌, length, arith,
  Bool-cases, inl, inr, ltb, ltb→lt,
}
use hemp.Chars.{Str}
use hemp.Strings.Scan.{next_line, location_loop}

-- The next line is behind a byte at least.
next_line-cases :
    (s : Str)
    → (next_line s ≡ none) ⊎ ((r : Str) × (next_line s ≡ some r) × (suc (length r) ≤ length s))
unfolding next_line
next_line-cases [] = inl refl
next_line-cases (c ∷ []) = ground arith
next_line-cases (c ∷ d ∷ s) = elim (Bool-cases (c == 10)) [
  | inl lf ↦ inr (d ∷ s, rw lf, omega arith)
  | inr no_lf ↦ elim (Bool-cases (c == 13)) [
    | inl cr ↦ elim (Bool-cases (d == 10)) [
      | inl lf ↦ inr (s, rw (no_lf, cr, lf), omega arith)
      | inr other ↦ inr (d ∷ s, rw (no_lf, cr, other), omega arith)
    ]
    | inr no_cr ↦ elim (next_line-cases (d ∷ s)) [
      | inl e ↦ inl (rw (no_lf, no_cr) e)
      | inr (r, e, less) ↦ inr (r, rw (no_lf, no_cr) e, omega arith)
    ]
  ]
]

-- With a round for each byte and one more the loop ends. The line that it ends on starts before the
-- marker, or is the one that it started on.
pub location_loop-line :
    (f size marker : ℕ) (scan : Str) (line extract : ℕ)
    → length scan < f
    → (l e : ℕ) × (location_loop f size marker scan line extract ≡ some (l, e))
      × ((e ≡ extract) ⊎ (e < marker))
unfolding location_loop
location_loop-line zero size marker scan line extract h = elim h [ ]
location_loop-line (suc f) size marker scan line extract h = elim (next_line-cases scan) [
  | inl e ↦ (line, extract, rw (location_loop, e), inl refl)
  | inr (r, e, less) ↦ elim (Bool-cases (ltb (size - length r) marker)) [
    | inr past ↦ (line, extract, rw (location_loop, e, past), inl refl)
    | inl before ↦
        let (l, x, found, end) =
          location_loop-line f size marker r (line + 1) (size - length r) (omega arith) in
        (
          l,
          x,
          rw (location_loop, e, before) found,
          elim end [
            | inl same ↦ inr (omega (arith, ltb→lt (size - length r) marker before))
            | inr less' ↦ inr less'
          ],
        )
  ]
]
