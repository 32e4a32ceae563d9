-- ===== src/Strings/Words.antt =====
-- The words of `hemp_string_nwords` without a limit.
use hemp.Base.{
  ℕ, zero, suc, ◌+◌, ◌≤◌, ◌<◌, ◌≡◌, refl, ap, sym, ◌∙◌, ◌⊎◌, Bool, true, false, not, Option, none,
  some, List, [], ◌∷◌, ◌++◌, length, All, arith, Bool-cases, inl, inr, if◌then◌else◌, append-nil,
}
use mathlib.Core.List.{flatten}
use hemp.Chars.{Str, is_space, span, span-append, length-span_lt}
use hemp.Strings.Scan.{next_nonspace, word_round, word_loop}

-- The string without its whitespace.
unfoldable pub solid : Str → Str
solid [] = []
solid (c ∷ s) = if is_space c then solid s else c ∷ solid s

-- A word: it is not empty and has no whitespace in it.
abbrev pub IsWord : Str → Type 0
IsWord w = (1 ≤ length w) × All (λ c. is_space c ≡ false) w

solid-space : (s : Str) → solid s ≡ solid (span is_space s).1
unfolding solid span
solid-space [] = refl
solid-space (c ∷ s) = elim (Bool-cases (is_space c)) [
  | inl e ↦ rw e (solid-space s)
  | inr e ↦ rw (e, e)
]

-- The characters up to the next whitespace.
solid-word :
    (s : Str)
    → (let (word, rest) = span (λ c. not (is_space c)) s in
        (solid s ≡ word ++ solid rest) × All (λ c. is_space c ≡ false) word)
unfolding solid span
solid-word [] = (refl, tt)
solid-word (c ∷ s) = elim (Bool-cases (is_space c)) [
  | inl e ↦ rw (e, e) (refl, tt)
  | inr e ↦ let ih = solid-word s in rw e (ap (λ t. c ∷ t) ih.0, (e, ih.1))
]

-- What a walk over whitespace comes to: the end, or a word.
next_nonspace-cases :
    (s : Str)
    → ((next_nonspace s ≡ none) × (solid s ≡ []))
      ⊎ ((c : ℕ) × (r : Str) × (next_nonspace s ≡ some (c ∷ r))
          × (is_space c ≡ false)
          × (solid s ≡ solid (c ∷ r))
          × (suc (length r) ≤ length s))
unfolding next_nonspace span solid
next_nonspace-cases [] = inl (refl, refl)
next_nonspace-cases (c ∷ s) = elim (Bool-cases (is_space c)) [
  | inr e ↦ inr (c, s, rw e, e, refl, omega arith)
  | inl e ↦ elim (next_nonspace-cases s) [
    | inl (k, empty) ↦ inl (rw e k, rw e empty)
    | inr (d, r, k, letter, same, less) ↦ inr (d, r, rw e k, letter, rw e same, omega arith)
  ]
]

span-head : (p : ℕ → Bool) (c : ℕ) (r : Str) → p c ≡ true → 1 ≤ length (span p (c ∷ r)).0
unfolding span
span-head p c r h = rw h (omega arith)

-- A round at a word, where the rounds that follow give the words of the rest.
word_round-words :
    (loop : Str → ℕ → Option (List Str)) (from : Str) (size : ℕ) (w : Str × Str)
    → from ≡ w.0 ++ w.1
    → IsWord w.0
    → solid from ≡ w.0 ++ solid w.1
    → ((d : ℕ) (rest : Str)
        → w.1 ≡ d ∷ rest
        → (ws : List Str) × (loop (d ∷ rest) size ≡ some ws)
          × (flatten ws ≡ solid (d ∷ rest))
          × All IsWord ws)
    → (ws : List Str) × (word_round loop from size 0 w ≡ some ws)
      × (flatten ws ≡ solid from)
      × All IsWord ws
unfolding flatten solid
word_round-words loop from size (word, []) e word-IsWord same more =
    let whole : from ≡ word = e ∙ append-nil word in
    (from ∷ [], refl, ap (λ t. t ++ []) whole ∙ sym same, (rw whole word-IsWord, tt))
word_round-words loop from size (word, d ∷ rest) e word-IsWord same more =
    let (ws, found, eq, all) = more d rest refl in
    (word ∷ ws, rw found, ap (λ t. word ++ t) eq ∙ sym same, (word-IsWord, all))

-- Without a limit the loop ends; each word has no whitespace in it, and the words one behind the
-- other are the string without its whitespace.
pub word_loop-words :
    (f : ℕ) (s : Str) (size : ℕ)
    → length s < f
    → (ws : List Str) × (word_loop f 0 s size ≡ some ws) × (flatten ws ≡ solid s) × All IsWord ws
unfolding word_loop flatten
word_loop-words zero s size h = elim h [ ]
word_loop-words (suc f) s size h = elim (next_nonspace-cases s) [
  | inl (k, empty) ↦ ([], rw (word_loop, k), sym empty, tt)
  | inr (c, r, k, letter, same, less) ↦
      let p : ℕ → Bool = λ d. not (is_space d) in
      let yes : p c ≡ true = rw letter in
      let (same', word) = solid-word (c ∷ r) in
      let rest_bound = length-span_lt p c r yes in
      let (ws, found, eq, all) =
        word_round-words (word_loop f 0) (c ∷ r) (size + 1) (span p (c ∷ r))
          (sym (span-append p (c ∷ r))) (span-head p c r yes, word) same'
          (λ d rest e.
            word_loop-words f (d ∷ rest) (size + 1)
              (omega (arith, ap (λ t. length t) e, rest_bound))) in
      (ws, rw (word_loop, k) found, eq ∙ sym same, all)
]
