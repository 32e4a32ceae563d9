-- ===== src/ListType/Pushes.antt =====
-- A new list of library/type/list.c that the items are pushed on, one behind the other, as the functions that
-- split a string do.
use hemp.Base.{
  ◌+◌, ◌≤◌, ◌≡◌, ◌⊎◌, inl, inr, Option-cases, refl, ap, Option, none, some, List, [], ◌∷◌, length,
  length-append, arith, ◌>>=◌,
}
use hemp.ListType.Items.{HempList, Values, init, push}
use hemp.ListType.Laws.{IsValid, contents, length-contents, push-Yields}

module _ {ℓ} {V : Type ℓ} where
  -- NULL is the value of every cell that no item was pushed to.
  instance abbrev pointers : Values (Option V)
  pointers = record { junk = none; missing = none; nothing = none }

  unfoldable pub push_all : HempList (Option V) → List V → Option (HempList (Option V))
  unfolding push
  push_all l [] = some l
  push_all l (x ∷ xs) = push (some x) l >>= λ l'. push_all l' xs

  -- The items, where the pushes onto a new list end.
  unfoldable pub pushed : List V → Option (List V)
  unfolding push_all init
  pushed xs = push_all init xs >>= λ l. some xs

  init-IsValid : IsValid (init {V = Option V})
  unfolding init
  init-IsValid = record { cells = refl; used = omega arith; size = inl refl }

  push_all-ends :
      (xs : List V) (l : HempList (Option V))
      → IsValid l
      → l.length + length xs ≤ 32768
      → (l' : HempList (Option V)) × (push_all l xs ≡ some l')
  unfolding push_all
  push_all-ends [] l valid small = (l, refl)
  push_all-ends (x ∷ xs) l valid small =
      let (l', found, valid', new) = push-Yields (some x) l valid (omega (arith, small)) in
      let size : l'.length ≡ l.length + 1 = omega (
        arith,
        ap length new,
        length-contents l valid,
        length-contents l' valid',
        length-append (contents l) (some x ∷ []),
      ) in
      let (l'', e) = push_all-ends xs l' valid' (omega (arith, size, small)) in (l'', rw found e)

  -- Up to 2 ^ 15 items the pushes end.
  pub pushed-some : (xs : List V) → length xs ≤ 32768 → pushed xs ≡ some xs
  unfolding pushed init
  pushed-some xs small =
      let (l, e) = push_all-ends xs init init-IsValid (omega (arith, small)) in rw e

  -- The pushes end with the items, or do not end.
  pub pushed-cases : (xs : List V) → (pushed xs ≡ none) ⊎ (pushed xs ≡ some xs)
  unfolding pushed
  pushed-cases xs = elim (Option-cases (push_all init xs)) [
    | inl e ↦ inl (rw (pushed, e))
    | inr (l, e) ↦ inr (rw (pushed, e))
  ]
