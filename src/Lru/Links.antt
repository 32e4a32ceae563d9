-- ===== src/Lru/Links.antt =====
-- Chains of links: what the fields of slots say of a list of them, and assignments to the fields.
use hemp.Base.{
  ℕ, ◌≡◌, ◌≢◌, refl, sym, ◌∙◌, true, false, Option, none, some, List, [], ◌∷◌, ◌++◌, ◌==◌, All,
  arith,
}
use hemp.Lru.Slots.{update, update_if}

-- The last of the slots, or `p`; the first of them, or `n`.
unfoldable pub last_or : Option ℕ → List ℕ → Option ℕ
last_or p [] = p
last_or p (a ∷ xs) = last_or (some a) xs

unfoldable pub first_or : List ℕ → Option ℕ → Option ℕ
first_or [] n = n
first_or (a ∷ xs) n = some a

-- Each slot has the one before as its field, the first has `p`.
unfoldable pub Up : (ℕ → Option ℕ) → Option ℕ → List ℕ → Type 0
Up f p [] = Unit
Up f p (a ∷ xs) = (f a ≡ p) × Up f (some a) xs

-- Each slot has the one behind as its field, the last has `n`.
unfoldable pub Down : (ℕ → Option ℕ) → List ℕ → Option ℕ → Type 0
unfolding first_or
Down g [] n = Unit
Down g (a ∷ xs) n = (g a ≡ first_or xs n) × Down g xs n

abbrev pub Without : ℕ → List ℕ → Type 0
Without a xs = All (λ b. b ≢ a) xs

unfoldable pub Distinct : List ℕ → Type 0
Distinct [] = Unit
Distinct (a ∷ xs) = Without a xs × Distinct xs

unfoldable pub Apart : Option ℕ → List ℕ → Type 0
Apart none xs = Unit
Apart (some a) xs = Without a xs

pub update_same : (f : ℕ → Option ℕ) (a : ℕ) (v : Option ℕ) → update f a v a ≡ v
unfolding update
update_same f a v = let e : (a == a) ≡ true = ground arith in rw e refl

pub update_other : (f : ℕ → Option ℕ) (a b : ℕ) (v : Option ℕ) → b ≢ a → update f a v b ≡ f b
unfolding update
update_other f a b v h = let e : (b == a) ≡ false = ground arith in rw e refl

pub Up-update :
    (f : ℕ → Option ℕ) (p v : Option ℕ) (a : ℕ) (xs : List ℕ)
    → Without a xs
    → Up f p xs
    → Up (update f a v) p xs
unfolding Up
Up-update f p v a [] w u = tt
Up-update f p v a (b ∷ xs) (ne, w) (e, u) =
    (update_other f a b v ne ∙ e, Up-update f (some b) v a xs w u)

pub Down-update :
    (g : ℕ → Option ℕ) (n v : Option ℕ) (a : ℕ) (xs : List ℕ)
    → Without a xs
    → Down g xs n
    → Down (update g a v) xs n
unfolding Down
Down-update g n v a [] w u = tt
Down-update g n v a (b ∷ xs) (ne, w) (e, u) =
    (update_other g a b v ne ∙ e, Down-update g n v a xs w u)

pub Up-update_if :
    (f : ℕ → Option ℕ) (p v q : Option ℕ) (xs : List ℕ)
    → Apart q xs
    → Up f p xs
    → Up (update_if f q v) p xs
unfolding update_if Apart
Up-update_if f p v none xs w u = u
Up-update_if f p v (some a) xs w u = Up-update f p v a xs w u

pub Down-update_if :
    (g : ℕ → Option ℕ) (n v q : Option ℕ) (xs : List ℕ)
    → Apart q xs
    → Down g xs n
    → Down (update_if g q v) xs n
unfolding update_if Apart
Down-update_if g n v none xs w u = u
Down-update_if g n v (some a) xs w u = Down-update g n v a xs w u

pub Up-split :
    (f : ℕ → Option ℕ) (p : Option ℕ) (xs ys : List ℕ)
    → Up f p (xs ++ ys)
    → Up f p xs × Up f (last_or p xs) ys
unfolding Up last_or
Up-split f p [] ys u = (tt, u)
Up-split f p (a ∷ xs) ys (e, u) = let (l, r) = Up-split f (some a) xs ys u in ((e, l), r)

pub Up-join :
    (f : ℕ → Option ℕ) (p : Option ℕ) (xs ys : List ℕ)
    → Up f p xs
    → Up f (last_or p xs) ys
    → Up f p (xs ++ ys)
unfolding Up last_or
Up-join f p [] ys l r = r
Up-join f p (a ∷ xs) ys (e, l) r = (e, Up-join f (some a) xs ys l r)

pub first_or-append :
    (xs ys : List ℕ) (n : Option ℕ) → first_or (xs ++ ys) n ≡ first_or xs (first_or ys n)
unfolding first_or
first_or-append [] ys n = refl
first_or-append (a ∷ xs) ys n = refl

pub Down-split :
    (g : ℕ → Option ℕ) (xs ys : List ℕ) (n : Option ℕ)
    → Down g (xs ++ ys) n
    → Down g xs (first_or ys n) × Down g ys n
unfolding Down
Down-split g [] ys n u = (tt, u)
Down-split g (a ∷ xs) ys n (e, u) =
    let (l, r) = Down-split g xs ys n u in ((e ∙ first_or-append xs ys n, l), r)

pub Down-join :
    (g : ℕ → Option ℕ) (xs ys : List ℕ) (n : Option ℕ)
    → Down g xs (first_or ys n)
    → Down g ys n
    → Down g (xs ++ ys) n
unfolding Down
Down-join g [] ys n l r = r
Down-join g (a ∷ xs) ys n (e, l) r = (e ∙ sym (first_or-append xs ys n), Down-join g xs ys n l r)

pub last_or-append :
    (p : Option ℕ) (xs ys : List ℕ) → last_or p (xs ++ ys) ≡ last_or (last_or p xs) ys
unfolding last_or
last_or-append p [] ys = refl
last_or-append p (a ∷ xs) ys = last_or-append (some a) xs ys

-- The last of distinct slots is none of those behind.
pub last_or-Apart :
    (p : Option ℕ) (xs ys : List ℕ) → Apart p ys → Distinct (xs ++ ys) → Apart (last_or p xs) ys
unfolding last_or Distinct Apart
last_or-Apart p [] ys h d = h
last_or-Apart p (a ∷ xs) ys h (w, d) = last_or-Apart (some a) xs ys (behind xs w) d
  where
    behind : (xs : List ℕ) → Without a (xs ++ ys) → Without a ys
    behind [] w = w
    behind (x ∷ xs) (_, w) = behind xs w

-- The first of distinct slots is none of those before.
pub first_or-Apart : (xs ys : List ℕ) → Distinct (xs ++ ys) → Apart (first_or ys none) xs
unfolding first_or Apart Distinct
first_or-Apart xs [] d = tt
first_or-Apart [] (b ∷ ys) d = tt
first_or-Apart (a ∷ xs) (b ∷ ys) (w, d) = (in_front xs w, first_or-Apart xs (b ∷ ys) d)
  where
    in_front : (xs : List ℕ) → Without a (xs ++ b ∷ ys) → a ≢ b
    in_front [] (ne, _) = λ e. ne (sym e)
    in_front (x ∷ xs) (_, w) = in_front xs w

-- An assignment to the first, and one to the last.
pub Up-first :
    (f : ℕ → Option ℕ) (p p' : Option ℕ) (ys : List ℕ)
    → Distinct ys
    → Up f p ys
    → Up (update_if f (first_or ys none) p') p' ys
unfolding Up first_or update_if Distinct
Up-first f p p' [] d u = tt
Up-first f p p' (b ∷ ys) (w, d) (e, u) = (update_same f b p', Up-update f (some b) p' b ys w u)

last_other :
    (g : ℕ → Option ℕ) (a b : ℕ) (ys : List ℕ) (v : Option ℕ)
    → Without a (b ∷ ys)
    → update_if g (last_or (some b) ys) v a ≡ g a
unfolding last_or update_if
last_other g a b [] v (ne, w) = update_other g b a v (λ e. ne (sym e))
last_other g a b (c ∷ ys) v (ne, w) = last_other g a c ys v w

pub Down-last :
    (g : ℕ → Option ℕ) (n n' : Option ℕ) (xs : List ℕ)
    → Distinct xs
    → Down g xs n
    → Down (update_if g (last_or none xs) n') xs n'
unfolding Down last_or first_or update_if Distinct
Down-last g n n' [] d u = tt
Down-last g n n' (a ∷ []) d u = (update_same g a n', tt)
Down-last g n n' (a ∷ b ∷ xs) (w, d) (e, u) =
    (last_other g a b xs n' w ∙ e, Down-last g n n' (b ∷ xs) d u)

-- A slot out of distinct ones.
pub Distinct-out :
    (xs : List ℕ) (a : ℕ) (ys : List ℕ)
    → Distinct (xs ++ a ∷ ys)
    → Without a (xs ++ ys) × Distinct (xs ++ ys)
unfolding Distinct
Distinct-out [] a ys (w, d) = (w, d)
Distinct-out (x ∷ xs) a ys (w, d) =
    let (wa, d') = Distinct-out xs a ys d in
    let (ne, wx) = without xs w in ((λ e. ne (sym e), wa), (wx, d'))
  where
    without : (xs : List ℕ) → Without x (xs ++ a ∷ ys) → (a ≢ x) × Without x (xs ++ ys)
    without [] (ne, w) = (ne, w)
    without (b ∷ xs) (ne, w) = let (na, w') = without xs w in (na, (ne, w'))

pub Without-split : (a : ℕ) (xs ys : List ℕ) → Without a (xs ++ ys) → Without a xs × Without a ys
Without-split a [] ys w = (tt, w)
Without-split a (x ∷ xs) ys (ne, w) = let (l, r) = Without-split a xs ys w in ((ne, l), r)

pub Distinct-split : (xs ys : List ℕ) → Distinct (xs ++ ys) → Distinct xs × Distinct ys
unfolding Distinct
Distinct-split [] ys d = (tt, d)
Distinct-split (x ∷ xs) ys (w, d) =
    let (l, r) = Distinct-split xs ys d in let (wl, wr) = Without-split x xs ys w in ((wl, l), r)

pub update_if_other :
    (g : ℕ → Option ℕ) (q v : Option ℕ) (a : ℕ) (ys : List ℕ)
    → Apart q (a ∷ ys)
    → update_if g q v a ≡ g a
unfolding update_if Apart
update_if_other g none v a ys w = refl
update_if_other g (some b) v a ys (ne, w) = update_other g b a v ne

pub Apart-tail : (q : Option ℕ) (a : ℕ) (ys : List ℕ) → Apart q (a ∷ ys) → Apart q ys
unfolding Apart
Apart-tail none a ys w = tt
Apart-tail (some b) a ys (ne, w) = w
