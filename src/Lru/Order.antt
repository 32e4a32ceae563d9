-- ===== src/Lru/Order.antt =====
-- The list of the slots in use, from the freshest to the stalest, and what the operations do to it.
use hemp.Base.{
  ℕ, ◌≤◌, ◌≡◌, refl, sym, ap, ◌∙◌, true, false, Option, none, some, List, [], ◌∷◌, ◌++◌, append-nil,
  ◌==◌, ◌&&◌, not, leb, arith,
}
use hemp.Lru.Slots.{
  Links, update_if, or_else, kept_if, is_slot, freshen_slot, bypass, reuse_slot, unused_slot, evict,
  use_slot,
}
use hemp.Lru.Links.{
  last_or, first_or, Up, Down, Without, Distinct, Apart, update_same, Up-update, Down-update,
  Up-update_if, Down-update_if, Up-split, Up-join, Down-split, Down-join, last_or-append,
  last_or-Apart, first_or-Apart, Up-first, Down-last, Distinct-out, Distinct-split, update_if_other,
  Apart-tail,
}

-- The slots of the list are linked both ways, and the ends are those of the cache.
pub record Linked (lru : Links) (xs : List ℕ) : Type 0 where
  pub distinct : Distinct xs
  pub ups : Up lru.fresher none xs
  pub downs : Down lru.staler xs none
  pub freshest : lru.fresh ≡ first_or xs none
  pub stalest : lru.stale ≡ last_or none xs

none-Apart : (ys : List ℕ) → Apart none ys
unfolding Apart
none-Apart ys = tt

kept-first :
    (xs ys : List ℕ) (a : ℕ)
    → kept_if (last_or none xs) (first_or (xs ++ a ∷ ys) none) (first_or ys none)
      ≡ first_or (xs ++ ys) none
unfolding kept_if first_or last_or
kept-first [] ys a = refl
kept-first (x ∷ xs) ys a = some_last x xs (some x) (first_or ys none)
  where
    some_last : (x : ℕ) (xs : List ℕ) (q r : Option ℕ) → kept_if (last_or (some x) xs) q r ≡ q
    some_last x [] q r = refl
    some_last x (y ∷ xs) q r = some_last y xs q r

kept-last :
    (xs ys : List ℕ) (a : ℕ)
    → kept_if (first_or ys none) (last_or none (xs ++ a ∷ ys)) (last_or none xs)
      ≡ last_or none (xs ++ ys)
unfolding kept_if first_or last_or
kept-last xs [] a = ap (λ l. last_or none l) (sym (append-nil xs))
kept-last xs (y ∷ ys) a =
    last_or-append none xs (a ∷ y ∷ ys) ∙ sym (last_or-append none xs (y ∷ ys))

-- What the fields of a slot in the list are.
fields :
    (lru : Links) (xs : List ℕ) (a : ℕ) (ys : List ℕ)
    → Linked lru (xs ++ a ∷ ys)
    → (lru.fresher a ≡ last_or none xs) × (lru.staler a ≡ first_or ys none)
unfolding Up Down
fields lru xs a ys h =
    let (_, (e, _)) = Up-split lru.fresher none xs (a ∷ ys) h.ups in
    let (_, (e', _)) = Down-split lru.staler xs (a ∷ ys) none h.downs in (e, e')

-- The list that the links make where a slot is bypassed, of its two fields `p` and `n`.
bypassed :
    (lru : Links) (xs : List ℕ) (a : ℕ) (ys : List ℕ) (p n : Option ℕ)
    → p ≡ last_or none xs
    → n ≡ first_or ys none
    → Linked lru (xs ++ a ∷ ys)
    → Linked
        (record lru {
          staler = update_if lru.staler p n;
          fresh = kept_if p lru.fresh n;
          fresher = update_if lru.fresher n p;
          stale = kept_if n lru.stale p;
        })
        (xs ++ ys)
unfolding Up Down first_or
bypassed lru xs a ys p n ep en h =
    let (wa, d) = Distinct-out xs a ys h.distinct in
    let (dx, dy) = Distinct-split xs ys d in
    let (ux, (_, uy)) = Up-split lru.fresher none xs (a ∷ ys) h.ups in
    let (lx, (_, ly)) = Down-split lru.staler xs (a ∷ ys) none h.downs in
    let apart =
      Apart-tail (last_or none xs) a ys
        (last_or-Apart none xs (a ∷ ys) (none-Apart (a ∷ ys)) h.distinct) in
    rw (ep, en)
      (record {
        distinct = d;
        ups =
            Up-join (update_if lru.fresher (first_or ys none) (last_or none xs)) none xs ys
              (Up-update_if lru.fresher none (last_or none xs) (first_or ys none) xs
                (first_or-Apart xs ys d) ux)
              (Up-first lru.fresher (some a) (last_or none xs) ys dy uy);
        downs =
            Down-join (update_if lru.staler (last_or none xs) (first_or ys none)) xs ys none
              (Down-last lru.staler (some a) (first_or ys none) xs dx lx)
              (Down-update_if lru.staler none (first_or ys none) (last_or none xs) ys apart ly);
        freshest = rw h.freshest (kept-first xs ys a);
        stalest = rw h.stalest (kept-last xs ys a);
      })

pub bypass-Linked :
    (lru : Links) (xs : List ℕ) (a : ℕ) (ys : List ℕ)
    → Linked lru (xs ++ a ∷ ys)
    → Linked (bypass lru a) (xs ++ ys)
unfolding bypass
bypass-Linked lru xs a ys h =
    let (ep, en) = fields lru xs a ys h in
    let apart = last_or-Apart none xs (a ∷ ys) (none-Apart (a ∷ ys)) h.distinct in
    let same : update_if lru.staler (lru.fresher a) (lru.staler a) a ≡ lru.staler a =
      ap (λ q. update_if lru.staler q (lru.staler a) a) ep
      ∙ update_if_other lru.staler (last_or none xs) (lru.staler a) a ys apart in
    rw same (bypassed lru xs a ys (lru.fresher a) (lru.staler a) ep en h)

some_stays :
    (x : ℕ) (xs : List ℕ) (q : Option ℕ) → or_else (last_or (some x) xs) q ≡ last_or (some x) xs
unfolding or_else last_or
some_stays x [] q = refl
some_stays x (y ∷ xs) q = some_stays y xs q

or_else-last : (a : ℕ) (xs : List ℕ) → or_else (last_or none xs) (some a) ≡ last_or (some a) xs
unfolding last_or or_else
or_else-last a [] = refl
or_else-last a (x ∷ xs) = some_stays x xs (some a)

-- A slot that is not in the list becomes its freshest.
pub freshen_slot-Linked :
    (lru : Links) (a : ℕ) (xs : List ℕ)
    → Linked lru xs
    → Without a xs
    → Linked (freshen_slot lru a) (a ∷ xs)
unfolding freshen_slot Distinct Up Down first_or last_or
freshen_slot-Linked lru a xs h w =
    let e = h.freshest in
    record {
      distinct = (w, h.distinct);
      ups = (
        update_same (update_if lru.fresher lru.fresh (some a)) a none,
        Up-update (update_if lru.fresher lru.fresh (some a)) (some a) none a xs w
            (rw e (Up-first lru.fresher none (some a) xs h.distinct h.ups)),
      );
      downs = (
        update_same lru.staler a lru.fresh ∙ e,
        Down-update lru.staler none lru.fresh a xs w h.downs,
      );
      freshest = refl;
      stalest = rw h.stalest (or_else-last a xs);
    }

not_freshest : (x a : ℕ) (xs ys : List ℕ) → Distinct (x ∷ (xs ++ a ∷ ys)) → (x == a) ≡ false
unfolding Distinct
not_freshest x a [] ys ((ne, w), d) = ground arith
not_freshest x a (y ∷ xs) ys ((ne, w), (w', d)) = not_freshest x a xs ys (w, d)

freshest_stays : (lru : Links) (a : ℕ) → lru.fresh ≡ some a → reuse_slot lru a ≡ lru
unfolding reuse_slot is_slot
freshest_stays lru a e = let t : (a == a) ≡ true = ground arith in rw (e, t) refl

other_moves :
    (lru : Links) (x a : ℕ)
    → lru.fresh ≡ some x
    → (x == a) ≡ false
    → reuse_slot lru a ≡ freshen_slot (bypass lru a) a
unfolding reuse_slot is_slot
other_moves lru x a e f = rw (e, f) refl

-- A use of a slot of the list moves it to the front, and leaves the others in their order: the links
-- both ways and the two ends are those of the new list, whose slots are distinct.
pub reuse_slot-Linked :
    (lru : Links) (xs : List ℕ) (a : ℕ) (ys : List ℕ)
    → Linked lru (xs ++ a ∷ ys)
    → Linked (reuse_slot lru a) (a ∷ (xs ++ ys))
unfolding first_or
reuse_slot-Linked lru [] a ys h = rw (freshest_stays lru a h.freshest) h
reuse_slot-Linked lru (x ∷ xs) a ys h =
    let (wa, d) = Distinct-out (x ∷ xs) a ys h.distinct in
    rw (other_moves lru x a h.freshest (not_freshest x a xs ys h.distinct))
      (freshen_slot-Linked (bypass lru a) a (x ∷ (xs ++ ys)) (bypass-Linked lru (x ∷ xs) a ys h) wa)

-- A slot that is no longer used leaves the list, the others stay in their order, and it comes in front
-- of the unused slots.
pub unused_slot-Linked :
    (lru : Links) (xs : List ℕ) (a : ℕ) (ys : List ℕ)
    → Linked lru (xs ++ a ∷ ys)
    → Linked (unused_slot lru a) (xs ++ ys)
      × ((unused_slot lru a).unused ≡ some a)
      × ((unused_slot lru a).staler a ≡ lru.unused)
unfolding unused_slot
unused_slot-Linked lru xs a ys h =
    let (wa, d) = Distinct-out xs a ys h.distinct in
    let b = bypass-Linked lru xs a ys h in
    (
      record {
        distinct = b.distinct;
        ups = b.ups;
        downs = Down-update (bypass lru a).staler none lru.unused a (xs ++ ys) wa b.downs;
        freshest = b.freshest;
        stalest = b.stalest;
      },
      refl,
      update_same (bypass lru a).staler a lru.unused,
    )

evict-Linked :
    (lru : Links) (x : ℕ) (xs : List ℕ) (a : ℕ)
    → Linked lru (x ∷ (xs ++ a ∷ []))
    → Linked (evict lru a) (x ∷ xs)
unfolding evict first_or
evict-Linked lru x xs a h =
    let (e, _) = fields lru (x ∷ xs) a [] h in
    let (ux, _) = Up-split lru.fresher none (x ∷ xs) (a ∷ []) h.ups in
    let (lx, _) = Down-split lru.staler (x ∷ xs) (a ∷ []) none h.downs in
    let (dx, _) = Distinct-split (x ∷ xs) (a ∷ []) h.distinct in
    record {
      distinct = dx;
      ups = ux;
      downs = rw e (Down-last lru.staler (some a) none (x ∷ xs) dx lx);
      freshest = h.freshest;
      stalest = e;
    }

full_uses :
    (lru : Links) (a : ℕ)
    → lru.unused ≡ none
    → (not (lru.size == 0) && leb lru.size lru.used) ≡ true
    → lru.stale ≡ some a
    → use_slot lru ≡ some (true, a, freshen_slot (evict lru a) a)
unfolding use_slot
full_uses lru a u f e = rw (u, f, e) refl

last_single : (p : Option ℕ) (a : ℕ) → last_or p (a ∷ []) ≡ some a
unfolding last_or
last_single p a = refl

single_stalest : (lru : Links) (a : ℕ) → Linked lru (a ∷ []) → lru.stale ≡ some a
unfolding last_or
single_stalest lru a h = h.stalest

single_freshest : (lru : Links) (a : ℕ) → Linked lru (a ∷ []) → lru.fresh ≡ some a
unfolding first_or
single_freshest lru a h = h.freshest

fresh_again : (lru : Links) (a : ℕ) → (freshen_slot (evict lru a) a).fresh ≡ some a
unfolding freshen_slot
fresh_again lru a = refl

cyclic :
    (lru : Links) (a : ℕ) → lru.fresh ≡ some a → (freshen_slot (evict lru a) a).staler a ≡ some a
unfolding freshen_slot evict
cyclic lru a e = update_same (update_if lru.staler (lru.fresher a) none) a lru.fresh ∙ e

-- A cache with a bound on its slots, at least two in its list, none unused, and as many taken from the
-- pool as the bound, gives up its stalest slot, which becomes the freshest; the others stay in their
-- order.
pub use_slot-evicts :
    (lru : Links) (x : ℕ) (xs : List ℕ) (a : ℕ)
    → Linked lru (x ∷ (xs ++ a ∷ []))
    → lru.unused ≡ none
    → 1 ≤ lru.size
    → lru.size ≤ lru.used
    → (l : Links) × (use_slot lru ≡ some (true, a, l)) × Linked l (a ∷ x ∷ xs)
use_slot-evicts lru x xs a h u one full =
    let (wa, _) = Distinct-out (x ∷ xs) a [] h.distinct in
    let e : lru.stale ≡ some a =
      h.stalest ∙ last_or-append none (x ∷ xs) (a ∷ []) ∙ last_single (last_or none (x ∷ xs)) a in
    (
      freshen_slot (evict lru a) a,
      full_uses lru a u (ground arith) e,
      freshen_slot-Linked (evict lru a) a (x ∷ xs) (evict-Linked lru x xs a h)
          (rw (sym (append-nil xs)) wa),
    )

-- A cache of one slot that gives it up has it twice in the list: the slot is its own staler one.
pub use_slot-cyclic :
    (lru : Links) (a : ℕ)
    → Linked lru (a ∷ [])
    → lru.unused ≡ none
    → 1 ≤ lru.size
    → lru.size ≤ lru.used
    → (l : Links) × (use_slot lru ≡ some (true, a, l)) × (l.fresh ≡ some a) × (l.staler a ≡ some a)
use_slot-cyclic lru a h u one full = (
  freshen_slot (evict lru a) a,
  full_uses lru a u (ground arith) (single_stalest lru a h),
  fresh_again lru a,
  cyclic lru a (single_freshest lru a h),
)
