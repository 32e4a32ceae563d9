-- ===== src/Hash/Tests.antt =====
-- Runs of the hash table on small inputs, and the theorems at them.
use hemp.Base.{ℕ, ◌+◌, ◌≡◌, refl, none, some, [], ◌∷◌, ◌==◌, if◌then◌else◌, arith}
use hemp.Chars.{Str}
use hemp.Hash.Jenkins.{jenkins32}
use hemp.Hash.Table.{
  HashFunction, jenkins, Table, init, wider, grow, store, fetch_keylen, fetch, delete, pairs, each,
}
use hemp.Hash.Column.{over}
use hemp.Hash.Valid.{entries, view, IsValid, init-IsValid}
use hemp.Hash.Grow.{grow-IsValid}
use hemp.Hash.Laws.{hash_of, is_none, store-Updates, fetch_keylen-view, fetch-store, delete-Updates}
use hemp.Hash.Walk.{pairs-view}

instance abbrev chosen : HashFunction
chosen = jenkins

abbrev foo : Str
foo = b'f' ∷ b'o' ∷ b'o' ∷ []

abbrev foot : Str
foot = b'f' ∷ b'o' ∷ b'o' ∷ b't' ∷ []

program : Unit {0}
unfolding jenkins32 wider init store fetch delete pairs each
program = tt

abbrev small : Table ℕ
small = store (store init foo 1) foot 2

fetch-small : fetch (small ∷ []) foo ≡ some 1
unfolding program
fetch-small = refl

-- The length decides: the first three bytes of `foot` are a key of their own.
fetch_keylen-small : fetch_keylen (small ∷ []) foot 3 ≡ some 1
unfolding program
fetch_keylen-small = refl

-- A key that was deleted is gone, and is still counted.
delete-small : ((delete small foo).1.size ≡ 2) × (fetch ((delete small foo).1 ∷ []) foo ≡ none)
unfolding program
delete-small = (refl, refl)

-- A child table that lacks a key takes it from its parent.
parent-small : fetch (init ∷ small ∷ []) foot ≡ some 2
unfolding program
parent-small = refl

small-IsValid : IsValid small
small-IsValid = (store-Updates _ foot 2 (store-Updates init foo 1 (init-IsValid ℕ)).0).0

grow-IsValid_example :
    IsValid (grow small)
    × ((q : ℕ) → view (grow small) q ≡ view small q)
    × ((grow small).size ≡ small.size)
    × (entries (grow small).slots ≡ entries small.slots)
grow-IsValid_example = grow-IsValid small small-IsValid

store-Updates_example :
    IsValid (store small foo 3)
    × ((q : ℕ) → view (store small foo 3) q ≡ (if q == hash_of foo then some 3 else view small q))
    × ((store small foo 3).size ≡ small.size + is_none (view small (hash_of foo)))
    × (entries (store small foo 3).slots ≡ entries small.slots + is_none (view small (hash_of foo)))
store-Updates_example = store-Updates small foo 3 small-IsValid

fetch_keylen-view_example :
    fetch_keylen (small ∷ []) foot 3 ≡ over (view small (jenkins32 foot 3)) (fetch_keylen [] foot 3)
fetch_keylen-view_example = fetch_keylen-view small [] foot 3 small-IsValid (omega arith)

fetch-store_example :
    fetch (store small foo 3 ∷ []) foot
    ≡ (if hash_of foot == hash_of foo then some 3 else fetch (small ∷ []) foot)
fetch-store_example = fetch-store small foo foot 3 small-IsValid

delete-Updates_example :
    ((delete small foo).0 ≡ view small (hash_of foo))
    × IsValid (delete small foo).1
    × ((q : ℕ) → view (delete small foo).1 q ≡ (if q == hash_of foo then none else view small q))
    × ((delete small foo).1.size ≡ small.size)
    × (entries (delete small foo).1.slots + 1
        ≡ entries small.slots + is_none (view small (hash_of foo)))
delete-Updates_example = delete-Updates small foo small-IsValid

pairs-view_example :
    IsValid (pairs small init)
    × ((q : ℕ) → view (pairs small init) q ≡ over (view small q) (view init q))
pairs-view_example = pairs-view small init small-IsValid (init-IsValid ℕ)
