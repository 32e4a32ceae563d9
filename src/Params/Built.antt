-- ===== src/Params/Built.antt =====
-- The prototypes that the declarations of a sub build, by the operations of library/proto.c.
use hemp.Base.{
  ℕ, ◌+◌, ◌≡◌, ◌≢◌, refl, sym, ◌∙◌, Bool, true, false, ◌||◌, Option, none, some, List, [], ◌∷◌,
  ◌++◌, length, length-append, is_some, if◌then◌else◌, arith,
}
use mathlib.Core.Path.{subst}
use mathlib.Core.Option.{some-injective}
use hemp.Chars.{Str, codes}
use hemp.Hash.Table.{HashFunction, Table, init, wider, store, fetch}
use hemp.Hash.Valid.{IsValid, view, init-IsValid}
use hemp.Hash.Entries.{view-store-none}
use hemp.Hash.Laws.{hash_of, store-Updates, fetch-view}
use hemp.Params.Proto.{Proto, new_proto, is_declared, add_item, add_list, add_hash}

module _ ⦃hash : HashFunction⦄ where
  -- The prototypes that can be reached from a new one.
  pub data Built : Proto → Type 0 where
    fresh : Built new_proto
    with_item :
        (name : Str) (proto next : Proto)
        → Built proto
        → add_item name proto ≡ some next
        → Built next
    with_list :
        (name : Str) (proto next : Proto)
        → Built proto
        → add_list name proto ≡ some next
        → Built next
    with_hash :
        (name : Str) (proto next : Proto)
        → Built proto
        → add_hash name proto ≡ some next
        → Built next

  -- No name of the list has the hash value.
  unfoldable pub Apart : ℕ → List Str → Type 0
  Apart q [] = Unit
  Apart q (name ∷ names) = (hash_of name ≢ q) × Apart q names

  -- No two names have one hash value, so none stands twice.
  unfoldable pub IsDistinct : List Str → Type 0
  unfolding Apart
  IsDistinct [] = Unit
  IsDistinct (name ∷ names) = Apart (hash_of name) names × IsDistinct names

  Apart-append :
      (q : ℕ) (names : List Str) (name : Str)
      → Apart q names
      → hash_of name ≢ q
      → Apart q (names ++ (name ∷ []))
  unfolding Apart
  Apart-append q [] name h n = (n, tt)
  Apart-append q (x ∷ names) name h n = (h.0, Apart-append q names name h.1 n)

  IsDistinct-append :
      (names : List Str) (name : Str)
      → IsDistinct names
      → Apart (hash_of name) names
      → IsDistinct (names ++ (name ∷ []))
  unfolding Apart IsDistinct
  IsDistinct-append [] name h a = (tt, tt)
  IsDistinct-append (x ∷ names) name h a = (
    Apart-append (hash_of x) names name h.0 (λ e. a.0 (sym e)),
    IsDistinct-append names name h.1 a.1,
  )

  abbrev pub one : Option Str → ℕ
  one none = 0
  one (some name) = 1

  -- The invariant of a prototype: its table is valid and knows every parameter, the parameters are distinct,
  -- and the table counts the parameters and the two that take the rest.
  pub record IsProto (proto : Proto) : Type 0 where
    pub valid : IsValid proto.names
    pub declared : (q : ℕ) → view proto.names q ≡ none → Apart q proto.items
    pub distinct : IsDistinct proto.items
    pub counted : proto.names.size ≡ length proto.items + one proto.rest_list + one proto.rest_hash

  new_proto-IsProto : IsProto new_proto
  unfolding new_proto init wider Apart IsDistinct
  new_proto-IsProto = record {
    valid = init-IsValid Str;
    declared = λ q e. tt;
    distinct = tt;
    counted = refl;
  }

  is_some-false : (o : Option Str) → is_some o ≡ false → o ≡ none
  is_some-false none h = refl
  is_some-false (some s) h = ground (arith, h)

  -- The table after a declaration.
  record Declares (name : Str) (proto : Proto) (names : Table Str) : Type 0 where
    valid : IsValid names
    before : (q : ℕ) → view names q ≡ none → (view proto.names q ≡ none) × (hash_of name ≢ q)
    absent : Apart (hash_of name) proto.items
    size : names.size ≡ proto.names.size + 1

  store-Declares :
      (name kind : Str) (proto : Proto)
      → IsProto proto
      → is_declared proto name ≡ false
      → Declares name proto (store proto.names name kind)
  unfolding is_declared
  store-Declares name kind proto good e =
      let (valid, _, size, _) = store-Updates proto.names name kind good.valid in
      let gone : view proto.names (hash_of name) ≡ none =
        sym (fetch-view proto.names name good.valid)
        ∙ is_some-false (fetch (proto.names ∷ []) name) e in
      record {
        valid = valid;
        before = λ q. view-store-none proto.names name kind q good.valid;
        absent = good.declared (hash_of name) gone;
        size = rw (size, gone) refl;
      }

  answered :
      (b : Bool) (p next : Proto)
      → (if b then none else some p) ≡ some next
      → (b ≡ false) × (p ≡ next)
  answered true p next e = ground (arith, e)
  answered false p next e = (refl, some-injective _ _ e)

  with_item-IsProto :
      (name : Str) (proto next : Proto)
      → IsProto proto
      → add_item name proto ≡ some next
      → IsProto next
  unfolding add_item Apart
  with_item-IsProto name proto next good e =
      let (new, same) = answered (is_declared proto name) _ next e in
      let d = store-Declares name (codes "item") proto good new in
      subst IsProto same (record {
        valid = d.valid;
        declared = λ q n.
            let (old, other) = d.before q n in
            Apart-append q proto.items name (good.declared q old) other;
        distinct = IsDistinct-append proto.items name good.distinct d.absent;
        counted = omega (arith, d.size, good.counted, length-append proto.items (name ∷ []));
      })

  neither : (b : Bool) (o : Option Str) → (b || is_some o) ≡ false → (b ≡ false) × (one o ≡ 0)
  neither true o e = ground (arith, e)
  neither false none e = (refl, refl)
  neither false (some s) e = ground (arith, e)

  with_list-IsProto :
      (name : Str) (proto next : Proto)
      → IsProto proto
      → add_list name proto ≡ some next
      → IsProto next
  unfolding add_list
  with_list-IsProto name proto next good e =
      let (clear, same) = answered (is_declared proto name || is_some proto.rest_list) _ next e in
      let (new, unused) = neither (is_declared proto name) proto.rest_list clear in
      let d = store-Declares name (codes "list") proto good new in
      subst IsProto same (record {
        valid = d.valid;
        declared = λ q n. good.declared q (d.before q n).0;
        distinct = good.distinct;
        counted = omega (arith, d.size, good.counted, unused);
      })

  with_hash-IsProto :
      (name : Str) (proto next : Proto)
      → IsProto proto
      → add_hash name proto ≡ some next
      → IsProto next
  unfolding add_hash
  with_hash-IsProto name proto next good e =
      let (clear, same) = answered (is_declared proto name || is_some proto.rest_hash) _ next e in
      let (new, unused) = neither (is_declared proto name) proto.rest_hash clear in
      let d = store-Declares name (codes "hash") proto good new in
      subst IsProto same (record {
        valid = d.valid;
        declared = λ q n. good.declared q (d.before q n).0;
        distinct = good.distinct;
        counted = omega (arith, d.size, good.counted, unused);
      })

  -- Whatever is declared, in any order and without a fatal error, the prototype has a valid table that knows
  -- every parameter, no parameter stands twice, and the table counts the parameters with the two for the rest.
  pub Built-IsProto : (proto : Proto) → Built proto → IsProto proto
  Built-IsProto proto fresh = new_proto-IsProto
  Built-IsProto proto (with_item name before next b e) =
      with_item-IsProto name before next (Built-IsProto before b) e
  Built-IsProto proto (with_list name before next b e) =
      with_list-IsProto name before next (Built-IsProto before b) e
  Built-IsProto proto (with_hash name before next b e) =
      with_hash-IsProto name before next (Built-IsProto before b) e
