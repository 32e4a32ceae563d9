-- ===== src/Params/Tests.antt =====
-- Runs of declarations and calls, and the theorems at them.
use hemp.Base.{List, ◌++◌, length, get_elem?, ℕ, ◌≡◌, refl, Option, none, some, [], ◌∷◌}
use hemp.Chars.{Str, codes}
use hemp.Hash.Jenkins.{jenkins32}
use hemp.Hash.Table.{HashFunction, jenkins, fetch, Table, init, wider, store}
use hemp.Hash.Column.{over}
use hemp.Hash.Valid.{IsValid, init-IsValid}
use hemp.Hash.Laws.{hash_of}
use hemp.Params.Proto.{Proto, new_proto, add_item, add_list, add_hash}
use hemp.Params.Resolve.{
  Arguments, resolved, no_arguments, Code, apply_code, code_text, resolve_proto,
}
use hemp.Params.Outcomes.{unnamed, verdict, expected_verdict, apply_code-verdict}
use hemp.Params.Reads.{apply_code-reads}
use hemp.Params.Built.{Apart, Built, fresh, with_item, IsProto, Built-IsProto}

instance abbrev chosen : HashFunction
chosen = jenkins

abbrev get_or_new : Option Proto → Proto
get_or_new (some proto) = proto
get_or_new none = new_proto

program : Unit {0}
unfolding jenkins32 wider init store fetch new_proto add_item add_list add_hash apply_code code_text
    resolve_proto expected_verdict Apart
program = tt

-- `sub (x, y)`
abbrev with_x : Proto
with_x = get_or_new (add_item (codes "x") new_proto)

abbrev with_y : Proto
with_y = get_or_new (add_item (codes "y") with_x)

-- A name that is declared twice is an error.
twice : add_list (codes "x") with_x ≡ none
unfolding program
twice = refl

with_x-some : add_item (codes "x") new_proto ≡ some with_x
unfolding program
with_x-some = refl

with_y-some : add_item (codes "y") with_x ≡ some with_y
unfolding program
with_y-some = refl

with_y-Built : Built with_y
with_y-Built =
    with_item (codes "y") with_x with_y (with_item (codes "x") new_proto with_x fresh with_x-some)
      with_y-some

abbrev area : Code
area = record { proto = some with_y }

-- `area (x = 7, 5)`
abbrev given : Arguments ℕ
given = record { ordinals = 5 ∷ []; nominals = store init (codes "x") 7 }

abbrev left : Table ℕ
left = store (store init (codes "x") 7) (codes "y") 5

call : apply_code area (some given) init ≡ resolved left
unfolding program
call = refl

-- The text of a code with a prototype is an error.
text : code_text area (init {V = ℕ}) ≡ no_arguments
unfolding program
text = refl

Built-IsProto_example : IsProto with_y
Built-IsProto_example = Built-IsProto with_y with_y-Built

apply_code-verdict_example :
    verdict (apply_code area (some given) init) ≡ expected_verdict with_y (some given)
apply_code-verdict_example = apply_code-verdict area with_y (some given) init refl

-- The value of `y` behind the named `x`, and of a variable that is no parameter
apply_code-reads_example :
    IsValid left
    × ((before after : List Str) (name : Str)
        → with_y.items ≡ before ++ (name ∷ after)
        → fetch (left ∷ []) name
          ≡ over
              (fetch (given.nominals ∷ []) name)
              (get_elem? given.ordinals (length (unnamed given.nominals before))))
    × ((other : Str)
        → Apart (hash_of other) with_y.items
        → fetch (left ∷ []) other ≡ fetch (init ∷ []) other)
apply_code-reads_example =
    apply_code-reads area with_y given init left refl with_y-Built (init-IsValid ℕ) call
