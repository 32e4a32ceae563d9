-- ===== src/Params/Proto.antt =====
-- struct hemp_proto (include/hemp/proto.h), the declared parameters of a sub, and its operations in
-- library/proto.c. The answer `none` is the fatal error for a name that is declared twice.
use hemp.Base.{Option, none, some, List, [], ◌∷◌, ◌++◌, is_some, Bool, ◌||◌, if◌then◌else◌}
use hemp.Chars.{Str, codes}
use hemp.Hash.Table.{HashFunction, Table, init, store, fetch}

-- The names with what they are declared as, the single parameters in their order, and the parameters that
-- take what is left.
pub record Proto : Type 0 where
  pub names : Table Str
  pub items : List Str
  pub rest_list : Option Str
  pub rest_hash : Option Str

-- `hemp_proto_init`
unfoldable pub new_proto : Proto
unfolding init
new_proto = record { names = init; items = []; rest_list = none; rest_hash = none }

module _ ⦃hash : HashFunction⦄ where
  -- `hemp_hash_fetch_string (proto->name, name)` is not NULL.
  unfoldable pub is_declared : Proto → Str → Bool
  unfolding fetch
  is_declared proto name = is_some (fetch (proto.names ∷ []) name)

  -- `hemp_proto_add_item`
  unfoldable pub add_item : Str → Proto → Option Proto
  unfolding is_declared store
  add_item name proto =
      if is_declared proto name
      then none
      else some (record proto {
        names = store proto.names name (codes "item");
        items = proto.items ++ (name ∷ []);
      })

  -- `hemp_proto_add_list`
  unfoldable pub add_list : Str → Proto → Option Proto
  unfolding is_declared store
  add_list name proto =
      if is_declared proto name || is_some proto.rest_list
      then none
      else some
          (record proto { names = store proto.names name (codes "list"); rest_list = some name })

  -- `hemp_proto_add_hash`
  unfoldable pub add_hash : Str → Proto → Option Proto
  unfolding is_declared store
  add_hash name proto =
      if is_declared proto name || is_some proto.rest_hash
      then none
      else some
          (record proto { names = store proto.names name (codes "hash"); rest_hash = some name })
