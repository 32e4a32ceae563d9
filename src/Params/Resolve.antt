-- ===== src/Params/Resolve.antt =====
-- The resolution of the parameters of a call, `hemp_type_code_resolve_proto` of library/type/code.c, with
-- struct hemp_params (include/hemp/type/params.h) and struct hemp_code.
use hemp.Base.{
  ℕ, suc, ◌-◌, ◌&&◌, Option, none, some, List, [], ◌∷◌, length, is_some, not, ltb, if◌then◌else◌,
}
use hemp.Chars.{Str}
use hemp.Hash.Table.{HashFunction, Table, store, fetch}
use hemp.Params.Proto.{Proto}

-- The arguments of a call: those in their order, and those with a name.
pub record Arguments {ℓ} (V : Type ℓ) : Type ℓ where
  pub ordinals : List V
  pub nominals : Table V

-- What a resolution comes to: the table of variables, or the fatal error that ends the program.
pub data Resolution {ℓ} (V : Type ℓ) : Type ℓ where
  resolved : Table V → Resolution V
  no_arguments : Resolution V
  missing_value : Str → Resolution V
  extra_ordinals : ℕ → Resolution V
  extra_nominals : ℕ → Resolution V

-- Where the loop over the declared parameters ends: the ordinals that are left, the number of nominals that
-- were used, and the variables; or the parameter without a value.
pub data Matching {ℓ} (V : Type ℓ) : Type ℓ where
  matching : List V → ℕ → Table V → Matching V
  no_value : Str → Matching V

-- struct hemp_code, less its body
pub record Code : Type 0 where
  pub proto : Option Proto

module _ {ℓ} {V : Type ℓ} ⦃hash : HashFunction⦄ where
  -- A round of the loop, by the value that the name has among the nominals.
  abbrev pub match_item :
      (List V → ℕ → Table V → Matching V) → Str → Option V → List V → ℕ → Table V → Matching V
  match_item go_on name (some v) ordinals nom vars = go_on ordinals (suc nom) (store vars name v)
  match_item go_on name none (v ∷ ordinals) nom vars = go_on ordinals nom (store vars name v)
  match_item go_on name none [] nom vars = no_value name

  unfoldable pub match_items : Table V → List Str → List V → ℕ → Table V → Matching V
  unfolding store fetch
  match_items nominals [] ordinals nom vars = matching ordinals nom vars
  match_items nominals (name ∷ items) ordinals nom vars =
      match_item (match_items nominals items) name (fetch (nominals ∷ []) name) ordinals nom vars

  -- The tests behind the loop. Where the prototype has a parameter for the rest, a note is printed, and the
  -- rest is not stored.
  unfoldable pub check_rest : Proto → Table V → Matching V → Resolution V
  check_rest proto nominals (no_value name) = missing_value name
  check_rest proto nominals (matching ordinals nom vars) =
      if ltb 0 (length ordinals) && not (is_some proto.rest_list)
      then extra_ordinals (length ordinals)
      else if ltb nom nominals.size && not (is_some proto.rest_hash)
      then extra_nominals (nominals.size - nom)
      else resolved vars

  abbrev pub resolve_with : Proto → Option (Arguments V) → Table V → Resolution V
  resolve_with proto none vars = no_arguments
  resolve_with proto (some arguments) vars =
      check_rest proto arguments.nominals
        (match_items arguments.nominals proto.items arguments.ordinals 0 vars)

  -- `hemp_type_code_resolve_proto`
  unfoldable pub resolve_proto : Code → Option (Arguments V) → Table V → Resolution V
  unfolding check_rest match_items
  resolve_proto code arguments vars = elim code.proto [
    | none ↦ resolved vars
    | some proto ↦ resolve_with proto arguments vars
  ]

  -- The resolution in `hemp_type_code_apply`, with the parameters of the frame, which may be NULL
  unfoldable pub apply_code : Code → Option (Arguments V) → Table V → Resolution V
  unfolding resolve_proto
  apply_code code params vars = resolve_proto code params vars

  -- The resolution in `hemp_type_code_text`
  unfoldable pub code_text : Code → Table V → Resolution V
  unfolding resolve_proto
  code_text code vars = resolve_proto code none vars
