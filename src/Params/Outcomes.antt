-- ===== src/Params/Outcomes.antt =====
-- Which of its outcomes a resolution has.
use hemp.Base.{
  ℕ, zero, suc, ◌+◌, ◌-◌, ◌≤◌, ◌≡◌, refl, sym, ap, ◌∙◌, length-drop, ◌&&◌, Option, none, some, List,
  [], ◌∷◌, length, drop, get_elem?, is_some, not, ltb, if◌then◌else◌, arith,
}
use hemp.Chars.{Str}
use hemp.Hash.Table.{HashFunction, Table, store, fetch}
use hemp.Params.Proto.{Proto}
use hemp.Params.Resolve.{
  Arguments, Resolution, resolved, no_arguments, missing_value, extra_ordinals, extra_nominals,
  Matching, matching, no_value, Code, match_item, match_items, check_rest, apply_code,
  resolve_proto,
}

-- A parameter is the first without a value.
pub record Missing {ℓ} {V : Type ℓ} (names : List Str) (ordinals : List V) (name : Str)
    : Type ℓ where
  pub at : get_elem? names (length ordinals) ≡ some name

module _ {ℓ} {V : Type ℓ} ⦃hash : HashFunction⦄ where
  -- The parameters that have no value by their name, and the number of those that have one.
  abbrev pub keep_unnamed : Str → Option V → List Str → List Str
  keep_unnamed name (some v) names = names
  keep_unnamed name none names = name ∷ names

  unfoldable pub unnamed : Table V → List Str → List Str
  unfolding fetch
  unnamed nominals [] = []
  unnamed nominals (name ∷ items) =
      keep_unnamed name (fetch (nominals ∷ []) name) (unnamed nominals items)

  abbrev one_more : Option V → ℕ → ℕ
  one_more (some v) n = suc n
  one_more none n = n

  unfoldable pub named : Table V → List Str → ℕ
  unfolding fetch
  named nominals [] = 0
  named nominals (name ∷ items) = one_more (fetch (nominals ∷ []) name) (named nominals items)

  -- What the loop over the parameters comes to: they take the ordinals in their order.
  unfoldable pub Matches : List Str → ℕ → List V → ℕ → Matching V → Type ℓ
  Matches names used ordinals nom (matching left nom' vars) =
      (length names ≤ length ordinals) × (left ≡ drop (length names) ordinals) × (nom' ≡ nom + used)
  Matches names used ordinals nom (no_value name) = Missing names ordinals name

  with_named :
      (names : List Str) (used : ℕ) (ordinals : List V) (nom : ℕ) (m : Matching V)
      → Matches names used ordinals (suc nom) m
      → Matches names (suc used) ordinals nom m
  unfolding Matches
  with_named names used ordinals nom (matching left n t) h = (h.0, h.1, h.2 ∙ omega arith)
  with_named names used ordinals nom (no_value name) h = h

  with_ordinal :
      (names : List Str) (used : ℕ) (ordinals : List V) (nom : ℕ) (name : Str) (v : V)
      (m : Matching V)
      → Matches names used ordinals nom m
      → Matches (name ∷ names) used (v ∷ ordinals) nom m
  unfolding Matches
  with_ordinal names used ordinals nom name v (matching left n t) h =
      (ground (arith, h.0), h.1, h.2)
  with_ordinal names used ordinals nom name v (no_value name') h = record { at = h.at }

  pub match_items-Matches :
      (nominals : Table V) (items : List Str) (ordinals : List V) (nom : ℕ) (vars : Table V)
      → Matches
          (unnamed nominals items)
          (named nominals items)
          ordinals
          nom
          (match_items nominals items ordinals nom vars)
  unfolding Matches unnamed named match_items
  match_items-Matches nominals [] ordinals nom vars = (ground arith, refl, ground arith)
  match_items-Matches nominals (name ∷ items) ordinals nom vars =
      item (fetch (nominals ∷ []) name) ordinals (match_items-Matches nominals items)
    where
      item :
          (given : Option V) (ordinals : List V)
          → ((o : List V) (n : ℕ) (t : Table V)
              → Matches
                  (unnamed nominals items)
                  (named nominals items)
                  o
                  n
                  (match_items nominals items o n t))
          → Matches
              (keep_unnamed name given (unnamed nominals items))
              (one_more given (named nominals items))
              ordinals
              nom
              (match_item (match_items nominals items) name given ordinals nom vars)
      item (some v) o ih =
          with_named (unnamed nominals items) (named nominals items) o nom
            (match_items nominals items o (suc nom) (store vars name v))
            (ih o (suc nom) (store vars name v))
      item none [] ih = record { at = refl }
      item none (v ∷ o) ih =
          with_ordinal (unnamed nominals items) (named nominals items) o nom name v
            (match_items nominals items o nom (store vars name v)) (ih o nom (store vars name v))

-- What a call is told of its arguments.
pub data Verdict : Type 0 where
  bound : Verdict
  lacks : Str → Verdict
  too_many : ℕ → Verdict
  unknown : ℕ → Verdict
  no_call : Verdict

abbrev rest_verdict : Proto → ℕ → ℕ → Verdict
rest_verdict proto ordinals nominals =
    if ltb 0 ordinals && not (is_some proto.rest_list)
    then too_many ordinals
    else if ltb 0 nominals && not (is_some proto.rest_hash)
    then unknown nominals
    else bound

get_elem?-bound : (names : List Str) (n : ℕ) → length names ≤ n → get_elem? names n ≡ none
get_elem?-bound [] n h = refl
get_elem?-bound (name ∷ names) zero h = ground (arith, h)
get_elem?-bound (name ∷ names) (suc n) h = get_elem?-bound names n (ground (arith, h))

module _ {ℓ} {V : Type ℓ} ⦃hash : HashFunction⦄ where
  abbrev pub verdict : Resolution V → Verdict
  verdict (resolved vars) = bound
  verdict no_arguments = no_call
  verdict (missing_value name) = lacks name
  verdict (extra_ordinals n) = too_many n
  verdict (extra_nominals n) = unknown n

  -- The verdict by counting: the parameters that are not named take an ordinal each, and what is left over of
  -- the ordinals and the nominals is an error, unless a parameter takes it.
  abbrev counted_verdict : Proto → Arguments V → Option Str → Verdict
  counted_verdict proto arguments (some name) = lacks name
  counted_verdict proto arguments none =
      rest_verdict proto
        (length arguments.ordinals - length (unnamed arguments.nominals proto.items))
        (arguments.nominals.size - named arguments.nominals proto.items)

  abbrev full_verdict : Proto → Arguments V → Verdict
  full_verdict proto arguments =
      counted_verdict proto arguments
        (get_elem? (unnamed arguments.nominals proto.items) (length arguments.ordinals))

  unfoldable pub expected_verdict : Proto → Option (Arguments V) → Verdict
  unfolding unnamed named
  expected_verdict proto none = no_call
  expected_verdict proto (some arguments) = full_verdict proto arguments

  rest_counts :
      (proto : Proto) (nominals : Table V) (left : List V) (n : ℕ) (vars : Table V)
      → verdict (check_rest proto nominals (matching left n vars))
        ≡ rest_verdict proto (length left) (nominals.size - n)
  unfolding check_rest
  rest_counts proto nominals left n vars = ground arith

  check_rest-verdict :
      (proto : Proto) (arguments : Arguments V) (m : Matching V)
      → Matches
          (unnamed arguments.nominals proto.items)
          (named arguments.nominals proto.items)
          arguments.ordinals
          0
          m
      → verdict (check_rest proto arguments.nominals m) ≡ expected_verdict proto (some arguments)
  unfolding check_rest Matches expected_verdict
  check_rest-verdict proto arguments (no_value name) h =
      sym (ap (counted_verdict proto arguments) h.at)
  check_rest-verdict proto arguments (matching left n t) h =
      let names = unnamed arguments.nominals proto.items in
      let used : n ≡ named arguments.nominals proto.items = h.2 ∙ omega arith in
      let counted : length left ≡ length arguments.ordinals - length names =
        ap length h.1 ∙ length-drop (length names) arguments.ordinals in
      let none_lacks = get_elem?-bound names (length arguments.ordinals) h.0 in
      rw (rest_counts proto arguments.nominals left n t, counted, used, none_lacks)

  -- For any code with a prototype, any frame and any variables, the resolution ends as the counts say: with an
  -- error where the frame has no arguments; with the first parameter that is neither named nor reached by an
  -- ordinal, if there is one; else with the number of ordinals, and then of nominals, that are left over where
  -- no parameter takes the rest of them; else with all parameters bound.
  pub apply_code-verdict :
      (code : Code) (proto : Proto) (params : Option (Arguments V)) (vars : Table V)
      → code.proto ≡ some proto
      → verdict (apply_code code params vars) ≡ expected_verdict proto params
  unfolding apply_code resolve_proto expected_verdict
  apply_code-verdict code proto none vars e = rw e
  apply_code-verdict code proto (some arguments) vars e = rw e (
      check_rest-verdict proto arguments
        (match_items arguments.nominals proto.items arguments.ordinals 0 vars)
        (match_items-Matches arguments.nominals proto.items arguments.ordinals 0 vars))
