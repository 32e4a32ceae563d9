-- ===== src/Params/Reads.antt =====
-- What the variables of a call read after the resolution of library/type/code.c.
use hemp.Base.{
  ℕ, suc, ◌≡◌, refl, sym, ap, ◌∙◌, Bool, true, false, Option, none, some, List, [], ◌∷◌, ◌++◌,
  length, get_elem?, if◌then◌else◌, arith,
}
use mathlib.Core.Path.{subst}
use hemp.Chars.{Str}
use hemp.Hash.Table.{HashFunction, Table, store, fetch}
use hemp.Hash.Column.{over}
use hemp.Hash.Valid.{IsValid, view}
use hemp.Hash.Laws.{hash_of, store-Updates, fetch-view}
use hemp.Params.Proto.{Proto}
use hemp.Params.Resolve.{
  Arguments, Resolution, resolved, no_arguments, missing_value, extra_ordinals, extra_nominals,
  Matching, matching, no_value, Code, match_item, match_items, check_rest, apply_code,
  resolve_proto,
}
use hemp.Params.Outcomes.{unnamed, keep_unnamed}
use hemp.Params.Built.{Built, Built-IsProto, Apart, IsDistinct}

module _ ⦃hash : HashFunction⦄ where
  distinct_behind :
      (before after : List Str) (name : Str)
      → IsDistinct (before ++ (name ∷ after))
      → Apart (hash_of name) after
  unfolding IsDistinct Apart
  distinct_behind [] after name h = h.0
  distinct_behind (b ∷ before) after name h = distinct_behind before after name h.1

module _ {ℓ} {V : Type ℓ} ⦃hash : HashFunction⦄ where
  -- A table that is valid and reads as before but under the names.
  record Keeps (names : List Str) (t u : Table V) : Type ℓ where
    valid : IsValid u
    keeps : (q : ℕ) → Apart q names → view u q ≡ view t q

  unfoldable Writes : List Str → Table V → Matching V → Type ℓ
  Writes names t (matching left n u) = Keeps names t u
  Writes names t (no_value name) = Unit

  stored-Writes :
      (names : List Str) (name : Str) (v : V) (t : Table V) (m : Matching V)
      → IsValid t
      → Writes names (store t name v) m
      → Writes (name ∷ names) t m
  unfolding Writes Apart
  stored-Writes names name v t (no_value other) valid h = tt
  stored-Writes names name v t (matching left n u) valid h =
      let (good, reads, _, _) = store-Updates t name v valid in
      record { valid = h.valid; keeps = λ q a. h.keeps q a.1 ∙ reads q ∙ ground (arith, a.0) }

  match_items-Writes :
      (nominals : Table V) (items : List Str) (ordinals : List V) (nom : ℕ) (vars : Table V)
      → IsValid vars
      → Writes items vars (match_items nominals items ordinals nom vars)
  unfolding Writes match_items
  match_items-Writes nominals [] ordinals nom vars valid = record {
    valid = valid;
    keeps = λ q a. refl;
  }
  match_items-Writes nominals (name ∷ items) ordinals nom vars valid =
      item (fetch (nominals ∷ []) name) ordinals (match_items-Writes nominals items)
    where
      item :
          (given : Option V) (ordinals : List V)
          → ((o : List V) (n : ℕ) (t : Table V)
              → IsValid t
              → Writes items t (match_items nominals items o n t))
          → Writes
              (name ∷ items)
              vars
              (match_item (match_items nominals items) name given ordinals nom vars)
      item (some v) o ih =
          stored-Writes items name v vars
            (match_items nominals items o (suc nom) (store vars name v)) valid
            (ih o (suc nom) (store vars name v) (store-Updates vars name v valid).0)
      item none [] ih = tt
      item none (v ∷ o) ih =
          stored-Writes items name v vars (match_items nominals items o nom (store vars name v))
            valid (ih o nom (store vars name v) (store-Updates vars name v valid).0)

  -- A name reads a value.
  unfoldable Gives : Str → Option V → Matching V → Type ℓ
  unfolding view
  Gives name v (matching left n u) = view u (hash_of name) ≡ v
  Gives name v (no_value other) = Unit

  stored-Gives :
      (names : List Str) (name : Str) (v : V) (t : Table V) (m : Matching V)
      → IsValid t
      → Apart (hash_of name) names
      → Writes names (store t name v) m
      → Gives name (some v) m
  unfolding Gives Writes
  stored-Gives names name v t (no_value other) valid a h = tt
  stored-Gives names name v t (matching left n u) valid a h =
      let (good, reads, _, _) = store-Updates t name v valid in
      h.keeps (hash_of name) a ∙ reads (hash_of name) ∙ ground arith

  -- The value of the name behind `before`, by the number of the names there that take an ordinal.
  match_items-Gives :
      (nominals : Table V) (before after : List Str) (name : Str) (ordinals : List V) (nom : ℕ)
      (vars : Table V)
      → IsValid vars
      → Apart (hash_of name) after
      → Gives name
          (over
            (fetch (nominals ∷ []) name)
            (get_elem? ordinals (length (unnamed nominals before))))
          (match_items nominals (before ++ (name ∷ after)) ordinals nom vars)
  unfolding Gives match_items unnamed
  match_items-Gives nominals [] after name ordinals nom vars valid apart =
      first (fetch (nominals ∷ []) name) ordinals
    where
      first :
          (given : Option V) (ordinals : List V)
          → Gives name
              (over given (get_elem? ordinals 0))
              (match_item (match_items nominals after) name given ordinals nom vars)
      first (some v) o =
          stored-Gives after name v vars
            (match_items nominals after o (suc nom) (store vars name v)) valid apart
            (match_items-Writes nominals after o (suc nom) (store vars name v)
              (store-Updates vars name v valid).0)
      first none [] = tt
      first none (v ∷ o) =
          stored-Gives after name v vars (match_items nominals after o nom (store vars name v))
            valid apart
            (match_items-Writes nominals after o nom (store vars name v)
              (store-Updates vars name v valid).0)
  match_items-Gives nominals (b ∷ before) after name ordinals nom vars valid apart =
      later (fetch (nominals ∷ []) b) ordinals (match_items-Gives nominals before after name)
    where
      later :
          (given : Option V) (ordinals : List V)
          → ((o : List V) (n : ℕ) (t : Table V)
              → IsValid t
              → Apart (hash_of name) after
              → Gives name
                  (over
                    (fetch (nominals ∷ []) name)
                    (get_elem? o (length (unnamed nominals before))))
                  (match_items nominals (before ++ (name ∷ after)) o n t))
          → Gives name
              (over
                (fetch (nominals ∷ []) name)
                (get_elem? ordinals (length (keep_unnamed b given (unnamed nominals before)))))
              (match_item
                (match_items nominals (before ++ (name ∷ after)))
                b
                given
                ordinals
                nom
                vars)
      later (some v) o ih = ih o (suc nom) (store vars b v) (store-Updates vars b v valid).0 apart
      later none [] ih = tt
      later none (v ∷ o) ih = ih o nom (store vars b v) (store-Updates vars b v valid).0 apart

  abbrev table_of : Table V → Resolution V → Table V
  table_of other (resolved vars) = vars
  table_of other no_arguments = other
  table_of other (missing_value name) = other
  table_of other (extra_ordinals n) = other
  table_of other (extra_nominals n) = other

  rest_resolved :
      (a b : Bool) (x y : ℕ) (u result : Table V)
      → (if a then extra_ordinals x else if b then extra_nominals y else resolved u)
        ≡ resolved result
      → u ≡ result
  rest_resolved true b x y u result e = ground (arith, e)
  rest_resolved false true x y u result e = ground (arith, e)
  rest_resolved false false x y u result e = ap (table_of u) e

  -- A property of the matching is one of the variables that the call leaves.
  check_rest-resolved :
      (proto : Proto) (nominals : Table V) (m : Matching V) (result : Table V)
      → check_rest proto nominals m ≡ resolved result
      → (left : List V) × (n : ℕ) × (m ≡ matching left n result)
  unfolding check_rest
  check_rest-resolved proto nominals (no_value name) result e = ground (arith, e)
  check_rest-resolved proto nominals (matching left n u) result e =
      (left, n, ap (matching left n) (rest_resolved _ _ _ _ u result e))

  -- For a prototype that declarations built, valid variables and a call that resolves, the table it leaves is
  -- valid; a parameter reads the argument of its name or, without one, the ordinal whose place is the number
  -- of parameters before it that have no argument of their name; and a name with the hash value of no
  -- parameter reads what it read before.
  pub apply_code-reads :
      (code : Code) (proto : Proto) (arguments : Arguments V) (vars result : Table V)
      → code.proto ≡ some proto
      → Built proto
      → IsValid vars
      → apply_code code (some arguments) vars ≡ resolved result
      → IsValid result
        × ((before after : List Str) (name : Str)
            → proto.items ≡ before ++ (name ∷ after)
            → fetch (result ∷ []) name
              ≡ over
                  (fetch (arguments.nominals ∷ []) name)
                  (get_elem? arguments.ordinals (length (unnamed arguments.nominals before))))
        × ((other : Str)
            → Apart (hash_of other) proto.items
            → fetch (result ∷ []) other ≡ fetch (vars ∷ []) other)
  unfolding apply_code resolve_proto Writes Gives
  apply_code-reads code proto arguments vars result e built valid answer =
      let nominals = arguments.nominals in
      let o = arguments.ordinals in
      let m = match_items nominals proto.items o 0 vars in
      let answer' : check_rest proto nominals m ≡ resolved result = sym (rw e refl) ∙ answer in
      let (left, n, matched) = check_rest-resolved proto nominals m result answer' in
      let kept : Keeps proto.items vars result =
        subst (Writes proto.items vars) matched
          (match_items-Writes nominals proto.items o 0 vars valid) in
      (
        kept.valid,
        (λ before after name split.
            let apart =
              distinct_behind before after name
                (subst IsDistinct split (Built-IsProto proto built).distinct) in
            let given = match_items-Gives nominals before after name o 0 vars valid apart in
            fetch-view result name kept.valid
            ∙ subst (Gives name _)
                (ap (λ items. match_items nominals items o 0 vars) (sym split) ∙ matched) given),
        (λ other apart.
            fetch-view result other kept.valid
            ∙ kept.keeps (hash_of other) apart
            ∙ sym (fetch-view vars other valid)),
      )
