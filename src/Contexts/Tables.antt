-- ===== src/Contexts/Tables.antt =====
-- A table of parameters around a body: the commands `with` and `just`.
use hemp.Base.{ℕ, suc, ◌≡◌, refl, sym, ap, ◌∙◌, false, Option, none, some, ◌==◌, ◌>>=◌, arith}
use hemp.Hash.Table.{HashFunction, Table}
use hemp.Contexts.Vars.{Context, changed, new_table, with_vars, just_vars, without_vars}
use hemp.Contexts.Kept.{changed_other, same, Scope, Kept, Ran, Writes}

module _ {ℓ} {V : Type ℓ} ⦃hash : HashFunction⦄ where
  -- A new table, before a body and behind it: `w` has it in scope, and `d` is what the body leaves of `w`.
  taken_out :
      (v : ℕ) (c w d : Context V) (vars : Option ℕ)
      → w.frames ≡ c.frames
      → w.unused ≡ suc c.unused
      → ((i : ℕ)
          → (i == c.unused) ≡ false
          → (w.tables i ≡ c.tables i) × (w.parents i ≡ c.parents i))
      → Kept c.unused w d
      → vars ≡ c.vars
      → Kept v c (record d { vars = vars; parents = changed d.parents c.unused none })
  taken_out v c w d vars f u b k e = record {
    vars = e;
    frames = k.frames ∙ f;
    unused = ground (arith, k.unused, u);
    tables = λ i h n.
        let other : (i == c.unused) ≡ false = ground arith in
        k.tables i (ground (arith, u)) other ∙ (b i other).0;
    parents = λ i h.
        let other : (i == c.unused) ≡ false = ground arith in
        changed_other d.parents c.unused none i other
        ∙ k.parents i (ground (arith, u))
        ∙ (b i other).1;
  }

  pub with_params-Writes :
      (params : Table V) (body : Context V → Option (Context V)) (v : ℕ) (c : Context V)
      → Scope v c
      → ((v' : ℕ) (c' : Context V) → Scope v' c' → Ran v' c' (body c'))
      → Writes v
          (c.tables v)
          c
          (body (with_vars c.unused (new_table params c).1) >>= without_vars none)
  unfolding with_vars new_table without_vars changed
  with_params-Writes params body v c s h =
      let w = with_vars c.unused (new_table params c).1 in
      let r = h c.unused w (record { in_scope = refl; there = ground arith }) in
      let d = r.context in
      let other : (v == c.unused) ≡ false = ground (arith, s.there) in
      record {
        does = record {
          context = record d {
            vars = d.parents c.unused;
            parents = changed d.parents c.unused none;
          };
          ran = ap (λ o. o >>= without_vars none) r.ran ∙ rw (without_vars, r.kept.vars) refl;
          kept =
              taken_out v c w d (d.parents c.unused) refl refl (λ i n. (rw n refl, rw n refl))
                r.kept (r.kept.parents c.unused (ground arith) ∙ rw (same c.unused) refl);
        };
        own = r.kept.tables v (ground (arith, s.there)) other ∙ rw other refl;
      }

  pub just_params-Writes :
      (params : Table V) (body : Context V → Option (Context V)) (v : ℕ) (c : Context V)
      → Scope v c
      → ((v' : ℕ) (c' : Context V) → Scope v' c' → Ran v' c' (body c'))
      → Writes v
          (c.tables v)
          c
          (body (just_vars c.unused (new_table params c).1) >>= without_vars c.vars)
  unfolding just_vars new_table without_vars changed
  just_params-Writes params body v c s h =
      let w = just_vars c.unused (new_table params c).1 in
      let r = h c.unused w (record { in_scope = refl; there = ground arith }) in
      let d = r.context in
      let other : (v == c.unused) ≡ false = ground (arith, s.there) in
      record {
        does = record {
          context = record d { vars = some v; parents = changed d.parents c.unused none };
          ran =
              ap (λ o. o >>= without_vars c.vars) r.ran
              ∙ rw (without_vars, s.in_scope, r.kept.vars) refl;
          kept =
              taken_out v c w d (some v) refl refl (λ i n. (rw n refl, rw n refl)) r.kept
                (sym s.in_scope);
        };
        own = r.kept.tables v (ground (arith, s.there)) other ∙ rw other refl;
      }
