-- ===== src/Contexts/Calls.antt =====
-- The arguments of an application, in its frame.
use mathlib.Core.Path.{subst}
use hemp.Base.{
  ℕ, suc, ◌<◌, ◌≡◌, refl, sym, ◌∙◌, false, Option, none, some, ◌==◌, if◌then◌else◌, ◌>>=◌, arith,
}
use hemp.Hash.Table.{HashFunction}
use hemp.Contexts.Vars.{Context, changed, new_table, enter, leave, focus_params, blur_params}
use hemp.Contexts.Kept.{changed_other, same, Scope, Kept, Ran, Writes}
use hemp.Contexts.Frames.{leave-Writes, after-Writes, enter_below, enter_parent, Inner}

module _ {ℓ} {V : Type ℓ} ⦃hash : HashFunction⦄ where
  -- The arguments of an application, in its frame.
  focused :
      (fragment : Option ℕ) (args : Context V → Option (Context V)) (c : Context V)
      → ((v' : ℕ) (c' : Context V) → Scope v' c' → Ran v' c' (args c'))
      → Ran c.unused (focus_params (enter fragment c)) (args (focus_params (enter fragment c)))
  unfolding focus_params enter new_table
  focused fragment args c g =
      g c.unused (focus_params (enter fragment c))
        (record { in_scope = refl; there = ground arith })

  -- The parents behind the focus on the parameters
  focus_parents :
      (fragment : Option ℕ) (c : Context V) (i : ℕ)
      → (focus_params (enter fragment c)).parents i
        ≡ (if i == c.unused then some (suc c.unused) else (enter fragment c).parents i)
  unfolding focus_params enter new_table changed
  focus_parents fragment c i = refl

  focus_same :
      (fragment : Option ℕ) (c : Context V)
      → ((focus_params (enter fragment c)).unused ≡ suc (suc c.unused))
        × ((i : ℕ) → (focus_params (enter fragment c)).tables i ≡ (enter fragment c).tables i)
        × ((focus_params (enter fragment c)).frames ≡ (enter fragment c).frames)
  unfolding focus_params enter new_table
  focus_same fragment c = (refl, λ i. refl, refl)

  blur_frames :
      (fragment : Option ℕ) (c d : Context V)
      → d.frames ≡ (enter fragment c).frames
      → blur_params d
        ≡ record d { vars = d.parents c.unused; parents = changed d.parents c.unused none }
  unfolding blur_params enter new_table
  blur_frames fragment c d e = rw (blur_params, e) refl

  -- What the parameters leave, when they are put out of focus.
  blurred :
      (fragment : Option ℕ) (c d : Context V)
      → Kept c.unused (focus_params (enter fragment c)) d
      → Scope (suc c.unused) (blur_params d) × Inner fragment c (blur_params d)
  blurred fragment c d k =
      let f = focus_same fragment c in
      let frames = k.frames ∙ f.2 in
      let behind : (suc c.unused == c.unused) ≡ false = ground arith in
      subst (λ b. Scope (suc c.unused) b × Inner fragment c b)
        (sym (blur_frames fragment c d frames))
        (
          record {
            in_scope =
                k.parents c.unused (ground (arith, f.0))
                ∙ focus_parents fragment c c.unused
                ∙ rw (same c.unused) refl;
            there = ground (arith, k.unused, f.0);
          },
          record {
            frames = frames;
            parent =
                changed_other d.parents c.unused none (suc c.unused) behind
                ∙ k.parents (suc c.unused) (ground (arith, f.0))
                ∙ focus_parents fragment c (suc c.unused)
                ∙ rw behind (enter_parent fragment c);
            unused = ground (arith, k.unused, f.0);
            tables = λ i h.
                k.tables i (ground (arith, f.0)) (ground arith)
                ∙ f.1 i
                ∙ (enter_below fragment c i h).0;
            parents = λ i h.
                let other : (i == c.unused) ≡ false = ground arith in
                changed_other d.parents c.unused none i other
                ∙ k.parents i (ground (arith, f.0))
                ∙ focus_parents fragment c i
                ∙ rw other (enter_below fragment c i h).1;
          },
        )

  -- What is kept within a frame is kept for the frame.
  Inner-Kept :
      (fragment : Option ℕ) (c b d : Context V)
      → Inner fragment c b
      → Kept (suc c.unused) b d
      → suc c.unused < b.unused
      → Inner fragment c d
  Inner-Kept fragment c b d n k lt = record {
    frames = k.frames ∙ n.frames;
    parent = k.parents (suc c.unused) lt ∙ n.parent;
    unused = ground (arith, k.unused, n.unused);
    tables = λ i h. k.tables i (ground (arith, n.unused)) (ground arith) ∙ n.tables i h;
    parents = λ i h. k.parents i (ground (arith, n.unused)) ∙ n.parents i h;
  }

  pub apply-Writes :
      (fragment : Option ℕ) (args body : Context V → Option (Context V)) (v : ℕ) (c : Context V)
      → Scope v c
      → ((v' : ℕ) (c' : Context V) → Scope v' c' → Ran v' c' (args c'))
      → ((v' : ℕ) (c' : Context V) → Scope v' c' → Ran v' c' (body c'))
      → Writes v
          (c.tables v)
          c
          (args (focus_params (enter fragment c)) >>= λ c1. body (blur_params c1) >>= leave)
  apply-Writes fragment args body v c s g h =
      let r = focused fragment args c g in
      let b = blurred fragment c r.context r.kept in
      let q = h (suc c.unused) (blur_params r.context) b.0 in
      after-Writes v (c.tables v) c r.context _ (λ c1. body (blur_params c1) >>= leave) r.ran
        (after-Writes v (c.tables v) c q.context (body (blur_params r.context)) leave q.ran (
          leave-Writes fragment v c q.context s
            (Inner-Kept fragment c (blur_params r.context) q.context b.1 q.kept b.0.there)))
