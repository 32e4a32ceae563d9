-- ===== src/Contexts/Frames.antt =====
-- A frame around a body, from library/context.c.
use mathlib.Core.Path.{subst}
use hemp.Base.{ℕ, suc, ◌≤◌, ◌<◌, ◌≡◌, refl, sym, ◌∙◌, false, Option, some, ◌==◌, ◌>>=◌, arith}
use hemp.Hash.Table.{HashFunction, Table}
use hemp.Contexts.Vars.{Context, changed, new_table, enter, leave}
use hemp.Contexts.Kept.{same, Scope, Kept, Ran, Writes}

module _ {ℓ} {V : Type ℓ} ⦃hash : HashFunction⦄ where
  -- What the evaluation within a new frame leaves, for the frame to be left.
  pub record Inner (fragment : Option ℕ) (c d : Context V) : Type ℓ where
    pub frames : d.frames ≡ (enter fragment c).frames
    pub parent : d.parents (suc c.unused) ≡ c.vars
    pub unused : c.unused ≤ d.unused
    pub tables : (i : ℕ) → i < c.unused → d.tables i ≡ c.tables i
    pub parents : (i : ℕ) → i < c.unused → d.parents i ≡ c.parents i

  pub leave-Writes :
      (fragment : Option ℕ) (v : ℕ) (c d : Context V)
      → Scope v c
      → Inner fragment c d
      → Writes v (c.tables v) c (leave d)
  unfolding leave enter new_table
  leave-Writes fragment v c d s n = record {
    does = record {
      context = record d { vars = d.parents (suc c.unused); frames = c.frames };
      ran = rw (leave, n.frames) refl;
      kept = record {
        vars = n.parent;
        frames = refl;
        unused = n.unused;
        tables = λ i h ne. n.tables i h;
        parents = n.parents;
      };
    };
    own = n.tables v s.there;
  }

  -- A step before another that writes.
  pub after-Writes :
      (v : ℕ) (t : Table V) (c d : Context V) (o : Option (Context V))
      (f : Context V → Option (Context V))
      → o ≡ some d
      → Writes v t c (f d)
      → Writes v t c (o >>= f)
  after-Writes v t c d o f e w = subst (λ p. Writes v t c (p >>= f)) (sym e) w

  -- A new frame, in front of a context.
  pub enter_below :
      (fragment : Option ℕ) (c : Context V) (i : ℕ)
      → i < c.unused
      → ((enter fragment c).tables i ≡ c.tables i) × ((enter fragment c).parents i ≡ c.parents i)
  unfolding enter new_table changed
  enter_below fragment c i h =
      let one : (i == c.unused) ≡ false = ground arith in
      let two : (i == suc c.unused) ≡ false = ground arith in
      (rw (one, two) refl, rw (one, two) refl)

  pub enter-Scope : (fragment : Option ℕ) (c : Context V) → Scope (suc c.unused) (enter fragment c)
  unfolding enter new_table
  enter-Scope fragment c = record { in_scope = refl; there = ground arith }

  pub enter_parent :
      (fragment : Option ℕ) (c : Context V) → (enter fragment c).parents (suc c.unused) ≡ c.vars
  unfolding enter new_table changed
  enter_parent fragment c = rw (same (suc c.unused)) refl

  pub enter_unused :
      (fragment : Option ℕ) (c : Context V) → (enter fragment c).unused ≡ suc (suc c.unused)
  unfolding enter new_table
  enter_unused fragment c = refl

  -- A body that keeps what it is given, in a frame of its own.
  pub Kept-Inner :
      (fragment : Option ℕ) (c d : Context V)
      → Kept (suc c.unused) (enter fragment c) d
      → Inner fragment c d
  Kept-Inner fragment c d k = record {
    frames = k.frames;
    parent =
        k.parents (suc c.unused) (ground (arith, enter_unused fragment c))
        ∙ enter_parent fragment c;
    unused = ground (arith, k.unused, enter_unused fragment c);
    tables = λ i h.
        k.tables i (ground (arith, enter_unused fragment c)) (ground arith)
        ∙ (enter_below fragment c i h).0;
    parents = λ i h.
        k.parents i (ground (arith, enter_unused fragment c)) ∙ (enter_below fragment c i h).1;
  }

  pub scoped-Writes :
      (fragment : Option ℕ) (body : Context V → Option (Context V)) (v : ℕ) (c : Context V)
      → Scope v c
      → ((v' : ℕ) (c' : Context V) → Scope v' c' → Ran v' c' (body c'))
      → Writes v (c.tables v) c (body (enter fragment c) >>= leave)
  scoped-Writes fragment body v c s h =
      let r = h (suc c.unused) (enter fragment c) (enter-Scope fragment c) in
      after-Writes v (c.tables v) c r.context (body (enter fragment c)) leave r.ran
        (leave-Writes fragment v c r.context s (Kept-Inner fragment c r.context r.kept))
