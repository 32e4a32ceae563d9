-- ===== src/Contexts/Kept.antt =====
-- What the steps of a program leave as it was.
use hemp.Base.{ℕ, ◌≤◌, ◌<◌, ◌≡◌, refl, ap, ◌∙◌, true, false, Option, some, ◌==◌, ◌>>=◌, arith}
use hemp.Chars.{Str}
use hemp.Hash.Table.{HashFunction, Table, store}
use hemp.Contexts.Vars.{Context, changed, set_var}

pub changed_other {ℓ} :
    {A : Type ℓ} (f : ℕ → A) (k : ℕ) (a : A) (i : ℕ) → (i == k) ≡ false → changed f k a i ≡ f i
unfolding changed
changed_other f k a i h = rw h refl

pub same : (k : ℕ) → (k == k) ≡ true
same k = ground arith

pub changed_same {ℓ} : {A : Type ℓ} (f : ℕ → A) (k : ℕ) (a : A) → changed f k a k ≡ a
unfolding changed
changed_same f k a = rw (same k) refl

-- A name in scope, in a store that has it.
pub record Scope {ℓ} {V : Type ℓ} (v : ℕ) (c : Context V) : Type ℓ where
  pub in_scope : c.vars ≡ some v
  pub there : v < c.unused

-- What is as it was: the variables in scope, the frames, and all tables but `v`, with their parents.
pub record Kept {ℓ} {V : Type ℓ} (v : ℕ) (c c' : Context V) : Type ℓ where
  pub vars : c'.vars ≡ c.vars
  pub frames : c'.frames ≡ c.frames
  pub unused : c.unused ≤ c'.unused
  pub tables : (i : ℕ) → i < c.unused → (i == v) ≡ false → c'.tables i ≡ c.tables i
  pub parents : (i : ℕ) → i < c.unused → c'.parents i ≡ c.parents i

pub record Ran {ℓ} {V : Type ℓ} (v : ℕ) (c : Context V) (result : Option (Context V)) : Type ℓ where
  pub context : Context V
  pub ran : result ≡ some context
  pub kept : Kept v c context

-- The same, where the table in scope is `t` then.
pub record Writes {ℓ} {V : Type ℓ} (v : ℕ) (t : Table V) (c : Context V)
    (result : Option (Context V)) : Type ℓ where
  pub does : Ran v c result
  pub own : does.context.tables v ≡ t

module _ {ℓ} {V : Type ℓ} ⦃hash : HashFunction⦄ where
  pub Kept-Kept : (v : ℕ) (c c' c'' : Context V) → Kept v c c' → Kept v c' c'' → Kept v c c''
  Kept-Kept v c c' c'' k l = record {
    vars = l.vars ∙ k.vars;
    frames = l.frames ∙ k.frames;
    unused = ground (arith, k.unused, l.unused);
    tables = λ i h n. l.tables i (ground (arith, k.unused)) n ∙ k.tables i h n;
    parents = λ i h. l.parents i (ground (arith, k.unused)) ∙ k.parents i h;
  }

  pub Kept-Scope : (v : ℕ) (c c' : Context V) → Scope v c → Kept v c c' → Scope v c'
  Kept-Scope v c c' s k = record {
    in_scope = k.vars ∙ s.in_scope;
    there = ground (arith, k.unused, s.there);
  }

  -- What follows a step.
  pub then-Writes :
      (v : ℕ) (t t' : Table V) (c : Context V) (o : Option (Context V))
      (f : Context V → Option (Context V))
      → Scope v c
      → Writes v t c o
      → ((c' : Context V) → Scope v c' → c'.tables v ≡ t → Writes v t' c' (f c'))
      → Writes v t' c (o >>= f)
  then-Writes v t t' c o f s w h =
      let r = w.does in
      let n = h r.context (Kept-Scope v c r.context s r.kept) w.own in
      record {
        does = record {
          context = n.does.context;
          ran = ap (λ o. o >>= f) r.ran ∙ n.does.ran;
          kept = Kept-Kept v c r.context n.does.context r.kept n.does.kept;
        };
        own = n.own;
      }

  pub set_var-Writes :
      (name : Str) (x : V) (v : ℕ) (c : Context V)
      → Scope v c
      → Writes v (store (c.tables v) name x) c (set_var name x c)
  unfolding set_var
  set_var-Writes name x v c s = record {
    does = record {
      context = record c { tables = changed c.tables v (store (c.tables v) name x) };
      ran = rw (set_var, s.in_scope) refl;
      kept = record {
        vars = refl;
        frames = refl;
        unused = ground arith;
        tables = λ i h n. changed_other c.tables v _ i n;
        parents = λ i h. refl;
      };
    };
    own = changed_same c.tables v (store (c.tables v) name x);
  }
