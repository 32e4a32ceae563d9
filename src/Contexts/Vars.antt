-- ===== src/Contexts/Vars.antt =====
-- struct hemp_context (include/hemp/context.h), with its frames, and the operations of library/context.c. The
-- hash tables of variables are in a store, where a pointer is a number, and their `parent` fields beside them.
use hemp.Base.{ℕ, suc, Option, none, some, List, [], ◌∷◌, ◌==◌, if◌then◌else◌}
use hemp.Chars.{Str}
use hemp.Hash.Table.{HashFunction, Table, init, store}

-- struct hemp_frame. Its parent is behind it in the list of frames; `nominals` are the named parameters.
pub record Frame : Type 0 where
  pub fragment : Option ℕ
  pub vars : ℕ
  pub nominals : ℕ

pub record Context {ℓ} (V : Type ℓ) : Type ℓ where
  pub tables : ℕ → Table V
  pub parents : ℕ → Option ℕ
  pub unused : ℕ
  pub vars : Option ℕ
  pub frames : List Frame

-- A store in which one entry is changed.
unfoldable pub changed {ℓ} : {A : Type ℓ} → (ℕ → A) → ℕ → A → ℕ → A
changed f k a i = if i == k then a else f i

-- `if (! vars) vars = old->parent`
abbrev pub or_parent : Option ℕ → Option ℕ → Option ℕ
or_parent none parent = parent
or_parent (some vars) parent = some vars

module _ {ℓ} {V : Type ℓ} ⦃hash : HashFunction⦄ where
  -- `hemp_hash_new`: the table, and its number.
  unfoldable pub new_table : Table V → Context V → ℕ × Context V
  unfolding changed
  new_table t c = (
    c.unused,
    record c {
      tables = changed c.tables c.unused t;
      parents = changed c.parents c.unused none;
      unused = suc c.unused;
    },
  )

  -- `hemp_context_enter`, with `hemp_frame_init`: the named parameters get a table, and the variables.
  unfoldable pub enter : Option ℕ → Context V → Context V
  unfolding new_table init changed
  enter fragment c =
      let (nominals, c1) = new_table init c in
      let (vars, c2) = new_table init c1 in
      record c2 {
        parents = changed c2.parents vars c.vars;
        vars = some vars;
        frames = record { fragment = fragment; vars = vars; nominals = nominals } ∷ c.frames;
      }

  -- `hemp_context_leave`; `none` is the fatal error where there is no frame. The tables of the frame are
  -- released, so that they are not used again.
  abbrev pub left_frame : List Frame → Context V → Option (Context V)
  left_frame [] c = none
  left_frame (f ∷ frames) c = some (record c { vars = c.parents f.vars; frames = frames })

  unfoldable pub leave : Context V → Option (Context V)
  leave c = left_frame c.frames c

  -- `hemp_context_with`
  unfoldable pub with_vars : ℕ → Context V → Context V
  unfolding changed
  with_vars vars c = record c { parents = changed c.parents vars c.vars; vars = some vars }

  -- `hemp_context_just`
  unfoldable pub just_vars : ℕ → Context V → Context V
  unfolding changed
  just_vars vars c = record c { parents = changed c.parents vars none; vars = some vars }

  -- `hemp_context_without`; `none` is a read through NULL.
  abbrev pub without_old : Option ℕ → Option ℕ → Context V → Option (Context V)
  without_old vars none c = none
  without_old vars (some old) c =
      some
        (record c { vars = or_parent vars (c.parents old); parents = changed c.parents old none })

  unfoldable pub without_vars : Option ℕ → Context V → Option (Context V)
  unfolding changed
  without_vars vars c = without_old vars c.vars c

  -- `hemp_context_focus_params`
  abbrev pub focus_frame : List Frame → Context V → Context V
  focus_frame [] c = c
  focus_frame (f ∷ frames) c = record c {
    parents = changed c.parents f.nominals c.vars;
    vars = some f.nominals;
  }

  unfoldable pub focus_params : Context V → Context V
  unfolding changed
  focus_params c = focus_frame c.frames c

  -- `hemp_context_blur_params`
  abbrev pub blur_frame : List Frame → Context V → Context V
  blur_frame [] c = c
  blur_frame (f ∷ frames) c = record c {
    vars = c.parents f.nominals;
    parents = changed c.parents f.nominals none;
  }

  unfoldable pub blur_params : Context V → Context V
  unfolding changed
  blur_params c = blur_frame c.frames c

  -- `hemp_context_set`; `none` is a write through NULL.
  abbrev pub set_in : Option ℕ → Str → V → Context V → Option (Context V)
  set_in none name v c = none
  set_in (some vars) name v c =
      some (record c { tables = changed c.tables vars (store (c.tables vars) name v) })

  unfoldable pub set_var : Str → V → Context V → Option (Context V)
  unfolding changed store
  set_var name v c = set_in c.vars name v c
