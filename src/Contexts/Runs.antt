-- ===== src/Contexts/Runs.antt =====
-- What the elements of a program do to the variables: assignments (library/element/word.c), applications
-- (library/element/apply.c), scopes of loops (library/element/command/{each,in}.c), and the commands `with` and
-- `just` (library/element/command/{with,just}.c).
use hemp.Base.{ℕ, Option, none, some, ◌>>=◌}
use hemp.Chars.{Str}
use hemp.Hash.Table.{HashFunction, Table}
use hemp.Contexts.Vars.{
  Context, new_table, enter, leave, with_vars, just_vars, without_vars, focus_params, blur_params,
  set_var,
}

-- The steps that an evaluation made, in order, each with what followed it: a condition or a recursion stands here as
-- the steps it came to. An evaluation that does not end, or that throws an error, has no such list.
pub data Program {ℓ} (V : Type ℓ) : Type ℓ where
  finished : Program V
  assign : Str → V → Program V → Program V
  apply : ℕ → Program V → Program V → Program V → Program V
  scoped : Program V → Program V → Program V
  with_params : Table V → Program V → Program V → Program V
  just_params : Table V → Program V → Program V → Program V

module _ {ℓ} {V : Type ℓ} ⦃hash : HashFunction⦄ where
  -- `hemp_element_apply_value`: the arguments and then the body, in a new frame.
  unfoldable pub apply_value :
      ℕ
      → (Context V → Option (Context V))
      → (Context V → Option (Context V))
      → Context V
      → Option (Context V)
  unfolding enter leave focus_params blur_params
  apply_value fragment args body c =
      args (focus_params (enter (some fragment) c)) >>= λ c1. body (blur_params c1) >>= leave

  -- The frame around the loops
  unfoldable pub loop_frame : (Context V → Option (Context V)) → Context V → Option (Context V)
  unfolding enter leave
  loop_frame body c = body (enter none c) >>= leave

  -- `hemp_element_command_with_text`, with the table of its parameters
  unfoldable pub with_text :
      Table V → (Context V → Option (Context V)) → Context V → Option (Context V)
  unfolding new_table with_vars without_vars
  with_text params body c =
      let (vars, c1) = new_table params c in body (with_vars vars c1) >>= without_vars none

  -- `hemp_element_command_just_text`
  unfoldable pub just_text :
      Table V → (Context V → Option (Context V)) → Context V → Option (Context V)
  unfolding new_table just_vars without_vars
  just_text params body c =
      let (vars, c1) = new_table params c in body (just_vars vars c1) >>= without_vars c.vars

  -- The steps of an evaluation, as far as the variables go.
  unfoldable pub run_program : Program V → Context V → Option (Context V)
  unfolding apply_value loop_frame with_text just_text set_var
  run_program finished c = some c
  run_program (assign name v next) c = set_var name v c >>= run_program next
  run_program (apply fragment args body next) c =
      apply_value fragment (run_program args) (run_program body) c >>= run_program next
  run_program (scoped body next) c = loop_frame (run_program body) c >>= run_program next
  run_program (with_params params body next) c =
      with_text params (run_program body) c >>= run_program next
  run_program (just_params params body next) c =
      just_text params (run_program body) c >>= run_program next
