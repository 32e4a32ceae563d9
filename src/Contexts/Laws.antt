-- ===== src/Contexts/Laws.antt =====
-- A program gives back the variables and the frames that it was given, and writes to no table but the one of
-- the variables in scope.
use mathlib.Core.Path.{subst}
use hemp.Base.{ℕ, refl, none, some, arith}
use hemp.Hash.Table.{HashFunction, Table, store}
use hemp.Contexts.Vars.{Context}
use hemp.Contexts.Runs.{
  Program, finished, assign, apply, scoped, with_params, just_params, run_program, apply_value,
  loop_frame, with_text, just_text,
}
use hemp.Contexts.Kept.{then-Writes, set_var-Writes, Scope, Writes}
use hemp.Contexts.Frames.{scoped-Writes}
use hemp.Contexts.Tables.{with_params-Writes, just_params-Writes}
use hemp.Contexts.Calls.{apply-Writes}

module _ {ℓ} {V : Type ℓ} ⦃hash : HashFunction⦄ where
  -- What the assignments of a program that are in no inner scope make of a table.
  unfoldable pub written : Program V → Table V → Table V
  written finished t = t
  written (assign name v next) t = written next (store t name v)
  written (apply fragment args body next) t = written next t
  written (scoped body next) t = written next t
  written (with_params params body next) t = written next t
  written (just_params params body next) t = written next t

  -- An evaluation that made the steps of a program, none of which threw an error of its own, with variables in scope, made no use
  -- of NULL and met no missing frame, and gives back the variables and the frames: the table in scope has the
  -- assignments of the program that are in no inner scope, and every other table, and the chain of every
  -- table, is as it was, through applications with their arguments, the scopes of loops, and the commands with
  -- and just, in any nesting.
  pub run_program-Writes :
      (p : Program V) (v : ℕ) (c : Context V)
      → Scope v c
      → Writes v (written p (c.tables v)) c (run_program p c)
  unfolding run_program written apply_value loop_frame with_text just_text
  run_program-Writes finished v c s = record {
    does = record {
      context = c;
      ran = refl;
      kept = record {
        vars = refl;
        frames = refl;
        unused = ground arith;
        tables = λ i h n. refl;
        parents = λ i h. refl;
      };
    };
    own = refl;
  }
  run_program-Writes (assign name x next) v c s =
      then-Writes v (store (c.tables v) name x) (written next (store (c.tables v) name x)) c _
        (run_program next) s (set_var-Writes name x v c s)
        (λ c' s' e.
          subst (λ t. Writes v (written next t) c' (run_program next c')) e
            (run_program-Writes next v c' s'))
  run_program-Writes (apply fragment args body next) v c s =
      then-Writes v (c.tables v) (written next (c.tables v)) c _ (run_program next) s
        (apply-Writes (some fragment) (run_program args) (run_program body) v c s
          (λ v' c' s'. (run_program-Writes args v' c' s').does)
          (λ v' c' s'. (run_program-Writes body v' c' s').does))
        (λ c' s' e.
          subst (λ t. Writes v (written next t) c' (run_program next c')) e
            (run_program-Writes next v c' s'))
  run_program-Writes (scoped body next) v c s =
      then-Writes v (c.tables v) (written next (c.tables v)) c _ (run_program next) s
        (scoped-Writes none (run_program body) v c s
          (λ v' c' s'. (run_program-Writes body v' c' s').does))
        (λ c' s' e.
          subst (λ t. Writes v (written next t) c' (run_program next c')) e
            (run_program-Writes next v c' s'))
  run_program-Writes (with_params params body next) v c s =
      then-Writes v (c.tables v) (written next (c.tables v)) c _ (run_program next) s
        (with_params-Writes params (run_program body) v c s
          (λ v' c' s'. (run_program-Writes body v' c' s').does))
        (λ c' s' e.
          subst (λ t. Writes v (written next t) c' (run_program next c')) e
            (run_program-Writes next v c' s'))
  run_program-Writes (just_params params body next) v c s =
      then-Writes v (c.tables v) (written next (c.tables v)) c _ (run_program next) s
        (just_params-Writes params (run_program body) v c s
          (λ v' c' s'. (run_program-Writes body v' c' s').does))
        (λ c' s' e.
          subst (λ t. Writes v (written next t) c' (run_program next c')) e
            (run_program-Writes next v c' s'))
