-- ===== src/Contexts/Tests.antt =====
-- A run of a program of assignments, calls and commands.
use hemp.Base.{ℕ, refl, none, some, [], arith}
use hemp.Chars.{codes}
use hemp.Hash.Table.{jenkins, init}
use hemp.Contexts.Vars.{Context}
use hemp.Contexts.Runs.{
  Program, finished, assign, apply, scoped, with_params, just_params, run_program,
}
use hemp.Contexts.Kept.{Scope, Writes}
use hemp.Contexts.Laws.{run_program-Writes, written}

-- A context with one table
abbrev started : Context ℕ
started = record { tables = λ i. init; parents = λ i. none; unused = 1; vars = some 0; frames = [] }

-- `x = 1; f(a = 2) -> y = 3; with { z = 4 }; just { z = 5 }; x = 6`
abbrev program : Program ℕ
program = assign (codes "x") 1 (
    apply 7 (assign (codes "a") 2 finished) (assign (codes "y") 3 finished) (
      with_params init (assign (codes "z") 4 (scoped finished finished))
        (just_params init (assign (codes "z") 5 finished) (assign (codes "x") 6 finished))))

started-Scope : Scope 0 started
started-Scope = record { in_scope = refl; there = ground arith }

run_program-Writes_example :
    Writes 0
      (written ⦃hash = jenkins⦄ program init)
      started
      (run_program ⦃hash = jenkins⦄ program started)
run_program-Writes_example = run_program-Writes ⦃hash = jenkins⦄ program 0 started started-Scope
