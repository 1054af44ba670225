-- ===== src/Programs/Race/Laws.antt =====
-- Where the end of a process can be cut.
use servone.Prelude.{String, ◌≡◌, refl, sym, subst, false, true, none, some, List, [], ◌∷◌, ◌++◌}
use servone.World.{World, Outcome, returned, panicked, exited, Action, log_fatalf}
use servone.Programs.Race.{
  Phase, shutting_down, leaving, Process, settle, signalled, calls_shutdown, returns_from_shutdown,
  runs_deferred, fails, Steps, rests, steps,
}

-- The world after calls in their order.
abbrev pub run_all : List (Action Unit) → World → World
run_all [] w = w
run_all (call ∷ calls) w = run_all calls (call w).1

-- A call that neither panics nor ends the process.
abbrev pub Returns : Action Unit → Type 0
Returns call = (w : World) → (call w).0 ≡ returned tt

abbrev pub AllReturn : List (Action Unit) → Type 0
AllReturn [] = Unit
AllReturn (call ∷ calls) = Returns call × AllReturn calls

pub settle-returned :
    (r : Outcome Unit × World) (next : Phase) (s : Process)
    → r.0 ≡ returned tt
    → settle r next s ≡ record s { phase = next; world = r.1 }
settle-returned (returned tt, v) next s h = refl
settle-returned (panicked e, v) next s h = cc
settle-returned (exited n, v) next s h = cc

module _ (closing : Action Unit) (deferred : List (Action Unit)) (line : String) (w : World) where
  -- The world after `main` from the signal on, with some deferred calls.
  abbrev pub left_by : List (Action Unit) → World
  left_by calls = run_all calls (closing w).1

  -- The goroutine's line of the log.
  abbrev pub after_fatal : World → World
  after_fatal v = (log_fatalf {A = Unit} line v).1

  -- `main` at its deferred calls, while the server has stopped serving.
  abbrev at_calls : List (Action Unit) → World → Process
  at_calls calls v = record {
    phase = leaving calls;
    panicking = false;
    served = true;
    status = none;
    world = v;
  }

  -- The calls that are run next.
  run_next :
      (ran left : List (Action Unit)) (v : World)
      → AllReturn ran
      → Steps closing deferred line (at_calls (ran ++ left) v) (at_calls left (run_all ran v))
  run_next [] left v return = rests
  run_next (call ∷ ran) left v (quiet, return) =
      let s = at_calls (call ∷ ran ++ left) v in
      steps (runs_deferred call (ran ++ left) refl refl) (
        subst (λ u. Steps closing deferred line u (at_calls left (run_all ran (call v).1)))
          (sym (settle-returned (call v) (leaving (ran ++ left)) s (quiet v)))
          (run_next ran left (call v).1 return))

  then_more :
      {s t u : Process}
      → Steps closing deferred line s t
      → Steps closing deferred line t u
      → Steps closing deferred line s u
  then_more rests after = after
  then_more (steps one more) after = steps one (then_more more after)

  -- Every cut happens: wherever the deferred calls are divided, if the end of `main` and the calls
  -- before the cut return, there is a run in which those have run, those behind it never do, and the
  -- process has ended with status 1.
  pub cut_happens :
      (ran left : List (Action Unit))
      → Returns closing
      → AllReturn ran
      → ran ++ left ≡ deferred
      → (t : Process) × Steps closing deferred line (signalled w) t
        × (t.status ≡ some 1)
        × (t.world ≡ after_fatal (left_by ran))
  cut_happens ran left closes return is_split =
      let before = at_calls left (left_by ran) in
      let cut : Process = record before { status = some 1; world = after_fatal (left_by ran) } in
      let s : Process = record (at_calls deferred w) { phase = shutting_down } in
      let leaves : Steps closing deferred line (at_calls deferred (closing w).1) before =
        subst (λ calls. Steps closing deferred line (at_calls calls (closing w).1) before) is_split
          (run_next ran left (closing w).1 return) in
      let rest : Steps closing deferred line (at_calls deferred (closing w).1) cut =
        then_more leaves (steps (fails refl refl) rests) in
      (
        cut,
        steps (calls_shutdown refl refl) (
            steps (returns_from_shutdown refl refl) (
              subst (λ u. Steps closing deferred line u cut)
                (sym (settle-returned (closing w) (leaving deferred) s (closes w))) rest)),
        refl,
        refl,
      )
