-- ===== src/World/Laws.antt =====
-- Laws of the sequencing of actions.
use servone.Prelude.{◌≡◌}
use servone.World.{World, Outcome, returned, panicked, exited, Action, and_then}

-- After an action that returns, the rest runs on its result.
pub and_then_returned :
    {A B : Type 0} (r : Outcome A × World) (a : A) (f : A → Action B)
    → r.0 ≡ returned a
    → and_then r f ≡ f a r.1
and_then_returned (returned b, w) a f h = cc
and_then_returned (panicked e, w) a f h = cc
and_then_returned (exited n, w) a f h = cc

-- What an action keeps, and each continuation keeps, their sequence keeps.
pub and_then_keeps :
    {A B : Type 0} (P : World → Type 0) (r : Outcome A × World) (f : A → Action B)
    → P r.1
    → ((a : A) (w : World) → P w → P (f a w).1)
    → P (and_then r f).1
and_then_keeps P (returned a, w) f h k = k a w h
and_then_keeps P (panicked e, w) f h k = h
and_then_keeps P (exited n, w) f h k = h
