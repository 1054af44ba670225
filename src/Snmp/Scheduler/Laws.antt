-- ===== src/Snmp/Scheduler/Laws.antt =====
-- What `Stop` promises of the scheduler.
use servone.Prelude.{String, ◌≡◌, refl, Bool, true, false, Option, List, [], ◌∷◌, arith}
use servone.Value.{Error}
use servone.World.{Env, World, returned}
use servone.Snmp.Results.{PduText}
use servone.Snmp.Client.{Agents, SnmpClient, walk_v3}
use servone.Snmp.Scheduler.{
  Phase, not_started, starting, selecting, ended, walking, waiting, returned_from, Scheduler, fresh,
  IsDone, Step, begins, ticks, walks, rounds, sees_stop, calls_stop, leaves_stop, Steps, rests,
  steps,
}

-- Once `Stop` is called the channel is closed, and once it has returned the goroutine is done.
pub record IsSound (s : Scheduler) : Type 0 where
  pub closed : s.stopper ≡ waiting → s.stop_closed ≡ true
  pub finished : s.stopper ≡ returned_from → IsDone s.phase

module _ (agents : Agents) (print : PduText) (env : Env) (c : SnmpClient) where
  -- No step begins where the goroutine is done and `Stop` has returned.
  no-Step :
      {s t : Scheduler}
      → Step agents print env c s t
      → s.stopper ≡ returned_from
      → IsDone s.phase
      → ⊥
  no-Step (begins e) h d = ground arith
  no-Step (ticks e) h d = ground arith
  no-Step (walks target targets x w e k) h d = ground arith
  no-Step (rounds e) h d = ground arith
  no-Step (sees_stop e k) h d = ground arith
  no-Step (calls_stop e) h d = ground arith
  no-Step (leaves_stop e k) h d = ground arith

  Step-IsSound : {s t : Scheduler} → Step agents print env c s t → IsSound s → IsSound t
  Step-IsSound (begins e) v = ground arith
  Step-IsSound (ticks e) v = ground arith
  Step-IsSound (walks target targets x w e k) v = ground arith
  Step-IsSound (rounds e) v = ground arith
  Step-IsSound (sees_stop e k) v = ground arith
  Step-IsSound (calls_stop e) v = ground arith
  Step-IsSound (leaves_stop e k) v = ground arith

  fresh-IsSound : (started : Bool) (w : World) → IsSound (fresh started w)
  fresh-IsSound true w = ground arith
  fresh-IsSound false w = ground arith

  Steps-IsSound : {s t : Scheduler} → Steps agents print env c s t → IsSound s → IsSound t
  Steps-IsSound rests v = v
  Steps-IsSound (steps one more) v = Steps-IsSound more (Step-IsSound one v)

  stays :
      {s t : Scheduler}
      → Steps agents print env c s t
      → s.stopper ≡ returned_from
      → IsDone s.phase
      → t ≡ s
  stays rests h d = refl
  stays (steps one more) h d = elim (no-Step one h d) [ ]

  -- Once `Stop` has returned, nothing more happens: the scheduler and the world stay as they are.
  pub stop_final :
      (started : Bool) (w : World) {s t : Scheduler}
      → Steps agents print env c (fresh started w) s
      → s.stopper ≡ returned_from
      → Steps agents print env c s t
      → t ≡ s
  stop_final started w before h after =
      stays after h ((Steps-IsSound before (fresh-IsSound started w)).finished h)

  -- A walk returns, whatever it is asked and in whatever world.
  abbrev pub WalksReturn : Type 0
  WalksReturn =
      (target : String) (w : World)
      → (e : Option Error) × (w' : World) × (walk_v3 agents print env c target c.config.root_oid w
          ≡ (returned e, w'))

  -- From here `Stop` can return.
  abbrev pub CanStop : Scheduler → Type 0
  CanStop s = (t : Scheduler) × Steps agents print env c s t × (t.stopper ≡ returned_from)

  then_steps : {s t : Scheduler} → Step agents print env c s t → CanStop t → CanStop s
  then_steps one (t, more, h) = (t, steps one more, h)

  from_done : (s : Scheduler) → s.stopper ≡ waiting → IsDone s.phase → CanStop s
  from_done s h d = then_steps (leaves_stop h d) (_, rests, refl)

  from_selecting :
      (s : Scheduler) → s.stopper ≡ waiting → s.stop_closed ≡ true → s.phase ≡ selecting → CanStop s
  from_selecting s h closed e = then_steps (sees_stop e closed) (from_done _ h tt)

  from_walking :
      WalksReturn
      → (targets : List String) (s : Scheduler) → s.stopper ≡ waiting
      → s.stop_closed ≡ true
      → s.phase ≡ walking targets
      → CanStop s
  from_walking walk [] s h closed e = then_steps (rounds e) (from_selecting _ h closed refl)
  from_walking walk (target ∷ targets) s h closed e =
      let (x, w, returns) = walk target s.world in
      then_steps (walks target targets x w e returns) (from_walking walk targets _ h closed refl)

  from_phase :
      WalksReturn
      → (phase : Phase) (s : Scheduler) → s.stopper ≡ waiting
      → s.stop_closed ≡ true
      → s.phase ≡ phase
      → CanStop s
  from_phase walk not_started s h closed e = from_done s h (rw e tt)
  from_phase walk starting s h closed e = then_steps (begins e) (from_selecting _ h closed refl)
  from_phase walk selecting s h closed e = from_selecting s h closed e
  from_phase walk ended s h closed e = from_done s h (rw e tt)
  from_phase walk (walking targets) s h closed e = from_walking walk targets s h closed e

  -- If walks return, then `Stop` is never stuck: wherever it waits, the goroutine can run to its
  -- end, after the round under way, and then `Stop` returns.
  pub stop_can_return :
      WalksReturn
      → (started : Bool) (w : World) {s : Scheduler} → Steps agents print env c (fresh started w) s
      → s.stopper ≡ waiting
      → CanStop s
  stop_can_return walk started w {s} before h =
      from_phase walk s.phase s h ((Steps-IsSound before (fresh-IsSound started w)).closed h) refl
