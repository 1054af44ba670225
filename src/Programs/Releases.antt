-- ===== src/Programs/Releases.antt =====
-- How a program gives back what it holds: the calls that do so, and rules for `main`.
pub mod Steps
pub mod Shared
pub mod Watched
use servone.Prelude.{
  ℕ, Bool, true, false, String, ◌≡◌, refl, ap, sym, subst, ◌∙◌, ◌⊎◌, inl, inr, Option, none, some,
  List, [], ◌∷◌, ◌++◌, arith,
}
use servone.Value.{Error, Result, ok, err}
use servone.World.{
  World, Pool, Outcome, returned, panicked, exited, Action, and_then, finally, deferring, ◌>>=◌,
  ◌>>◌, Event, closed, kafka_closed, mqtt_disconnected, logged, trap_closed, watcher_closed,
  http_shut_down,
}
use servone.Programs.Host.{or_fatal, fatal_if}
use mathlib.Core.List.{append_assoc}

-- What is given back.
pub data Release : Type 0 where
  pool kafka mqtt traps watcher http : Release

abbrev pub released : Event → List Release
released (closed p e) = pool ∷ []
released kafka_closed = kafka ∷ []
released (mqtt_disconnected ms) = mqtt ∷ []
released trap_closed = traps ∷ []
released watcher_closed = watcher ∷ []
released (http_shut_down e) = http ∷ []
released _ = []

-- What was given back, the newest first.
abbrev pub releases : List Event → List Release
releases [] = []
releases (e ∷ es) = released e ++ releases es

-- What a call gives back: in every case, if some condition holds, or if the answer of the world at
-- the number of some call is yes.
pub data Part : Type 0 where
  always : Release → Part
  only_if : Bool → Release → Part
  if_up : (ℕ → Bool) → Release → Part

-- The list holds what the parts give back, in their order, and nothing else.
abbrev pub Matches : List Part → List Release → Type 0
Matches [] rs = rs ≡ []
Matches (always r ∷ parts) rs = (rest : List Release) × (rs ≡ r ∷ rest) × Matches parts rest
Matches (only_if true r ∷ parts) rs = (rest : List Release) × (rs ≡ r ∷ rest) × Matches parts rest
Matches (only_if false r ∷ parts) rs = Matches parts rs
Matches (if_up up r ∷ parts) rs =
    ((call : ℕ) × (up call ≡ false) × Matches parts rs)
    ⊎ ((call : ℕ) × (rest : List Release) × (up call ≡ true) × (rs ≡ r ∷ rest) × Matches parts rest)

-- The newest of the things given back since `w` match the parts, and `DbPool` is the same.
abbrev pub Gives : List Part → World → World → Type 0
Gives parts w w' =
    (w'.db_pool ≡ w.db_pool)
    × ((rs : List Release) × Matches parts rs × (releases w'.trace ≡ rs ++ releases w.trace))

-- The last thing that was done was a line of the log.
abbrev pub Says : World → Type 0
Says w = (line : String) × (es : List Event) × (w.trace ≡ logged line ∷ es)

-- The process ended with status 1, after a line of the log, and nothing was given back, or the call
-- returned, having given back what the parts say.
pub data Ends {A : Type 0} (parts : List Part) (w : World) (r : Outcome A × World) : Type 0 where
  exits : r.0 ≡ exited 1 → releases r.1.trace ≡ releases w.trace → Says r.1 → Ends parts w r
  returns : (a : A) → r.0 ≡ returned a → Gives parts w r.1 → Ends parts w r

-- A step that gave nothing back, before the rest.
pub Ends-after :
    {A : Type 0} (parts : List Part) (w v : World) (r : Outcome A × World)
    → Gives [] w v
    → Ends parts v r
    → Ends parts w r
Ends-after parts w v r (same, (rs, none_given, adds)) (exits ends kept says) =
    exits ends (kept ∙ adds ∙ ap (λ (l : List Release). l ++ releases w.trace) none_given) says
Ends-after parts w v r (same, (rs, none_given, adds)) (returns a h (kept, (gs, matched, added))) =
    let before : releases v.trace ≡ releases w.trace =
      adds ∙ ap (λ (l : List Release). l ++ releases w.trace) none_given in
    returns a h (kept ∙ same, (gs, matched, added ∙ ap (λ (l : List Release). gs ++ l) before))

-- A step of the start, and what follows it.
pub Ends-and_then :
    {A B : Type 0} (parts : List Part) (w : World) (r : Outcome A × World) (f : A → Action B)
    → Ends [] w r
    → ((a : A) → r.0 ≡ returned a → Gives [] w r.1 → Ends parts r.1 (f a r.1))
    → Ends parts w (and_then r f)
Ends-and_then parts w (returned a, v) f (exits h k said) next = cc
Ends-and_then parts w (returned a, v) f (returns b h k) next =
    Ends-after parts w v (f a v) k (next a refl k)
Ends-and_then parts w (panicked e, v) f (exits h k said) next = cc
Ends-and_then parts w (panicked e, v) f (returns a h k) next = cc
Ends-and_then parts w (exited n, v) f (exits h k said) next = exits (ground arith) k said
Ends-and_then parts w (exited n, v) f (returns a h k) next = cc

Matches-append :
    (part : Part) (parts : List Part) (rs gs : List Release)
    → Matches (part ∷ []) rs
    → Matches parts gs
    → Matches (part ∷ parts) (rs ++ gs)
Matches-append (always r) parts rs gs (rest, e, nothing) more =
    (gs, ap (λ (l : List Release). l ++ gs) (e ∙ ap (λ (l : List Release). r ∷ l) nothing), more)
Matches-append (only_if true r) parts rs gs (rest, e, nothing) more =
    (gs, ap (λ (l : List Release). l ++ gs) (e ∙ ap (λ (l : List Release). r ∷ l) nothing), more)
Matches-append (only_if false r) parts rs gs nothing more =
    subst (Matches parts) (sym (ap (λ (l : List Release). l ++ gs) nothing)) more
Matches-append (if_up up r) parts rs gs (inl (call, down, nothing)) more =
    inl (call, down, subst (Matches parts) (sym (ap (λ (l : List Release). l ++ gs) nothing)) more)
Matches-append (if_up up r) parts rs gs (inr (call, rest, is_up, e, nothing)) more = inr (
  call,
  gs,
  is_up,
  ap (λ (l : List Release). l ++ gs) (e ∙ ap (λ (l : List Release). r ∷ l) nothing),
  more,
)

pub Gives-deferred :
    (part : Part) (parts : List Part) (w v u : World)
    → Gives parts w v
    → Gives (part ∷ []) v u
    → Gives (part ∷ parts) w u
Gives-deferred part parts w v u (same, (gs, matched, added)) (kept, (rs, more, adds)) = (
  kept ∙ same,
  (
    rs ++ gs,
    Matches-append part parts rs gs more matched,
    adds ∙ ap (λ (l : List Release). rs ++ l) added ∙ sym (append_assoc rs gs (releases w.trace)),
  ),
)

-- A deferred call, which comes after what the rest gives back.
pub Ends-deferring :
    {A : Type 0} (part : Part) (parts : List Part) (w : World) (cleanup : Action Unit)
    (r : Outcome A × World)
    → Ends parts w r
    → ((v : World) → v.db_pool ≡ w.db_pool → Gives (part ∷ []) v (cleanup v).1)
    → Ends (part ∷ parts) w (finally r cleanup)
Ends-deferring part parts w cleanup (returned a, v) (exits h k said) cleans = cc
Ends-deferring part parts w cleanup (returned a, v) (returns b h (same, matched)) cleans =
    returns b h (Gives-deferred part parts w v (cleanup v).1 (same, matched) (cleans v same))
Ends-deferring part parts w cleanup (panicked e, v) (exits h k said) cleans = cc
Ends-deferring part parts w cleanup (panicked e, v) (returns a h k) cleans = cc
Ends-deferring part parts w cleanup (exited n, v) (exits h k said) cleans = exits h k said
Ends-deferring part parts w cleanup (exited n, v) (returns a h k) cleans = cc

-- A deferred call that gives nothing back.
pub Ends-deferring_logs :
    {A : Type 0} (parts : List Part) (w : World) (cleanup : Action Unit) (r : Outcome A × World)
    → Ends parts w r
    → ((v : World)
        → ((cleanup v).1.db_pool ≡ v.db_pool) × (releases (cleanup v).1.trace ≡ releases v.trace))
    → Ends parts w (finally r cleanup)
Ends-deferring_logs parts w cleanup (returned a, v) (exits h k said) quiet = cc
Ends-deferring_logs parts w cleanup (returned a, v) (returns b h (same, (rs, matched, adds)))
      quiet =
    let (kept, logs) = quiet v in returns b h (kept ∙ same, (rs, matched, logs ∙ adds))
Ends-deferring_logs parts w cleanup (panicked e, v) (exits h k said) quiet = cc
Ends-deferring_logs parts w cleanup (panicked e, v) (returns a h k) quiet = cc
Ends-deferring_logs parts w cleanup (exited n, v) (exits h k said) quiet = exits h k said
Ends-deferring_logs parts w cleanup (exited n, v) (returns a h k) quiet = cc
