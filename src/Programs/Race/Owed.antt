-- ===== src/Programs/Race/Owed.antt =====
-- What `main` still owes at its deferred calls, and what is given back if the process ends there.
use servone.Prelude.{
  ℕ, Bool, true, false, String, ◌≡◌, refl, sym, ap, subst, ◌∙◌, ◌⊎◌, inl, inr, Option, none, some,
  List, [], ◌∷◌, ◌++◌, if◌then◌else◌,
}
use servone.World.{World, Pool, Action, returned, log_fatalf}
use servone.Programs.Releases.{Release, releases, Part, Gives, Gives-deferred}
use servone.Programs.Race.{
  Phase, at_signal, shutting_down, leaving, Process, signalled, Step, calls_shutdown,
  returns_from_shutdown, runs_deferred, ends_main, fails, Steps, rests, steps,
}
use servone.Programs.Race.Laws.{settle-returned}
use mathlib.Core.List.{append_assoc, append-nil}

-- The process ended with status 0 and gave back all the parts, or with status 1 and gave back those
-- that come last in the list, from none to all of them.
abbrev pub Ended : List Part → World → ℕ → World → Type 0
Ended all w n v =
    ((n ≡ 0) × Gives all w v)
    ⊎ ((n ≡ 1) × ((lost : List Part) × (kept : List Part) × (lost ++ kept ≡ all) × Gives kept w v))

-- With the pool open, the call returns and gives back the parts.
abbrev pub Keeps : Pool → Action Unit → List Part → Type 0
Keeps p call parts =
    (v : World) → v.db_pool ≡ some p → ((call v).0 ≡ returned tt) × Gives parts v (call v).1

-- The calls that are left give back what is missing, each one part or nothing.
abbrev pub Owes : Pool → List (Action Unit) → List Part → List Part → Type 0
Owes p [] given all = given ≡ all
Owes p (call ∷ calls) given all =
    (Keeps p call [] × Owes p calls given all)
    ⊎ ((part : Part) × Keeps p call (part ∷ []) × Owes p calls (part ∷ given) all)

Owes-cut :
    (p : Pool) (calls : List (Action Unit)) (given all : List Part)
    → Owes p calls given all
    → (lost : List Part) × (lost ++ given ≡ all)
Owes-cut p [] given all h = ([], h)
Owes-cut p (call ∷ calls) given all (inl (quiet, owes)) = Owes-cut p calls given all owes
Owes-cut p (call ∷ calls) given all (inr (part, keeps, owes)) =
    let (lost, is_all) = Owes-cut p calls (part ∷ given) all owes in
    (lost ++ part ∷ [], append_assoc lost (part ∷ []) given ∙ is_all)

-- After a call that gives nothing back.
Gives-after : (parts : List Part) (w v u : World) → Gives parts w v → Gives [] v u → Gives parts w u
Gives-after parts w v u (same, (rs, matched, added)) (kept, (gs, nothing, adds)) = (
  kept ∙ same,
  (rs, matched, adds ∙ ap (λ (l : List Release). l ++ releases v.trace) nothing ∙ added),
)

module _ (closing : Action Unit) (deferred : List (Action Unit)) (line : String) (p : Pool)
    (part : Part) (all : List Part) (w : World) (opened : w.db_pool ≡ some p)
    (closes : Keeps p closing (part ∷ [])) (owes : Owes p deferred (part ∷ []) all) where
  -- What holds of a process that was signalled.
  abbrev On : Phase → Option ℕ → Bool → World → Type 0
  On phase (some n) panicking v = Ended all w n v
  On phase none true v = ⊥
  On at_signal none false v = v ≡ w
  On shutting_down none false v = v ≡ w
  On (leaving left) none false v = (given : List Part) × Gives given w v × Owes p left given all

  abbrev Holds : Process → Type 0
  Holds s = On s.phase s.status s.panicking s.world

  calm :
      (phase : Phase) (panicking : Bool) (v : World)
      → On phase none panicking v
      → (panicking ≡ false) × On phase none false v
  calm phase true v on = elim on [ ]
  calm phase false v on = (refl, on)

  at_phase :
      (s : Process) (phase : Phase)
      → Holds s
      → s.status ≡ none
      → s.phase ≡ phase
      → (s.panicking ≡ false) × On phase none false s.world
  at_phase s phase on h e = calm phase s.panicking s.world (
      subst (λ q. On q none s.panicking s.world) e
        (subst (λ n. On s.phase n s.panicking s.world) h on))

  running :
      (s : Process) (phase : Phase) (v : World)
      → s.status ≡ none
      → s.panicking ≡ false
      → On phase none false v
      → On phase s.status s.panicking v
  running s phase v h quiet on =
      subst (λ n. On phase n s.panicking v) (sym h) (subst (λ b. On phase none b v) (sym quiet) on)

  cut :
      (phase : Phase) (v : World)
      → On phase none false v
      → Ended all w 1 (log_fatalf {A = Unit} line v).1
  unfolding log_fatalf
  cut at_signal v on =
      inr (refl, (all, [], append-nil all, subst (Gives [] w) (sym on) (refl, ([], refl, refl))))
  cut shutting_down v on =
      inr (refl, (all, [], append-nil all, subst (Gives [] w) (sym on) (refl, ([], refl, refl))))
  cut (leaving left) v (given, gave, owed) =
      let (lost, is_all) = Owes-cut p left given all owed in inr (refl, (lost, given, is_all, gave))

  shut :
      (v : World)
      → v ≡ w
      → ((closing v).0 ≡ returned tt) × On (leaving deferred) none false (closing v).1
  shut v on =
      let (returns, gave) = closes v (ap (λ (u : World). u.db_pool) on ∙ opened) in
      (returns, (part ∷ [], subst (λ u. Gives (part ∷ []) u (closing v).1) on gave, owes))

  ran :
      (call : Action Unit) (calls : List (Action Unit)) (v : World)
      → On (leaving (call ∷ calls)) none false v
      → ((call v).0 ≡ returned tt) × On (leaving calls) none false (call v).1
  ran call calls v (given, gave, inl (keeps, owed)) =
      let (returns, quiet) = keeps v (gave.0 ∙ opened) in
      (returns, (given, Gives-after given w v (call v).1 gave quiet, owed))
  ran call calls v (given, gave, inr (next, keeps, owed)) =
      let (returns, more) = keeps v (gave.0 ∙ opened) in
      (returns, (next ∷ given, Gives-deferred next given w v (call v).1 gave more, owed))

  Step-Holds : {s t : Process} → Step closing deferred line s t → Holds s → Holds t
  Step-Holds {s} (calls_shutdown h e) on =
      let (quiet, same) = at_phase s at_signal on h e in
      running s shutting_down s.world h quiet same
  Step-Holds {s} (returns_from_shutdown h e) on =
      let (quiet, same) = at_phase s shutting_down on h e in
      let (returns, after) = shut s.world same in
      subst Holds (sym (settle-returned (closing s.world) (leaving deferred) s returns))
        (running s (leaving deferred) (closing s.world).1 h quiet after)
  Step-Holds {s} (runs_deferred call calls h e) on =
      let (quiet, before) = at_phase s (leaving (call ∷ calls)) on h e in
      let (returns, after) = ran call calls s.world before in
      subst Holds (sym (settle-returned (call s.world) (leaving calls) s returns))
        (running s (leaving calls) (call s.world).1 h quiet after)
  Step-Holds {s} (ends_main h e) on =
      let (quiet, (given, gave, is_all)) = at_phase s (leaving []) on h e in
      subst (λ b. Ended all w (if b then 2 else 0) s.world) (sym quiet)
        (inl (refl, subst (λ parts. Gives parts w s.world) is_all gave))
  Step-Holds {s} (fails h e) on = cut s.phase s.world (at_phase s s.phase on h refl).1

  Steps-Holds : {s t : Process} → Steps closing deferred line s t → Holds s → Holds t
  Steps-Holds rests on = on
  Steps-Holds (steps one more) on = Steps-Holds more (Step-Holds one on)

  -- Whatever turns were taken, what the process gave back is all or the end of the list.
  pub ends :
      {s : Process} (n : ℕ)
      → Steps closing deferred line (signalled w) s
      → s.status ≡ some n
      → Ended all w n s.world
  ends {s} n before h = subst (λ m. On s.phase m s.panicking s.world) h (Steps-Holds before refl)
