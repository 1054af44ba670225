-- ===== src/Config/Watcher/Due.antt =====
-- Which reloads follow which changes.
use servone.Prelude.{
  ℕ, ◌+◌, ◌≤◌, ◌<◌, String, ◌≡◌, refl, sym, subst, ◌⊎◌, inl, inr, true, Bool-cases, Option, none,
  some, leb, List, [], ◌∷◌, arith, eq_iff,
}
use servone.Config.Watcher.{FileEvent, is_change, taken, stop_debouncer, watch_loop}
use mathlib.Core.List.{Memᴰ}
use mathlib.Core.List.Memᴰ.{head, tail}

-- The events are in the order of their times, from a time on.
abbrev pub IsOrdered : ℕ → List FileEvent → Type 0
IsOrdered t [] = Unit
IsOrdered t (e ∷ events) = (t ≤ e.at) × IsOrdered e.at events

module _ (absolute : String → String) (config_path : String) where
  -- An event of the configuration file: it was written, or it was created.
  abbrev pub IsChange : FileEvent → Type 0
  IsChange e = (absolute e.name ≡ config_path) × ((e.is_write ≡ true) ⊎ (e.is_create ≡ true))

  IsChange-is_change : (e : FileEvent) → IsChange e → is_change absolute config_path e ≡ true
  unfolding is_change
  IsChange-is_change e (same, inl written) =
      ground (arith, eq_iff (absolute e.name) config_path, same, written)
  IsChange-is_change e (same, inr created) =
      ground (arith, eq_iff (absolute e.name) config_path, same, created)

  is_change-IsChange : (e : FileEvent) → is_change absolute config_path e ≡ true → IsChange e
  unfolding is_change
  is_change-IsChange e change = (
    ground (arith, eq_iff (absolute e.name) config_path),
    elim (Bool-cases e.is_write) [
      | inl written ↦ inl written
      | inr unwritten ↦ inr (ground (arith, eq_iff (absolute e.name) config_path))
    ],
  )

  module _ (closing : ℕ) where
    -- There is a reload at a time or later.
    abbrev pub ReloadsFrom : ℕ → Option ℕ → List FileEvent → Type 0
    ReloadsFrom t timer events =
        (r : ℕ) × Memᴰ r (watch_loop absolute config_path closing timer events) × (t ≤ r)

    -- `Stop` is called less than 500 ms after a change, which came at a time or later.
    abbrev pub IsCutOff : ℕ → List FileEvent → Type 0
    IsCutOff t events =
        (e : FileEvent) × Memᴰ e events × IsChange e × (t ≤ e.at) × (closing < e.at + 500)

    -- A timer that is due at some time ends in a reload, then or later, if `Stop` is not called
    -- before, or less than 500 ms after a later change.
    abbrev Holds : ℕ → ℕ → Option ℕ → List FileEvent → Type 0
    Holds t due timer events = ReloadsFrom due timer events ⊎ (closing < due) ⊎ IsCutOff t events

    after_one :
        (t u due late : ℕ) (timer timer' : Option ℕ) (x : FileEvent) (events : List FileEvent)
        → t ≤ u
        → due ≤ late
        → (closing < late → (closing < due) ⊎ IsCutOff t (x ∷ events))
        → (ReloadsFrom late timer' events → ReloadsFrom late timer (x ∷ events))
        → Holds u late timer' events
        → Holds t due timer (x ∷ events)
    after_one t u due late timer timer' x events before longer cut more (inl reloads) =
        let (r, is_one, from) = more reloads in inl (r, is_one, omega arith)
    after_one t u due late timer timer' x events before longer cut more (inr (inl soon)) =
        inr (cut soon)
    after_one t u due late timer timer' x events before longer cut more
          (inr (inr (e, is_one, change, from, soon))) =
        inr (inr (e, tail is_one, change, omega arith, soon))

    runs_out :
        (t due : ℕ) (events : List FileEvent)
        → IsOrdered t events
        → due ≤ t + 500
        → Holds t due (some due) events
    unfolding watch_loop stop_debouncer taken
    runs_out t due [] ordered near = elim (Bool-cases (leb due closing)) [
      | inl ends ↦ rw ends (inl (due, head refl, omega arith))
      | inr stopped ↦ inr (inl (ground arith))
    ]
    runs_out t due (e ∷ events) (after, ordered) near = elim (Bool-cases (leb due e.at)) [
      | inl ends ↦ rw ends (inl (due, head refl, omega arith))
      | inr goes_on ↦ elim (Bool-cases (is_change absolute config_path e)) [
        | inl change ↦
            after_one t e.at due (e.at + 500) (some due) (some (e.at + 500)) e events after
              (omega arith) (λ soon. inr (e, head refl, is_change-IsChange e change, after, soon))
              (λ reloads. rw (goes_on, change) reloads)
              (runs_out e.at (e.at + 500) events ordered (omega arith))
        | inr other ↦
            after_one t e.at due due (some due) (some due) e events after (omega arith)
              (λ soon. inl soon) (λ reloads. rw (goes_on, other) reloads)
              (runs_out e.at due events ordered (omega arith))
      ]
    ]

    -- What the loop does with an event, whether the timer runs out before it or not.
    one_event :
        (u : ℕ) (e : FileEvent) (timer : Option ℕ) (events : List FileEvent)
        → ReloadsFrom u (taken absolute config_path e none) events
        → ReloadsFrom u (taken absolute config_path e timer) events
        → ReloadsFrom u timer (e ∷ events)
    unfolding watch_loop
    one_event u e none events stopped runs = stopped
    one_event u e (some due) events (r, reloads, after) runs = elim (Bool-cases (leb due e.at)) [
      | inl ends ↦ rw ends (r, tail reloads, after)
      | inr goes_on ↦ rw goes_on runs
    ]

    -- A change is followed by a reload, or `Stop` comes less than 500 ms after it or a later one.
    abbrev Follows : FileEvent → Option ℕ → List FileEvent → Type 0
    Follows e timer events = ReloadsFrom (e.at + 500) timer events ⊎ IsCutOff e.at events

    one_more :
        (e x : FileEvent) (timer : Option ℕ) (events : List FileEvent)
        → Follows e (taken absolute config_path x none) events
        → Follows e (taken absolute config_path x timer) events
        → Follows e timer (x ∷ events)
    one_more e x timer events (inl late) (inl moved) =
        inl (one_event (e.at + 500) x timer events late moved)
    one_more e x timer events (inr (y, is_one, cut, from, soon)) moved =
        inr (y, tail is_one, cut, from, soon)
    one_more e x timer events (inl late) (inr (y, is_one, cut, from, soon)) =
        inr (y, tail is_one, cut, from, soon)

    taken_lem :
        (e : FileEvent) (timer : Option ℕ)
        → IsChange e
        → taken absolute config_path e timer ≡ some (e.at + 500)
    unfolding taken
    taken_lem e timer change = rw (IsChange-is_change e change) refl

    -- A change sets the timer, whether it was running or not.
    at_change :
        (e : FileEvent) (timer : Option ℕ) (events : List FileEvent)
        → IsOrdered e.at events
        → IsChange e
        → Follows e timer (e ∷ events)
    at_change e timer events ordered change =
        elim (runs_out e.at (e.at + 500) events ordered (omega arith)) [
          | inl reloads ↦ inl (
              one_event (e.at + 500) e timer events (rw (taken_lem e none change) reloads)
                (rw (taken_lem e timer change) reloads))
          | inr (inl soon) ↦ inr (e, head refl, change, omega arith, soon)
          | inr (inr (y, is_one, cut, from, soon)) ↦ inr (y, tail is_one, cut, from, soon)
        ]

    change_from :
        (t : ℕ) (timer : Option ℕ) (events : List FileEvent) (e : FileEvent)
        → IsOrdered t events
        → Memᴰ e events
        → IsChange e
        → Follows e timer events
    change_from t timer [] e ordered more change = elim more [ ]
    change_from t timer (x ∷ events) e (after, ordered) (head same) change =
        subst (λ y. IsChange y → Follows y timer (x ∷ events)) (sym same)
          (λ c. at_change x timer events ordered c) change
    change_from t timer (x ∷ events) e (after, ordered) (tail more) change =
        one_more e x timer events
          (change_from x.at (taken absolute config_path x none) events e ordered more change)
          (change_from x.at (taken absolute config_path x timer) events e ordered more change)

    -- No change is lost while the watcher runs: from a watcher whose timer is not running, with the
    -- events in the order of their times, each write or creation of the configuration file is
    -- followed by a reload, 500 ms after it or later, unless `Stop` is called less than 500 ms after
    -- that change or a later one.
    pub change_reloads :
        (t : ℕ) (events : List FileEvent) (e : FileEvent)
        → IsOrdered t events
        → Memᴰ e events
        → IsChange e
        → ReloadsFrom (e.at + 500) none events ⊎ IsCutOff e.at events
    change_reloads t events e ordered more change = change_from t none events e ordered more change
