-- ===== src/Config/Watcher/Laws.antt =====
-- A burst of changes is one reload.
use servone.Prelude.{
  ℕ, ◌+◌, ◌≤◌, ◌<◌, String, ◌≡◌, refl, true, false, Option, none, some, leb, List, [], ◌∷◌, arith,
  if◌then◌else◌,
}
use servone.Config.Watcher.{FileEvent, is_change, taken, watch_loop}

module _ (absolute : String → String) (config_path : String) where
  -- Each event is a change of the file, less than 500 ms after the one before.
  abbrev pub IsBurst : ℕ → List FileEvent → Type 0
  IsBurst t [] = Unit
  IsBurst t (e ∷ events) =
      (is_change absolute config_path e ≡ true)
      × (t ≤ e.at)
      × (e.at < t + 500)
      × IsBurst e.at events

  abbrev pub last_time : ℕ → List FileEvent → ℕ
  last_time t [] = t
  last_time t (e ∷ events) = last_time e.at events

  taken_lem :
      (e : FileEvent) (debouncer : Option ℕ)
      → is_change absolute config_path e ≡ true
      → taken absolute config_path e debouncer ≡ some (e.at + 500)
  unfolding taken
  taken_lem e debouncer change = rw change refl

  not_due : (t u : ℕ) → u < t + 500 → leb (t + 500) u ≡ false
  not_due t u near = ground arith

  burst_from :
      (t closing : ℕ) (events : List FileEvent)
      → IsBurst t events
      → watch_loop absolute config_path closing (some (t + 500)) events
        ≡ (if leb (last_time t events + 500) closing then (last_time t events + 500) ∷ [] else [])
  unfolding watch_loop
  burst_from t closing [] h = refl
  burst_from t closing (e ∷ events) (change, after, near, h) =
      rw (not_due t e.at near, taken_lem e (some (t + 500)) change)
        (burst_from e.at closing events h)

  -- From a watcher whose timer is not running, a change of the file and any number of further
  -- changes, each less than 500 ms after the one before, make one reload, 500 ms after the last, if `Stop` is not called
  -- before then, and none otherwise.
  pub burst_reloads_once :
      (closing : ℕ) (e : FileEvent) (events : List FileEvent)
      → is_change absolute config_path e ≡ true
      → IsBurst e.at events
      → watch_loop absolute config_path closing none (e ∷ events) ≡ (
          if leb (last_time e.at events + 500) closing
          then (last_time e.at events + 500) ∷ []
          else [])
  unfolding watch_loop
  burst_reloads_once closing e events change h =
      rw (watch_loop, taken_lem e none change) (burst_from e.at closing events h)
