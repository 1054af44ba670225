-- ===== src/Config/Watcher.antt =====
-- config/watcher.go: the debounced reload of the configuration.
pub mod Laws
pub mod Due
use servone.Prelude.{
  ℕ, ◌+◌, String, Bool, ◌&&◌, ◌||◌, Option, none, some, List, [], ◌∷◌, str_eq, leb, if◌then◌else◌,
}
use servone.Value.{Error, Result, ok, err}
use servone.World.{
  Action, ◌>>=◌, ◌>>◌, done, log_printf, spawn, watch_files, returned, record_event, watcher_opened,
  directory_watched, debouncer_stopped, watcher_closed,
}
use servone.Config.{Config, ConfigFiles, load_config}

-- `Reloadable`.
pub record Reloadable : Type 0 where
  pub reload : Config → Action Unit

-- The loop over the servers; a nil server is passed over.
unfoldable pub reload_servers : List (Option Reloadable) → Config → Action Unit
reload_servers [] config = done tt
reload_servers (none ∷ servers) config = reload_servers servers config
reload_servers (some s ∷ servers) config = do s.reload config; reload_servers servers config

reloaded : List (Option Reloadable) → Result Config → Action Unit
unfolding reload_servers log_printf
reloaded servers (err e) = log_printf "Failed to reload config: %v"
reloaded servers (ok config) = reload_servers servers config

-- `reloadConfig`.
unfoldable pub reload_config : ConfigFiles → String → List (Option Reloadable) → Action Unit
unfolding log_printf load_config reloaded
reload_config files config_path servers = do
  log_printf "Config file changed, reloading..."
  reloaded servers (load_config files config_path)

-- `fsnotify.Event`, with its time in milliseconds.
pub record FileEvent : Type 0 where
  pub at : ℕ
  pub name : String
  pub is_write : Bool
  pub is_create : Bool

module _ (absolute : String → String) (config_path : String) where
  -- The test of `watchLoop`.
  unfoldable pub is_change : FileEvent → Bool
  is_change e = str_eq (absolute e.name) config_path && (e.is_write || e.is_create)

  -- `scheduleReload` at a time: the old timer is stopped, and the new one is due in 500 ms.
  abbrev pub schedule_reload : ℕ → Option ℕ → Option ℕ
  schedule_reload now debouncer = some (now + 500)

  taken : FileEvent → Option ℕ → Option ℕ
  unfolding is_change
  taken e debouncer = if is_change e then schedule_reload e.at debouncer else debouncer

  -- The timer when `Stop` is called at a time: the reload that was due by then has run, and a timer
  -- that is still running is stopped, so that its reload never comes.
  unfoldable pub stop_debouncer : ℕ → Option ℕ → List ℕ
  stop_debouncer at none = []
  stop_debouncer at (some due) = if leb due at then due ∷ [] else []

  -- The times at which `reloadConfig` is run, from the time that the timer is due, if it is
  -- running, with the events that come before `Stop`, and the time of that: a timer that is due runs
  -- before the next event is taken.
  pub watch_loop : ℕ → Option ℕ → List FileEvent → List ℕ
  unfolding stop_debouncer
  watch_loop closing timer [] = stop_debouncer closing timer
  watch_loop closing none (e ∷ events) = watch_loop closing (taken e none) events
  watch_loop closing (some due) (e ∷ events) =
      let late = watch_loop closing (taken e none) events in
      let moved = watch_loop closing (taken e (some due)) events in
      if leb due e.at then due ∷ late else moved

-- `ConfigWatcher`; its timer, which the loop sets, is that of `watch_loop`.
pub record ConfigWatcher : Type 0 where
  pub config_path : String
  pub servers : List (Option Reloadable)

-- What is used of fsnotify and of path/filepath, at the number of the call.
pub record FileSystem : Type 0 where
  pub new_watcher : ℕ → Option Error
  pub absolute : String → Result String
  pub directory : String → String
  pub add_watch : ℕ → String → Option Error

module _ (fs : FileSystem) where
  unfoldable pub open_watcher : Action (Option Error)
  open_watcher w =
      let answer = fs.new_watcher w.calls in
      (returned answer, record_event (watcher_opened answer) w)

  unfoldable pub located : List (Option Reloadable) → Result String → Action (Result ConfigWatcher)
  located servers (err e) = done (err e)
  located servers (ok path) = done (ok (record { config_path = path; servers = servers }))

  -- `NewConfigWatcher`.
  unfoldable pub new_config_watcher :
      String → List (Option Reloadable) → Action (Result ConfigWatcher)
  unfolding open_watcher located
  new_config_watcher config_path servers = do
    answer ← open_watcher
    elim answer [ some e ↦ done (err e) | none ↦ located servers (fs.absolute config_path) ]

  unfoldable pub watch_directory : String → Action (Option Error)
  watch_directory directory w =
      let answer = fs.add_watch w.calls directory in
      (returned answer, record_event (directory_watched directory answer) w)

  unfoldable pub watching : Option Error → Action (Option Error)
  unfolding spawn log_printf
  watching (some e) = done (some e)
  watching none = do spawn watch_files; log_printf "Started watching config file: %s"; done none

  -- `ConfigWatcher.Start`.
  unfoldable pub start : ConfigWatcher → Action (Option Error)
  unfolding watch_directory watching
  start cw = do answer ← watch_directory (fs.directory cw.config_path); watching answer

-- `ConfigWatcher.Stop`: it stops the timer, which is nothing to a timer that is nil or has run (what
-- becomes of a pending reload is `stop_debouncer`), and closes the watcher.
unfoldable pub stop : ConfigWatcher → Action Unit
stop cw w = (returned tt, record_event watcher_closed (record_event debouncer_stopped w))
