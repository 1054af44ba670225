-- ===== src/Programs/Releases/Watched.antt =====
-- The start of the watcher, over what follows it, and the end of `main`.
use servone.Prelude.{String, ◌≡◌, refl, ◌∙◌, Option, none, some, List, [], ◌∷◌}
use servone.Value.{Error, Result, ok, err}
use servone.World.{
  World, Action, ◌>>=◌, ◌>>◌, done, deferring, spawn, log_printf, log_error, record_event,
  http_shut_down,
}
use servone.Config.Watcher.{
  Reloadable, ConfigWatcher, FileSystem, new_config_watcher, open_watcher, located, start,
  watch_directory, watching, stop,
}
use servone.Server.Routes.{DynamicServer}
use servone.Server.Lifecycle.{HttpServer, shut_down}
use servone.Programs.Host.{or_fatal, fatal_if}
use servone.Programs.Releases.{
  watcher, http, Part, always, Ends, returns, Ends-and_then, Ends-deferring,
}
use servone.Programs.Releases.Steps.{or_fatal-Ends, fatal_if-Ends}

module _ (fs : FileSystem) where
  located-Ends :
      (servers : List (Option Reloadable)) (path : Result String) (w : World)
      → Ends [] w (located fs servers path w)
  unfolding located
  located-Ends servers (err e) w = returns _ refl (refl, ([], refl, refl))
  located-Ends servers (ok path) w = returns _ refl (refl, ([], refl, refl))

  -- What `NewConfigWatcher` does with the answer of fsnotify.
  abbrev locating : List (Option Reloadable) → String → Option Error → Action (Result ConfigWatcher)
  locating servers path answer = elim answer [
    | some e ↦ done (err e)
    | none ↦ located fs servers (fs.absolute path)
  ]

  locating-Ends :
      (servers : List (Option Reloadable)) (path : String) (answer : Option Error) (w : World)
      → Ends [] w (locating servers path answer w)
  locating-Ends servers path none w = located-Ends servers (fs.absolute path) w
  locating-Ends servers path (some e) w = returns (err e) refl (refl, ([], refl, refl))

  new_config_watcher-Ends :
      (path : String) (servers : List (Option Reloadable)) (w : World)
      → Ends [] w (new_config_watcher fs path servers w)
  unfolding new_config_watcher open_watcher
  new_config_watcher-Ends path servers w =
      let watcher_opened = open_watcher fs w in
      Ends-and_then [] w watcher_opened (locating servers path)
        (returns _ refl (refl, ([], refl, refl)))
        (λ answer _ _. locating-Ends servers path answer watcher_opened.1)

  watching-Ends : (e : Option Error) (w : World) → Ends [] w (watching fs e w)
  unfolding watching spawn log_printf
  watching-Ends (some e) w = returns _ refl (refl, ([], refl, refl))
  watching-Ends none w = returns _ refl (refl, ([], refl, refl))

  start-Ends : (cw : ConfigWatcher) (w : World) → Ends [] w (start fs cw w)
  unfolding start watch_directory
  start-Ends cw w =
      let watched = watch_directory fs (fs.directory cw.config_path) w in
      Ends-and_then [] w watched (watching fs) (returns _ refl (refl, ([], refl, refl)))
        (λ answer _ _. watching-Ends answer watched.1)

  -- The watcher is made and started, and its closing is deferred.
  pub watched-Ends :
      (parts : List Part) (path : String) (servers : List (Option Reloadable)) (k : Action Unit)
      (w : World)
      → ((v : World) → v.db_pool ≡ w.db_pool → Ends parts v (k v))
      → Ends (always watcher ∷ parts) w (
          (do
            made ← new_config_watcher fs path servers
            cw ← or_fatal "Failed to create config watcher: %v" made
            e ← start fs cw
            fatal_if "Failed to start config watcher: %v" e
            deferring (stop cw) k)
            w)
  unfolding stop
  watched-Ends parts path servers k w next =
      Ends-and_then (always watcher ∷ parts) w (new_config_watcher fs path servers w) _
        (new_config_watcher-Ends path servers w)
        (λ made _ (same₁, _).
          let w₁ = (new_config_watcher fs path servers w).1 in
          Ends-and_then (always watcher ∷ parts) w₁
            (or_fatal "Failed to create config watcher: %v" made w₁) _ (or_fatal-Ends _ made w₁)
            (λ cw _ (same₂, _).
              let w₂ = (or_fatal "Failed to create config watcher: %v" made w₁).1 in
              Ends-and_then (always watcher ∷ parts) w₂ (start fs cw w₂) _ (start-Ends cw w₂)
                (λ e _ (same₃, _).
                  let w₃ = (start fs cw w₂).1 in
                  Ends-and_then (always watcher ∷ parts) w₃
                    (fatal_if "Failed to start config watcher: %v" e w₃) _ (fatal_if-Ends _ e w₃)
                    (λ _ _ (same₄, _).
                      let w₄ = (fatal_if "Failed to start config watcher: %v" e w₃).1 in
                      Ends-deferring (always watcher) parts w₄ (stop cw) (k w₄)
                        (next w₄ (same₄ ∙ same₃ ∙ same₂ ∙ same₁))
                        (λ v _. (refl, (watcher ∷ [], ([], refl, refl), refl)))))))

-- The answer of `Shutdown` is logged if it is an error, and then a last line.
answered-Ends :
    (line : String) (e : Option Error) (w : World)
    → Ends (always http ∷ []) w (
        (log_error "Server shutdown error: %v" e >> log_printf line)
          (record_event (http_shut_down e) w))
unfolding log_error log_printf
answered-Ends line none w = returns tt refl (refl, (http ∷ [], ([], refl, refl), refl))
answered-Ends line (some e) w = returns tt refl (refl, (http ∷ [], ([], refl, refl), refl))

-- The end of `main`.
pub shut_down-Ends :
    (T : Type 0) (server : HttpServer) (ds : DynamicServer T) (line : String) (w : World)
    → Ends
        (always http ∷ [])
        w
        ((do e ← shut_down server ds; log_error "Server shutdown error: %v" e; log_printf line) w)
unfolding shut_down
shut_down-Ends T server ds line w = answered-Ends line (server.shut_down w.calls) w
