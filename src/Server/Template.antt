-- ===== src/Server/Template.antt =====
-- `processTemplate` of server/server.go and its cache.
pub mod Laws
use servone.Prelude.{String, Bool, Option, none, some, List, [], ◌∷◌, str_eq, if◌then◌else◌}
use servone.Prelude.Text.{contains}
use servone.Value.{Result, ok, err, StringMap}
use servone.World.{Env, Action, ◌>>=◌, ◌>>◌, done, log_printf}
use servone.Go.{Go}
use servone.Template.{Templates, execute_template}

-- `map[string]*template.Template`.
abbrev pub Cache : Type 0 → Type 0
Cache T = List (String × T)

module _ {T : Type 0} where
  unfoldable pub find : String → Cache T → Option T
  find body [] = none
  find body ((b, t) ∷ cache) = if str_eq b body then some t else find body cache

  unfoldable pub store : String → T → Cache T → Cache T
  store body tmpl [] = (body, tmpl) ∷ []
  store body tmpl ((b, t) ∷ cache) =
      if str_eq b body then (body, tmpl) ∷ cache else (b, t) ∷ store body tmpl cache

module _ {T : Type 0} (go : Go) (templates : Templates T) (env : Env) where
  run_template : String → StringMap → Cache T → T → Action (String × Cache T)
  unfolding execute_template
  run_template body vars cache tmpl = do
    out ← execute_template go templates env body vars tmpl
    done (out, cache)

  -- Not in the cache: parse and store, or give the body back.
  parsed : String → StringMap → Cache T → Result T → Action (String × Cache T)
  unfolding log_printf run_template store
  parsed body vars cache (err e) = do log_printf "Template parse error: %v"; done (body, cache)
  parsed body vars cache (ok tmpl) = run_template body vars (store body tmpl cache) tmpl

  looked_up : String → StringMap → Cache T → Option T → Action (String × Cache T)
  unfolding parsed run_template
  looked_up body vars cache (some tmpl) = run_template body vars cache tmpl
  looked_up body vars cache none = parsed body vars cache (templates.parse body)

  -- The text, and the cache after it.
  unfoldable pub process_template : String → StringMap → Cache T → Action (String × Cache T)
  unfolding contains looked_up find
  process_template body vars cache =
      if contains body "{{" then looked_up body vars cache (find body cache) else done (body, cache)
