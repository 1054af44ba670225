-- ===== src/Coap/Template.antt =====
-- `processTemplate` of coap/coap.go, which keeps no cache.
use servone.Prelude.{String, if◌then◌else◌}
use servone.Prelude.Text.{contains}
use servone.Value.{Result, ok, err, StringMap}
use servone.World.{Env, Action, ◌>>◌, done, log_printf}
use servone.Go.{Go}
use servone.Template.{Templates, execute_template}

module _ {T : Type 0} (go : Go) (templates : Templates T) (env : Env) where
  parsed : String → StringMap → Result T → Action String
  unfolding log_printf execute_template
  parsed body vars (err e) = do log_printf "Template parse error: %v"; done body
  parsed body vars (ok tmpl) = execute_template go templates env body vars tmpl

  unfoldable pub process_template : String → StringMap → Action String
  unfolding contains parsed
  process_template body vars =
      if contains body "{{" then parsed body vars (templates.parse body) else done body
