-- ===== src/Template.antt =====
-- Response templates: what the servers share of text/template, and the map that they pass to it.
-- The template engine is given: how a text is parsed, and how a parsed one is executed.
use servone.Prelude.{ℕ, String, Option, none, some, [], ◌∷◌}
use servone.Prelude.Int.{ℤ}
use servone.Value.{Result, ok, err, Value, int, text, Fields, end, StringMap, put}
use servone.World.{Env, Action, ◌>>=◌, ◌>>◌, done, now, log_printf}
use servone.Go.{Go, atoi}

-- `template.New("response").Parse(body)` and `tmpl.Execute(&buf, data)`.
pub record Templates (T : Type 0) : Type 0 where
  pub parse : String → Result T
  pub execute : T → Fields → Result String

-- `if id, err := strconv.Atoi(v); err == nil { data[k] = id } else { data[k] = v }`
template_value : String → Option ℤ → Value
template_value v (some id) = int id
template_value v none = text v

add_vars : StringMap → Fields → Fields
add_vars [] data_map = data_map
add_vars ((k, v) ∷ vars) data_map = add_vars vars (put k (template_value v (atoi v)) data_map)

-- The data of a template: the variables, a decimal one as an int, and then the time.
unfoldable pub template_data : Go → StringMap → ℕ → Fields
unfolding template_value add_vars put atoi
template_data go vars t = put "timestamp" (text (go.format_rfc3339 t)) (add_vars vars end)

module _ {T : Type 0} (go : Go) (templates : Templates T) (env : Env) where
  executed_or_body : String → Result String → Action String
  unfolding log_printf
  executed_or_body body (ok out) = done out
  executed_or_body body (err e) = do log_printf "Template execute error: %v"; done body

  -- From the parsed template on: an error of the execution gives the body back.
  unfoldable pub execute_template : String → StringMap → T → Action String
  unfolding now executed_or_body
  execute_template body vars tmpl = do
    t ← now env
    executed_or_body body (templates.execute tmpl (template_data go vars t))
