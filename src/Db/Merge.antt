-- ===== src/Db/Merge.antt =====
-- The merge of a request's data with its path parameters, in the three `SaveToDB…` functions of
-- db/database.go.
pub mod Laws
use servone.Prelude.{String, Option, none, some, List, [], ◌∷◌}
use servone.Value.{Value, text, Fields, end, field, StringMap, get, put}

-- `for k, v := range data { mergedData[k] = v }`
copy_data : Fields → Fields → Fields
copy_data end merged = merged
copy_data (field k v m) merged = copy_data m (put k v merged)

-- The body of the second loop.
put_absent : String → String → Fields → Fields
put_absent k v merged = elim (get k merged) [ some _ ↦ merged | none ↦ put k (text v) merged ]

-- `for k, v := range params { if _, ok := mergedData[k]; !ok { mergedData[k] = v } }`
add_params : StringMap → Fields → Fields
add_params [] merged = merged
add_params ((k, v) ∷ m) merged = add_params m (put_absent k v merged)

unfoldable pub merge : Fields → StringMap → Fields
unfolding copy_data put_absent add_params get put
merge data_map params = add_params params (copy_data data_map end)
