-- ===== src/Db/Merge/Laws.antt =====
-- What the merged map holds.
use servone.Prelude.{
  String, ◌≡◌, refl, ◌∙◌, Option, none, some, [], ◌∷◌, str_eq, eq_iff, arith, if◌then◌else◌,
}
use servone.Value.{Value, text, Fields, end, field, StringMap, get, put, get_string}
use servone.Value.Laws.{get-put}
use servone.Db.Merge.{copy_data, put_absent, add_params, merge}

-- Each key stands once.
abbrev pub IsMap : Fields → Type 0
IsMap end = Unit
IsMap (field k v m) = (get k m ≡ none) × IsMap m

-- The value of a key, or else another.
abbrev pub or_else : Option Value → Option Value → Option Value
or_else none y = y
or_else (some v) y = some v

abbrev pub text_of : Option String → Option Value
text_of none = none
text_of (some s) = some (text s)

get-copy_data :
    (j : String) (m merged : Fields)
    → IsMap m
    → get j (copy_data m merged) ≡ or_else (get j m) (get j merged)
unfolding get copy_data
get-copy_data j end merged h = refl
get-copy_data j (field k v m) merged (fresh, h) =
    get-copy_data j m (put k v merged) h ∙ ground (arith, get-put k j v merged, eq_iff k j)

get-put_absent :
    (j k v : String) (merged : Fields)
    → get j (put_absent k v merged)
      ≡ or_else (get j merged) (if str_eq k j then some (text v) else none)
unfolding put_absent
get-put_absent j k v merged = ground (arith, get-put k j (text v) merged, eq_iff k j)

get-add_params :
    (j : String) (params : StringMap) (merged : Fields)
    → get j (add_params params merged) ≡ or_else (get j merged) (text_of (get_string j params))
unfolding add_params get_string
get-add_params j [] merged = ground arith
get-add_params j ((k, v) ∷ params) merged =
    get-add_params j params (put_absent k v merged) ∙ ground (arith, get-put_absent j k v merged)

-- For data whose keys stand once, the merged map holds the data's value at each key of the data, in
-- whatever order the keys are visited, the parameter as a text at each other key of the
-- parameters, and nothing else.
pub get-merge :
    (j : String) (data_map : Fields) (params : StringMap)
    → IsMap data_map
    → get j (merge data_map params) ≡ or_else (get j data_map) (text_of (get_string j params))
unfolding merge get
get-merge j data_map params h =
    get-add_params j params (copy_data data_map end)
    ∙ ground (arith, get-copy_data j data_map end h)
