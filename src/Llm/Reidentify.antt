-- ===== src/Llm/Reidentify.antt =====
-- `_reidentify_payload` and `_reidentify_node` of backend/app/llm/client.py.
use briefed.Base.{String, [], ◌∷◌, if◌then◌else◌}
use briefed.Base.Dict.{Dict}
use briefed.Base.Text.{str_contains, str_replace}
use briefed.Llm.Types.{Json, Items, Fields, text, array, object, no_items, item, no_fields, field}

-- The loop over `reversal_map.items()` at a text.
unfoldable pub restore : Dict String → String → String
unfolding str_contains str_replace
restore [] rewritten = rewritten
restore ((placeholder, original) ∷ rest) rewritten = restore rest (
    if str_contains placeholder rewritten
    then str_replace placeholder original rewritten
    else rewritten)

-- Payloads come from `json.loads`, so the tuple branch of the source has no value to meet.
unfoldable mutual
  unfolding restore

  pub reidentify_node : Dict String → Json → Json
  reidentify_node m (text s) = text (restore m s)
  reidentify_node m (array xs) = array (reidentify_items m xs)
  reidentify_node m (object fs) = object (reidentify_fields m fs)
  reidentify_node m other = other

  pub reidentify_items : Dict String → Items → Items
  reidentify_items m no_items = no_items
  reidentify_items m (item x xs) = item (reidentify_node m x) (reidentify_items m xs)

  pub reidentify_fields : Dict String → Fields → Fields
  reidentify_fields m no_fields = no_fields
  reidentify_fields m (field k v fs) = field k (reidentify_node m v) (reidentify_fields m fs)

unfoldable pub reidentify_payload : Fields → Dict String → Fields
unfolding reidentify_fields
reidentify_payload payload [] = payload
reidentify_payload payload (entry ∷ rest) = reidentify_fields (entry ∷ rest) payload
