-- ===== src/Routing/Catalog.antt =====
-- The model catalog of src/durable_threads/routing.py. `show` is `str` of a value that is no text.
use durable_threads.Prelude.{
  Text, lit, lower, strip, nonblank, false, not, some, List, [], ◌∷◌, ok, err, ◌>>=◌, ◌>>◌,
  raise_if, traverse,
}
use durable_threads.Errors.{Res, value_error}
use durable_threads.Json.{Json, Items, Fields, null, bool, str, arr, obj, nil, cons, truthy}
use durable_threads.Config.{get_or}
use durable_threads.Models.{ModelInfo}

module _ (show : Json → Text) where
  abbrev shown : Json → Text
  shown (str t) = t
  shown v = show v

  abbrev catalog_id : Json → Res Text
  catalog_id (str t) = do
    raise_if (not (nonblank t)) (value_error "model catalog entries need an id")
    ok (strip t)
  catalog_id v = err (value_error "model catalog entries need an id")

  -- `ModelInfo.from_dict`.
  unfoldable pub model_info : Fields → Res ModelInfo
  model_info fs = do
    let model_id = get_or (lit "id") (get_or (lit "model") null fs) fs
    name ← catalog_id model_id
    ok (record {
      model_id = name;
      display_name =
          strip (shown (get_or (lit "displayName") (get_or (lit "display_name") model_id fs) fs));
      tier = lower (
          strip
            (shown (get_or (lit "tier") (get_or (lit "costTier") (str (lit "unknown")) fs) fs)));
      is_default =
          truthy (some (get_or (lit "isDefault") (get_or (lit "default") (bool false) fs) fs));
    })

  -- The items that are objects.
  unfoldable pub object_items : Items → List Fields
  object_items nil = []
  object_items (cons (obj fs) vs) = fs ∷ object_items vs
  object_items (cons v vs) = object_items vs

  unfoldable pub raw_models : Json → Json
  raw_models (obj fs) = get_or (lit "models") (arr nil) fs
  raw_models v = v

  abbrev models_of : Json → Res (List ModelInfo)
  models_of (arr vs) = traverse model_info (object_items vs)
  models_of v = err (value_error "model catalog must contain a models array")

  unfoldable pub catalog_from_payload : Json → Res (List ModelInfo)
  catalog_from_payload payload = models_of (raw_models payload)
