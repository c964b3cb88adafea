-- ===== src/Json.antt =====
-- JSON values as `json.loads` returns them; an `obj` is a `dict` with its items in order.
use durable_threads.Prelude.{
  Text, ◌==◌, Bool, ℤ, List, [], ◌∷◌, Option, none, some, if◌then◌else◌, true, false, not, eq_ℤ,
  pos,
}

mutual
  pub data Json : Type 0 where
    null : Json
    bool : Bool → Json
    int : ℤ → Json
    float : ℤ → Json
    str : Text → Json
    arr : Items → Json
    obj : Fields → Json

  pub data Items : Type 0 where
    nil : Items
    cons : Json → Items → Items

  pub data Fields : Type 0 where
    end : Fields
    field : Text → Json → Fields → Fields

-- `d.get(key)` and `d[key] = value`.
unfoldable pub get_field : Text → Fields → Option Json
unfolding ◌==◌
get_field k end = none
get_field k (field j v fs) = if j == k then some v else get_field k fs

unfoldable pub put_field : Text → Json → Fields → Fields
unfolding ◌==◌
put_field k v end = field k v end
put_field k v (field j w fs) =
    let rest = put_field k v fs in if j == k then field j v fs else field j w rest

unfoldable pub items_list : Items → List Json
items_list nil = []
items_list (cons v vs) = v ∷ items_list vs

-- The truth of a value that `get` may not have found.
unfoldable pub truthy : Option Json → Bool
truthy none = false
truthy (some null) = false
truthy (some (bool b)) = b
truthy (some (int z)) = not (eq_ℤ z (pos 0))
truthy (some (float z)) = not (eq_ℤ z (pos 0))
truthy (some (str [])) = false
truthy (some (str (c ∷ t))) = true
truthy (some (arr nil)) = false
truthy (some (arr (cons v vs))) = true
truthy (some (obj end)) = false
truthy (some (obj (field k v fs))) = true

-- `value == text`.
unfoldable pub is_text : Option Json → Text → Bool
is_text (some (str t)) s = t == s
is_text _ s = false
