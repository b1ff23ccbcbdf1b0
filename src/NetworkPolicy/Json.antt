-- ===== src/NetworkPolicy/Json.antt =====
-- JSON values as Go's `encoding/json` decodes them, and the operations on a decoded object.
use permission_binder_operat.Prelude.{
  String, Bool, ◌≡◌, refl, Option, none, some, if◌then◌else◌, ◌==◌, eq_iff, arith,
}

mutual
  pub data Json : Type 0 where
    null : Json
    bool : Bool → Json
    number text : String → Json
    array : Items → Json
    object : Fields → Json

  pub data Items : Type 0 where
    no_item : Items
    item : Json → Items → Items

  -- map[string]interface{}
  pub data Fields : Type 0 where
    end : Fields
    field : String → Json → Fields → Fields

-- obj[key]
unfoldable pub get : String → Fields → Option Json
get key end = none
get key (field k v rest) = if k == key then some v else get key rest

-- obj[key] = value
unfoldable pub put : String → Json → Fields → Fields
put key value end = field key value end
put key value (field k v rest) =
    if k == key then field key value rest else field k v (put key value rest)

-- delete(obj, key)
unfoldable pub drop : String → Fields → Fields
drop key end = end
drop key (field k v rest) =
    let others = drop key rest in if k == key then others else field k v others

pub get-put :
    (written read_key : String) (value : Json) (obj : Fields)
    → get read_key (put written value obj)
      ≡ (if written == read_key then some value else get read_key obj)
unfolding get put
get-put written read_key value end = refl
get-put written read_key value (field k v rest) = ground (
  arith,
  get-put written read_key value rest,
  eq_iff k written,
  eq_iff k read_key,
  eq_iff written read_key,
)

pub get-drop :
    (gone read_key : String) (obj : Fields)
    → get read_key (drop gone obj) ≡ (if gone == read_key then none else get read_key obj)
unfolding get drop
get-drop gone read_key end = ground arith
get-drop gone read_key (field k v rest) =
    ground
      (arith, get-drop gone read_key rest, eq_iff k gone, eq_iff k read_key, eq_iff gone read_key)
