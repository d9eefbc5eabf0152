-- ===== src/Protocol/DeepEqual.antt =====
-- isDeepStrictEqual of node:util on JSON values: the order of an object's keys does not count.
use harness_control_protocol.Base.{
  ℕ, suc, String, Bool, true, false, not, ◌&&◌, Option, none, some, ◌==◌, if◌then◌else◌, nat_eq,
  string_eq,
}
use harness_control_protocol.Protocol.Json.{
  Json, null, boolean, whole, number, text, arr, obj, Items, nil, cons, Fields, end, field,
}

unfoldable pub get_field : String → Fields → Option Json
get_field key end = none
get_field key (field k v fs) = if key == k then some v else get_field key fs

unfoldable pub size_fields : Fields → ℕ
size_fields end = 0
size_fields (field k v fs) = suc (size_fields fs)

same_bool : Bool → Bool → Bool
same_bool true b = b
same_bool false b = not b

unfoldable mutual
  unfolding get_field size_fields same_bool

  pub deep_equal : Json → Json → Bool
  deep_equal null null = true
  deep_equal (boolean a) (boolean b) = same_bool a b
  deep_equal (whole a) (whole b) = a == b
  deep_equal (number a) (number b) = a == b
  deep_equal (text a) (text b) = a == b
  deep_equal (arr xs) (arr ys) = deep_equal_items xs ys
  deep_equal (obj fs) (obj gs) = size_fields fs == size_fields gs && deep_equal_fields fs gs
  deep_equal _ _ = false

  pub deep_equal_items : Items → Items → Bool
  deep_equal_items nil nil = true
  deep_equal_items (cons x xs) (cons y ys) = deep_equal x y && deep_equal_items xs ys
  deep_equal_items _ _ = false

  pub deep_equal_fields : Fields → Fields → Bool
  deep_equal_fields end gs = true
  deep_equal_fields (field k v fs) gs =
      elim (get_field k gs) [ none ↦ false | some w ↦ deep_equal v w ] && deep_equal_fields fs gs
