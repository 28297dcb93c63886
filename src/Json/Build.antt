-- ===== src/Json/Build.antt =====
-- dap/JSON.cpp: the functions that create and change a tree.
use wxdap.Base.{Bool, none, some, List, [], ◌∷◌, Bytes, if◌then◌else◌}
use wxdap.Decimal.{ℤ}
use wxdap.Json.{CJson, Json, Node, is_array, is_object, is_array?, is_object?, type_is, node_type}

module _ (c : CJson) where
  open c use {
    Double, through, of_int, create_string, create_number, create_bool, create_array as new_array,
    create_object as new_object, add_item_to_array, add_item_to_object,
  }

  unfoldable pub create_array : Json Double
  create_array = some new_array

  unfoldable pub create_object : Json Double
  create_object = some new_object

  -- CHECK_IS_CONTAINER, and the two ways to add an item: an array ignores the name.
  unfoldable pub add_checked : Node Double → Bytes → Node Double → Node Double
  unfolding is_array? is_object?
  add_checked n name item =
      if type_is (node_type n) is_object
      then add_item_to_object n name item
      else if type_is (node_type n) is_array
      then add_item_to_array n item
      else n

  unfoldable pub add_node : Json Double → Bytes → Node Double → Json Double
  unfolding add_checked
  add_node none name item = none
  add_node (some n) name item = some (add_checked n name item)

  -- `Add` of a string, which is stored as UTF-8 up to a NUL (`through`), of a number (an `int` is
  -- converted to `double`), and of a Boolean.
  unfoldable pub add_string : Json Double → Bytes → Bytes → Json Double
  unfolding add_node
  add_string j name value = add_node j name (create_string (through value))

  unfoldable pub add_number : Json Double → Bytes → Double → Json Double
  unfolding add_node
  add_number j name value = add_node j name (create_number value)

  unfoldable pub add_int : Json Double → Bytes → ℤ → Json Double
  unfolding add_number
  add_int j name value = add_number j name (of_int value)

  unfoldable pub add_bool : Json Double → Bytes → Bool → Json Double
  unfolding add_node
  add_bool j name value = add_node j name (create_bool value)

  -- `AddObject(name, obj)`: no check that the node is an object. A null item is not added.
  unfoldable pub add_object : Json Double → Bytes → Json Double → Json Double
  add_object none name obj = none
  add_object (some n) name none = some n
  add_object (some n) name (some item) = some (add_item_to_object n name item)

  -- `AddArray(name)` and `AddObject(name)` return a handle to a new child, through which it is
  -- filled; here the child is filled first and then added.
  unfoldable pub add_item : Json Double → Bytes → Json Double → Json Double
  unfolding add_node
  add_item j name none = j
  add_item j name (some item) = add_node j name item

  -- `Add` of strings: an array of them.
  unfoldable pub array_of : Json Double → List Bytes → Json Double
  unfolding add_string
  array_of arr [] = arr
  array_of arr (s ∷ strings) = array_of (add_string arr [] s) strings

  unfoldable pub add_strings : Json Double → Bytes → List Bytes → Json Double
  unfolding add_item array_of create_array
  add_strings j name value = add_item j name (array_of create_array value)

  -- `Add(name, const Json&)`
  unfoldable pub add_json : Json Double → Bytes → Json Double → Json Double
  unfolding add_object add_item
  add_json none name value = none
  add_json (some n) name value =
      if type_is (node_type n) is_object
      then add_object (some n) name value
      else add_item (some n) name value
