-- ===== src/Json/Building.antt =====
-- The trees that `Json`'s functions build, written out: an object is its list of named children.
use wxdap.Base.{◌≡◌, ap, ◌∙◌, Bool, none, some, [], Bytes}
use wxdap.Decimal.{ℤ, pos}
use wxdap.Json.{
  CJson, Json, Node, Nodes, node, nil, is_number, is_string, is_object, bool_type, snoc, with_name,
}
use wxdap.Json.Build.{create_object, add_string, add_int, add_bool, add_object, add_item, add_json}

module _ (c : CJson) where
  open c use {Double, through, of_int, to_int, zero_double}

  -- A text that is read as it was stored, as ASCII without a NUL is.
  abbrev pub IsKept : Bytes → Type 0
  IsKept s = through s ≡ s

  abbrev pub object : Nodes Double → Json Double
  object cs = some (node is_object none [] (pos 0) zero_double cs)

  abbrev pub object_node : Bytes → Nodes Double → Node Double
  object_node name cs = node is_object (some name) [] (pos 0) zero_double cs

  abbrev pub string_node : Bytes → Bytes → Node Double
  string_node name s = node is_string (some name) (through s) (pos 0) zero_double nil

  abbrev pub int_node : Bytes → ℤ → Node Double
  int_node name i = node is_number (some name) [] (to_int (of_int i)) (of_int i) nil

  abbrev pub bool_node : Bytes → Bool → Node Double
  bool_node name b = node (bool_type b) (some name) [] (pos 0) zero_double nil

  pub create_object-object : create_object c ≡ object nil
  unfolding create_object
  create_object-object = ap some c.create_object_lem

  pub add_string-object :
      (cs : Nodes Double) (name value : Bytes)
      → add_string c (object cs) name value ≡ object (snoc cs (string_node name value))
  unfolding add_string
  add_string-object cs name value = ap some (
      c.add_item_to_object_lem _ name _
      ∙ ap (λ n. node is_object none [] (pos 0) zero_double (snoc cs (with_name name n)))
          (c.create_string_lem (through value)))

  pub add_int-object :
      (cs : Nodes Double) (name : Bytes) (i : ℤ)
      → add_int c (object cs) name i ≡ object (snoc cs (int_node name i))
  unfolding add_int
  add_int-object cs name i = ap some (
      c.add_item_to_object_lem _ name _
      ∙ ap (λ n. node is_object none [] (pos 0) zero_double (snoc cs (with_name name n)))
          (c.create_number_lem (of_int i)))

  pub add_bool-object :
      (cs : Nodes Double) (name : Bytes) (b : Bool)
      → add_bool c (object cs) name b ≡ object (snoc cs (bool_node name b))
  unfolding add_bool
  add_bool-object cs name b = ap some (
      c.add_item_to_object_lem _ name _
      ∙ ap (λ n. node is_object none [] (pos 0) zero_double (snoc cs (with_name name n)))
          (c.create_bool_lem b))

  pub add_object-object :
      (cs : Nodes Double) (name : Bytes) (ds : Nodes Double)
      → add_object c (object cs) name (object ds) ≡ object (snoc cs (object_node name ds))
  unfolding add_object
  add_object-object cs name ds = ap some (c.add_item_to_object_lem _ name _)

  pub add_item-object :
      (cs : Nodes Double) (name : Bytes) (ds : Nodes Double)
      → add_item c (object cs) name (object ds) ≡ object (snoc cs (object_node name ds))
  unfolding add_item
  add_item-object cs name ds = ap some (c.add_item_to_object_lem _ name _)

  pub add_json-object :
      (cs : Nodes Double) (name : Bytes) (ds : Nodes Double)
      → add_json c (object cs) name (object ds) ≡ object (snoc cs (object_node name ds))
  unfolding add_json add_object
  add_json-object cs name ds = ap some (c.add_item_to_object_lem _ name _)

pub ruleset building = (
  create_object-object, add_string-object, add_int-object, add_bool-object, add_object-object,
  add_item-object, add_json-object,
)
