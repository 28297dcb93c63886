-- ===== src/Examples/Values.antt =====
-- A cJSON whose doubles are integers, and two ways to read a payload.
use wxdap.Base.{◌≡◌, ap, ap₂, refl, Option, some, [], Bytes, none, not}
use wxdap.Decimal.{ℤ, pos}
use wxdap.Json.Parsed.{IsParsed, comparable, all_comparable, number_int}
use wxdap.Json.{
  is_false, is_null, CJson, Json, Node, Nodes, NodeType, cons, is_true, is_zero, node, nil,
  is_string, is_number, is_array, is_object, bool_type, with_child, with_name,
}

abbrev pub integer_json : CJson
integer_json = record {
  Double = ℤ;
  of_int = λ i. i;
  to_int = λ d. d;
  to_bool = λ d. not (is_zero d);
  through = λ s. s;
  name_through = λ s. s;
  create_string = λ s. node is_string none s (pos 0) (pos 0) nil;
  create_number = λ d. node is_number none [] d d nil;
  create_bool = λ b. node (bool_type b) none [] (pos 0) (pos 0) nil;
  create_array = node is_array none [] (pos 0) (pos 0) nil;
  create_object = node is_object none [] (pos 0) (pos 0) nil;
  add_item_to_array = with_child;
  add_item_to_object = λ n key item. with_child n (with_name key item);
  zero_double = pos 0;
  to_int-of_int = λ i h. refl;
  to_bool-of_int = λ i h. refl;
  through_lem = λ s h. refl;
  name_through_lem = λ s h. refl;
  create_string_lem = λ s. refl;
  create_number_lem = λ d. refl;
  create_bool_lem = λ b. refl;
  create_array_lem = refl;
  create_object_lem = refl;
  add_item_to_array_lem = λ n item. refl;
  add_item_to_object_lem = λ n key item. refl;
}

-- What cJSON's parser makes of the print of a tree: the `valueint` of a `true` is 1.
abbrev pub parsed_int : NodeType → ℤ → ℤ
parsed_int is_true i = pos 1
parsed_int _ i = i

unfoldable mutual
  pub parsed_node : Node ℤ → Node ℤ
  parsed_node (node t k s i d cs) = node t k s (parsed_int t i) d (parsed_nodes cs)

  pub parsed_nodes : Nodes ℤ → Nodes ℤ
  parsed_nodes nil = nil
  parsed_nodes (cons n ns) = cons (parsed_node n) (parsed_nodes ns)

abbrev pub as_parsed : Json ℤ → Json ℤ
as_parsed none = none
as_parsed (some n) = some (parsed_node n)

number_int-parsed_int : (t : NodeType) (i : ℤ) → number_int t (parsed_int t i) ≡ number_int t i
number_int-parsed_int is_false i = refl
number_int-parsed_int is_true i = refl
number_int-parsed_int is_null i = refl
number_int-parsed_int is_number i = refl
number_int-parsed_int is_string i = refl
number_int-parsed_int is_array i = refl
number_int-parsed_int is_object i = refl

mutual
  unfolding comparable parsed_node

  comparable-parsed_node : (n : Node ℤ) → comparable (parsed_node n) ≡ comparable n
  comparable-parsed_node (node t k s i d cs) =
      ap₂ (λ x y. node t k s x d y) (number_int-parsed_int t i) (all_comparable-parsed_nodes cs)

  all_comparable-parsed_nodes :
      (ns : Nodes ℤ) → all_comparable (parsed_nodes ns) ≡ all_comparable ns
  all_comparable-parsed_nodes nil = refl
  all_comparable-parsed_nodes (cons n ns) =
      ap₂ cons (comparable-parsed_node n) (all_comparable-parsed_nodes ns)

pub as_parsed-IsParsed : (j : Json ℤ) → IsParsed j (as_parsed j)
as_parsed-IsParsed none = refl
as_parsed-IsParsed (some n) = ap some (comparable-parsed_node n)

-- The value of a payload is the payload itself.
abbrev pub payload_itself : Bytes → Option Bytes
payload_itself p = some p
