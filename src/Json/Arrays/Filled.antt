-- ===== src/Json/Arrays/Filled.antt =====
-- The array that the loop fills, and that it is read back.
use wxdap.Base.{◌≡◌, refl, sym, ap, ap₂, ◌∙◌, none, some, List, [], ◌∷◌, Bytes, All, map}
use wxdap.Decimal.{pos}
use wxdap.Json.{
  CJson, Json, Node, Nodes, node, nil, cons, snoc, is_array, is_string, get_string,
  get_string_array, is_object,
}
use wxdap.Json.Build.{
  create_array, add_json, add_object, add_item, array_of, add_string, add_strings,
}
use wxdap.Json.Building.{object, IsKept}
use wxdap.Json.Arrays.{
  items_to, list_from, list_from_lem, read_nodes, join, snoc-join, join-nil, get_string_array-array,
}

module _ (c : CJson) where
  open c use {Double, through, zero_double}

  abbrev pub array : Nodes Double → Json Double
  array ns = some (node is_array none [] (pos 0) zero_double ns)

  abbrev pub array_node : Bytes → Nodes Double → Node Double
  array_node name ns = node is_array (some name) [] (pos 0) zero_double ns

  pub create_array-array : create_array c ≡ array nil
  unfolding create_array
  create_array-array = ap some c.create_array_lem

  add_json-array :
      (ms : Nodes Double) (n : Node Double) → add_json c (array ms) [] (some n) ≡ array (snoc ms n)
  unfolding add_json add_item
  add_json-array ms n = ap some (c.add_item_to_array_lem _ n)

  pub add_string-array :
      (ms : Nodes Double) (s : Bytes)
      → add_string c (array ms) [] s
        ≡ array (snoc ms (node is_string none (through s) (pos 0) zero_double nil))
  unfolding add_string
  add_string-array ms s = ap some (
      c.add_item_to_array_lem _ _
      ∙ ap (λ n. node is_array none [] (pos 0) zero_double (snoc ms n))
          (c.create_string_lem (through s)))

  pub add_json-array_node :
      (ms : Nodes Double) (name : Bytes) (ns : Nodes Double)
      → add_json c (object c ms) name (array ns) ≡ object c (snoc ms (array_node name ns))
  unfolding add_json add_object
  add_json-array_node ms name ns = ap some (c.add_item_to_object_lem _ name _)

  pub add_item-array :
      (ms : Nodes Double) (name : Bytes) (ns : Nodes Double)
      → add_item c (object c ms) name (array ns) ≡ object c (snoc ms (array_node name ns))
  unfolding add_item
  add_item-array ms name ns = ap some (c.add_item_to_object_lem _ name _)

  module _ {A : Type 0} where
    abbrev pub nodes_of : (A → Nodes Double) → List A → Nodes Double
    nodes_of fields [] = nil
    nodes_of fields (x ∷ xs) =
        cons (node is_object none [] (pos 0) zero_double (fields x)) (nodes_of fields xs)

    items_to-join :
        (to : A → Json Double) (fields : A → Nodes Double)
        → ((x : A) → to x ≡ object c (fields x))
        → (ms : Nodes Double) (xs : List A)
        → items_to c to (array ms) xs ≡ array (join ms (nodes_of fields xs))
    unfolding items_to
    items_to-join to fields h ms [] = ap array (sym (join-nil ms))
    items_to-join to fields h ms (x ∷ xs) =
        let n = node is_object none [] (pos 0) zero_double (fields x) in
        ap (λ arr. items_to c to arr xs) (ap (add_json c (array ms) []) (h x) ∙ add_json-array ms n)
        ∙ items_to-join to fields h (snoc ms n) xs
        ∙ ap array (snoc-join ms n (nodes_of fields xs))

    -- An array of objects, filled in a loop.
    pub items_to-array :
        (to : A → Json Double) (fields : A → Nodes Double)
        → ((x : A) → to x ≡ object c (fields x))
        → (xs : List A) → items_to c to (create_array c) xs ≡ array (nodes_of fields xs)
    items_to-array to fields h xs =
        ap (λ arr. items_to c to arr xs) create_array-array ∙ items_to-join to fields h nil xs

    read_nodes-nodes_of :
        (from : Json Double → A) (fields : A → Nodes Double) (Ok : A → Type 0) (g : A → A)
        → ((x : A) → Ok x → from (object c (fields x)) ≡ g x)
        → (xs : List A) → All Ok xs
        → read_nodes from (nodes_of fields xs) ≡ map g xs
    read_nodes-nodes_of from fields Ok g h [] ok = refl
    read_nodes-nodes_of from fields Ok g h (x ∷ xs) (here, rest) =
        ap₂ (λ y ys. y ∷ ys) (h x here) (read_nodes-nodes_of from fields Ok g h xs rest)

    -- The array is read back as the list of what each object is read back as.
    pub list_from-array :
        (from : Json Double → A) (fields : A → Nodes Double) (Ok : A → Type 0) (g : A → A)
        → ((x : A) → Ok x → from (object c (fields x)) ≡ g x)
        → (name : Bytes) (xs : List A) → All Ok xs
        → list_from from (some (array_node name (nodes_of fields xs))) ≡ map g xs
    list_from-array from fields Ok g h name xs ok =
        list_from_lem from (array_node name (nodes_of fields xs))
        ∙ read_nodes-nodes_of from fields Ok g h xs ok

    map_same : (xs : List A) → map (λ x. x) xs ≡ xs
    map_same [] = refl
    map_same (x ∷ xs) = ap (λ ys. x ∷ ys) (map_same xs)

    -- The array is read back as the list, when each object is read back as its element.
    pub list_from-array_same :
        (from : Json Double → A) (fields : A → Nodes Double) (Ok : A → Type 0)
        → ((x : A) → Ok x → from (object c (fields x)) ≡ x)
        → (name : Bytes) (xs : List A) → All Ok xs
        → list_from from (some (array_node name (nodes_of fields xs))) ≡ xs
    list_from-array_same from fields Ok h name xs ok =
        list_from-array from fields Ok (λ x. x) h name xs ok ∙ map_same xs

  abbrev pub string_nodes : List Bytes → Nodes Double
  string_nodes [] = nil
  string_nodes (s ∷ strings) =
      cons (node is_string none (through s) (pos 0) zero_double nil) (string_nodes strings)

  pub array_of-join :
      (ms : Nodes Double) (strings : List Bytes)
      → array_of c (array ms) strings ≡ array (join ms (string_nodes strings))
  unfolding array_of
  array_of-join ms [] = ap array (sym (join-nil ms))
  array_of-join ms (s ∷ strings) =
      let n = node is_string none (through s) (pos 0) zero_double nil in
      ap (λ arr. array_of c arr strings) (add_string-array ms s)
      ∙ array_of-join (snoc ms n) strings
      ∙ ap array (snoc-join ms n (string_nodes strings))

  pub add_strings-object :
      (ms : Nodes Double) (name : Bytes) (strings : List Bytes)
      → add_strings c (object c ms) name strings
        ≡ object c (snoc ms (array_node name (string_nodes strings)))
  unfolding add_strings
  add_strings-object ms name strings =
      ap (add_item c (object c ms) name)
        (ap (λ arr. array_of c arr strings) create_array-array ∙ array_of-join nil strings)
      ∙ add_item-array ms name (string_nodes strings)

  pub read_nodes-string_nodes :
      (strings : List Bytes)
      → All (IsKept c) strings
      → read_nodes (λ x. get_string x []) (string_nodes strings) ≡ strings
  unfolding get_string
  read_nodes-string_nodes [] h = refl
  read_nodes-string_nodes (s ∷ strings) (k, h) =
      ap₂ (λ t ts. t ∷ ts) k (read_nodes-string_nodes strings h)

  -- An array of strings that are read as they were stored is read back.
  pub get_string_array-string_nodes :
      (name : Bytes) (strings : List Bytes)
      → All (IsKept c) strings
      → get_string_array (some (array_node name (string_nodes strings))) ≡ strings
  get_string_array-string_nodes name strings h =
      get_string_array-array (some name) [] (pos 0) zero_double (string_nodes strings)
      ∙ read_nodes-string_nodes strings h
