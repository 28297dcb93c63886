-- ===== src/Json/Parsed.antt =====
-- A tree that is printed and parsed again. The parser of cJSON gives a `true` the `valueint` 1, where
-- `cJSON_CreateBool` leaves it 0; nothing reads it there.
use wxdap.Base.{◌≡◌, refl, Bool, none, some, Bytes, Bool-cases, inl, inr}
use wxdap.Decimal.{ℤ, pos}
use wxdap.Json.{
  Json, Node, Nodes, NodeType, node, nil, cons, is_number, at_name, find_child, get_string,
  get_number, get_integer, get_bool, name_is,
}

abbrev pub number_int : NodeType → ℤ → ℤ
number_int is_number i = i
number_int _ i = pos 0

module _ {D : Type 0} where
  -- The tree without the `valueint` of the nodes that are not numbers.
  unfoldable mutual
    pub comparable : Node D → Node D
    comparable (node t k s i d cs) = node t k s (number_int t i) d (all_comparable cs)

    pub all_comparable : Nodes D → Nodes D
    all_comparable nil = nil
    all_comparable (cons n ns) = cons (comparable n) (all_comparable ns)

  abbrev pub comparable_json : Json D → Json D
  comparable_json none = none
  comparable_json (some n) = some (comparable n)

  -- The second is what printing and parsing makes of the first.
  abbrev pub IsParsed : Json D → Json D → Type 0
  IsParsed j j' = comparable_json j' ≡ comparable_json j

  find_child-comparable :
      (ns : Nodes D) (key : Bytes)
      → find_child (all_comparable ns) key ≡ comparable_json (find_child ns key)
  unfolding find_child comparable
  find_child-comparable nil key = refl
  find_child-comparable (cons (node t k s i d cs) ns) key = elim (Bool-cases (name_is k key)) [
    | inl h ↦ rw h refl
    | inr h ↦ rw h (find_child-comparable ns key)
  ]

  pub at_name-comparable :
      (j : Json D) (key : Bytes) → at_name (comparable_json j) key ≡ comparable_json (at_name j key)
  unfolding at_name comparable
  at_name-comparable none key = refl
  at_name-comparable (some (node t k s i d cs)) key = find_child-comparable cs key

  pub get_string-comparable :
      (j : Json D) (default : Bytes) → get_string (comparable_json j) default ≡ get_string j default
  unfolding get_string comparable
  get_string-comparable none default = refl
  get_string-comparable (some (node t k s i d cs)) default = refl

  pub get_number-comparable :
      (j : Json D) (default : D) → get_number (comparable_json j) default ≡ get_number j default
  unfolding get_number comparable
  get_number-comparable none default = refl
  get_number-comparable (some (node t k s i d cs)) default = refl

  pub get_integer-comparable :
      (j : Json D) (default : ℤ) → get_integer (comparable_json j) default ≡ get_integer j default
  unfolding get_integer comparable
  get_integer-comparable none default = refl
  get_integer-comparable (some (node is_number k s i d cs)) default = refl
  get_integer-comparable (some (node t k s i d cs)) default = refl

  pub get_bool-comparable :
      (j : Json D) (default : Bool) → get_bool (comparable_json j) default ≡ get_bool j default
  unfolding get_bool comparable
  get_bool-comparable none default = refl
  get_bool-comparable (some (node t k s i d cs)) default = refl

  -- What is parsed from the print of a tree is a tree.
  pub IsParsed-some : (m : Node D) (j : Json D) → IsParsed (some m) j → (n : Node D) × (j ≡ some n)
  IsParsed-some m none h = cc
  IsParsed-some m (some n) h = (n, refl)
