-- ===== src/Json.antt =====
-- dap/JSON.cpp and dap/JSON.hpp: the wrapper `Json` over a cJSON tree. The library cJSON (dap/cJSON.cpp,
-- a copy of another project's) is the parameter `c : CJson`: its constructors and the two functions
-- that add an item, with what its header says of them as laws. A `double` is an abstract type with the
-- two conversions that C++ makes. A handle is the node that it points to, or `none` for the null
-- pointer; a function that changes the tree returns the changed node. Who frees a node is in
-- Json/Handles.antt.
pub mod Build
pub mod Arrays
pub mod Building
pub mod Handles
pub mod Parsed
pub mod Reading
use wxdap.Base.{
  ℕ, zero, suc, ◌+◌, ◌≡◌, Bool, true, false, ◌&&◌, ◌||◌, not, Option, none, some, List, [], ◌∷◌,
  ◌++◌, Bytes, codes, bytes_eq, if◌then◌else◌, ltb, leb,
}
use wxdap.Decimal.{ℤ, pos, negsuc}

pub data NodeType : Type 0 where
  is_false is_true is_null is_number is_string is_array is_object : NodeType

-- `struct cJsonDap`: type, name, valuestring, valueint, valuedouble and the chain of children. The
-- `valuestring` here is the `wxString` that the node's bytes convert to when `GetString` returns them;
-- nothing else of the code looks at it.
mutual
  pub data Node (D : Type 0) : Type 0 where
    node : NodeType → Option Bytes → Bytes → ℤ → D → Nodes D → Node D

  pub data Nodes (D : Type 0) : Type 0 where
    nil : Nodes D
    cons : Node D → Nodes D → Nodes D

module _ {D : Type 0} where
  abbrev pub node_type : Node D → NodeType
  node_type (node t k s i d cs) = t

  abbrev pub node_name : Node D → Option Bytes
  node_name (node t k s i d cs) = k

  abbrev pub valuestring : Node D → Bytes
  valuestring (node t k s i d cs) = s

  abbrev pub valueint : Node D → ℤ
  valueint (node t k s i d cs) = i

  abbrev pub valuedouble : Node D → D
  valuedouble (node t k s i d cs) = d

  abbrev pub children : Node D → Nodes D
  children (node t k s i d cs) = cs

  abbrev pub with_name : Bytes → Node D → Node D
  with_name key (node t k s i d cs) = node t (some key) s i d cs

  abbrev pub snoc : Nodes D → Node D → Nodes D
  snoc nil n = cons n nil
  snoc (cons m ms) n = cons m (snoc ms n)

  abbrev pub with_child : Node D → Node D → Node D
  with_child (node t k s i d cs) n = node t k s i d (snoc cs n)

abbrev pub bool_type : Bool → NodeType
bool_type true = is_true
bool_type false = is_false

-- A 32-bit integer.
abbrev pub IsInt : ℤ → Type 0
IsInt (pos n) = ltb n 2147483648 ≡ true
IsInt (negsuc n) = ltb n 2147483648 ≡ true

abbrev pub is_zero : ℤ → Bool
is_zero (pos zero) = true
is_zero _ = false

-- ASCII without a NUL.
abbrev pub is_plain : Bytes → Bool
is_plain [] = true
is_plain (c ∷ s) = ltb 0 c && ltb c 128 && is_plain s

abbrev pub IsPlain : Bytes → Type 0
IsPlain s = is_plain s ≡ true

-- What the code takes from cJSON, from C++'s floating point and from wxWidgets. `through` is what
-- becomes of a `wxString` that is stored in a node and read again: `Add` stores its UTF-8 up to the
-- first NUL, and `GetString` reads bytes by the current locale; `name_through` is the same for a
-- `wxString` that is the name of a node, which the current locale converts both ways. ASCII is kept in
-- every locale.
pub record CJson : Type 1 where
  pub Double : Type 0
  pub of_int : ℤ → Double
  pub to_int : Double → ℤ
  pub to_bool : Double → Bool
  pub through : Bytes → Bytes
  pub name_through : Bytes → Bytes
  pub create_string : Bytes → Node Double
  pub create_number : Double → Node Double
  pub create_bool : Bool → Node Double
  pub create_array : Node Double
  pub create_object : Node Double
  pub add_item_to_array : Node Double → Node Double → Node Double
  pub add_item_to_object : Node Double → Bytes → Node Double → Node Double
  pub zero_double : Double
  pub to_int-of_int : (i : ℤ) → IsInt i → to_int (of_int i) ≡ i
  pub to_bool-of_int : (i : ℤ) → IsInt i → to_bool (of_int i) ≡ not (is_zero i)
  pub through_lem : (s : Bytes) → IsPlain s → through s ≡ s
  pub name_through_lem : (s : Bytes) → IsPlain s → name_through s ≡ s
  pub create_string_lem :
      (s : Bytes) → create_string s ≡ node is_string none s (pos 0) zero_double nil
  pub create_number_lem : (d : Double) → create_number d ≡ node is_number none [] (to_int d) d nil
  pub create_bool_lem :
      (b : Bool) → create_bool b ≡ node (bool_type b) none [] (pos 0) zero_double nil
  pub create_array_lem : create_array ≡ node is_array none [] (pos 0) zero_double nil
  pub create_object_lem : create_object ≡ node is_object none [] (pos 0) zero_double nil
  pub add_item_to_array_lem : (n item : Node Double) → add_item_to_array n item ≡ with_child n item
  pub add_item_to_object_lem :
      (n : Node Double) (key : Bytes) (item : Node Double)
      → add_item_to_object n key item ≡ with_child n (with_name key item)

-- `Json`
abbrev pub Json : Type 0 → Type 0
Json D = Option (Node D)

abbrev pub type_is : NodeType → NodeType → Bool
type_is is_false is_false = true
type_is is_true is_true = true
type_is is_null is_null = true
type_is is_number is_number = true
type_is is_string is_string = true
type_is is_array is_array = true
type_is is_object is_object = true
type_is _ _ = false

-- `child->string && strcmp(child->string, index) == 0`
abbrev pub name_is : Option Bytes → Bytes → Bool
name_is none index = false
name_is (some k) index = bytes_eq k index

module _ {D : Type 0} where
  unfoldable pub is_array? : Json D → Bool
  is_array? none = false
  is_array? (some n) = type_is (node_type n) is_array

  unfoldable pub is_object? : Json D → Bool
  is_object? none = false
  is_object? (some n) = type_is (node_type n) is_object

  unfoldable pub is_ok : Json D → Bool
  is_ok none = false
  is_ok (some n) = true

  unfoldable pub find_child : Nodes D → Bytes → Json D
  find_child nil index = none
  find_child (cons n ns) index = if name_is (node_name n) index then some n else find_child ns index

  -- `operator[](const wxString&)`
  unfoldable pub at_name : Json D → Bytes → Json D
  unfolding find_child
  at_name none index = none
  at_name (some n) index = find_child (children n) index

  unfoldable pub count_children : Nodes D → ℕ
  count_children nil = 0
  count_children (cons n ns) = suc (count_children ns)

  unfoldable pub get_count : Json D → ℕ
  unfolding count_children
  get_count none = 0
  get_count (some n) = count_children (children n)

  unfoldable pub nth_child : Nodes D → ℕ → Json D
  nth_child nil i = none
  nth_child (cons n ns) zero = some n
  nth_child (cons n ns) (suc i) = nth_child ns i

  -- `operator[](size_t)`
  unfoldable pub at_index : Json D → ℕ → Json D
  unfolding get_count nth_child
  at_index none index = none
  at_index (some n) index =
      if leb (get_count (some n)) index then none else nth_child (children n) index

  unfoldable pub get_name : Json D → Bytes
  get_name none = []
  get_name (some n) = elim (node_name n) [ none ↦ [] | some k ↦ k ]

  -- `GetString`: the conversion of the node's bytes is in what `valuestring` stands for (see `Node`), and
  -- for a text that the code stored itself in `through`.
  unfoldable pub get_string : Json D → Bytes → Bytes
  get_string none default = default
  get_string (some n) default = if type_is (node_type n) is_string then valuestring n else default

  unfoldable pub get_number : Json D → D → D
  get_number none default = default
  get_number (some n) default = if type_is (node_type n) is_number then valuedouble n else default

  unfoldable pub get_integer : Json D → ℤ → ℤ
  get_integer none default = default
  get_integer (some n) default = if type_is (node_type n) is_number then valueint n else default

  -- `m_cjson != cJsonDap_False` compares the pointer, which is not null here, with 0.
  unfoldable pub get_bool : Json D → Bool → Bool
  get_bool none default = default
  get_bool (some n) default =
      let pointer_not_null = true in
      if not (type_is (node_type n) is_true) && pointer_not_null
      then default
      else type_is (node_type n) is_true

  unfoldable pub get_strings : Json D → ℕ → ℕ → List Bytes
  unfolding at_index get_string
  get_strings j zero i = []
  get_strings j (suc rounds) i = get_string (at_index j i) [] ∷ get_strings j rounds (i + 1)

  unfoldable pub get_string_array : Json D → List Bytes
  unfolding get_strings get_count
  get_string_array none = []
  get_string_array (some n) =
      if type_is (node_type n) is_array then get_strings (some n) (get_count (some n)) 0 else []
