-- ===== src/Json/Arrays.antt =====
-- dap/dap.cpp: the loops that fill an array with `arr.Add(x.To())` and that read one with
-- `x.From(arr[i])`, for every type of element.
pub mod Filled
use wxdap.Base.{
  ℕ, zero, suc, ◌+◌, ◌≡◌, refl, sym, ap, ap₂, ◌∙◌, false, none, some, List, [], ◌∷◌, Bytes, leb,
  arith, All, Option,
}
use wxdap.Decimal.{ℤ, pos}
use wxdap.Json.{
  CJson, Json, Node, Nodes, node, nil, cons, snoc, is_array, is_string, children, at_index,
  get_count, nth_child, count_children, get_string, get_strings, get_string_array, is_object,
}
use wxdap.Json.Build.{create_array, add_json, add_item, array_of, add_string, add_strings}
use wxdap.Json.Building.{object}

module _ {D A : Type 0} where
  -- `x.From(arr[i])` for the next `rounds` indices.
  unfoldable pub items_from : (Json D → A) → Json D → ℕ → ℕ → List A
  items_from from arr zero i = []
  items_from from arr (suc rounds) i = from (at_index arr i) ∷ items_from from arr rounds (i + 1)

  -- From 0 to `arr.GetCount()`.
  unfoldable pub list_from : (Json D → A) → Json D → List A
  unfolding items_from
  list_from from arr = items_from from arr (get_count arr) 0

  -- The children, each read.
  abbrev pub read_nodes : (Json D → A) → Nodes D → List A
  read_nodes from nil = []
  read_nodes from (cons n ns) = from (some n) ∷ read_nodes from ns

module _ (c : CJson) {A : Type 0} where
  open c use {Double}

  -- `arr.Add(x.To())` for each element.
  unfoldable pub items_to : (A → Json Double) → Json Double → List A → Json Double
  items_to to arr [] = arr
  items_to to arr (x ∷ xs) = items_to to (add_json c arr [] (to x)) xs

module _ {D : Type 0} where
  abbrev pub join : Nodes D → Nodes D → Nodes D
  join nil ns = ns
  join (cons m ms) ns = cons m (join ms ns)

  pub snoc-join :
      (ms : Nodes D) (n : Node D) (ns : Nodes D) → join (snoc ms n) ns ≡ join ms (cons n ns)
  snoc-join nil n ns = refl
  snoc-join (cons m ms) n ns = ap (cons m) (snoc-join ms n ns)

  pub join-nil : (ms : Nodes D) → join ms nil ≡ ms
  join-nil nil = refl
  join-nil (cons m ms) = ap (cons m) (join-nil ms)

  pub join-snoc : (ms : Nodes D) (n : Node D) → join ms (cons n nil) ≡ snoc ms n
  join-snoc nil n = refl
  join-snoc (cons m ms) n = ap (cons m) (join-snoc ms n)

  nth_child-join :
      (ms : Nodes D) (n : Node D) (ns : Nodes D)
      → nth_child (join ms (cons n ns)) (count_children ms) ≡ some n
  unfolding nth_child count_children
  nth_child-join nil n ns = refl
  nth_child-join (cons m ms) n ns = nth_child-join ms n ns

  count_children-join :
      (ms ns : Nodes D) → count_children (join ms ns) ≡ count_children ms + count_children ns
  unfolding count_children
  count_children-join nil ns = omega arith
  count_children-join (cons m ms) ns = let ih = count_children-join ms ns in omega arith

  count_children-snoc :
      (ms : Nodes D) (n : Node D) → count_children (snoc ms n) ≡ count_children ms + 1
  unfolding count_children
  count_children-snoc nil n = refl
  count_children-snoc (cons m ms) n = let ih = count_children-snoc ms n in omega arith

  at_index-join :
      (a : Node D) (ms : Nodes D) (n : Node D) (ns : Nodes D)
      → children a ≡ join ms (cons n ns)
      → at_index (some a) (count_children ms) ≡ some n
  unfolding at_index get_count
  at_index-join a ms n ns e =
      let total : count_children (join ms (cons n ns))
          ≡ count_children ms + suc (count_children ns) =
        unfold count_children in count_children-join ms (cons n ns) in
      let inside : leb (count_children (children a)) (count_children ms) ≡ false =
        ground (arith, ap count_children e ∙ total) in
      rw (inside, e) (nth_child-join ms n ns)

module _ {D A : Type 0} (from : Json D → A) where
  pub items_from-join :
      (a : Node D) (ms ns : Nodes D)
      → children a ≡ join ms ns
      → items_from from (some a) (count_children ns) (count_children ms) ≡ read_nodes from ns
  unfolding items_from count_children
  items_from-join a ms nil e = refl
  items_from-join a ms (cons n ns) e =
      ap₂ (λ x xs. x ∷ xs) (ap from (at_index-join a ms n ns e))
        (ap (items_from from (some a) (count_children ns)) (sym (count_children-snoc ms n))
          ∙ items_from-join a (snoc ms n) ns (e ∙ sym (snoc-join ms n ns)))

  -- A loop over the indices of an array, each of which is looked up from the first child on, reads
  -- every child, once and in order.
  pub list_from_lem : (a : Node D) → list_from from (some a) ≡ read_nodes from (children a)
  unfolding list_from get_count
  list_from_lem a = items_from-join a nil (children a) refl

get_strings-items_from :
    {D : Type 0} (j : Json D) (rounds i : ℕ)
    → get_strings j rounds i ≡ items_from (λ x. get_string x []) j rounds i
unfolding get_strings items_from
get_strings-items_from j zero i = refl
get_strings-items_from j (suc rounds) i =
    ap (λ xs. get_string (at_index j i) [] ∷ xs) (get_strings-items_from j rounds (i + 1))

-- `GetStringArray` of an array.
pub get_string_array-array :
    {D : Type 0} (name : Option Bytes) (s : Bytes) (i : ℤ) (d : D) (ns : Nodes D)
    → get_string_array (some (node is_array name s i d ns)) ≡ read_nodes (λ x. get_string x []) ns
unfolding get_string_array get_count
get_string_array-array name s i d ns =
    get_strings-items_from (some (node is_array name s i d ns)) (count_children ns) 0
    ∙ items_from-join (λ x. get_string x []) (node is_array name s i d ns) nil ns refl
