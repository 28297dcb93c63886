-- ===== src/Json/Reading.antt =====
-- What the accessors of `Json` return.
use wxdap.Base.{refl, none, true, ◌≡◌, Bool, ◌||◌, some, arith}
use wxdap.Json.{Json, Node, is_true, node_type, get_bool, type_is}

-- `GetBool` never reads a `false`: of any node it is the disjunction of being `true` and the default.
pub get_bool_lem :
    {D : Type 0} (n : Node D) (default : Bool)
    → get_bool (some n) default ≡ (type_is (node_type n) is_true || default)
unfolding get_bool
get_bool_lem n default = ground arith

-- With the default `true` it reads `true` of everything.
pub get_bool_default : {D : Type 0} (j : Json D) → get_bool j true ≡ true
unfolding get_bool
get_bool_default none = refl
get_bool_default (some n) = ground (arith, get_bool_lem n true)
