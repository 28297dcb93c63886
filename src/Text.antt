-- ===== src/Text.antt =====
-- dap/StringUtils.cpp, but for `BuildArgv` (Argv.antt): trimming, cutting at a character, splitting
-- at delimiters, slashes and quotes. `std::string::npos` is `none`.
pub mod Chop
pub mod Trim
pub mod Tokens
pub mod Slashes
use wxdap.Base.{
  ℕ, zero, suc, ◌%◌, Bool, true, false, ◌&&◌, ◌||◌, Option, none, some, List, [], ◌∷◌, ◌++◌, Bytes,
  codes, ◌==◌, if◌then◌else◌, take, drop, length, ltb,
}

-- The standard library's string searches, and its `erase`.
unfoldable pub contains : Bytes → ℕ → Bool
contains [] c = false
contains (d ∷ set) c = (c == d) || contains set c

unfoldable pub find_char : ℕ → Bytes → Option ℕ
find_char ch [] = none
find_char ch (c ∷ s) =
    if c == ch then some 0 else elim (find_char ch s) [ none ↦ none | some n ↦ some (suc n) ]

unfoldable pub find_first_not_of : Bytes → Bytes → Option ℕ
find_first_not_of set [] = none
find_first_not_of set (c ∷ s) =
    if contains set c
    then elim (find_first_not_of set s) [ none ↦ none | some n ↦ some (suc n) ]
    else some 0

unfoldable pub find_last_not_of : Bytes → Bytes → Option ℕ
find_last_not_of set [] = none
find_last_not_of set (c ∷ s) = elim (find_last_not_of set s) [
  | none ↦ if contains set c then none else some 0
  | some n ↦ some (suc n)
]

-- `str.erase(0, n)`: `npos` erases all.
unfoldable pub erase_front : Option ℕ → Bytes → Bytes
erase_front none s = []
erase_front (some n) s = drop n s

-- `str.erase(n + 1)`: `npos + 1` is 0.
unfoldable pub erase_behind : Option ℕ → Bytes → Bytes
erase_behind none s = []
erase_behind (some n) s = take (suc n) s

-- The text in front of the first NUL, which a C function reads.
unfoldable pub c_str : Bytes → Bytes
c_str [] = []
c_str (c ∷ s) = if c == 0 then [] else c ∷ c_str s

abbrev pub blanks : Bytes
blanks = codes " \n\r\t"

unfoldable pub rtrim : Bytes → Bytes
unfolding find_last_not_of erase_behind
rtrim str = erase_behind (find_last_not_of blanks str) str

unfoldable pub trim : Bytes → Bytes
unfolding find_first_not_of erase_front find_last_not_of erase_behind
trim str =
    let s = erase_front (find_first_not_of blanks str) str in
    erase_behind (find_last_not_of blanks s) s

unfoldable pub before_first : Bytes → ℕ → Bytes
unfolding find_char
before_first str ch = elim (find_char ch str) [ none ↦ str | some at ↦ take at str ]

unfoldable pub after_first : Bytes → ℕ → Bytes
unfolding find_char
after_first str ch = elim (find_char ch str) [ none ↦ [] | some at ↦ drop (suc at) str ]

-- `strtok_r`: skip delimiters, then the text up to the next one, which is dropped.
unfoldable pub skip : Bytes → Bytes → Bytes
skip delims [] = []
skip delims (c ∷ s) = elim (contains delims c) [ true ↦ skip delims s | false ↦ c ∷ s ]

unfoldable pub span : Bytes → Bytes → Bytes × Bytes
span delims [] = ([], [])
span delims (c ∷ s) = elim (contains delims c) [
  | true ↦ ([], s)
  | false ↦ let r = span delims s in (c ∷ r.0, r.1)
]

unfoldable pub token_at : Bytes → Bytes → Option (Bytes × Bytes)
unfolding span
token_at delims [] = none
token_at delims (c ∷ s) = some (span delims (c ∷ s))

unfoldable pub strtok : Bytes → Bytes → Option (Bytes × Bytes)
unfolding skip token_at
strtok delims s = token_at delims (skip delims s)

abbrev pub push_nonempty : Bytes → List Bytes → List Bytes
push_nonempty [] v = v
push_nonempty (c ∷ s) v = (c ∷ s) ∷ v

-- The loop of `Split`, on fuel: each round takes at least one byte.
unfoldable pub split_loop : ℕ → Bytes → Bytes → List Bytes
split_loop zero delims s = []
split_loop (suc fuel) delims s = elim (strtok delims s) [
  | none ↦ []
  | some (t, rest) ↦ push_nonempty (trim t) (split_loop fuel delims rest)
]

unfoldable pub split : Bytes → Bytes → List Bytes
split str delims = split_loop (suc (length str)) delims (c_str str)

-- `last_char` is a `char`: it keeps the low byte of the `wxChar` that is assigned to it.
unfoldable pub convert_loop : ℕ → ℕ → ℕ → Bytes → Bytes
convert_loop source target last_char [] = []
convert_loop source target last_char (c ∷ s) =
    let ch = if c == source then target else c in
    let rest = convert_loop source target (ch % 256) s in
    if (ch == target) && (last_char == target) then rest else ch ∷ rest

unfoldable pub convert_slashes : Bytes → ℕ → ℕ → Bytes
unfolding convert_loop
convert_slashes path source target = convert_loop source target 0 path

unfoldable pub to_unix_path : Bytes → Bytes
unfolding convert_slashes
to_unix_path path = convert_slashes path b'\\' b'/'

-- Not on Windows: PATH_SEP is the slash, SOURCE_SEP the backslash.
unfoldable pub to_native_path : Bytes → Bytes
unfolding convert_slashes
to_native_path path = convert_slashes path b'\\' b'/'

unfoldable pub wrap_with_quotes : Bytes → Bytes
unfolding find_char
wrap_with_quotes [] = []
wrap_with_quotes (c ∷ s) = elim (find_char b' ' (c ∷ s)) [
  | none ↦ c ∷ s
  | some _ ↦ b'"' ∷ (c ∷ s) ++ b'"' ∷ []
]

unfoldable pub starts_loop : Bytes → Bytes → Bool
starts_loop str [] = true
starts_loop [] (p ∷ prefix) = false
starts_loop (c ∷ str) (p ∷ prefix) = (c == p) && starts_loop str prefix

unfoldable pub starts_with : Bytes → Bytes → Bool
unfolding starts_loop
starts_with str prefix = if ltb (length str) (length prefix) then false else starts_loop str prefix
