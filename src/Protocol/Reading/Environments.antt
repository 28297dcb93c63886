-- ===== src/Protocol/Reading/Environments.antt =====
-- dap/dap.cpp: what `Environment::From` reads of an environment that `Environment::To` wrote.
use wxdap.Base.{
  All, if◌then◌else◌, ◌≡◌, refl, sym, ap, ap₂, ◌∙◌, false, List, [], ◌∷◌, ◌++◌, map, Bytes, Lacks,
  append_assoc, append-nil, codes, some,
}
use wxdap.Json.{CJson, Json, get_string}
use wxdap.Json.Build.{array_of, add_string, create_object, create_array}
use wxdap.Text.Chop.{find_char-append, before_first-append, after_first-append}
use wxdap.Protocol.Arguments.{list_to}
use wxdap.Protocol.Reading.{Vars, has_key, insert_var, insert_lines, environment_from}
use wxdap.Json.{Nodes, cons, nil, snoc, is_ok, find_child}
use wxdap.Json.Build.{add_json}
use wxdap.Json.Building.{
  object, object_node, string_node, add_string-object, create_object-object, add_json-object,
  IsKept,
}
use wxdap.Json.Arrays.{join-snoc, join, join-nil, snoc-join, list_from_lem}
use wxdap.Json.Arrays.Filled.{
  array, read_nodes-string_nodes, add_json-array_node, array_of-join, create_array-array,
  array_node, string_nodes,
}
use wxdap.Protocol.Arguments.{dictionary_to, environment_to}
use wxdap.Protocol.Requests.{Environment, EnvFormat, dictionary, list, no_env}

abbrev pub line_of : Bytes × Bytes → Bytes
line_of (name, value) = name ++ b'=' ∷ value

-- No name holds a `=`, and each is new: not one of the names so far.
abbrev pub AllNew : Vars → Vars → Type 0
AllNew so_far [] = Unit
AllNew so_far ((name, value) ∷ vars) =
    Lacks b'=' name × (has_key name so_far ≡ false) × AllNew (so_far ++ (name, value) ∷ []) vars

insert_var_new :
    (vars : Vars) (name value : Bytes)
    → has_key name vars ≡ false
    → insert_var vars name value ≡ vars ++ (name, value) ∷ []
unfolding insert_var
insert_var_new vars name value h = rw (h, insert_var) refl

insert_lines-line_of :
    (so_far : Vars) (name value : Bytes) (strings : List Bytes)
    → Lacks b'=' name
    → insert_lines so_far ((name ++ b'=' ∷ value) ∷ strings)
      ≡ insert_lines (insert_var so_far name value) strings
unfolding insert_lines
insert_lines-line_of so_far name value strings lacks =
    rw (find_char-append b'=' name value lacks, insert_lines)
      (ap₂ (λ n v. insert_lines (insert_var so_far n v) strings)
        (before_first-append b'=' name value lacks) (after_first-append b'=' name value lacks))

pub insert_lines-map :
    (so_far vars : Vars)
    → AllNew so_far vars
    → insert_lines so_far (map line_of vars) ≡ so_far ++ vars
unfolding insert_lines
insert_lines-map so_far [] h = sym (append-nil so_far)
insert_lines-map so_far ((name, value) ∷ vars) (lacks, new, h) =
    insert_lines-line_of so_far name value (map line_of vars) lacks
    ∙ ap (λ now. insert_lines now (map line_of vars)) (insert_var_new so_far name value new)
    ∙ insert_lines-map (so_far ++ (name, value) ∷ []) vars h
    ∙ append_assoc so_far ((name, value) ∷ []) vars

pub list_to-array_of :
    (c : CJson) (j : Json c.Double) (vars : Vars)
    → list_to c j vars ≡ array_of c j (map line_of vars)
unfolding list_to array_of
list_to-array_of c j [] = refl
list_to-array_of c j ((name, value) ∷ vars) =
    list_to-array_of c (add_string c j [] (line_of (name, value))) vars

-- What the reader has of an environment: only a list is read.
abbrev pub environment_read : Environment → Vars
environment_read env = elim env.format [ dictionary ↦ [] | list ↦ env.vars | no_env ↦ [] ]

module _ (c : CJson) where
  open c use {Double}

  -- The lines of a list have new names and are read as they are stored.
  abbrev pub IsEnvironment : Environment → Type 0
  IsEnvironment env = elim env.format [
    | dictionary ↦ Unit
    | list ↦ AllNew [] env.vars × All (IsKept c) (map line_of env.vars)
    | no_env ↦ Unit
  ]

  abbrev pair_nodes : Vars → Nodes Double
  pair_nodes [] = nil
  pair_nodes ((name, value) ∷ vars) =
      cons (string_node c (c.name_through name) value) (pair_nodes vars)

  dictionary_to-join :
      (ms : Nodes Double) (vars : Vars)
      → dictionary_to c (object c ms) vars ≡ object c (join ms (pair_nodes vars))
  unfolding dictionary_to
  dictionary_to-join ms [] = ap (object c) (sym (join-nil ms))
  dictionary_to-join ms ((name, value) ∷ vars) =
      ap (λ j. dictionary_to c j vars) (add_string-object c ms (c.name_through name) value)
      ∙ dictionary_to-join (snoc ms (string_node c (c.name_through name) value)) vars
      ∙ ap (object c) (snoc-join ms (string_node c (c.name_through name) value) (pair_nodes vars))

  dictionary_to-object :
      (vars : Vars) → dictionary_to c (create_object c) vars ≡ object c (pair_nodes vars)
  dictionary_to-object vars =
      ap (λ j. dictionary_to c j vars) (create_object-object c) ∙ dictionary_to-join nil vars

  list_to-array :
      (vars : Vars) → list_to c (create_array c) vars ≡ array c (string_nodes c (map line_of vars))
  list_to-array vars =
      list_to-array_of c (create_array c) vars
      ∙ ap (λ arr. array_of c arr (map line_of vars)) (create_array-array c)
      ∙ array_of-join c nil (map line_of vars)

  -- The child "env", where there is one.
  abbrev pub env_nodes : EnvFormat → Vars → Nodes Double
  env_nodes dictionary vars = cons (object_node c (codes "env") (pair_nodes vars)) nil
  env_nodes list vars = cons (array_node c (codes "env") (string_nodes c (map line_of vars))) nil
  env_nodes no_env vars = nil

  pub add_environment :
      (ms : Nodes Double) (format : EnvFormat) (vars : Vars)
      → (let env_obj = environment_to c format vars in
          if is_ok env_obj then add_json c (object c ms) (codes "env") env_obj else object c ms)
        ≡ object c (join ms (env_nodes format vars))
  unfolding environment_to
  add_environment ms dictionary vars = rw (dictionary_to-object vars) (
      unfold is_ok in
      add_json-object c ms (codes "env") (pair_nodes vars) ∙ ap (object c) (sym (join-snoc ms _)))
  add_environment ms list vars = rw (list_to-array vars) (
      unfold is_ok in
      add_json-array_node c ms (codes "env") _ ∙ ap (object c) (sym (join-snoc ms _)))
  add_environment ms no_env vars = unfold is_ok in ap (object c) (sym (join-nil ms))

  environment_from-list :
      (vars : Vars)
      → AllNew [] vars
      → All (IsKept c) (map line_of vars)
      → environment_from c (some (array_node c (codes "env") (string_nodes c (map line_of vars))))
        ≡ vars
  unfolding environment_from
  environment_from-list vars h k =
      ap (insert_lines [])
        (list_from_lem (λ x. get_string x []) _ ∙ read_nodes-string_nodes c (map line_of vars) k)
      ∙ insert_lines-map [] vars h

  pub environment_from-env_nodes :
      (format : EnvFormat) (vars : Vars)
      → IsEnvironment (record { format = format; vars = vars })
      → environment_from c (find_child (env_nodes format vars) (codes "env"))
        ≡ environment_read (record { format = format; vars = vars })
  unfolding find_child
  environment_from-env_nodes dictionary vars h = unfold environment_from in refl
  environment_from-env_nodes list vars (h, k) = environment_from-list vars h k
  environment_from-env_nodes no_env vars h = unfold environment_from in refl
