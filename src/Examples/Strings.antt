-- ===== src/Examples/Strings.antt =====
-- Texts, paths and command lines.
use wxdap.Base.{
  ℕ, ◌≡◌, refl, List, [], ◌∷◌, ◌++◌, ◌⊎◌, Bytes, codes, All, Lacks, map, arith, ◌<◌, true,
}
use wxdap.Base.{some}
use wxdap.Connection.{do_parse, tcp, unix_local_socket}
use wxdap.Connection.RoundTrip.{do_parse-strings, tcp_string, unix_string}
use wxdap.Decimal.{pos}
use wxdap.Protocol.{not_found}
use wxdap.Argv.{build_argv, command_string}
use wxdap.Argv.RoundTrip.{build_argv-command_string}
use wxdap.Argv.Backslash.{build_argv_trailing_backslash}
use wxdap.Text.{find_char, trim, split, c_str, before_first, after_first, convert_slashes}
use wxdap.Text.Chop.{cut_at_first}
use wxdap.Text.Trim.{trim_lem, StartsClean, EndsClean, IsBlank}
use wxdap.Text.Tokens.{split-pieces, pieces, kept}
use wxdap.Text.Slashes.{convert_slashes-squeeze, squeeze, swap}

abbrev header : Bytes
header = codes "Content-Length: 12"

cut_at_first_example :
    Lacks b':' (before_first header b':')
    × ((Lacks b':' header × (before_first header b':' ≡ header) × (after_first header b':' ≡ []))
        ⊎ (header ≡ before_first header b':' ++ b':' ∷ after_first header b':'))
cut_at_first_example = cut_at_first header b':'

trim_lem_example :
    StartsClean (trim (codes "  12 "))
    × EndsClean (trim (codes "  12 "))
    × ((l : Bytes) × (r : Bytes) × All IsBlank l
        × All IsBlank r
        × (codes "  12 " ≡ l ++ (trim (codes "  12 ") ++ r)))
trim_lem_example = trim_lem (codes "  12 ")

split-pieces_example :
    split (codes "a\n\nb c\n") (codes "\n")
    ≡ kept (pieces (codes "\n") (c_str (codes "a\n\nb c\n")))
split-pieces_example = split-pieces (codes "a\n\nb c\n") (codes "\n")

abbrev path : Bytes
path = codes "a\\\\b/c\\d"

convert_slashes-squeeze_example :
    convert_slashes path b'\\' b'/' ≡ squeeze b'/' (map (swap b'\\' b'/') path)
convert_slashes-squeeze_example =
    convert_slashes-squeeze b'\\' b'/' (omega arith) path (omega arith) (ground arith)

abbrev same_char : ℕ → ℕ
same_char c = c

abbrev ascii : (c : ℕ) → c < 128 → same_char c ≡ c
ascii c h = refl

abbrev command : List Bytes
command = codes "gdb" ∷ codes "my prog" ∷ codes "C:\\x" ∷ []

build_argv-command_string_example : build_argv same_char (command_string command) ≡ command
build_argv-command_string_example = build_argv-command_string same_char ascii command (ground arith)

build_argv_trailing_backslash_example :
    build_argv same_char (command_string ((codes "a b" ++ b'\\' ∷ []) ∷ []))
    ≡ (b'"' ∷ codes "a b" ++ b'"' ∷ b' ' ∷ []) ∷ []
build_argv_trailing_backslash_example =
    build_argv_trailing_backslash same_char ascii (codes "a b") (ground arith) (omega arith)
      (unfold find_char in λ e. cc)

do_parse-strings_example :
    (do_parse (tcp_string (codes "localhost") 12345)
      ≡ some (record {
        protocol = some tcp;
        host = codes "localhost";
        port = pos 12345;
        path = [];
        is_ok = true;
      }))
    × (do_parse (unix_string (codes "/tmp/dap"))
        ≡ some (record {
          protocol = some unix_local_socket;
          host = [];
          port = not_found;
          path = codes "/tmp/dap";
          is_ok = true;
        }))
do_parse-strings_example =
    do_parse-strings (codes "localhost") (codes "/tmp/dap") 12345 (ground arith) (ground arith)
      (omega arith) (ground arith)
