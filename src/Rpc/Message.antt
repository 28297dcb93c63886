-- ===== src/Rpc/Message.antt =====
-- A message on the wire: a section of headers, an empty line and the payload.
use wxdap.Base.{
  ℕ, zero, suc, ◌+◌, ◌≡◌, ◌≢◌, refl, sym, ap, ap₂, ◌∙◌, some, List, [], ◌∷◌, ◌++◌, append_assoc,
  arith, Bytes, codes, length, take, drop, take-append, drop-append, length-append, All,
}
use wxdap.Decimal.{pos, atol}
use wxdap.Rpc.{JsonRpc, HeaderMap, lookup, end_of_headers}
use wxdap.Rpc.Headers.{IsHeader, header_section}

-- A message with at least one header.
pub record Message : Type 0 where
  pub header : Bytes × Bytes
  pub headers : HeaderMap
  pub payload : Bytes

abbrev pub section : Message → Bytes
section m = header_section m.header m.headers

-- The message on the wire.
abbrev pub text : Message → Bytes
text m = section m ++ (end_of_headers ++ m.payload)

abbrev pub content_length : Bytes
content_length = codes "Content-Length"

-- The headers are well formed, the first Content-Length among them is the payload's length, and
-- the payload is not empty.
pub record IsMessage (m : Message) : Type 0 where
  pub formed : All IsHeader (m.header ∷ m.headers)
  pub value : Bytes
  pub present : lookup content_length (m.header ∷ m.headers) ≡ some value
  pub measured : atol value ≡ pos (length m.payload)
  pub filled : m.payload ≢ []

abbrev pub buffered : Bytes → JsonRpc
buffered b = record { buffer = b }

pub section_end : (m : Message) → length (section m ++ end_of_headers) ≡ length (section m) + 4
section_end m = length-append (section m) end_of_headers

pub take-section :
    (m : Message) (rest : Bytes)
    → take (length (section m) + 4) (section m ++ (end_of_headers ++ rest))
      ≡ section m ++ end_of_headers
take-section m rest =
    ap₂ take (sym (section_end m)) (sym (append_assoc (section m) end_of_headers rest))
    ∙ take-append (section m ++ end_of_headers) rest

pub drop-section :
    (m : Message) (rest : Bytes)
    → drop (length (section m) + 4) (section m ++ (end_of_headers ++ rest)) ≡ rest
drop-section m rest =
    ap₂ drop (sym (section_end m)) (sym (append_assoc (section m) end_of_headers rest))
    ∙ drop-append (section m ++ end_of_headers) rest

pub length-section :
    (m : Message) (rest : Bytes)
    → length (section m ++ (end_of_headers ++ rest)) ≡ length (section m) + 4 + length rest
length-section m rest = omega (
  arith,
  length-append {0} (section m) (end_of_headers ++ rest),
  length-append {0} end_of_headers rest,
)

drop_nil {ℓ} : {A : Type ℓ} (k : ℕ) → drop {A = A} k [] ≡ []
drop_nil zero = refl
drop_nil (suc k) = refl

pub drop-drop {ℓ} : {A : Type ℓ} (i j : ℕ) (xs : List A) → drop (i + j) xs ≡ drop j (drop i xs)
drop-drop zero j xs = ap (λ k. drop k xs) (omega arith)
drop-drop (suc i) j [] = drop_nil _ ∙ sym (drop_nil j)
drop-drop (suc i) j (x ∷ xs) =
    ap (λ k. drop k (x ∷ xs)) (let e : suc i + j ≡ suc (i + j) = omega arith in e)
    ∙ drop-drop i j xs
