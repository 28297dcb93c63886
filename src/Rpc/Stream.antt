-- ===== src/Rpc/Stream.antt =====
-- A stream of messages that comes in chunks of any size.
use wxdap.Base.{
  ℕ, zero, suc, ◌≡◌, ◌≢◌, ◌<◌, refl, sym, ap, ◌∙◌, Option, none, some, List, [], ◌∷◌, ◌++◌,
  append_assoc, append-nil, arith, Bytes, length, concat, length-append, length-ne-nil,
  append_split, append-nil_left, All,
}
use native.Mathlib.Decide.{dec_lt}
use wxdap.Rpc.Headers.{header_section}
use wxdap.Rpc.{end_of_headers, JsonRpc, do_process_buffer, process_loop, on_data_read, feed}
use wxdap.Rpc.Message.{Message, IsMessage, text, buffered}
use wxdap.Rpc.Messages.{do_process_buffer-text, do_process_buffer_prefix}

module _ {ℓ} {J : Type ℓ} (parse : Bytes → Option J) where
  pub process_none :
      (fuel : ℕ) (r r' : JsonRpc)
      → do_process_buffer parse r ≡ (none, r')
      → process_loop parse (suc fuel) r ≡ ([], r')
  unfolding process_loop
  process_none fuel r r' e = ground arith

  pub process_some :
      (fuel : ℕ) (r r' : JsonRpc) (j : J)
      → do_process_buffer parse r ≡ (some j, r')
      → process_loop parse (suc fuel) r
        ≡ (j ∷ (process_loop parse fuel r').0, (process_loop parse fuel r').1)
  unfolding process_loop
  process_some fuel r r' j e = ground arith

  -- A message and the value that its payload parses to.
  abbrev pub IsItem : Message × J → Type ℓ
  IsItem (m, j) = IsMessage m × (parse m.payload ≡ some j)

abbrev pub texts {ℓ} : {J : Type ℓ} → List (Message × J) → Bytes
texts [] = []
texts ((m, j) ∷ items) = text m ++ texts items

abbrev pub values {ℓ} : {J : Type ℓ} → List (Message × J) → List J
values [] = []
values ((m, j) ∷ items) = j ∷ values items

-- The bytes do not reach the end of the first message.
abbrev pub IsShort {ℓ} : {J : Type ℓ} → Bytes → List (Message × J) → Type 0
IsShort b [] = Unit
IsShort b ((m, j) ∷ items) = length b < length (text m)

append_nil_both {ℓ} : {A : Type ℓ} (xs ys : List A) → xs ++ ys ≡ [] → ys ≡ []
append_nil_both [] ys e = e
append_nil_both (x ∷ xs) ys e = cc

text-ne-nil : (m : Message) → IsMessage m → text m ≢ []
text-ne-nil m v e = v.filled (
    append_nil_both end_of_headers m.payload
      (append_nil_both (header_section m.header m.headers) _ e))

module _ {ℓ} {J : Type ℓ} (parse : Bytes → Option J) where
  -- What a run of the loop did: it delivered the first messages, and the others begin with what is
  -- left in the buffer.
  record Delivered (items : List (Message × J)) (rest : Bytes) (out : List J × JsonRpc)
      : Type ℓ where
    done : List (Message × J)
    left : List (Message × J)
    parts : items ≡ done ++ left
    given : out.0 ≡ values done
    begins : out.1.buffer ++ rest ≡ texts left
    short : IsShort out.1.buffer left
    good : All (IsItem parse) left

  Delivered-more :
      (m : Message) (j : J) (items : List (Message × J)) (rest : Bytes) (js : List J) (r : JsonRpc)
      → Delivered items rest (js, r)
      → Delivered ((m, j) ∷ items) rest (j ∷ js, r)
  Delivered-more m j items rest js r d = record {
    done = (m, j) ∷ d.done;
    left = d.left;
    parts = ap (λ l. (m, j) ∷ l) d.parts;
    given = ap (λ l. j ∷ l) d.given;
    begins = d.begins;
    short = d.short;
    good = d.good;
  }

  process_loop-Delivered :
      (items : List (Message × J)) (fuel : ℕ) (b rest : Bytes)
      → All (IsItem parse) items
      → b ++ rest ≡ texts items
      → length b < fuel
      → Delivered items rest (process_loop parse fuel (buffered b))
  process_loop-Delivered items zero b rest good e h = elim h [ ]
  process_loop-Delivered [] (suc fuel) b rest good e h =
      let empty : b ≡ [] = append-nil_left b rest e in
      rw
        (
          empty,
          process_none parse fuel (buffered []) (buffered []) (unfold do_process_buffer in refl),
        )
        (record {
          done = [];
          left = [];
          parts = refl;
          given = refl;
          begins = append_nil_both b rest e;
          short = tt;
          good = tt;
        })
  process_loop-Delivered ((m, j) ∷ items) (suc fuel) b rest ((v, p), good) e h =
      elim (dec_lt (length b) (length (text m))) [
        | yes short ↦
            let (ws, whole, _) = append_split (text m) (texts items) b rest (sym e) (omega arith) in
            let behind : ws ≢ [] = not_empty ws whole short in
            rw
              (process_none parse fuel (buffered b) (buffered b)
                (do_process_buffer_prefix parse m b ws v (sym whole) behind))
              (record {
                done = [];
                left = (m, j) ∷ items;
                parts = refl;
                given = refl;
                begins = e;
                short = short;
                good = ((v, p), good);
              })
        | no long ↦
            let (ws, begins, more) = append_split b rest (text m) (texts items) e (omega arith) in
            let room : length ws < fuel = shorter ws begins in
            rw
              (
                begins,
                process_some parse fuel (buffered (text m ++ ws)) (buffered ws) j
                    (do_process_buffer-text parse m ws v ∙ ap (λ o. (o, buffered ws)) p),
              )
              (Delivered-more m j items rest _ _
                (process_loop-Delivered items fuel ws rest good more room))
      ]
    where
      not_empty : (ws : Bytes) → text m ≡ b ++ ws → length b < length (text m) → ws ≢ []
      not_empty ws whole short none_left =
          omega (arith, ap length whole, length-append {0} b ws, ap length none_left)

      shorter : (ws : Bytes) → b ≡ text m ++ ws → length ws < fuel
      shorter ws begins = omega (
        arith,
        ap length begins,
        length-append {0} (text m) ws,
        length-ne-nil (text m) (text-ne-nil m v),
      )

  -- One call of `OnDataRead`.
  on_data_read-Delivered :
      (items : List (Message × J)) (b chunk rest : Bytes)
      → All (IsItem parse) items
      → IsShort b items
      → b ++ (chunk ++ rest) ≡ texts items
      → Delivered items rest (on_data_read parse (buffered b) chunk)
  unfolding on_data_read
  on_data_read-Delivered items b [] rest good short e = record {
    done = [];
    left = items;
    parts = refl;
    given = refl;
    begins = e;
    short = short;
    good = good;
  }
  on_data_read-Delivered items b (c ∷ chunk) rest good short e =
      process_loop-Delivered items (suc (length (b ++ c ∷ chunk))) (b ++ c ∷ chunk) rest good
        (append_assoc b (c ∷ chunk) rest ∙ e) (omega arith)

  short_end :
      (b : Bytes) (items : List (Message × J)) → IsShort b items → b ≡ texts items → items ≡ []
  short_end b [] h e = refl
  short_end b ((m, j) ∷ items) h e =
      absurd (omega (arith, ap length e, length-append {0} (text m) (texts items)))

  values-append : (xs ys : List (Message × J)) → values (xs ++ ys) ≡ values xs ++ values ys
  values-append [] ys = refl
  values-append ((m, j) ∷ xs) ys = ap (λ l. j ∷ l) (values-append xs ys)

  feed_from :
      (chunks : List Bytes) (items : List (Message × J)) (b : Bytes)
      → All (IsItem parse) items
      → IsShort b items
      → b ++ concat chunks ≡ texts items
      → feed parse (buffered b) chunks ≡ (values items, buffered [])
  unfolding feed
  feed_from [] items b good short e =
      let whole : b ≡ texts items = sym (append-nil b) ∙ e in
      let over : items ≡ [] = short_end b items short whole in rw (whole, over)
  feed_from (chunk ∷ chunks) items b good short e =
      let out = on_data_read parse (buffered b) chunk in
      let d = on_data_read-Delivered items b chunk (concat chunks) good short e in
      ap (λ (o : List J × JsonRpc). (out.0 ++ o.0, o.1))
        (feed_from chunks d.left out.1.buffer d.good d.short d.begins)
      ∙ ap (λ (l : List J). (l, buffered []))
          (ap (λ (l : List J). l ++ values d.left) d.given
            ∙ sym (values-append d.done d.left)
            ∙ ap values (sym d.parts))

  -- However the bytes of a row of messages are cut into chunks, the callback is given the values
  -- of their payloads, each once and in order, and the buffer is empty in the end; provided that
  -- each message has well-formed headers and the length of its payload, which is not empty, and
  -- that each payload parses.
  pub feed-texts :
      (items : List (Message × J)) (chunks : List Bytes)
      → All (IsItem parse) items
      → concat chunks ≡ texts items
      → feed parse (buffered []) chunks ≡ (values items, buffered [])
  feed-texts items chunks good e = feed_from chunks items [] good (start items good) e
    where
      start : (l : List (Message × J)) → All (IsItem parse) l → IsShort [] l
      start [] g = tt
      start ((m, j) ∷ l) g = length-ne-nil (text m) (text-ne-nil m g.0.0)
