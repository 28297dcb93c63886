-- ===== src/Rpc/Sending.antt =====
-- What `Send` writes is a message that the other side reads.
use wxdap.Base.{
  ℕ, ◌≡◌, ◌≢◌, ◌≤◌, refl, sym, ap, ap₂, ◌∙◌, Option, some, false, List, [], ◌∷◌, ◌++◌, arith, Bytes,
  length, concat, All,
}
use wxdap.Text.{contains, blanks}
use wxdap.Text.Trim.{EndsClean}
use wxdap.Decimal.{long_max, to_string}
use wxdap.Decimal.RoundTrip.{
  IsDigit, StartsDigit, to_string-All, to_string-StartsDigit, atol-to_string,
}
use wxdap.Rpc.{lookup, network_buffer, feed}
use wxdap.Rpc.Headers.{IsWord, IsHeaderChar}
use wxdap.Rpc.Message.{Message, IsMessage, text, content_length, buffered}
use wxdap.Rpc.Stream.{IsItem, texts, values, feed-texts}

pub message_of : Bytes → Message
message_of payload = record {
  header = (content_length, to_string (length payload));
  headers = [];
  payload = payload;
}

pub text-message_of : (payload : Bytes) → text (message_of payload) ≡ network_buffer payload
unfolding message_of network_buffer
text-message_of payload = refl

digit_clean : (c : ℕ) → IsDigit c → contains blanks c ≡ false
unfolding contains
digit_clean c h = ground arith

digits_end : (s : Bytes) → All IsDigit s → EndsClean s
digits_end [] h = tt
digits_end (c ∷ []) h = digit_clean c h.0
digits_end (c ∷ d ∷ s) h = digits_end (d ∷ s) h.1

digits_chars : (s : Bytes) → All IsDigit s → All IsHeaderChar s
digits_chars [] h = tt
digits_chars (c ∷ s) (hc, h) = ((omega arith, omega arith, omega arith), digits_chars s h)

digits-IsWord : (s : Bytes) → StartsDigit s → All IsDigit s → IsWord s
digits-IsWord [] d h = absurd d
digits-IsWord (c ∷ s) d h =
    ((λ e. cc), digit_clean c d, digits_end (c ∷ s) h, digits_chars (c ∷ s) h)

content_length-IsWord : IsWord content_length
unfolding contains
content_length-IsWord = ((λ e. cc), refl, refl, omega arith)

-- A payload that is not empty, and no longer than a `long` can tell, makes a well-formed message.
pub message_of-IsMessage :
    (payload : Bytes) → payload ≢ [] → length payload ≤ long_max → IsMessage (message_of payload)
unfolding message_of lookup
message_of-IsMessage payload n h = record {
  formed = (
    (
      content_length-IsWord,
      omega arith,
      digits-IsWord _ (to_string-StartsDigit (length payload)) (to_string-All (length payload)),
    ),
    tt,
  );
  value = to_string (length payload);
  present = refl;
  measured = atol-to_string (length payload) h;
  filled = n;
}

module _ {ℓ} {J : Type ℓ} (parse : Bytes → Option J) where
  -- A payload that can be sent and read back, with its value.
  abbrev pub IsSendable : Bytes × J → Type ℓ
  IsSendable (payload, j) = (payload ≢ []) × (length payload ≤ long_max) × (parse payload ≡ some j)

abbrev pub sent {ℓ} : {J : Type ℓ} → List (Bytes × J) → Bytes
sent [] = []
sent ((payload, j) ∷ items) = network_buffer payload ++ sent items

abbrev pub sent_values {ℓ} : {J : Type ℓ} → List (Bytes × J) → List J
sent_values [] = []
sent_values ((payload, j) ∷ items) = j ∷ sent_values items

module _ {ℓ} {J : Type ℓ} (parse : Bytes → Option J) where
  as_items : List (Bytes × J) → List (Message × J)
  as_items [] = []
  as_items ((payload, j) ∷ items) = (message_of payload, j) ∷ as_items items

  texts-as_items : (items : List (Bytes × J)) → texts (as_items items) ≡ sent items
  unfolding as_items
  texts-as_items [] = refl
  texts-as_items ((payload, j) ∷ items) =
      ap₂ (λ s t. s ++ t) (text-message_of payload) (texts-as_items items)

  values-as_items : (items : List (Bytes × J)) → values (as_items items) ≡ sent_values items
  unfolding as_items
  values-as_items [] = refl
  values-as_items ((payload, j) ∷ items) = ap (λ l. j ∷ l) (values-as_items items)

  as_items-All :
      (items : List (Bytes × J))
      → All (IsSendable parse) items
      → All (IsItem parse) (as_items items)
  unfolding as_items message_of
  as_items-All [] h = tt
  as_items-All ((payload, j) ∷ items) ((n, l, p), h) =
      ((message_of-IsMessage payload n l, p), as_items-All items h)

  -- What `Send` writes for a row of payloads, cut into chunks in any way, comes out of the other
  -- side's buffer as the values of those payloads, each once and in order, and nothing is left;
  -- provided that each payload parses, is not empty and is no longer than a `long` can tell.
  pub feed-sent :
      (items : List (Bytes × J)) (chunks : List Bytes)
      → All (IsSendable parse) items
      → concat chunks ≡ sent items
      → feed parse (buffered []) chunks ≡ (sent_values items, buffered [])
  feed-sent items chunks h e =
      feed-texts parse (as_items items) chunks (as_items-All items h)
        (e ∙ sym (texts-as_items items))
      ∙ ap (λ l. (l, buffered [])) (values-as_items items)
