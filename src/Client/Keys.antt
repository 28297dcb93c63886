-- ===== src/Client/Keys.antt =====
-- Lemmas on the maps with `int` keys.
use wxdap.Base.{
  ◌≡◌, refl, true, none, some, List, [], ◌∷◌, All, Bool-cases, inl, inr, arith, Option-cases, ap,
}
use wxdap.Client.{find_key, erase_key, insert_key}
use wxdap.Decimal.{ℤ, pos, negsuc}
use wxdap.Protocol.Structs.{int_eq}

pub int_eq_refl : (z : ℤ) → int_eq z z ≡ true
int_eq_refl (pos n) = ground arith
int_eq_refl (negsuc n) = ground arith

pub eq_of_int_eq : (y z : ℤ) → int_eq y z ≡ true → y ≡ z
eq_of_int_eq (pos m) (pos n) e = ap pos (ground arith)
eq_of_int_eq (negsuc m) (negsuc n) e = ap negsuc (ground arith)
eq_of_int_eq (pos m) (negsuc n) e = ground arith
eq_of_int_eq (negsuc m) (pos n) e = ground arith

module _ {ℓ} {A : Type ℓ} where
  pub find_key-insert_key :
      (k : ℤ) (a : A) (m : List (ℤ × A))
      → find_key k m ≡ none
      → find_key k (insert_key k a m) ≡ some a
  unfolding insert_key find_key
  find_key-insert_key k a m e = rw (e, insert_key, find_key, int_eq_refl k) refl

  -- An erased key is gone, and only it.
  pub find_key-erase_key_same : (k : ℤ) (m : List (ℤ × A)) → find_key k (erase_key k m) ≡ none
  unfolding find_key erase_key
  find_key-erase_key_same k [] = refl
  find_key-erase_key_same k ((j, a) ∷ m) =
      let rest = find_key-erase_key_same k m in
      elim (Bool-cases (int_eq j k)) [ inl e ↦ rw (e) rest | inr e ↦ rw (e, e) rest ]

module _ {ℓ ℓ'} {A : Type ℓ} (P : ℤ × A → Type ℓ') where
  pub All-erase_key : (k : ℤ) (m : List (ℤ × A)) → All P m → All P (erase_key k m)
  unfolding erase_key
  All-erase_key k [] h = h
  All-erase_key k ((j, a) ∷ m) (p, h) =
      let rest = All-erase_key k m h in
      elim (Bool-cases (int_eq j k)) [ inl e ↦ rw (e) rest | inr e ↦ rw (e) (p, rest) ]

  pub All-insert_key :
      (k : ℤ) (a : A) (m : List (ℤ × A)) → P (k, a) → All P m → All P (insert_key k a m)
  unfolding insert_key
  All-insert_key k a m p h = elim (Option-cases (find_key k m)) [
    | inl e ↦ rw (e, All, insert_key) (p, h)
    | inr (b, e) ↦ rw (e, All, insert_key) h
  ]
