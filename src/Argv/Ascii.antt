-- ===== src/Argv/Ascii.antt =====
-- ASCII text: its conversion to `char`, and plain text among it.
use wxdap.Base.{ℕ, ◌≡◌, ◌<◌, refl, [], ◌∷◌, Bytes, All, Lacks, map, ap₂}
use wxdap.Argv.Quoted.{IsPlain}

abbrev pub IsAscii : ℕ → Type 0
IsAscii c = c < 128

pub plain-IsAscii : (s : Bytes) → All IsPlain s → All IsAscii s
plain-IsAscii [] h = tt
plain-IsAscii (c ∷ s) (hc, h) = (hc.5, plain-IsAscii s h)

pub plain-Lacks : (s : Bytes) → All IsPlain s → Lacks 0 s
plain-Lacks [] h = tt
plain-Lacks (c ∷ s) (hc, h) = (hc.4, plain-Lacks s h)

-- wxWidgets converts ASCII to itself in every locale.
module _ (to_char : ℕ → ℕ) (ascii : (c : ℕ) → c < 128 → to_char c ≡ c) where
  pub map-to_char : (s : Bytes) → All IsAscii s → map to_char s ≡ s
  map-to_char [] h = refl
  map-to_char (c ∷ s) (hc, h) = ap₂ (λ d t. d ∷ t) (ascii c hc) (map-to_char s h)
