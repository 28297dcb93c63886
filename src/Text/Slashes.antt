-- ===== src/Text/Slashes.antt =====
-- `ConvertSlashes`, behind `ToUnixPath` and `ToNativePath`.
use wxdap.Base.{
  ℕ, suc, ◌+◌, ◌*◌, ◌%◌, ◌≡◌, ◌≢◌, ◌<◌, refl, inl, inr, ◌&&◌, [], ◌∷◌, arith, Bytes, ◌==◌,
  if◌then◌else◌, All, Lacks, map, Bool-cases,
}
use wxdap.Text.{convert_loop, convert_slashes, to_unix_path}

pub swap : ℕ → ℕ → ℕ → ℕ
swap source target c = if c == source then target else c

-- The text with each run of the character cut down to one.
pub squeeze : ℕ → Bytes → Bytes
squeeze ch [] = []
squeeze ch (c ∷ []) = c ∷ []
squeeze ch (c ∷ d ∷ s) =
    let rest = squeeze ch (d ∷ s) in if (c == ch) && (d == ch) then rest else c ∷ rest

-- `squeeze` behind one such character, which is not written again.
squeeze_behind : ℕ → Bytes → Bytes
squeeze_behind ch [] = []
squeeze_behind ch (c ∷ s) = if c == ch then squeeze_behind ch s else squeeze ch (c ∷ s)

squeeze-cons : (ch : ℕ) (s : Bytes) → squeeze ch (ch ∷ s) ≡ ch ∷ squeeze_behind ch s
unfolding squeeze squeeze_behind
squeeze-cons ch [] = refl
squeeze-cons ch (c ∷ s) = ground (arith, squeeze-cons ch s)

squeeze_other : (ch c : ℕ) (s : Bytes) → c ≢ ch → squeeze ch (c ∷ s) ≡ c ∷ squeeze ch s
unfolding squeeze
squeeze_other ch c [] h = refl
squeeze_other ch c (d ∷ s) h = ground arith

-- No wide character whose low byte is that of the target.
abbrev pub IsNarrow : ℕ → ℕ → Type 0
IsNarrow target c = (c % 256 ≡ target) → c ≡ target

module _ (source target : ℕ) (byte : target < 256) where
  convert_loop-squeeze :
      (last : ℕ) (s : Bytes)
      → All (IsNarrow target) s
      → convert_loop source target last s ≡ (
          if last == target
          then squeeze_behind target (map (swap source target) s)
          else squeeze target (map (swap source target) s))
  unfolding convert_loop swap squeeze_behind
  convert_loop-squeeze last [] h = unfold squeeze in ground arith
  convert_loop-squeeze last (c ∷ s) (hc, h) = ground (
    arith,
    convert_loop-squeeze (swap source target c % 256) s h,
    squeeze-cons target (map (swap source target) s),
    squeeze_other target c (map (swap source target) s),
  )

  -- Where no wide character has the low byte of the target, which is a byte other than NUL, the
  -- result is the text with each source replaced by the target and each run of targets cut down
  -- to one.
  pub convert_slashes-squeeze :
      (path : Bytes)
      → target ≢ 0
      → All (IsNarrow target) path
      → convert_slashes path source target ≡ squeeze target (map (swap source target) path)
  unfolding convert_slashes
  convert_slashes-squeeze path n h = ground (arith, convert_loop-squeeze 0 path h)

-- No two such characters in a row.
abbrev pub Single : ℕ → Bytes → Type 0
Single ch [] = Unit
Single ch (c ∷ []) = Unit
Single ch (c ∷ d ∷ s) = ((c ≡ ch) → d ≢ ch) × Single ch (d ∷ s)

-- The loop's output: behind a target there is none, and what follows is single.
abbrev After : ℕ → ℕ → Bytes → Type 0
After ch last [] = Unit
After ch last (c ∷ s) = ((last ≡ ch) → c ≢ ch) × Single ch (c ∷ s)

module _ (source target : ℕ) (byte : target < 256) where
  emit-After :
      (ch last : ℕ) (rest : Bytes)
      → After target (ch % 256) rest
      → After target last (if (ch == target) && (last == target) then rest else ch ∷ rest)
  emit-After ch last [] h = ground arith
  emit-After ch last (c ∷ s) h = ground arith

  convert_loop-After :
      (last : ℕ) (s : Bytes) → After target last (convert_loop source target last s)
  unfolding convert_loop swap
  convert_loop-After last [] = tt
  convert_loop-After last (c ∷ s) =
      let ch = swap source target c in emit-After ch last _ (convert_loop-After (ch % 256) s)

  emit-Lacks :
      (c last : ℕ) (rest : Bytes)
      → source ≢ target
      → Lacks source rest
      → let ch = swap source target c in
        Lacks source (if (ch == target) && (last == target) then rest else ch ∷ rest)
  unfolding swap
  emit-Lacks c last rest n h =
      elim (Bool-cases ((swap source target c == target) && (last == target))) [
        | inl e ↦ rw e h
        | inr e ↦ rw e (ground arith, h)
      ]

  convert_loop-Lacks :
      (last : ℕ) (s : Bytes) → source ≢ target → Lacks source (convert_loop source target last s)
  unfolding convert_loop swap
  convert_loop-Lacks last [] n = tt
  convert_loop-Lacks last (c ∷ s) n =
      emit-Lacks c last _ n (convert_loop-Lacks (swap source target c % 256) s n)

  After-Single : (last : ℕ) (s : Bytes) → After target last s → Single target s
  After-Single last [] h = tt
  After-Single last (c ∷ s) h = h.1

  -- The result never holds the source, nor two targets in a row: this for every text, where the
  -- source is not the target and the target is a byte.
  convert_slashes_clean :
      (path : Bytes)
      → source ≢ target
      → Lacks source (convert_slashes path source target)
        × Single target (convert_slashes path source target)
  unfolding convert_slashes
  convert_slashes_clean path n =
      (convert_loop-Lacks 0 path n, After-Single 0 _ (convert_loop-After 0 path))

-- The slash behind a wide character whose low byte is that of the slash is lost: with it or without
-- it the path is converted to the same.
to_unix_path_loses_slash :
    (k : ℕ) (s : Bytes)
    → to_unix_path ((b'/' + 256 * suc k) ∷ b'/' ∷ s) ≡ to_unix_path ((b'/' + 256 * suc k) ∷ s)
unfolding to_unix_path convert_loop
to_unix_path_loses_slash k s = ground arith
