-- ===== src/Common/Text.antt =====
-- Python's `str` operations: `strip`, slicing by characters, and tests against short ASCII words.
use mc_ai_bt.Common.Tests.{leb, ◌=ℕ◌, if◌then◌else◌}
use Prim.Native.Nat.{ℕ, zero, suc, ◌+◌}
use Prim.Native.Char.{code}
use Prim.Native.String.{String, [], ◌∷◌, ◌++◌}
use mathlib.Core.Bool.{Bool, true, false, ◌&&◌, ◌||◌}
use text.Mathlib.Text.{◌==◌}
use mathlib.Core.Path.{◌≡◌, refl}

-- `str.isspace` of one character.
unfoldable pub is_space : ℕ → Bool
is_space c =
    (leb 9 c && leb c 13)
    || (leb 28 c && leb c 32)
    || c =ℕ 133
    || c =ℕ 160
    || c =ℕ 5760
    || (leb 8192 c && leb c 8202)
    || c =ℕ 8232
    || c =ℕ 8233
    || c =ℕ 8239
    || c =ℕ 8287
    || c =ℕ 12288

lstrip : String → String
lstrip [] = []
lstrip (c ∷ s) = let rest = lstrip s in if is_space (code c) then rest else c ∷ s

rstrip : String → String
rstrip [] = []
rstrip (c ∷ s) = let rest = rstrip s in if rest == "" && is_space (code c) then [] else c ∷ rest

unfoldable pub strip : String → String
unfolding lstrip rstrip is_space
strip s = rstrip (lstrip s)

-- `s[:n]`.
unfoldable pub prefix : ℕ → String → String
prefix zero s = []
prefix (suc n) [] = []
prefix (suc n) (c ∷ s) = c ∷ prefix n s

abbrev lower_code : ℕ → ℕ
lower_code c = if leb 65 c && leb c 90 then c + 32 else c

-- `s.lower() == word` for a word of lower-case ASCII letters other than `k`: the letters
-- from A to Z are then the only other characters whose lower case is part of the word.
unfoldable pub is_word : String → String → Bool
is_word [] [] = true
is_word [] (d ∷ w) = false
is_word (c ∷ s) [] = false
is_word (c ∷ s) (d ∷ w) = lower_code (code c) =ℕ code d && is_word s w

-- `re.sub(r"[…]+", " ", s)` from within a run of such characters or not.
squeeze_from : (ℕ → Bool) → Bool → String → String
squeeze_from test run [] = []
squeeze_from test run (c ∷ s) =
    let rest = squeeze_from test (test (code c)) s in
    if test (code c) then (if run then rest else " " ∷ rest) else c ∷ rest

-- `re.sub(r"[…]+", " ", s)`, for the characters that pass the test.
unfoldable pub squeeze : (ℕ → Bool) → String → String
unfolding squeeze_from
squeeze test s = squeeze_from test false s

-- `s.startswith(start)`.
unfoldable pub starts_with : String → String → Bool
starts_with [] s = true
starts_with (c ∷ start) [] = false
starts_with (c ∷ start) (d ∷ s) = code c =ℕ code d && starts_with start s

-- `s.removeprefix(start)`, of a text that may begin with it.
drop_start : String → String → String
drop_start [] s = s
drop_start (c ∷ start) [] = []
drop_start (c ∷ start) (d ∷ s) = drop_start start s

unfoldable pub remove_prefix : String → String → String
unfolding starts_with drop_start
remove_prefix start s = if starts_with start s then drop_start start s else s

-- `word in text`.
unfoldable pub contains : String → String → Bool
unfolding starts_with
contains word [] = word == ""
contains word (c ∷ s) = let rest = contains word s in starts_with word (c ∷ s) || rest

-- `len(s) > n`
unfoldable pub is_longer : ℕ → String → Bool
is_longer n [] = false
is_longer zero (c ∷ s) = true
is_longer (suc n) (c ∷ s) = is_longer n s

-- Text concatenation.
infixr 65 ◌<>◌
abbrev pub ◌<>◌ : String → String → String
s <> t = s ++ t

-- `a or b` on texts.
abbrev pub or_text : String → String → String
or_text a b = if a == "" then b else a

strip_example : strip " \t stop 1 " ≡ "stop 1"
unfolding strip
strip_example = refl

squeeze_example : squeeze is_space "a \t b" ≡ "a b"
unfolding squeeze is_space
squeeze_example = refl
