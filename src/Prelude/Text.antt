-- ===== src/Prelude/Text.antt =====
-- The functions of Go's `strings` package that the program calls, over native texts.
-- A text is its list of characters, so a Go string is taken to be valid UTF-8.
use Prim.Native.Nat.{ℕ, suc, ◌+◌, ◌≤◌}
use Prim.Native.Char.{Char, code}
use Prim.Native.String
use Prim.Native.String.{String, [], ◌∷◌}
use mathlib.Core.Path.{◌≡◌, refl, ap}
use mathlib.Core.Logic.{◌≢◌, inl, inr}
use mathlib.Core.Bool.{Bool, true, false, ◌&&◌, ◌||◌}
use native.Mathlib.Omega.{arith}
pub use text.Mathlib.TextLemmas.{nil-append, cons-append}
use servone.Prelude.Tests.{◌==◌, leb, if◌then◌else◌, Bool-cases}

-- Concatenation of Go strings, `a + b`.
infixr 65 ◌<>◌
abbrev pub ◌<>◌ : String → String → String
a <> b = String.◌++◌ a b

-- The number of characters.
unfoldable pub rune_count : String → ℕ
rune_count [] = 0
rune_count (c ∷ s) = suc (rune_count s)

-- strings.HasPrefix(s, prefix).
unfoldable pub has_prefix : String → String → Bool
has_prefix s [] = true
has_prefix [] (p ∷ prefix) = false
has_prefix (c ∷ s) (p ∷ prefix) = code c == code p && has_prefix s prefix

-- strings.Contains(s, sub).
unfoldable pub contains : String → String → Bool
unfolding has_prefix
contains [] sub = has_prefix [] sub
contains (c ∷ s) sub = has_prefix (c ∷ s) sub || contains s sub

drop_prefix : String → String → String
drop_prefix s [] = s
drop_prefix [] (p ∷ prefix) = []
drop_prefix (c ∷ s) (p ∷ prefix) = drop_prefix s prefix

-- strings.TrimPrefix(s, prefix).
unfoldable pub trim_prefix : String → String → String
unfolding has_prefix drop_prefix
trim_prefix s prefix = if has_prefix s prefix then drop_prefix s prefix else s

-- strings.ReplaceAll(s, old, new) for texts `old` and `new` of one character.
unfoldable pub replace_char : Char → Char → String → String
replace_char old new [] = []
replace_char old new (c ∷ s) = (if code c == code old then new else c) ∷ replace_char old new s

-- regexp.ReplaceAllString(s, "") for the class of the characters that `keep` refuses.
unfoldable pub keep_chars : (ℕ → Bool) → String → String
keep_chars keep [] = []
keep_chars keep (c ∷ s) = let rest = keep_chars keep s in if keep (code c) then c ∷ rest else rest

-- The part of a text before the first `stop`.
unfoldable pub before_char : Char → String → String
before_char stop [] = []
before_char stop (c ∷ s) =
    let rest = before_char stop s in if code c == code stop then [] else c ∷ rest

-- The simple case folding of Unicode into the ASCII letters: their capitals, U+017F and U+212A.
fold_ascii : ℕ → ℕ
fold_ascii n =
    if leb b'A' n && leb n b'Z'
    then n + 32
    else if n == 383
    then b's'
    else if n == 8490
    then b'k'
    else n

-- strings.EqualFold(s, t) for a text `t` of ASCII characters without capitals.
unfoldable pub equal_fold_ascii : String → String → Bool
unfolding fold_ascii
equal_fold_ascii [] [] = true
equal_fold_ascii [] (d ∷ t) = false
equal_fold_ascii (c ∷ s) [] = false
equal_fold_ascii (c ∷ s) (d ∷ t) = fold_ascii (code c) == code d && equal_fold_ascii s t

-- Every character of a text satisfies `P`.
abbrev pub AllChars : (ℕ → Type 0) → String → Type 0
AllChars P [] = Unit
AllChars P (c ∷ s) = P (code c) × AllChars P s

pub has_prefix-append : (p s : String) → has_prefix (p <> s) p ≡ true
unfolding has_prefix
has_prefix-append [] s = refl
has_prefix-append (c ∷ p) s = rw cons-append (ground (arith, has_prefix-append p s))

pub AllChars-append :
    (P : ℕ → Type 0) (s t : String) → AllChars P s → AllChars P t → AllChars P (s <> t)
AllChars-append P [] t hs ht = rw nil-append ht
AllChars-append P (c ∷ s) t (hc, hs) ht = rw cons-append (hc, AllChars-append P s t hs ht)

pub AllChars-map :
    (P Q : ℕ → Type 0) → ((n : ℕ) → P n → Q n) → (s : String) → AllChars P s → AllChars Q s
AllChars-map P Q f [] h = tt
AllChars-map P Q f (c ∷ s) (hc, hs) = (f (code c) hc, AllChars-map P Q f s hs)

pub rune_count-append : (s t : String) → rune_count (s <> t) ≡ rune_count s + rune_count t
unfolding rune_count
rune_count-append [] t = rw nil-append (omega arith)
rune_count-append (c ∷ s) t = rw cons-append (omega (arith, rune_count-append s t))

pub keep_chars_sound :
    (keep : ℕ → Bool) (s : String) → AllChars (λ n. keep n ≡ true) (keep_chars keep s)
unfolding keep_chars
keep_chars_sound keep [] = tt
keep_chars_sound keep (c ∷ s) = elim (Bool-cases (keep (code c))) [
  | inl e ↦ rw e (e, keep_chars_sound keep s)
  | inr e ↦ rw e (keep_chars_sound keep s)
]

pub keep_chars_id :
    (keep : ℕ → Bool) (s : String) → AllChars (λ n. keep n ≡ true) s → keep_chars keep s ≡ s
unfolding keep_chars
keep_chars_id keep [] h = refl
keep_chars_id keep (c ∷ s) (hc, hs) = rw (hc, keep_chars_id keep s hs)

pub rune_count-keep_chars :
    (keep : ℕ → Bool) (s : String) → rune_count (keep_chars keep s) ≤ rune_count s
unfolding keep_chars rune_count
rune_count-keep_chars keep [] = omega arith
rune_count-keep_chars keep (c ∷ s) = ground (arith, rune_count-keep_chars keep s)

pub replace_char_id :
    (old new : Char) (s : String) → AllChars (λ n. n ≢ code old) s → replace_char old new s ≡ s
unfolding replace_char
replace_char_id old new [] h = refl
replace_char_id old new (c ∷ s) (hc, hs) = ground (arith, replace_char_id old new s hs)

pub rune_count-replace_char :
    (old new : Char) (s : String) → rune_count (replace_char old new s) ≡ rune_count s
unfolding replace_char rune_count
rune_count-replace_char old new [] = refl
rune_count-replace_char old new (c ∷ s) = ap suc (rune_count-replace_char old new s)

pub rune_count-trim_slash : (s : String) → rune_count (trim_prefix s "/") ≤ rune_count s
unfolding trim_prefix rune_count
rune_count-trim_slash [] = omega arith
rune_count-trim_slash (c ∷ s) = ground arith

pub trim_slash_id : (s : String) → AllChars (λ n. n ≢ b'/') s → trim_prefix s "/" ≡ s
unfolding trim_prefix
trim_slash_id [] h = refl
trim_slash_id (c ∷ s) h = ground arith
