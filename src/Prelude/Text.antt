-- ===== src/Prelude/Text.antt =====
-- Python's `str.strip` over native text, and the case mapping of the ASCII letters.
use Prim.Native.Nat.{ℕ, zero, suc, ◌+◌, ◌/◌, ◌%◌}
use Prim.Native.Char.{Char, code}
use Prim.Native.String.{String, [], ◌∷◌, ◌++◌, slice}
use mathlib.Core.Path.{◌≡◌, refl}
use mathlib.Core.Bool.{Bool, true, false, ◌&&◌, ◌||◌}
use mathlib.Core.Logic.{◌⊎◌, inl, inr}
use native.Mathlib.Omega.{arith}
use trilith.Prelude.Tests.{leb, ltb, if◌then◌else◌, nat_eq, ◌==◌, Bool-cases}

-- `str.isspace` of one character, by its code point.
is_space : ℕ → Bool
is_space c =
    (leb 9 c && leb c 13)
    || (leb 28 c && leb c 32)
    || c == 0x85
    || c == 0xa0
    || c == 0x1680
    || (leb 0x2000 c && leb c 0x200a)
    || c == 0x2028
    || c == 0x2029
    || c == 0x202f
    || c == 0x205f
    || c == 0x3000

abbrev pub is_empty : String → Bool
is_empty [] = true
is_empty (c ∷ s) = false

unfoldable pub lstrip : String → String
unfolding is_space
lstrip [] = []
lstrip (c ∷ s) = let rest = lstrip s in if is_space (code c) then rest else c ∷ s

unfoldable pub rstrip : String → String
unfolding is_space
rstrip [] = []
rstrip (c ∷ s) = let rest = rstrip s in if is_empty rest && is_space (code c) then [] else c ∷ rest

unfoldable pub strip : String → String
unfolding lstrip rstrip
strip s = rstrip (lstrip s)

-- Python's `a or b` on texts: an empty text is false.
abbrev pub or_text : String → String → String
or_text [] b = b
or_text (c ∷ s) b = c ∷ s

rstrip-rstrip : (s : String) → rstrip (rstrip s) ≡ rstrip s
unfolding rstrip
rstrip-rstrip [] = refl
rstrip-rstrip (c ∷ s) = elim (Bool-cases (is_empty (rstrip s) && is_space (code c))) [
  | inl e ↦ rw e
  | inr e ↦ rw e (rw (rstrip-rstrip s, e))
]

-- What `lstrip` leaves is empty or begins with a character that is no space.
lstrip-head :
    (s : String)
    → (lstrip s ≡ [])
      ⊎ ((c : Char) × (r : String) × (lstrip s ≡ c ∷ r) × (is_space (code c) ≡ false))
unfolding lstrip
lstrip-head [] = inl refl
lstrip-head (c ∷ s) = elim (Bool-cases (is_space (code c))) [
  | inl e ↦ rw e (lstrip-head s)
  | inr e ↦ inr (c, s, rw e, e)
]

lstrip-rstrip_nonspace :
    (c : Char) (r : String) → is_space (code c) ≡ false → lstrip (rstrip (c ∷ r)) ≡ rstrip (c ∷ r)
unfolding lstrip rstrip
lstrip-rstrip_nonspace c r e = ground (arith, e)

-- To strip twice is to strip once.
pub strip_idem : (s : String) → strip (strip s) ≡ strip s
unfolding strip
strip_idem s = elim (lstrip-head s) [
  | inl e ↦ rw e
  | inr (c, r, e, n) ↦ rw (e, lstrip-rstrip_nonspace c r n, rstrip-rstrip)
]

abbrev small_letters : String
small_letters = "abcdefghijklmnopqrstuvwxyz"

abbrev capital_letters : String
capital_letters = "ABCDEFGHIJKLMNOPQRSTUVWXYZ"

-- The character that stands in `to` where `c` stands in `from`.
translate : String → String → Char → Char
translate (a ∷ from) (b ∷ to) c =
    let rest = translate from to c in if code a == code c then b else rest
translate _ _ c = c

unfoldable pub ascii_upper : String → String
unfolding translate
ascii_upper [] = []
ascii_upper (c ∷ s) = translate small_letters capital_letters c ∷ ascii_upper s

unfoldable pub ascii_lower : String → String
unfolding translate
ascii_lower [] = []
ascii_lower (c ∷ s) = translate capital_letters small_letters c ∷ ascii_lower s

abbrev pub is_ascii : String → Bool
is_ascii [] = true
is_ascii (c ∷ s) = leb (code c) 127 && is_ascii s

-- `str(n)` of a natural number. A number has fewer digits than `n + 1`, so the fuel suffices.
digit : ℕ → String
digit n = slice "0123456789" n (n + 1)

decimal_fuel : ℕ → ℕ → String
unfolding digit
decimal_fuel zero n = ""
decimal_fuel (suc f) n =
    let rest = decimal_fuel f (n / 10) in if ltb n 10 then digit n else rest ++ digit (n % 10)

unfoldable pub decimal : ℕ → String
unfolding decimal_fuel
decimal n = decimal_fuel (suc n) n

-- `s.split(":")[0]`
unfoldable pub before_colon : String → String
before_colon [] = []
before_colon (c ∷ s) = let rest = before_colon s in if code c == 58 then [] else c ∷ rest

-- `s[n:]`, by characters
unfoldable pub drop_chars : ℕ → String → String
drop_chars zero s = s
drop_chars (suc n) [] = []
drop_chars (suc n) (c ∷ s) = drop_chars n s

-- `s[:n]`, by characters
unfoldable pub take_chars : ℕ → String → String
take_chars zero s = []
take_chars (suc n) [] = []
take_chars (suc n) (c ∷ s) = c ∷ take_chars n s

abbrev same_letter : Char → Char → Bool
same_letter a b =
    code (translate capital_letters small_letters a)
    == code (translate capital_letters small_letters b)

-- SQLite's LIKE: `%` stands for any text, `_` for one character, and ASCII letters match in
-- either case.
unfoldable pub like : String → String → Bool
unfolding translate
like [] [] = true
like [] (c ∷ s) = false
like (p ∷ ps) [] = code p == 37 && like ps []
like (p ∷ ps) (c ∷ s) =
    let skip = like ps (c ∷ s) in
    let stay = like (p ∷ ps) s in
    let next = like ps s in
    if code p == 37 then skip || stay else (code p == 95 || same_letter p c) && next

like_test : like "%Acme_1%" "the acme-1 key" ≡ true
unfolding like
like_test = refl

decimal_test : decimal 1700 ≡ "1700"
unfolding decimal
decimal_test = refl

strip_test : strip " \t acme corp \n" ≡ "acme corp"
unfolding strip
strip_test = refl

upper_test : ascii_upper "Session-1" ≡ "SESSION-1"
unfolding ascii_upper
upper_test = refl

abbrev before_space : String → Bool
before_space [] = false
before_space (c ∷ s) = code c == 32

-- a run of spaces becomes one
collapse : String → String
unfolding is_space
collapse [] = []
collapse (c ∷ s) =
    let rest = collapse s in
    if is_space (code c) then if before_space rest then rest else " " ++ rest else c ∷ rest

-- `" ".join(s.split())`
unfoldable pub words : String → String
unfolding strip collapse
words s = collapse (strip s)

words_test : words "  a \t b\n\nc " ≡ "a b c"
unfolding words
words_test = refl

pub empty_of_is_empty : (s : String) → is_empty s ≡ true → s ≡ ""
empty_of_is_empty [] h = refl
empty_of_is_empty (c ∷ s) h = cc

-- `len(s)` counts characters, where the native length counts bytes.
unfoldable pub length_chars : String → ℕ
length_chars [] = 0
length_chars (c ∷ s) = length_chars s + 1

-- `any(test(c) for c in s)`, by code points
unfoldable pub any_code : (ℕ → Bool) → String → Bool
any_code test [] = false
any_code test (c ∷ s) = test (code c) || any_code test s
