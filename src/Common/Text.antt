-- ===== src/Common/Text.antt =====
-- Rust's `str` operations that the program uses, over the code points of a native string.
use Prim.Native.Char.{Char, code}
use text.Mathlib.TextLemmas.{nil-append, cons-append}
use otus_rusthomework_http_a.Common.{
  ℕ, zero, suc, ◌+◌, ◌-◌, ◌*◌, ◌/◌, ◌%◌, String, ◌≡◌, refl, Bool, true, false, ◌&&◌, Option, none,
  some, List, [], ◌∷◌, ◌++◌, arith, ltb, leb, ◌==◌, if◌then◌else◌, str_append, ◌≢◌, ◌^◌, ◌≤◌,
  length, ℤ, pos, negsuc,
}

-- The order of `str`: by bytes, which for UTF-8 is the order by code points.
unfoldable pub str_leb : String → String → Bool
str_leb String.[] t = true
str_leb (String.◌∷◌ c s) String.[] = false
str_leb (String.◌∷◌ c s) (String.◌∷◌ d t) =
    if code c == code d then str_leb s t else ltb (code c) (code d)

pub str_leb_total : (s t : String) → str_leb s t ≡ false → str_leb t s ≡ true
unfolding str_leb
str_leb_total String.[] t h = cc
str_leb_total (String.◌∷◌ c s) String.[] h = refl
str_leb_total (String.◌∷◌ c s) (String.◌∷◌ d t) h = ground (arith, str_leb_total s t)

pub str_leb_trans : (s t u : String) → str_leb s t ≡ true → str_leb t u ≡ true → str_leb s u ≡ true
unfolding str_leb
str_leb_trans String.[] t u h k = refl
str_leb_trans (String.◌∷◌ c s) String.[] u h k = cc
str_leb_trans (String.◌∷◌ c s) (String.◌∷◌ d t) String.[] h k = cc
str_leb_trans (String.◌∷◌ c s) (String.◌∷◌ d t) (String.◌∷◌ e u) h k =
    ground (arith, str_leb_trans s t u)

-- The UTF-8 bytes of a code point, and of a text.
unfoldable pub char_bytes : ℕ → List ℕ
char_bytes c =
    if ltb c 0x80
    then c ∷ []
    else if ltb c 0x800
    then (0xc0 + c / 64) ∷ (0x80 + c % 64) ∷ []
    else if ltb c 0x10000
    then (0xe0 + c / 4096) ∷ (0x80 + c / 64 % 64) ∷ (0x80 + c % 64) ∷ []
    else (0xf0 + c / 262144) ∷ (0x80 + c / 4096 % 64) ∷ (0x80 + c / 64 % 64) ∷ (0x80 + c % 64) ∷ []

unfoldable pub bytes : String → List ℕ
unfolding char_bytes
bytes String.[] = []
bytes (String.◌∷◌ c s) = char_bytes (code c) ++ bytes s

-- `s.chars().count()`
unfoldable pub chars : String → ℕ
chars String.[] = 0
chars (String.◌∷◌ c s) = chars s + 1

-- `s.strip_prefix(p)`
unfoldable pub strip_prefix : String → String → Option String
strip_prefix s String.[] = some s
strip_prefix String.[] (String.◌∷◌ d p) = none
strip_prefix (String.◌∷◌ c s) (String.◌∷◌ d p) = if code c == code d then strip_prefix s p else none

pub strip_prefix-append : (p s : String) → strip_prefix (str_append p s) p ≡ some s
unfolding strip_prefix
strip_prefix-append String.[] s = rw nil-append
strip_prefix-append (String.◌∷◌ d p) s = rw cons-append (ground (arith, strip_prefix-append p s))

-- `n.to_string()` of an unsigned number. A number has fewer digits than `suc n`.
unfoldable pub digit : ℕ → String
digit d =
    if d == 0
    then "0"
    else if d == 1
    then "1"
    else if d == 2
    then "2"
    else if d == 3
    then "3"
    else if d == 4
    then "4"
    else if d == 5
    then "5"
    else if d == 6
    then "6"
    else if d == 7
    then "7"
    else if d == 8
    then "8"
    else "9"

unfoldable pub print_from : ℕ → ℕ → String → String
unfolding digit
print_from zero n acc = acc
print_from (suc fuel) n acc =
    let shorter = print_from fuel (n / 10) (str_append (digit (n % 10)) acc) in
    if ltb n 10 then str_append (digit n) acc else shorter

unfoldable pub to_string : ℕ → String
unfolding print_from
to_string n = print_from (suc n) n ""

-- `s.parse::<u64>()`: an optional `+`, then one digit or more, and no overflow.
parse_digits : ℕ → String → Option ℕ
parse_digits n String.[] = some n
parse_digits n (String.◌∷◌ c s) =
    let next = n * 10 + (code c - b'0') in
    let rest = parse_digits next s in
    if (leb b'0' (code c) && leb (code c) b'9') && ltb next (2 ^ 64) then rest else none

unsigned : String → Option ℕ
unfolding parse_digits
unsigned String.[] = none
unsigned (String.◌∷◌ c s) = parse_digits 0 (String.◌∷◌ c s)

unfoldable pub parse_u64 : String → Option ℕ
unfolding unsigned
parse_u64 String.[] = none
parse_u64 (String.◌∷◌ c s) = if code c == b'+' then unsigned s else unsigned (String.◌∷◌ c s)

-- `s.parse::<i64>()`
negated : ℕ → Option ℤ
negated zero = some (pos 0)
negated (suc n) = if ltb n (2 ^ 63) then some (negsuc n) else none

non_negative : ℕ → Option ℤ
non_negative n = if ltb n (2 ^ 63) then some (pos n) else none

unfoldable pub parse_i64 : String → Option ℤ
unfolding unsigned parse_u64 negated non_negative
parse_i64 String.[] = none
parse_i64 (String.◌∷◌ c s) =
    if code c == b'-'
    then elim (unsigned s) [ none ↦ none | some n ↦ negated n ]
    else elim (parse_u64 (String.◌∷◌ c s)) [ none ↦ none | some n ↦ non_negative n ]

-- `s.to_lowercase() == t` for a text `t` of lower-case ASCII letters but k, and other ASCII
-- characters: no character outside of ASCII has such a text as its lower case.
lower : ℕ → ℕ
lower c = if leb b'A' c && leb c b'Z' then c + 32 else c

unfoldable pub lower_eq : String → String → Bool
unfolding lower
lower_eq String.[] String.[] = true
lower_eq String.[] (String.◌∷◌ d t) = false
lower_eq (String.◌∷◌ c s) String.[] = false
lower_eq (String.◌∷◌ c s) (String.◌∷◌ d t) =
    let rest = lower_eq s t in if lower (code c) == code d then rest else false

-- `s.split(sep)` by one character.
push_front : Char → List String → List String
push_front c [] = String.◌∷◌ c "" ∷ []
push_front c (s ∷ parts) = String.◌∷◌ c s ∷ parts

unfoldable pub split : ℕ → String → List String
unfolding push_front
split sep String.[] = "" ∷ []
split sep (String.◌∷◌ c s) =
    let rest = split sep s in if code c == sep then "" ∷ rest else push_front c rest

-- The text does not hold the character.
abbrev pub IsFreeOf : ℕ → String → Type 0
IsFreeOf sep String.[] = Unit
IsFreeOf sep (String.◌∷◌ c s) = (code c ≢ sep) × IsFreeOf sep s

pub split_of_IsFreeOf : (sep : ℕ) (s : String) → IsFreeOf sep s → split sep s ≡ s ∷ []
unfolding split
split_of_IsFreeOf sep String.[] h = refl
split_of_IsFreeOf sep (String.◌∷◌ c s) (n, h) = rw (split_of_IsFreeOf sep s h) (ground arith)

length-push_front :
    (c : Char) (parts : List String)
    → length (push_front c parts) ≡ (if length parts == 0 then 1 else length parts)
unfolding push_front
length-push_front c [] = refl
length-push_front c (s ∷ parts) = ground arith

pub split_pos : (sep : ℕ) (s : String) → 1 ≤ length (split sep s)
unfolding split
split_pos sep String.[] = omega arith
split_pos sep (String.◌∷◌ c s) = ground (arith, split_pos sep s, length-push_front c (split sep s))

-- A separator between two texts adds their parts.
pub length-split :
    (s t : String)
    → length (split b':' (str_append s (str_append ":" t)))
      ≡ length (split b':' s) + length (split b':' t)
unfolding split
length-split String.[] t = rw nil-append (rw cons-append (rw nil-append (omega arith)))
length-split (String.◌∷◌ c s) t = rw cons-append (
    ground (
      arith,
      length-split s t,
      split_pos b':' s,
      split_pos b':' t,
      length-push_front c (split b':' s),
      length-push_front c (split b':' (str_append s (str_append ":" t))),
    ))

tests :
    (to_string 1700000000 ≡ "1700000000")
    × (parse_u64 "+042" ≡ some 42)
    × (parse_u64 "4x" ≡ none)
    × (split b':' "1:ab" ≡ "1" ∷ "ab" ∷ [])
    × (parse_i64 "-9223372036854775808" ≡ some (negsuc 9223372036854775807))
    × (parse_i64 "9223372036854775808" ≡ none)
    × (lower_eq "Postgres" "postgres" ≡ true)
    × (strip_prefix "Bearer x" "Bearer " ≡ some "x")
unfolding to_string parse_u64 parse_i64 lower_eq split strip_prefix
tests = (refl, refl, refl, refl, refl, refl, refl, refl)
