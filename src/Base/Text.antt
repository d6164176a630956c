-- ===== src/Base/Text.antt =====
-- Go strings: lists of bytes, with the parts of `strings`, `strconv` and `unicode` that the
-- program calls. `strings.ToLower` reads Unicode tables and is a field of `Unicode`.
use Prim.Native.Char.{code}
use Prim.Native.Nat.{ℕ, zero, suc, ◌+◌, ◌-◌, ◌*◌, ◌%◌}
use Prim.Native.String.{String}
use mathlib.Core.Bool.{Bool, true, false, ◌&&◌, ◌||◌}
use mathlib.Core.List.{List, [], ◌∷◌, ◌++◌, reverse, map}
use mathlib.Core.Logic.{◌↔◌}
use mathlib.Core.Option.{Option, none, some}
use mathlib.Core.Path.{◌≡◌, refl, ap}
use native.Mathlib.Omega.{arith}
use n.Base.Lists.{all}
use n.Base.Tests.{leb, ltb, ◌==◌, if◌then◌else◌}

abbrev pub Bytes : Type 0
Bytes = List ℕ

-- The bytes of a literal, which is ASCII.
abbrev pub codes : String → Bytes
codes String.[] = []
codes (String.◌∷◌ c s) = code c ∷ codes s

-- `a == b` on strings.
unfoldable pub eq : Bytes → Bytes → Bool
eq [] [] = true
eq (a ∷ r) (b ∷ t) = a == b && eq r t
eq _ _ = false

pub eq→≡ : (a b : Bytes) → eq a b ≡ true → a ≡ b
unfolding eq
eq→≡ [] [] h = refl
eq→≡ [] (b ∷ t) h = cc
eq→≡ (a ∷ r) [] h = cc
eq→≡ (a ∷ r) (b ∷ t) h = ground (arith, eq→≡ r t)

pub eq_refl : (a : Bytes) → eq a a ≡ true
unfolding eq
eq_refl [] = refl
eq_refl (a ∷ r) = ground (arith, eq_refl r)

pub eq_iff : (a b : Bytes) → (eq a b ≡ true) ↔ (a ≡ b)
eq_iff a b = (eq→≡ a b, λ h. cc (eq_refl a, ap (eq a) h))

-- `set[s]` of a `map[string]bool` written as the list of its true keys.
unfoldable pub contains : List Bytes → Bytes → Bool
contains [] s = false
contains (x ∷ xs) s = eq x s || contains xs s

abbrev pub is_empty : Bytes → Bool
is_empty [] = true
is_empty (c ∷ cs) = false

-- `strings.HasPrefix`.
unfoldable pub has_prefix : Bytes → Bytes → Bool
has_prefix s [] = true
has_prefix [] (p ∷ ps) = false
has_prefix (c ∷ cs) (p ∷ ps) = c == p && has_prefix cs ps

-- `strings.ReplaceAll(s, q, r)` for a text `q` of one byte.
unfoldable pub replace_all : ℕ → Bytes → Bytes → Bytes
replace_all q r [] = []
replace_all q r (c ∷ cs) = (if c == q then r else c ∷ []) ++ replace_all q r cs

-- `strings.Join`.
unfoldable pub join : Bytes → List Bytes → Bytes
join sep [] = []
join sep (x ∷ []) = x
join sep (x ∷ y ∷ r) = x ++ (sep ++ join sep (y ∷ r))

-- The library's case mapping, which reads tables: on ASCII text it maps A-Z to a-z.
pub record Unicode : Type 0 where
  pub to_lower : Bytes → Bytes

abbrev pub lower_ascii : ℕ → ℕ
lower_ascii c = if leb b'A' c && leb c b'Z' then c + 32 else c

abbrev pub ascii : Unicode
ascii = record { to_lower = map lower_ascii }

-- `unicode.IsSpace(rune(b))` for one byte `b`.
unfoldable pub is_space : ℕ → Bool
is_space c = c == 9 || c == 10 || c == 11 || c == 12 || c == 13 || c == 32 || c == 0x85 || c == 0xa0

abbrev ascii_space : ℕ → Bool
ascii_space c = c == 9 || c == 10 || c == 11 || c == 12 || c == 13 || c == 32

-- The UTF-8 forms, of two and of three bytes, of the white space that `unicode.IsSpace` knows.
abbrev space2 : ℕ → ℕ → Bool
space2 a b = a == 0xc2 && (b == 0x85 || b == 0xa0)

abbrev space3 : ℕ → ℕ → ℕ → Bool
space3 a b c =
    a == 0xe1 && b == 0x9a && c == 0x80
    || a == 0xe2 && b == 0x80 && (leb 0x80 c && leb c 0x8a || c == 0xa8 || c == 0xa9 || c == 0xaf)
    || a == 0xe2 && b == 0x81 && c == 0x9f
    || a == 0xe3 && b == 0x80 && c == 0x80

-- The number of bytes of the white space that a text begins with, or 0.
space_width : Bytes → ℕ
space_width [] = 0
space_width (a ∷ []) = if ascii_space a then 1 else 0
space_width (a ∷ b ∷ []) = if ascii_space a then 1 else if space2 a b then 2 else 0
space_width (a ∷ b ∷ c ∷ r) =
    if ascii_space a then 1 else if space2 a b then 2 else if space3 a b c then 3 else 0

-- The same for the end of a text, which is given backwards.
space_width_back : Bytes → ℕ
space_width_back [] = 0
space_width_back (a ∷ []) = if ascii_space a then 1 else 0
space_width_back (a ∷ b ∷ []) = if ascii_space a then 1 else if space2 b a then 2 else 0
space_width_back (a ∷ b ∷ c ∷ r) =
    if ascii_space a then 1 else if space2 b a then 2 else if space3 c b a then 3 else 0

-- `skip` bytes of a space are still to be passed over.
trim : (Bytes → ℕ) → ℕ → Bytes → Bytes
trim width skip [] = []
trim width (suc skip) (c ∷ cs) = trim width skip cs
trim width zero (c ∷ cs) = elim (width (c ∷ cs)) [ zero ↦ c ∷ cs | suc w ↦ trim width w cs ]

-- `strings.TrimSpace`.
unfoldable pub trim_space : Bytes → Bytes
unfolding space_width space_width_back trim
trim_space s = reverse (trim space_width_back 0 (reverse (trim space_width 0 s)))

trim_set : (ℕ → Bool) → Bytes → Bytes
trim_set p [] = []
trim_set p (c ∷ cs) = let rest = trim_set p cs in if p c then rest else c ∷ cs

-- `strings.Trim(s, cutset)` for a set of ASCII bytes.
unfoldable pub trim_bytes : (ℕ → Bool) → Bytes → Bytes
unfolding trim_set
trim_bytes p s = reverse (trim_set p (reverse (trim_set p s)))

-- `strings.TrimSuffix(s, c)` for a text of one byte.
unfoldable pub trim_suffix : ℕ → Bytes → Bytes
trim_suffix q [] = []
trim_suffix q (c ∷ []) = if c == q then [] else c ∷ []
trim_suffix q (c ∷ d ∷ r) = c ∷ trim_suffix q (d ∷ r)

last_after : ℕ → Bytes → Bytes → Bytes
last_after q best [] = best
last_after q best (c ∷ cs) = last_after q (if c == q then cs else best) cs

-- `s[strings.LastIndex(s, c)+1:]`, or `s` where `c` does not occur: what follows the last `c`.
unfoldable pub after_last : ℕ → Bytes → Bytes
unfolding last_after
after_last q s = last_after q s s

abbrev is_digit : ℕ → Bool
is_digit c = leb b'0' c && leb c b'9'

decimal : ℕ → Bytes → ℕ
decimal acc [] = acc
decimal acc (c ∷ cs) = decimal (acc * 10 + (c - b'0')) cs

-- The digits of an unsigned decimal text that has at least one.
unsigned : Bytes → Option ℕ
unfolding decimal
unsigned [] = none
unsigned (c ∷ cs) = if all is_digit (c ∷ cs) then some (decimal 0 (c ∷ cs)) else none

-- The value of a decimal text, its sign apart: `(true, m)` is -m.
abbrev pub Signed : Type 0
Signed = Bool × ℕ

in_int64 : Bool → Option ℕ → Option Signed
in_int64 negative none = none
in_int64 true (some m) = if leb m 0x8000000000000000 then some (true, m) else none
in_int64 false (some m) = if ltb m 0x8000000000000000 then some (false, m) else none

-- `strconv.Atoi` on a 64-bit platform; `none` is an error.
unfoldable pub atoi : Bytes → Option Signed
unfolding in_int64 unsigned
atoi [] = none
atoi (c ∷ cs) =
    if c == b'-'
    then in_int64 true (unsigned cs)
    else if c == b'+'
    then in_int64 false (unsigned cs)
    else in_int64 false (unsigned (c ∷ cs))

-- The value that `strconv.Atoi` returns beside its error, which its callers drop: 0 for a text that
-- is no number, the nearest int64 for one out of range.
clamp : Bool → Option ℕ → Signed
clamp negative none = (false, 0)
clamp true (some m) = if leb m 0x8000000000000000 then (true, m) else (true, 0x8000000000000000)
clamp false (some m) = if ltb m 0x8000000000000000 then (false, m) else (false, 0x7fffffffffffffff)

unfoldable pub atoi_value : Bytes → Signed
unfolding clamp unsigned
atoi_value [] = (false, 0)
atoi_value (c ∷ cs) =
    if c == b'-'
    then clamp true (unsigned cs)
    else if c == b'+'
    then clamp false (unsigned cs)
    else clamp false (unsigned (c ∷ cs))

-- The two's complement residue of a number of w bits, read as a signed number.
signed32 : ℕ → Signed
signed32 r = if ltb r 0x80000000 then (false, r) else (true, 0x100000000 - r)

-- `int32(x)` of a wider integer.
unfoldable pub int32_of : Signed → Signed
unfolding signed32
int32_of (true, m) = signed32 ((0x100000000 - m % 0x100000000) % 0x100000000)
int32_of (false, m) = signed32 (m % 0x100000000)

abbrev pub is_positive : Signed → Bool
is_positive (true, m) = false
is_positive (false, m) = ltb 0 m

-- `strings.TrimRight(s, cutset)` for a set of ASCII bytes.
unfoldable pub trim_right : (ℕ → Bool) → Bytes → Bytes
unfolding trim_set
trim_right p s = reverse (trim_set p (reverse s))

abbrev cons_first : ℕ → Option (Bytes × Bytes) → Option (Bytes × Bytes)
cons_first c none = none
cons_first c (some (first, rest)) = some (c ∷ first, rest)

-- `strings.SplitN(s, q, 2)` for a text `q` of one byte: `none` if it has one part only.
unfoldable pub split_two : ℕ → Bytes → Option (Bytes × Bytes)
split_two q [] = none
split_two q (c ∷ cs) = if c == q then some ([], cs) else cons_first c (split_two q cs)
