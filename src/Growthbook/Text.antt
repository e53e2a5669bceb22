-- ===== src/Growthbook/Text.antt =====
-- Go's strings and byte slices as lists of bytes, with what client.go uses of the packages strings,
-- bytes and net/url.
pub mod Paths
pub mod Trim
pub mod Utf8
use Prim.Native.Nat.{◌/◌, ◌%◌}
use Prim.Native.Char.{code}
use provider_growthbook.Base.{
  ℕ, zero, suc, ◌+◌, ◌-◌, String, Bool, true, false, not, ◌&&◌, ◌||◌, List, [], ◌∷◌, ◌++◌, ◌==◌,
  nat_eq, ltb, if◌then◌else◌,
}
use mathlib.Core.List.{reverse}

abbrev pub Bytes : Type 0
Bytes = List ℕ

abbrev pub in_range : ℕ → ℕ → ℕ → Bool
in_range lo hi c = not (ltb c lo) && not (ltb hi c)

-- The UTF-8 of a code point, and of a text.
rune_bytes : ℕ → Bytes
rune_bytes c =
    if ltb c 0x80
    then c ∷ []
    else if ltb c 0x800
    then (0xc0 + c / 64) ∷ (0x80 + c % 64) ∷ []
    else if ltb c 0x10000
    then (0xe0 + c / 4096) ∷ (0x80 + c / 64 % 64) ∷ (0x80 + c % 64) ∷ []
    else (0xf0 + c / 262144) ∷ (0x80 + c / 4096 % 64) ∷ (0x80 + c / 64 % 64) ∷ (0x80 + c % 64) ∷ []

unfoldable pub utf8 : String → Bytes
unfolding rune_bytes
utf8 String.[] = []
utf8 (String.◌∷◌ c s) = rune_bytes (code c) ++ utf8 s

unfoldable pub starts : Bytes → Bytes → Bool
starts [] s = true
starts (c ∷ p) [] = false
starts (c ∷ p) (d ∷ s) = c == d && starts p s

-- `strings.Contains(s, p)`
unfoldable pub contains : Bytes → Bytes → Bool
unfolding starts
contains [] p = starts p []
contains (c ∷ s) p = starts p (c ∷ s) || contains s p

-- `strings.ToLower` as far as its result is ASCII: the capitals, and the two code points outside
-- ASCII whose lower case is an ASCII letter (U+0130 and U+212A). Other bytes are left as they are:
-- the lower case of their code points is outside ASCII too, and no phrase that is searched for is.
lower_byte : ℕ → ℕ
lower_byte c = if in_range b'A' b'Z' c then c + 32 else c

abbrev lower_at : ℕ → Bytes → ℕ × ℕ
lower_at c s =
    if c == 0xc4 && starts (0xb0 ∷ []) s
    then (b'i', 1)
    else if c == 0xe2 && starts (0x84 ∷ 0xaa ∷ []) s
    then (b'k', 2)
    else (lower_byte c, 0)

-- The first argument counts the bytes of a code point that are still to be passed over.
lower_from : ℕ → Bytes → Bytes
lower_from k [] = []
lower_from (suc k) (c ∷ s) = lower_from k s
lower_from zero (c ∷ s) = (lower_at c s).0 ∷ lower_from (lower_at c s).1 s

unfoldable pub to_lower : Bytes → Bytes
unfolding lower_from lower_byte starts
to_lower s = lower_from 0 s

-- How many bytes `s` begins with that are the UTF-8 of one of package unicode's white space.
wide_space : Bytes → Bool
wide_space [] = false
wide_space (a ∷ []) = false
wide_space (a ∷ b ∷ []) = false
wide_space (a ∷ b ∷ c ∷ s) =
    (a == 0xe1 && b == 0x9a && c == 0x80)
    || (a == 0xe2 && b == 0x80 && (in_range 0x80 0x8a c || c == 0xa8 || c == 0xa9 || c == 0xaf))
    || (a == 0xe2 && b == 0x81 && c == 0x9f)
    || (a == 0xe3 && b == 0x80 && c == 0x80)

narrow_space : ℕ → Bool
narrow_space c = in_range 0x09 0x0d c || c == 0x20

space_length : Bytes → ℕ
unfolding wide_space narrow_space starts
space_length [] = 0
space_length (c ∷ s) =
    if narrow_space c
    then 1
    else if starts (0xc2 ∷ 0x85 ∷ []) (c ∷ s) || starts (0xc2 ∷ 0xa0 ∷ []) (c ∷ s)
    then 2
    else if wide_space (c ∷ s)
    then 3
    else 0

-- `bytes.TrimLeftFunc(s, unicode.IsSpace)`; the number counts the bytes still to be dropped.
trim_left : ℕ → Bytes → Bytes
trim_left k [] = []
trim_left (suc k) (c ∷ s) = trim_left k s
trim_left zero (c ∷ s) = elim (space_length (c ∷ s)) [ zero ↦ c ∷ s | suc k ↦ trim_left k s ]

-- Trimming on the right: a text that is nothing but white space is dropped where it begins.
trim_right : Bytes → Bytes
trim_right [] = []
trim_right (c ∷ s) =
    let rest = c ∷ trim_right s in elim (trim_left 0 (c ∷ s)) [ [] ↦ [] | _ ↦ rest ]

-- `bytes.TrimSpace` and `strings.TrimSpace`
unfoldable pub trim_space : Bytes → Bytes
unfolding trim_left trim_right space_length
trim_space s = trim_right (trim_left 0 s)

-- `strings.TrimRight(s, "/")`
unfoldable pub trim_slashes : Bytes → Bytes
trim_slashes [] = []
trim_slashes (c ∷ s) = elim (trim_slashes s) [
  | [] ↦ if c == b'/' then [] else c ∷ []
  | d ∷ t ↦ c ∷ d ∷ t
]

-- What `url.PathEscape` leaves as it is.
unescaped : ℕ → Bool
unescaped c =
    in_range b'a' b'z' c
    || in_range b'A' b'Z' c
    || in_range b'0' b'9' c
    || c == b'-'
    || c == b'_'
    || c == b'.'
    || c == b'~'
    || c == b'$'
    || c == b'&'
    || c == b'+'
    || c == b'='
    || c == b':'
    || c == b'@'

abbrev pub hex_digit : ℕ → ℕ
hex_digit n = if ltb n 10 then b'0' + n else b'A' + (n - 10)

unfoldable pub path_escape : Bytes → Bytes
unfolding unescaped
path_escape [] = []
path_escape (c ∷ s) =
    let rest = path_escape s in
    if unescaped c then c ∷ rest else b'%' ∷ hex_digit (c / 16) ∷ hex_digit (c % 16) ∷ rest
