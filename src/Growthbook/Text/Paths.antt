-- ===== src/Growthbook/Text/Paths.antt =====
-- `url.PathEscape` as internal/clients/growthbook uses it on ids.
use Prim.Native.Nat.{◌/◌, ◌%◌, ◌*◌}
use provider_growthbook.Base.{
  ℕ, zero, suc, ◌+◌, ◌-◌, ◌<◌, true, false, Option, none, some, [], ◌∷◌, ◌≡◌, ◌≢◌, refl, arith, inl,
  inr, Bool-cases, ◌==◌, nat_eq, if◌then◌else◌, ap,
}
use provider_growthbook.Base.Lists.{All}
use provider_growthbook.Growthbook.Text.{Bytes, in_range, hex_digit, unescaped, path_escape}

-- The value of a hexadecimal digit.
unhex : ℕ → Option ℕ
unhex c =
    if in_range b'0' b'9' c
    then some (c - b'0')
    else if in_range b'A' b'F' c
    then some (c - (b'A' - 10))
    else none

abbrev both : Option ℕ → Option ℕ → Option ℕ
both none l = none
both (some h) none = none
both (some h) (some l) = some (h * 16 + l)

abbrev cons? : Option ℕ → Option Bytes → Option Bytes
cons? none s = none
cons? (some c) none = none
cons? (some c) (some s) = some (c ∷ s)

-- The byte that the two digits after a percent sign stand for.
escape : Bytes → Option ℕ
escape [] = none
escape (h ∷ []) = none
escape (h ∷ l ∷ r) = both (unhex h) (unhex l)

-- Reading an escaped text: the number counts the digits that belong to the escape before.
read_from : ℕ → Bytes → Option Bytes
read_from k [] = some []
read_from (suc k) (c ∷ s) = read_from k s
read_from zero (c ∷ s) =
    let escaped = cons? (escape s) (read_from 2 s) in
    let plain = cons? (some c) (read_from 0 s) in if c == b'%' then escaped else plain

-- `url.PathUnescape`, which a server applies to each segment.
unfoldable pub path_unescape : Bytes → Option Bytes
unfolding read_from escape unhex
path_unescape s = read_from 0 s

unhex-hex_digit : (n : ℕ) → n < 16 → unhex (hex_digit n) ≡ some n
unfolding unhex
unhex-hex_digit n h = ground arith

unescaped-ne-percent : (c : ℕ) → unescaped c ≡ true → (c == b'%') ≡ false
unfolding unescaped
unescaped-ne-percent c h = ground arith

digits_value :
    (c : ℕ) → c < 256 → both (unhex (hex_digit (c / 16))) (unhex (hex_digit (c % 16))) ≡ some c
digits_value c h =
    rw (unhex-hex_digit (c / 16) (omega arith), unhex-hex_digit (c % 16) (omega arith))
      (ap {B = Option ℕ} some (omega arith))

-- Every byte string can be read back from its escaped form.
pub path_unescape-path_escape :
    (s : Bytes) → All (λ c. c < 256) s → path_unescape (path_escape s) ≡ some s
unfolding path_unescape path_escape
path_unescape-path_escape [] h = refl
path_unescape-path_escape (c ∷ s) (byte, h) = elim (Bool-cases (unescaped c)) [
  | inl kept ↦ rw kept (rw (unescaped-ne-percent c kept, path_unescape-path_escape s h))
  | inr coded ↦ rw coded (rw (digits_value c byte, path_unescape-path_escape s h))
]

-- A byte that ends no path segment: no slash, and no question mark or hash sign that would end the
-- path.
abbrev pub IsSegmentByte : ℕ → Type 0
IsSegmentByte c = (c ≢ b'/') × (c ≢ b'?') × (c ≢ b'#')

hex_digit-IsSegmentByte : (n : ℕ) → n < 16 → IsSegmentByte (hex_digit n)
hex_digit-IsSegmentByte n h = ground arith

unescaped-IsSegmentByte : (c : ℕ) → unescaped c ≡ true → IsSegmentByte c
unfolding unescaped
unescaped-IsSegmentByte c h = ground arith

-- An escaped id is a single segment of a path, whatever bytes the id has.
pub path_escape-IsSegment : (s : Bytes) → All (λ c. c < 256) s → All IsSegmentByte (path_escape s)
unfolding path_escape
path_escape-IsSegment [] h = tt
path_escape-IsSegment (c ∷ s) (byte, h) = elim (Bool-cases (unescaped c)) [
  | inl kept ↦ rw kept (unescaped-IsSegmentByte c kept, path_escape-IsSegment s h)
  | inr coded ↦ rw coded (
    omega arith,
    (
      hex_digit-IsSegmentByte (c / 16) (omega arith),
      (hex_digit-IsSegmentByte (c % 16) (omega arith), path_escape-IsSegment s h),
    ),
  )
]
