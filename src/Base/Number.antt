-- ===== src/Base/Number.antt =====
-- What the program uses of printf("%08lx"), strtoul(…, 16) and atoi(), over byte strings.
use Prim.Native.Nat.{ℕ, zero, suc, ◌+◌, ◌-◌, ◌*◌, ◌/◌, ◌%◌, ◌^◌, ◌<◌}
use mathlib.Core.Path.{◌≡◌, refl, sym, ◌∙◌, ap}
use mathlib.Core.Bool.{Bool, false, ◌&&◌, ◌||◌}
use mathlib.Core.Option.{Option, none, some}
use mathlib.Core.List.{[], ◌∷◌, ◌++◌, append_assoc, append-nil}
use native.Mathlib.Omega.{arith}
use native.Mathlib.Nat.{pow-suc}
use tboot.Base.Tests.{leb, ltb, ◌==◌, if◌then◌else◌}
use tboot.Base.Strings.{Text}
use tboot.Base.Lists.{length, length-append}
use tboot.Base.Int.{ℤ, pos, neg_ℕ}

-- 2 ^ 32: `unsigned` and, on this 32-bit target, `unsigned long`.
abbrev pub u32 : ℕ
u32 = 0x1_0000_0000

abbrev pub is_space : ℕ → Bool
is_space c = c == 32 || leb 9 c && leb c 13

abbrev hex_digit : ℕ → ℕ
hex_digit d = if ltb d 10 then d + 48 else d + 87

abbrev hex_value : ℕ → Option ℕ
hex_value c =
    if leb 48 c && leb c 57
    then some (c - 48)
    else if leb 97 c && leb c 102
    then some (c - 87)
    else if leb 65 c && leb c 70
    then some (c - 55)
    else none

-- `digits` hexadecimal digits, zeros in front: "%08lx" for 8 digits and a 32-bit number.
unfoldable pub hex_pad : ℕ → ℕ → Text
hex_pad zero n = []
hex_pad (suc k) n = hex_pad k (n / 16) ++ hex_digit (n % 16) ∷ []

dec_fuel : ℕ → ℕ → Text
dec_fuel zero n = []
dec_fuel (suc k) n =
    let front = dec_fuel k (n / 10) in
    if ltb n 10 then (48 + n) ∷ [] else front ++ (48 + n % 10) ∷ []

-- "%u": ten digits are enough for 32 bits.
unfoldable pub dec : ℕ → Text
unfolding dec_fuel
dec n = dec_fuel 10 n

hex_digits : ℕ → Text → ℕ
hex_digits acc [] = acc
hex_digits acc (c ∷ s) = elim (hex_value c) [ none ↦ acc | some d ↦ hex_digits (acc * 16 + d) s ]

skip_spaces : Text → Text
skip_spaces [] = []
skip_spaces (c ∷ s) = let rest = skip_spaces s in if is_space c then rest else c ∷ s

-- An optional "0x" in front of a hexadecimal digit.
skip_0x : Text → Text
skip_0x (a ∷ b ∷ c ∷ s) =
    if a == 48 && (b == 120 || b == 88)
    then elim (hex_value c) [ none ↦ a ∷ b ∷ c ∷ s | some d ↦ c ∷ s ]
    else a ∷ b ∷ c ∷ s
skip_0x s = s

-- A number too large becomes ULONG_MAX.
saturate : ℕ → ℕ
saturate n = if ltb n u32 then n else u32 - 1

strtoul_signed : Text → ℕ
unfolding saturate skip_0x hex_digits
strtoul_signed [] = 0
strtoul_signed (c ∷ s) =
    if c == b'-'
    then (if ltb (hex_digits 0 (skip_0x s)) u32
        then (u32 - hex_digits 0 (skip_0x s)) % u32
        else u32 - 1)
    else if c == b'+'
    then saturate (hex_digits 0 (skip_0x s))
    else saturate (hex_digits 0 (skip_0x (c ∷ s)))

-- strtoul(s, NULL, 16)
unfoldable pub strtoul : Text → ℕ
unfolding strtoul_signed skip_spaces
strtoul s = strtoul_signed (skip_spaces s)

dec_digits : ℕ → Text → ℕ
dec_digits acc [] = acc
dec_digits acc (c ∷ s) =
    let rest = dec_digits (acc * 10 + (c - 48)) s in if leb 48 c && leb c 57 then rest else acc

atoi_signed : Text → ℤ
unfolding dec_digits
atoi_signed [] = pos 0
atoi_signed (c ∷ s) =
    if c == b'-'
    then neg_ℕ (dec_digits 0 s)
    else if c == b'+'
    then pos (dec_digits 0 s)
    else pos (dec_digits 0 (c ∷ s))

-- atoi(s), for a number that fits in an `int`.
unfoldable pub atoi : Text → ℤ
unfolding atoi_signed skip_spaces
atoi s = atoi_signed (skip_spaces s)

hex_value-hex_digit : (d : ℕ) → d < 16 → hex_value (hex_digit d) ≡ some d
hex_value-hex_digit d h = ground arith

hex_digits-hex_pad :
    (k n acc : ℕ) (rest : Text)
    → n < 16 ^ k
    → hex_digits acc (hex_pad k n ++ rest) ≡ hex_digits (acc * 16 ^ k + n) rest
unfolding hex_pad hex_digits
hex_digits-hex_pad zero n acc rest h = ap (λ a. hex_digits a rest) (omega arith)
hex_digits-hex_pad (suc k) n acc rest h = rw append_assoc (
    hex_digits-hex_pad k (n / 16) acc (hex_digit (n % 16) ∷ rest) small
    ∙ rw (hex_value-hex_digit (n % 16) (omega arith), hex_digits)
        (ap (λ a. hex_digits a rest) value))
  where
    power : 16 ^ suc k ≡ 16 ^ k * 16
    power = pow-suc 16 k

    small : n / 16 < 16 ^ k
    small = omega (arith, power)

    value : (acc * 16 ^ k + n / 16) * 16 + n % 16 ≡ acc * 16 ^ suc k + n
    value = rw power (omega arith)

hex_digit_plain :
    (d : ℕ)
    → d < 16
    → (is_space (hex_digit d) ≡ false)
      × ((hex_digit d == b'-') ≡ false)
      × ((hex_digit d == b'+') ≡ false)
      × ((hex_digit d == 120) ≡ false)
      × ((hex_digit d == 88) ≡ false)
hex_digit_plain d h = ground arith

skip_0x-digits :
    (a b : ℕ) (s : Text)
    → a < 16
    → b < 16
    → skip_0x (hex_digit a ∷ hex_digit b ∷ s) ≡ hex_digit a ∷ hex_digit b ∷ s
unfolding skip_0x
skip_0x-digits a b [] ha hb = refl
skip_0x-digits a b (c ∷ s) ha hb = ground (arith, hex_digit_plain b)

strtoul-digits :
    (a b : ℕ) (s : Text)
    → a < 16
    → b < 16
    → strtoul (hex_digit a ∷ hex_digit b ∷ s)
      ≡ saturate (hex_digits 0 (hex_digit a ∷ hex_digit b ∷ s))
unfolding strtoul
strtoul-digits a b s ha hb =
    let p = hex_digit_plain a ha in
    rw (p.0, strtoul_signed) (rw (p.1, p.2, skip_0x-digits a b s ha hb) refl)

read_all : (n : ℕ) → hex_digits (0 * 16 ^ 8 + n) [] ≡ n
unfolding hex_digits
read_all n = omega arith

saturate_small : (m n : ℕ) → m ≡ n → n < u32 → saturate m ≡ n
unfolding saturate
saturate_small m n e h = ground arith

-- strtoul(…, 16) reads back what "%08lx" prints, for every 32-bit number.
pub strtoul-hex_pad : (n : ℕ) → n < u32 → strtoul (hex_pad 8 n) ≡ n
unfolding hex_pad saturate
strtoul-hex_pad n h =
    strtoul-digits _ _ _ (omega arith) (omega arith)
    ∙ ap saturate (
        ap (hex_digits 0) (sym (append-nil (hex_pad 8 n)))
        ∙ hex_digits-hex_pad 8 n 0 [] (omega arith))
    ∙ saturate_small _ n (read_all n) h

pub length-hex_pad : (k n : ℕ) → length (hex_pad k n) ≡ k
unfolding hex_pad
length-hex_pad zero n = refl
length-hex_pad (suc k) n =
    omega (
      arith,
      length-append (hex_pad k (n / 16)) (hex_digit (n % 16) ∷ []),
      length-hex_pad k (n / 16),
    )
