-- ===== src/Double/Signed.antt =====
-- Signed doubles, and the operations of JavaScript's `Math` that the domain package calls.
use neo_lloyds.Prelude.{ℕ, suc, ◌+◌, ◌*◌, ◌/◌, Bool, true, false, if◌then◌else◌}
use neo_lloyds.Prelude.Int.{ℤ, pos, negsuc, sub_ℕ, ◌+ℤ◌, ◌-ℤ◌, ltb_ℤ}
use neo_lloyds.Double.{units, half_units, nearest}

-- A count of units.
abbrev pub Double : Type 0
Double = ℤ

-- The magnitude, by which a double is rounded (JavaScript's `Math.abs`).
abbrev pub abs : ℤ → ℕ
abs (pos n) = n
abs (negsuc n) = suc n

abbrev pub is_negative : ℤ → Bool
is_negative (pos n) = false
is_negative (negsuc n) = true

-- A magnitude under the sign of another number.
abbrev pub with_sign : Bool → ℕ → ℤ
with_sign negative n = if negative then sub_ℕ 0 n else pos n

abbrev pub xor : Bool → Bool → Bool
xor true true = false
xor true false = true
xor false b = b

-- An integer of JavaScript as a double: exact below 2 ^ 53, where every caller stays.
unfoldable pub of_int : ℤ → Double
of_int a = with_sign (is_negative a) (nearest (abs a * units) 1)

unfoldable pub add : Double → Double → Double
add a b = let c = a +ℤ b in with_sign (is_negative c) (nearest (abs c) 1)

unfoldable pub subtract : Double → Double → Double
subtract a b = let c = a -ℤ b in with_sign (is_negative c) (nearest (abs c) 1)

unfoldable pub multiply : Double → Double → Double
multiply a b = with_sign (xor (is_negative a) (is_negative b)) (nearest (abs a * abs b) (units))

-- The callers divide by no zero.
unfoldable pub divide : Double → Double → Double
divide a b = with_sign (xor (is_negative a) (is_negative b)) (nearest (abs a * units) (abs b))

-- `Math.floor`, as an integer.
unfoldable pub floor : Double → ℤ
floor (pos n) = pos (n / units)
floor (negsuc n) = negsuc (n / units)

-- `Math.round`, which takes a half up: the integer below, or the next from the middle on.
unfoldable pub round : Double → ℤ
round (pos n) = pos ((n + half_units) / units)
round (negsuc n) = floor (negsuc n +ℤ pos (half_units))

abbrev pub ltb_double : Double → Double → Bool
ltb_double = ltb_ℤ

-- The double of a decimal fraction n / d, as a literal of the source.
unfoldable pub decimal : ℕ → ℕ → Double
decimal n d = pos (nearest (n * units) d)
