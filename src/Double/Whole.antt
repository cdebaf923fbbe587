-- ===== src/Double/Whole.antt =====
-- Doubles that are whole numbers below 2 ^ 53: the operations are those of the integers.
use neo_lloyds.Prelude.{
  ℕ, ◌+◌, ◌-◌, ◌*◌, ◌/◌, ◌^◌, ◌≤◌, ◌<◌, ◌≡◌, refl, ap, ◌∙◌, List, [], ◌∷◌, map, foldl, arith, sum,
}
use neo_lloyds.Prelude.Int.{pos, pos-+ℤ, pos--ℤ}
use native.Mathlib.Nat.{zero-mul, mul-pos, one-le-pow, mul_comm, div-div-eq-div-mul, add-div_right}
use mathlib.Core.Path.{◌≡⟨◌⟩◌, ◌∎, sym, ap₂}
use neo_lloyds.Double.{nearest, units, half_units}
use neo_lloyds.Double.Rounding.{nearest-exact, nearest-floor}
use neo_lloyds.Double.Signed.{Double, of_int, add, subtract, multiply, divide, floor, round}

-- The double of a number below 2 ^ 53.
abbrev pub whole_double : ℕ → Double
whole_double n = pos (n * units)

nearest-units : (n d y : ℕ) → y < 2 ^ 53 → 0 < d → n ≡ y * units * d → nearest n d ≡ y * units
unfolding units
nearest-units n d y h hd e = nearest-exact 1074 n d y h hd e

nearest-div-units :
    (n d y w : ℕ)
    → y < 2 ^ 53
    → 0 < w
    → w < 2 * units
    → 0 < d
    → n * w ≡ y * units * d
    → nearest n d / units ≡ y / w
unfolding units
nearest-div-units n d y w hy hw hwu hd e = nearest-floor 1074 n d y w hy hw hd e hwu

pub units-pos : 0 < units
unfolding units
units-pos = one-le-pow 1074 2 (omega arith)

limit-le-units : 2 ^ 53 ≤ units
unfolding units
limit-le-units = omega arith

pub of_int-pos : (n : ℕ) → n < 2 ^ 53 → of_int (pos n) ≡ whole_double n
unfolding of_int
of_int-pos n h = ap pos (nearest-units _ 1 n h (omega arith) (omega arith))

pub add-whole_double :
    (a b : ℕ) → a + b < 2 ^ 53 → add (whole_double a) (whole_double b) ≡ whole_double (a + b)
unfolding add
add-whole_double a b h =
    rw (pos-+ℤ (a * units) (b * units))
      (ap pos (nearest-units _ 1 (a + b) h (omega arith) (omega arith)))

pub subtract-whole_double :
    (a b : ℕ)
    → a < 2 ^ 53
    → b ≤ a
    → subtract (whole_double a) (whole_double b) ≡ whole_double (a - b)
unfolding subtract
subtract-whole_double a b h le =
    let apart : a ≡ a - b + b = omega arith in
    rw (pos--ℤ (a * units) (b * units) (grind arith)) (
      ap pos (
        nearest-units _ 1 (a - b) (omega arith) (omega arith)
          (omega (arith, ap (λ (m : ℕ). m * units) apart))))

pub multiply-whole_double :
    (a b : ℕ) → a * b < 2 ^ 53 → multiply (whole_double a) (whole_double b) ≡ whole_double (a * b)
unfolding multiply
multiply-whole_double a b h =
    ap pos (nearest-units (a * units * (b * units)) _ (a * b) h units-pos (omega arith))

-- A whole number of at most 53 bits, divided by another, has the floor of the exact quotient.
pub floor-divide-whole_double :
    (y w : ℕ)
    → y < 2 ^ 53
    → 0 < w
    → w < 2 ^ 53
    → floor (divide (whole_double y) (whole_double w)) ≡ pos (y / w)
unfolding divide floor
floor-divide-whole_double y w hy hw hwu = ap pos (
    nearest-div-units (y * units * units) (w * units) y w hy hw (omega (arith, limit-le-units))
      (mul-pos hw units-pos) (omega arith))

nearest-div-half_units :
    (n d y w : ℕ)
    → y < 2 ^ 53
    → 0 < w
    → w < 2 * half_units
    → 0 < d
    → n * w ≡ y * half_units * d
    → nearest n d / half_units ≡ y / w
unfolding half_units
nearest-div-half_units n d y w hy hw hwu hd e = nearest-floor 1073 n d y w hy hw hd e hwu

half_units-pos : 0 < half_units
unfolding half_units
half_units-pos = one-le-pow 1073 2 (omega arith)

units_halves : units ≡ half_units * 2
unfolding units half_units
units_halves = omega arith

-- `Math.round` of such a quotient is the exact quotient, rounded half up.
pub round-divide-whole_double :
    (y w : ℕ)
    → y < 2 ^ 52
    → 0 < w
    → w < 2 ^ 53
    → round (divide (whole_double y) (whole_double w)) ≡ pos ((2 * y + w) / (2 * w))
unfolding divide round
round-divide-whole_double y w hy hw hwu =
    let quotient =
      nearest-div-half_units (y * units * units) (w * units) (2 * y) w (omega arith) hw
        (omega (arith, limit-le-units, units_halves)) (mul-pos hw units-pos)
        (omega (arith, ap (λ (u : ℕ). y * units * u * w) units_halves)) in
    ap pos (
      (nearest (y * units * units) (w * units) + half_units) / units
      ≡⟨ ap (λ (u : ℕ). (nearest (y * units * units) (w * units) + half_units) / u) units_halves ⟩
        (nearest (y * units * units) (w * units) + half_units) / (half_units * 2)
      ≡⟨ sym (div-div-eq-div-mul _ half_units 2) ⟩
        (nearest (y * units * units) (w * units) + half_units) / half_units / 2
      ≡⟨ ap (λ (q : ℕ). q / 2) (add-div_right _ half_units-pos) ⟩
        (nearest (y * units * units) (w * units) / half_units + 1) / 2
      ≡⟨ ap (λ (q : ℕ). (q + 1) / 2) quotient ⟩ (2 * y / w + 1) / 2
      ≡⟨ ap (λ (q : ℕ). q / 2) (sym (add-div_right (2 * y) hw)) ⟩ (2 * y + w) / w / 2
      ≡⟨ div-div-eq-div-mul _ w 2 ⟩ (2 * y + w) / (w * 2)
      ≡⟨ ap (λ (d : ℕ). (2 * y + w) / d) (mul_comm w 2) ⟩ (2 * y + w) / (2 * w) ∎)

-- A sum of whole numbers, from the left.
pub foldl-add-whole_double :
    (acc : ℕ) (ns : List ℕ)
    → acc + sum ns < 2 ^ 53
    → foldl add (whole_double acc) (map whole_double ns) ≡ whole_double (acc + sum ns)
foldl-add-whole_double acc [] h = ap whole_double (omega arith)
foldl-add-whole_double acc (n ∷ ns) h =
    ap (λ z. foldl add z (map whole_double ns)) (add-whole_double acc n (omega arith))
    ∙ foldl-add-whole_double (acc + n) ns (omega arith)
    ∙ ap whole_double (omega arith)

pub map-of_int-pos :
    (ns : List ℕ) → sum ns < 2 ^ 53 → map (λ n. of_int (pos n)) ns ≡ map whole_double ns
map-of_int-pos [] h = refl
map-of_int-pos (n ∷ ns) h = ap₂ (◌∷◌) (of_int-pos n (omega arith)) (map-of_int-pos ns (omega arith))

pub foldl-add-zero :
    (ns : List ℕ)
    → sum ns < 2 ^ 53
    → foldl add (pos 0) (map whole_double ns) ≡ whole_double (sum ns)
foldl-add-zero ns h =
    ap (λ (z : ℕ). foldl add (pos z) (map whole_double ns)) (sym (zero-mul units))
    ∙ foldl-add-whole_double 0 ns (omega arith)
    ∙ ap whole_double (omega arith)
