-- ===== src/Base/Bits.antt =====
-- Bitwise operations on native numbers, at every width: a mask is a quotient or a remainder by a
-- power of two, and the union of disjoint parts is their sum.
use Prim.Native.Nat.{
  ℕ, zero, suc, ◌+◌, ◌-◌, ◌*◌, ◌/◌, ◌%◌, ◌^◌, ◌≤◌, ◌<◌, min, max, bit_and, bit_or, digits, bitwise,
  bit_and-bitwise, bit_or-bitwise,
}
use mathlib.Core.Path.{◌≡◌, refl, sym, ap, ◌∙◌}
use native.Mathlib.Nat.{
  pow-suc, div-div-eq-div-mul, mod-eq_of_lt, mod-lt, div-add-mod', mul-add-mod_self_right,
  div-lt_iff_lt-mul,
}
use native.Mathlib.Omega.{arith}

-- A digit recursion, for any value `rest` of what lies beyond the left number's digits.
module _ (rest : ℕ → ℕ) (join : ℕ → ℕ → ℕ) where
  -- More fuel than the left number needs changes nothing.
  enough_fuel : (x n m y : ℕ) → x ≤ n → x ≤ m → digits rest join n x y ≡ digits rest join m x y
  enough_fuel (suc x) zero m y h k = absurd (omega (arith, h))
  enough_fuel (suc x) (suc n) zero y h k = absurd (omega (arith, k))
  enough_fuel zero zero zero y h k = refl
  enough_fuel zero zero (suc m) y h k = refl
  enough_fuel zero (suc n) zero y h k = refl
  enough_fuel zero (suc n) (suc m) y h k = refl
  enough_fuel (suc x) (suc n) (suc m) y h k =
      let further = enough_fuel (suc x / 2) n m (y / 2) (omega arith) (omega arith) in
      ap (λ t. t * 2 + join (suc x % 2) (y % 2)) further

  one_digit :
      (a b : ℕ)
      → bitwise rest join (suc a) b
        ≡ bitwise rest join (suc a / 2) (b / 2) * 2 + join (suc a % 2) (b % 2)
  one_digit a b =
      ap (λ t. t * 2 + join (suc a % 2) (b % 2))
        (enough_fuel (suc a / 2) a (suc a / 2) (b / 2) (omega arith) (omega arith))

none-and : (y : ℕ) → bit_and 0 y ≡ 0
none-and = bit_and-bitwise 0

none-or : (y : ℕ) → bit_or 0 y ≡ y
none-or = bit_or-bitwise 0

-- The laws for the lowest digit.
pub and_digit : (x y : ℕ) → bit_and x y ≡ bit_and (x / 2) (y / 2) * 2 + min (x % 2) (y % 2)
and_digit zero y = none-and y ∙ omega (arith, none-and (y / 2))
and_digit (suc x) y =
    bit_and-bitwise (suc x) y
    ∙ one_digit (λ _. 0) min x y
    ∙ ap (λ t. t * 2 + min (suc x % 2) (y % 2)) (sym (bit_and-bitwise (suc x / 2) (y / 2)))

or_digit : (x y : ℕ) → bit_or x y ≡ bit_or (x / 2) (y / 2) * 2 + max (x % 2) (y % 2)
or_digit zero y = none-or y ∙ omega (arith, none-or (y / 2))
or_digit (suc x) y =
    bit_or-bitwise (suc x) y
    ∙ one_digit (λ t. t) max x y
    ∙ ap (λ t. t * 2 + max (suc x % 2) (y % 2)) (sym (bit_or-bitwise (suc x / 2) (y / 2)))

half-pow : (a k : ℕ) → a / 2 / 2 ^ k ≡ a / 2 ^ suc k
half-pow a k = div-div-eq-div-mul a 2 (2 ^ k) ∙ ap (λ t. a / t) (omega (arith, pow-suc 2 k))

and_even : (a q : ℕ) → bit_and a (q * 2) ≡ bit_and (a / 2) q * 2
and_even a q =
    let halves : q * 2 / 2 ≡ q = omega arith in
    and_digit a (q * 2) ∙ omega (arith, ap (λ t. bit_and (a / 2) t) halves)

and_odd : (a q : ℕ) → bit_and a (q * 2 + 1) ≡ bit_and (a / 2) q * 2 + a % 2
and_odd a q =
    let halves : (q * 2 + 1) / 2 ≡ q = omega arith in
    and_digit a (q * 2 + 1) ∙ omega (arith, ap (λ t. bit_and (a / 2) t) halves)

or_even : (q b : ℕ) → bit_or (q * 2) b ≡ bit_or q (b / 2) * 2 + b % 2
or_even q b =
    let halves : q * 2 / 2 ≡ q = omega arith in
    or_digit (q * 2) b ∙ omega (arith, ap (λ t. bit_or t (b / 2)) halves)

pub and-zero_below : (bound x : ℕ) → x ≤ bound → bit_and x 0 ≡ 0
and-zero_below bound zero le = none-and 0
and-zero_below (suc bound) (suc x) le =
    and_even (suc x) 0 ∙ omega (arith, and-zero_below bound (suc x / 2) (omega arith))
and-zero_below zero (suc x) le = absurd (omega (arith, le))

or-zero_below : (n a : ℕ) → a ≤ n → bit_or a 0 ≡ a
or-zero_below n zero h = none-or 0
or-zero_below zero (suc a) h = absurd (omega arith)
or-zero_below (suc n) (suc a) h =
    omega (arith, or_digit (suc a) 0, or-zero_below n (suc a / 2) (omega arith))

pub double_pow : (m k : ℕ) → m * 2 ^ suc k ≡ m * 2 ^ k * 2
double_pow m k = omega (arith, ap (λ t. m * t) (pow-suc 2 k))

pub pow-pos : (k : ℕ) → 0 < 2 ^ k
pow-pos zero = omega arith
pow-pos (suc k) = omega (arith, pow-suc 2 k, pow-pos k)

-- A mask moved up by `k` places.
pub and-shifted : (k a m : ℕ) → bit_and a (m * 2 ^ k) ≡ bit_and (a / 2 ^ k) m * 2 ^ k
and-shifted zero a m =
    let one : m * 1 ≡ m = omega arith in
    let same : a / 1 ≡ a = omega arith in
    omega (arith, ap (λ t. bit_and a t) one, ap (λ t. bit_and t m) same)
and-shifted (suc k) a m =
    ap (λ t. bit_and a t) (double_pow m k)
    ∙ and_even a (m * 2 ^ k)
    ∙ ap (λ t. t * 2) (and-shifted k (a / 2) m)
    ∙ ap (λ t. bit_and t m * 2 ^ k * 2) (half-pow a k)
    ∙ sym (double_pow (bit_and (a / 2 ^ suc k) m) k)

mod_double : (a p : ℕ) → 0 < p → a % (p * 2) ≡ a / 2 % p * 2 + a % 2
mod_double a p h =
    let r : ℕ = a / 2 % p in
    let whole : a ≡ a / 2 / p * (p * 2) + (r * 2 + a % 2) = omega (arith, div-add-mod' (a / 2) p) in
    ap (λ t. t % (p * 2)) whole
    ∙ mul-add-mod_self_right (a / 2 / p) (p * 2) (r * 2 + a % 2)
    ∙ mod-eq_of_lt (omega (arith, mod-lt (a / 2) h))

-- A mask of `k` ones.
pub and-ones : (k a : ℕ) → bit_and a (2 ^ k - 1) ≡ a % 2 ^ k
and-ones zero a = omega (arith, and-zero_below a a (omega arith))
and-ones (suc k) a =
    let odd : 2 ^ suc k - 1 ≡ (2 ^ k - 1) * 2 + 1 = omega (arith, pow-suc 2 k, pow-pos k) in
    ap (λ t. bit_and a t) odd
    ∙ and_odd a (2 ^ k - 1)
    ∙ ap (λ t. t * 2 + a % 2) (and-ones k (a / 2))
    ∙ sym (mod_double a (2 ^ k) (pow-pos k))
    ∙ ap (λ t. a % t) (sym (pow-suc 2 k))

-- Parts that do not overlap.
pub or-disjoint : (k a b : ℕ) → b < 2 ^ k → bit_or (a * 2 ^ k) b ≡ a * 2 ^ k + b
or-disjoint zero a b h =
    let none : b ≡ 0 = omega arith in
    let one : a * 1 ≡ a = omega arith in
    ap (λ t. bit_or (a * 1) t) none
    ∙ omega (arith, ap (λ t. bit_or t 0) one, or-zero_below a a (omega arith))
or-disjoint (suc k) a b h =
    ap (λ t. bit_or t b) (double_pow a k)
    ∙ or_even (a * 2 ^ k) b
    ∙ omega (arith, or-disjoint k a (b / 2) (omega (arith, pow-suc 2 k)), double_pow a k)

pub pow_add : (j k : ℕ) → 2 ^ (j + k) ≡ 2 ^ k * 2 ^ j
pow_add zero k = let none : 0 + k ≡ k = omega arith in omega (arith, ap (λ t. 2 ^ t) none)
pow_add (suc j) k =
    let next : suc j + k ≡ suc (j + k) = omega arith in
    ap (λ t. 2 ^ t) next ∙ omega (arith, pow-suc 2 (j + k), pow_add j k, double_pow (2 ^ k) j)

shifted_ones : (p q w : ℕ) → 0 < p → 0 < q → w ≡ q * p → (w - 1) * p ≡ (p - 1) * w + (q - 1) * p
shifted_ones zero q w hp hq e = elim hp [ ]
shifted_ones (suc p) zero w hp hq e = elim hq [ ]
shifted_ones (suc p) (suc q) w hp hq e =
    let ones : w - 1 ≡ q * p + q + p = omega arith in
    let p_pred : suc p - 1 ≡ p = omega arith in
    let q_pred : suc q - 1 ≡ q = omega arith in
    rw (ones, p_pred, q_pred) (omega (arith, ap (λ t. p * t) e))

pred-mul-lt : (p q : ℕ) → 0 < p → 0 < q → (q - 1) * p < q * p
pred-mul-lt p zero hp hq = elim hq [ ]
pred-mul-lt p (suc q) hp hq = let q_pred : suc q - 1 ≡ q = omega arith in rw q_pred (omega arith)

-- The network mask `!0 << j` of a word of `j + k` bits keeps the upper `k` bits.
pub and-mask :
    (j k x : ℕ)
    → x < 2 ^ (j + k)
    → bit_and x ((2 ^ (j + k) - 1) * 2 ^ j % 2 ^ (j + k)) ≡ x / 2 ^ j * 2 ^ j
and-mask j k x h =
    let w : ℕ = 2 ^ (j + k) in
    let mask : (w - 1) * 2 ^ j % w ≡ (2 ^ k - 1) * 2 ^ j =
      ap (λ t. t % w) (shifted_ones (2 ^ j) (2 ^ k) w (pow-pos j) (pow-pos k) (pow_add j k))
      ∙ mul-add-mod_self_right (2 ^ j - 1) w ((2 ^ k - 1) * 2 ^ j)
      ∙ mod-eq_of_lt
          (omega (arith, pow_add j k, pred-mul-lt (2 ^ j) (2 ^ k) (pow-pos j) (pow-pos k))) in
    let upper : x / 2 ^ j < 2 ^ k =
      (div-lt_iff_lt-mul (pow-pos j)).1 (omega (arith, pow_add j k)) in
    ap (λ t. bit_and x t) mask
    ∙ and-shifted j x (2 ^ k - 1)
    ∙ ap (λ t. t * 2 ^ j) (and-ones k (x / 2 ^ j) ∙ mod-eq_of_lt upper)
