-- ===== src/Tag/Bits.antt =====
-- `|` on numbers whose binary digits do not meet is their sum.
use Prim.Native.Nat.{bit_or, digits, bit_or-bitwise, max}
use dpu_offload_service.Prelude.{
  ℕ, zero, suc, ◌+◌, ◌*◌, ◌/◌, ◌%◌, ◌^◌, ◌≤◌, ◌<◌, ◌≡◌, refl, ◌∙◌, arith,
}
use native.Mathlib.Nat.{pow-suc}

abbrev joined : ℕ → ℕ → ℕ → ℕ
joined fuel x y = digits (λ rest. rest) max fuel x y

-- Any fuel from `x` on gives the same digits.
joined_stable : (x y f g : ℕ) → x ≤ f → x ≤ g → joined f x y ≡ joined g x y
joined_stable zero y (suc f) (suc g) xf xg = refl
joined_stable zero y (suc f) zero xf xg = refl
joined_stable zero y zero (suc g) xf xg = refl
joined_stable zero y zero zero xf xg = refl
joined_stable (suc x) y zero g xf xg = absurd (omega arith)
joined_stable (suc x) y (suc f) zero xf xg = absurd (omega arith)
joined_stable (suc x) y (suc f) (suc g) xf xg =
    let halves = joined_stable (suc x / 2) (y / 2) f g (omega arith) (omega arith) in
    omega (arith, halves)

bit_or_right : (y : ℕ) → bit_or 0 y ≡ y
bit_or_right y = bit_or-bitwise 0 y

-- The lowest digit, and the rest.
bit_or_split : (x y : ℕ) → bit_or x y ≡ bit_or (x / 2) (y / 2) * 2 + max (x % 2) (y % 2)
bit_or_split zero y = omega (arith, bit_or_right (y / 2), bit_or_right y)
bit_or_split (suc x) y =
    let whole = bit_or-bitwise (suc x) y in
    let half = bit_or-bitwise (suc x / 2) (y / 2) in
    let stable = joined_stable (suc x / 2) (y / 2) x (suc x / 2) (omega arith) (omega arith) in
    omega (arith, whole, half, stable)

bit_or_left : (x fuel : ℕ) → x ≤ fuel → bit_or x 0 ≡ x
bit_or_left zero fuel small = bit_or_right 0
bit_or_left (suc x) zero small = absurd (omega arith)
bit_or_left (suc x) (suc fuel) small =
    let half = bit_or_left (suc x / 2) fuel (omega arith) in
    omega (arith, half, bit_or_split (suc x) 0)

bit_or-zero : (x : ℕ) → bit_or x 0 ≡ x
bit_or-zero x = bit_or_left x x (omega arith)

-- Digits below `2 ^ k` pass through beside a multiple of it.
bit_or-low : (k q m l : ℕ) → l < 2 ^ k → bit_or (q * 2 ^ k + l) (m * 2 ^ k) ≡ bit_or q m * 2 ^ k + l
bit_or-low zero q m l h =
    let e : q * 1 + l ≡ q = omega arith in
    let f : m * 1 ≡ m = omega arith in
    let g : bit_or q m * 1 + l ≡ bit_or q m = omega arith in rw (e, f, g)
bit_or-low (suc k) q m l h =
    let p = pow-suc 2 k in
    let e : (q * 2 ^ suc k + l) / 2 ≡ q * 2 ^ k + l / 2 = rw p (omega arith) in
    let f : m * 2 ^ suc k / 2 ≡ m * 2 ^ k = rw p (omega arith) in
    let lo : l / 2 < 2 ^ k = omega (arith, p) in
    let ih = bit_or-low k q m (l / 2) lo in
    let low : max ((q * 2 ^ suc k + l) % 2) (m * 2 ^ suc k % 2) ≡ l % 2 = rw p (omega arith) in
    bit_or_split (q * 2 ^ suc k + l) (m * 2 ^ suc k) ∙ rw (e, f, ih, low, p) (omega arith)

bit_or-high : (w h m : ℕ) → m < 2 ^ w → bit_or (h * 2 ^ w) m ≡ h * 2 ^ w + m
bit_or-high zero h m lt =
    let e : m ≡ 0 = omega arith in
    let f : h * 1 ≡ h = omega arith in rw (e, f, bit_or-zero) (omega arith)
bit_or-high (suc w) h m lt =
    let p = pow-suc 2 w in
    let e : h * 2 ^ suc w / 2 ≡ h * 2 ^ w = rw p (omega arith) in
    let low : max (h * 2 ^ suc w % 2) (m % 2) ≡ m % 2 = rw p (omega arith) in
    let ih = bit_or-high w h (m / 2) (omega (arith, p)) in
    bit_or_split (h * 2 ^ suc w) m ∙ rw (e, ih, low, p) (omega arith)

-- A field of `w` digits put in at `k`, between what stands above and what stands below.
pub bit_or-field :
    (k w h m l : ℕ)
    → l < 2 ^ k
    → m < 2 ^ w
    → bit_or (h * 2 ^ w * 2 ^ k + l) (m * 2 ^ k) ≡ h * 2 ^ w * 2 ^ k + m * 2 ^ k + l
bit_or-field k w h m l lo hi =
    bit_or-low k (h * 2 ^ w) m l lo ∙ rw (bit_or-high w h m hi) (omega arith)
