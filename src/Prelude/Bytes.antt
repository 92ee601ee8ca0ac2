-- ===== src/Prelude/Bytes.antt =====
-- Bytes as numbers below 256, and `to_be_bytes` / `from_be_bytes` for a width in bytes.
use Prim.Native.Nat.{ℕ, zero, suc, ◌+◌, ◌*◌, ◌/◌, ◌%◌, ◌^◌, ◌≤◌, ◌<◌}
use native.Mathlib.Nat.{pow-suc, zero-add, mul-le-mul_right}
use mathlib.Core.Path.{◌≡◌, refl, sym, ◌∙◌}
use mathlib.Core.List.{List, [], ◌∷◌, ◌++◌, foldl, foldl-append, append-nil, append_assoc}
use mathlib.Core.Bool.{Bool, true, false, ◌&&◌}
use mathlib.Core.Logic.{◌≢◌, inl, inr}
use Prim.Native.Char.{code}
use Prim.Native.String.{String}
use native.Mathlib.Omega.{arith}
use jeangrey.Prelude.Tests.{◌==◌, Bool-cases}
use jeangrey.Prelude.Lists.{length, take, drop, length-append}

abbrev pub IsByte : ℕ → Type 0
IsByte b = b < 256

abbrev pub IsBytes : List ℕ → Type 0
IsBytes [] = Unit {0}
IsBytes (b ∷ bs) = IsByte b × IsBytes bs

-- `n.to_be_bytes()` for an integer of `w` bytes
unfoldable pub to_be_bytes : ℕ → ℕ → List ℕ
to_be_bytes zero n = []
to_be_bytes (suc w) n = to_be_bytes w (n / 256) ++ (n % 256 ∷ [])

abbrev pub push_byte : ℕ → ℕ → ℕ
push_byte acc b = acc * 256 + b

-- `from_be_bytes` of an array of any width
unfoldable pub from_be_bytes : List ℕ → ℕ
from_be_bytes = foldl push_byte 0

pow-suc_256 : (w : ℕ) → 256 ^ suc w ≡ 256 ^ w * 256
pow-suc_256 w = pow-suc 256 w

pub length-to_be_bytes : (w n : ℕ) → length (to_be_bytes w n) ≡ w
unfolding to_be_bytes
length-to_be_bytes zero n = refl
length-to_be_bytes (suc w) n =
    omega (
      arith,
      length-append (to_be_bytes w (n / 256)) (n % 256 ∷ []),
      length-to_be_bytes w (n / 256),
    )

from_be_bytes-snoc :
    (bs : List ℕ) (b : ℕ) → from_be_bytes (bs ++ b ∷ []) ≡ from_be_bytes bs * 256 + b
unfolding from_be_bytes
from_be_bytes-snoc bs b = foldl-append push_byte 0 bs (b ∷ [])

-- Decoding inverts encoding on every number that fits the width.
pub from_be_bytes-to_be_bytes : (w n : ℕ) → n < 256 ^ w → from_be_bytes (to_be_bytes w n) ≡ n
unfolding to_be_bytes
from_be_bytes-to_be_bytes zero n h = unfold from_be_bytes in omega arith
from_be_bytes-to_be_bytes (suc w) n h = omega (
  arith,
  from_be_bytes-snoc (to_be_bytes w (n / 256)) (n % 256),
  pow-suc_256 w,
  from_be_bytes-to_be_bytes w (n / 256),
)

pub IsBytes-append : (xs ys : List ℕ) → IsBytes xs → IsBytes ys → IsBytes (xs ++ ys)
IsBytes-append [] ys p q = q
IsBytes-append (x ∷ xs) ys p q = (p.0, IsBytes-append xs ys p.1 q)

pub IsBytes-take : (n : ℕ) (xs : List ℕ) → IsBytes xs → IsBytes (take n xs)
IsBytes-take zero xs p = tt
IsBytes-take (suc n) [] p = tt
IsBytes-take (suc n) (x ∷ xs) p = (p.0, IsBytes-take n xs p.1)

pub IsBytes-drop : (n : ℕ) (xs : List ℕ) → IsBytes xs → IsBytes (drop n xs)
IsBytes-drop zero xs p = p
IsBytes-drop (suc n) [] p = tt
IsBytes-drop (suc n) (x ∷ xs) p = IsBytes-drop n xs p.1

pub IsBytes-to_be_bytes : (w n : ℕ) → IsBytes (to_be_bytes w n)
unfolding to_be_bytes
IsBytes-to_be_bytes zero n = tt
IsBytes-to_be_bytes (suc w) n =
    IsBytes-append (to_be_bytes w (n / 256)) (n % 256 ∷ []) (IsBytes-to_be_bytes w (n / 256))
      (omega arith, tt)

to_be_bytes-foldl :
    (bs : List ℕ) (w acc : ℕ)
    → IsBytes bs
    → to_be_bytes (length bs + w) (foldl push_byte acc bs) ≡ to_be_bytes w acc ++ bs
to_be_bytes-foldl [] w acc p = rw (zero-add w) (sym (append-nil (to_be_bytes w acc)))
to_be_bytes-foldl (b ∷ bs) w acc p =
    let e : suc (length bs) + w ≡ length bs + suc w = omega arith in
    let q : (acc * 256 + b) / 256 ≡ acc = omega (arith, p.0) in
    let r : (acc * 256 + b) % 256 ≡ b = omega (arith, p.0) in
    rw (e, to_be_bytes-foldl bs (suc w) (acc * 256 + b) p.1)
      (unfold to_be_bytes in rw (q, r) (append_assoc (to_be_bytes w acc) (b ∷ []) bs))

-- Encoding inverts decoding on bytes.
pub to_be_bytes-from_be_bytes :
    (w : ℕ) (bs : List ℕ) → length bs ≡ w → IsBytes bs → to_be_bytes w (from_be_bytes bs) ≡ bs
unfolding from_be_bytes
to_be_bytes-from_be_bytes w bs e p =
    let f : w ≡ length bs + 0 = omega arith in
    rw f (to_be_bytes-foldl bs 0 0 p ∙ unfold to_be_bytes in refl)

-- One more byte below an accumulator stays below the next multiple.
push_byte_bound : (acc b k : ℕ) → b < 256 → (acc * 256 + b + 1) * k ≤ (acc + 1) * (k * 256)
push_byte_bound acc b k h =
    let le : acc * 256 + b + 1 ≤ (acc + 1) * 256 = omega arith in
    let wide : (acc * 256 + b + 1) * k ≤ (acc + 1) * 256 * k = mul-le-mul_right k le in omega arith

foldl-lt :
    (bs : List ℕ) (acc : ℕ) → IsBytes bs → foldl push_byte acc bs < (acc + 1) * 256 ^ length bs
foldl-lt [] acc p = omega arith
foldl-lt (b ∷ bs) acc p =
    let ih : foldl push_byte (acc * 256 + b) bs < (acc * 256 + b + 1) * 256 ^ length bs =
      foldl-lt bs (acc * 256 + b) p.1 in
    rw (pow-suc 256 (length bs)) (omega (arith, push_byte_bound acc b (256 ^ length bs) p.0))

pub from_be_bytes-lt : (bs : List ℕ) → IsBytes bs → from_be_bytes bs < 256 ^ length bs
unfolding from_be_bytes
from_be_bytes-lt bs p = omega (arith, foldl-lt bs 0 p)

-- `a == b` on byte arrays and slices
unfoldable pub bytes_eq : List ℕ → List ℕ → Bool
bytes_eq [] [] = true
bytes_eq [] (y ∷ ys) = false
bytes_eq (x ∷ xs) [] = false
bytes_eq (x ∷ xs) (y ∷ ys) = x == y && bytes_eq xs ys

pub bytes_eq→eq : (xs ys : List ℕ) → bytes_eq xs ys ≡ true → xs ≡ ys
unfolding bytes_eq
bytes_eq→eq [] [] h = refl
bytes_eq→eq [] (y ∷ ys) h = cc
bytes_eq→eq (x ∷ xs) [] h = cc
bytes_eq→eq (x ∷ xs) (y ∷ ys) h = ground (arith, bytes_eq→eq xs ys)

pub bytes_eq_refl : (xs : List ℕ) → bytes_eq xs xs ≡ true
unfolding bytes_eq
bytes_eq_refl [] = refl
bytes_eq_refl (x ∷ xs) = ground (arith, bytes_eq_refl xs)

pub ne→bytes_eq : (xs ys : List ℕ) → xs ≢ ys → bytes_eq xs ys ≡ false
ne→bytes_eq xs ys h = elim (Bool-cases (bytes_eq xs ys)) [
  | inl e ↦ absurd (h (bytes_eq→eq xs ys e))
  | inr e ↦ e
]

pub bytes_eq→ne : (xs ys : List ℕ) → bytes_eq xs ys ≡ false → xs ≢ ys
bytes_eq→ne xs ys h e = cc (h, bytes_eq_refl xs, e)

-- The bytes of an ASCII literal.
abbrev pub codes : String → List ℕ
codes String.[] = []
codes (String.◌∷◌ c s) = code c ∷ codes s
