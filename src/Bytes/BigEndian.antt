-- ===== src/Bytes/BigEndian.antt =====
-- Big-endian words, as encoding/binary writes and reads them.
use native.Mathlib.Nat.{pow-suc, div-add-mod, div-div-eq-div-mul, mod-lt}
use agent_native_db.Prelude.{
  ℕ, zero, suc, ◌+◌, ◌*◌, ◌/◌, ◌%◌, ◌^◌, ◌<◌, ◌≡◌, refl, [], ◌∷◌, length, ap, arith, leb, ◌∙◌,
}
use agent_native_db.Bytes.{Bytes, le_bytes}

-- The k low bytes of v, the highest first: byte i is `byte(v >> 8 i)`.
unfoldable pub be : ℕ → ℕ → Bytes
be zero v = []
be (suc k) v = (v / 256 ^ k % 256) ∷ be k v

unfoldable pub from_be : ℕ → Bytes → ℕ
from_be acc [] = acc
from_be acc (b ∷ bs) = from_be (acc * 256 + b) bs

pub length-be : (k v : ℕ) → length (be k v) ≡ k
unfolding be
length-be zero v = refl
length-be (suc k) v = ap suc (length-be k v)

pow-pos : (k : ℕ) → 0 < 256 ^ k
pow-pos zero = omega arith
pow-pos (suc k) = omega (arith, pow-suc 256 k, pow-pos k)

-- The low k + 1 bytes are the byte above the low k bytes, and those.
split : (k v : ℕ) → v % 256 ^ suc k ≡ (v / 256 ^ k % 256) * 256 ^ k + v % 256 ^ k
split k v =
    let p : ℕ = 256 ^ k in
    omega (
      arith,
      ap (λ (t : ℕ). v % t) (pow-suc 256 k),
      div-add-mod v (p * 256),
      ap (λ (t : ℕ). p * 256 * t) (div-div-eq-div-mul v p 256),
      div-add-mod v p,
      ap (λ (t : ℕ). p * t) (div-add-mod (v / p) 256),
    )

pub from_be-be : (k acc v : ℕ) → from_be acc (be k v) ≡ acc * 256 ^ k + v % 256 ^ k
unfolding from_be be
from_be-be zero acc v = omega arith
from_be-be (suc k) acc v =
    from_be-be k (acc * 256 + v / 256 ^ k % 256) v
    ∙ omega (arith, split k v, ap (λ (t : ℕ). acc * t) (pow-suc 256 k))

digits_lt : (p d e r t : ℕ) → r < p → d < e → d * p + r < e * p + t
digits_lt p d e r t h k = grind arith

-- The order of the bytes is the order of the numbers.
pub le_bytes-be : (k v w : ℕ) → le_bytes (be k v) (be k w) ≡ leb (v % 256 ^ k) (w % 256 ^ k)
unfolding le_bytes be
le_bytes-be zero v w = ground arith
le_bytes-be (suc k) v w =
    let p : ℕ = 256 ^ k in
    ground (
      arith,
      le_bytes-be k v w,
      split k v,
      split k w,
      digits_lt p (v / p % 256) (w / p % 256) (v % p) (w % p) (mod-lt v (pow-pos k)),
      digits_lt p (w / p % 256) (v / p % 256) (w % p) (v % p) (mod-lt w (pow-pos k)),
    )

-- u64tob and btou64, which read and write eight bytes.
unfoldable pub u64tob : ℕ → Bytes
u64tob v = be 8 v

unfoldable pub btou64 : Bytes → ℕ
btou64 b = from_be 0 b

pub length-u64tob : (v : ℕ) → length (u64tob v) ≡ 8
unfolding u64tob
length-u64tob v = length-be 8 v

pub btou64-u64tob : (v : ℕ) → v < 2 ^ 64 → btou64 (u64tob v) ≡ v
unfolding btou64 u64tob
btou64-u64tob v h = omega (arith, from_be-be 8 0 v)

pub le_bytes-u64tob : (v w : ℕ) → v < 2 ^ 64 → w < 2 ^ 64 → le_bytes (u64tob v) (u64tob w) ≡ leb v w
unfolding u64tob
le_bytes-u64tob v w h k = le_bytes-be 8 v w ∙ ground arith
