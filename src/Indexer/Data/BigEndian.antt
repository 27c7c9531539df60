-- ===== src/Indexer/Data/BigEndian.antt =====
-- The big-endian numbers of the keys of indexer/data.go: their length, their round trip and their
-- order.
use cardano_infrastructure.Base.{
  ℕ, zero, suc, ◌+◌, ◌*◌, ◌/◌, ◌%◌, ◌^◌, ◌<◌, ◌≡◌, refl, sym, ap, ◌∙◌, [], ◌∷◌, ◌++◌, Bytes, arith,
  length, length-append, ltb, ◌==◌, Bool-cases, inl, inr, ==_iff, bytes_eq, bytes_eq_refl,
  bytes_eq_sound, bytes_lt, bytes_lt_irrefl, bytes_lt-snoc,
}
use native.Mathlib.Nat.{pow-suc}
use cardano_infrastructure.Indexer.Data.{put_uint, uint, uint_loop}

pub length-put_uint : (n v : ℕ) → length (put_uint n v) ≡ n
unfolding put_uint
length-put_uint zero v = refl
length-put_uint (suc n) v =
    omega
      (arith, length-append (put_uint n (v / 256)) ((v % 256) ∷ []), length-put_uint n (v / 256))

uint_loop-append :
    (acc : ℕ) (xs : Bytes) (b : ℕ) → uint_loop acc (xs ++ (b ∷ [])) ≡ uint_loop acc xs * 256 + b
unfolding uint_loop
uint_loop-append acc [] b = refl
uint_loop-append acc (x ∷ xs) b = uint_loop-append (acc * 256 + x) xs b

-- Reading back a number that fits `n` bytes.
pub uint-put_uint : (n v : ℕ) → v < 256 ^ n → uint (put_uint n v) ≡ v
unfolding put_uint uint
uint-put_uint zero v h = omega (arith)
uint-put_uint (suc n) v h =
    uint_loop-append 0 (put_uint n (v / 256)) (v % 256)
    ∙ omega (arith, uint-put_uint n (v / 256) (omega (arith, pow-suc 256 n)))

pub put_uint-injective :
    (n a b : ℕ) → a < 256 ^ n → b < 256 ^ n → put_uint n a ≡ put_uint n b → a ≡ b
put_uint-injective n a b ha hb e = sym (uint-put_uint n a ha) ∙ ap uint e ∙ uint-put_uint n b hb

pub bytes_eq-put_uint :
    (n a b : ℕ) → a < 256 ^ n → b < 256 ^ n → bytes_eq (put_uint n a) (put_uint n b) ≡ (a == b)
bytes_eq-put_uint n a b ha hb = elim (Bool-cases (a == b)) [
  | inl e ↦ rw (e, (==_iff a b).0 e) (bytes_eq_refl _)
  | inr e ↦ elim (Bool-cases (bytes_eq (put_uint n a) (put_uint n b))) [
    | inl p ↦ absurd (ground (arith, put_uint-injective n a b ha hb (bytes_eq_sound _ _ p)))
    | inr p ↦ p ∙ sym e
  ]
]

-- The order of the bytes is the order of the numbers.
pub put_uint_order :
    (n a b : ℕ) → a < 256 ^ n → b < 256 ^ n → bytes_lt (put_uint n a) (put_uint n b) ≡ ltb a b
unfolding put_uint
put_uint_order zero a b ha hb = ground (arith, bytes_lt_irrefl [])
put_uint_order (suc n) a b ha hb =
    let ha' : a / 256 < 256 ^ n = omega (arith, pow-suc 256 n) in
    let hb' : b / 256 < 256 ^ n = omega (arith, pow-suc 256 n) in
    bytes_lt-snoc (put_uint n (a / 256)) (put_uint n (b / 256)) (a % 256) (b % 256)
      (length-put_uint n (a / 256) ∙ sym (length-put_uint n (b / 256)))
    ∙ rw
        (
          put_uint_order n (a / 256) (b / 256) ha' hb',
          bytes_eq-put_uint n (a / 256) (b / 256) ha' hb',
        )
        (ground arith)
