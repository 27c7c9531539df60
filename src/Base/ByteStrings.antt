-- ===== src/Base/ByteStrings.antt =====
-- Go's strings and byte slices: lists of numbers below 256.
use Prim.Native.Nat.{ℕ}
use Prim.Native.Char.{code}
use Prim.Native.String.{String}
use mathlib.Core.Path.{◌≡◌, refl}
use mathlib.Core.Logic.{◌↔◌}
use mathlib.Core.Bool.{Bool, true, false, ◌&&◌, ◌||◌}
use mathlib.Core.List.{List, [], ◌∷◌, ◌++◌}
use native.Mathlib.Omega.{arith}
use cardano_infrastructure.Base.Tests.{◌==◌, ltb}
use cardano_infrastructure.Base.Lists.{length}

abbrev pub Bytes : Type 0
Bytes = List ℕ

-- The bytes of an ASCII text.
abbrev pub ascii : String → Bytes
ascii String.[] = []
ascii (String.◌∷◌ c s) = code c ∷ ascii s

-- `==` on strings and on arrays of bytes.
unfoldable pub bytes_eq : Bytes → Bytes → Bool
bytes_eq [] [] = true
bytes_eq (x ∷ xs) (y ∷ ys) = x == y && bytes_eq xs ys
bytes_eq _ _ = false

pub bytes_eq_sound : (xs ys : Bytes) → bytes_eq xs ys ≡ true → xs ≡ ys
unfolding bytes_eq
bytes_eq_sound [] [] h = refl
bytes_eq_sound (x ∷ xs) (y ∷ ys) h = ground (arith, bytes_eq_sound xs ys)
bytes_eq_sound [] (y ∷ ys) h = cc
bytes_eq_sound (x ∷ xs) [] h = cc

pub bytes_eq_refl : (xs : Bytes) → bytes_eq xs xs ≡ true
unfolding bytes_eq
bytes_eq_refl [] = refl
bytes_eq_refl (x ∷ xs) = ground (arith, bytes_eq_refl xs)

pub bytes_eq_iff : (xs ys : Bytes) → (bytes_eq xs ys ≡ true) ↔ (xs ≡ ys)
bytes_eq_iff xs ys = (bytes_eq_sound xs ys, λ e. rw e (bytes_eq_refl ys))

-- The order of `bytes.Compare`.
unfoldable pub bytes_lt : Bytes → Bytes → Bool
bytes_lt [] [] = false
bytes_lt [] (y ∷ ys) = true
bytes_lt (x ∷ xs) [] = false
bytes_lt (x ∷ xs) (y ∷ ys) = ltb x y || (x == y && bytes_lt xs ys)

pub bytes_lt_irrefl : (xs : Bytes) → bytes_lt xs xs ≡ false
unfolding bytes_lt
bytes_lt_irrefl [] = refl
bytes_lt_irrefl (x ∷ xs) = ground (arith, bytes_lt_irrefl xs)

pub bytes_lt_trans :
    (xs ys zs : Bytes) → bytes_lt xs ys ≡ true → bytes_lt ys zs ≡ true → bytes_lt xs zs ≡ true
unfolding bytes_lt
bytes_lt_trans [] [] zs p q = cc
bytes_lt_trans [] (y ∷ ys) [] p q = cc
bytes_lt_trans [] (y ∷ ys) (z ∷ zs) p q = refl
bytes_lt_trans (x ∷ xs) [] zs p q = cc
bytes_lt_trans (x ∷ xs) (y ∷ ys) [] p q = cc
bytes_lt_trans (x ∷ xs) (y ∷ ys) (z ∷ zs) p q = ground (arith, bytes_lt_trans xs ys zs)

-- Two different byte strings are ordered one way or the other.
pub bytes_lt-total : (xs ys : Bytes) → bytes_lt xs ys ≡ false → bytes_lt ys xs ≡ false → xs ≡ ys
unfolding bytes_lt
bytes_lt-total [] [] p q = refl
bytes_lt-total [] (y ∷ ys) p q = cc
bytes_lt-total (x ∷ xs) [] p q = cc
bytes_lt-total (x ∷ xs) (y ∷ ys) p q = ground (arith, bytes_lt-total xs ys)

-- On strings of one length the last bytes decide between equal fronts.
pub bytes_lt-snoc :
    (xs ys : Bytes) (x y : ℕ)
    → length xs ≡ length ys
    → bytes_lt (xs ++ (x ∷ [])) (ys ++ (y ∷ [])) ≡ (bytes_lt xs ys || (bytes_eq xs ys && ltb x y))
unfolding bytes_lt bytes_eq
bytes_lt-snoc [] [] x y h = ground arith
bytes_lt-snoc [] (b ∷ ys) x y h = absurd (omega arith)
bytes_lt-snoc (a ∷ xs) [] x y h = absurd (omega arith)
bytes_lt-snoc (a ∷ xs) (b ∷ ys) x y h = ground (arith, bytes_lt-snoc xs ys x y)

-- Behind fronts of one length the rest decides between equal fronts.
pub bytes_lt-append :
    (xs ys us vs : Bytes)
    → length xs ≡ length ys
    → bytes_lt (xs ++ us) (ys ++ vs) ≡ (bytes_lt xs ys || (bytes_eq xs ys && bytes_lt us vs))
unfolding bytes_lt bytes_eq
bytes_lt-append [] [] us vs h = ground arith
bytes_lt-append [] (b ∷ ys) us vs h = absurd (omega arith)
bytes_lt-append (a ∷ xs) [] us vs h = absurd (omega arith)
bytes_lt-append (a ∷ xs) (b ∷ ys) us vs h = ground (arith, bytes_lt-append xs ys us vs)
