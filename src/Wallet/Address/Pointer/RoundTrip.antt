-- ===== src/Wallet/Address/Pointer/RoundTrip.antt =====
-- The stake pointer of wallet/address_types.go, written and read back.
use mathlib.Core.List.{reverse, reverse-cons}
use cardano_infrastructure.Base.{
  ℕ, zero, suc, ◌+◌, ◌*◌, ◌/◌, ◌%◌, ◌^◌, ◌<◌, ◌≡◌, refl, sym, ◌∙◌, ap, Bool-cases, inl, inr, true,
  false, some, [], ◌∷◌, ◌++◌, append_assoc, append-nil, Bytes, ◌==◌, length, length-append, drop,
  drop-append, arith,
}
use cardano_infrastructure.Wallet.Address.Pointer.{
  StakePointer, variable_loop, variable_encode, read_loop, read_one, get_stake_pointer, read_first,
  read_two, read_all,
}

-- A byte with its top bit set, after the groups `num / 128`.
read_high :
    (num cnt : ℕ) (tail : Bytes)
    → num < 2 ^ 64
    → read_loop (num / 128) cnt ((num % 128 + 128) ∷ tail) ≡ read_loop num (cnt + 1) tail
unfolding read_loop
read_high num cnt tail h =
    let top : ((num % 128 + 128) / 128 % 2 == 0) ≡ false = ground arith in
    let sum : (num / 128 * 128) % 2 ^ 64 + (num % 128 + 128) % 128 ≡ num = omega arith in
    rw (top, sum) refl

-- A byte without it ends the number.
read_low :
    (num cnt : ℕ) (tail : Bytes)
    → num < 2 ^ 64
    → read_loop (num / 128) cnt ((num % 128) ∷ tail) ≡ some (num, cnt + 1)
unfolding read_loop
read_low num cnt tail h =
    let top : (num % 128 / 128 % 2 == 0) ≡ true = ground arith in
    let sum : (num / 128 * 128) % 2 ^ 64 + num % 128 % 128 ≡ num = omega arith in rw (top, sum) refl

reverse_cons_append : (x : ℕ) (xs ys : Bytes) → reverse (x ∷ xs) ++ ys ≡ reverse xs ++ (x ∷ ys)
reverse_cons_append x xs ys =
    ap (λ s. s ++ ys) (reverse-cons x xs) ∙ append_assoc (reverse xs) (x ∷ []) ys

-- The groups above the last are read back, as many bytes as were written.
read_loop-variable_loop :
    (fuel num cnt : ℕ) (tail : Bytes)
    → num < 128 ^ fuel
    → num < 2 ^ 64
    → read_loop 0 cnt (reverse (variable_loop fuel num) ++ tail)
      ≡ read_loop num (cnt + length (variable_loop fuel num)) tail
unfolding variable_loop
read_loop-variable_loop zero num cnt tail f h =
    let z : num ≡ 0 = omega arith in let c : cnt + 0 ≡ cnt = omega arith in rw (z, c) refl
read_loop-variable_loop (suc fuel) num cnt tail f h = elim (Bool-cases (num == 0)) [
  | inl e ↦ let z : num ≡ 0 = ground arith in let c : cnt + 0 ≡ cnt = omega arith in simp (e, z, c)
  | inr e ↦
      let rest = variable_loop fuel (num / 128) in
      let c : cnt + length rest + 1 ≡ cnt + suc (length rest) = omega arith in
      let less : num / 128 < 128 ^ fuel = omega arith in
      let ih =
        read_loop-variable_loop fuel (num / 128) cnt ((num % 128 + 128) ∷ tail) less
          (omega arith) in
      simp e (
        ap (read_loop 0 cnt) (reverse_cons_append (num % 128 + 128) rest tail)
        ∙ ih
        ∙ read_high num (cnt + length rest) tail h
        ∙ ap (λ n. read_loop num n tail) c)
]

pub length-reverse : (xs : Bytes) → length (reverse xs) ≡ length xs
length-reverse [] = refl
length-reverse (x ∷ xs) =
    ap length (reverse-cons x xs)
    ∙ omega (arith, length-append (reverse xs) (x ∷ []), length-reverse xs)

read_one-variable_encode :
    (num : ℕ) (tail : Bytes)
    → num < 2 ^ 64
    → read_one (variable_encode num ++ tail) ≡ some (num, length (variable_encode num))
unfolding read_one variable_encode
read_one-variable_encode num tail h =
    let rest = variable_loop 10 (num / 128) in
    let n : 0 + length rest + 1 ≡ length (reverse ((num % 128) ∷ rest)) =
      omega (arith, length-reverse ((num % 128) ∷ rest)) in
    ap (read_loop 0 0) (reverse_cons_append (num % 128) rest tail)
    ∙ read_loop-variable_loop 10 (num / 128) 0 ((num % 128) ∷ tail) (omega arith) (omega arith)
    ∙ read_low num (0 + length rest) tail h
    ∙ ap (λ k. some (num, k)) n

-- What `FromCardanoAddressInfo` writes of a pointer whose numbers have 64 bits, `getStakePointer`
-- reads back.
pub get_stake_pointer-variable_encode :
    (p : StakePointer)
    → p.slot < 2 ^ 64
    → p.tx_index < 2 ^ 64
    → p.cert_index < 2 ^ 64
    → get_stake_pointer
        (variable_encode p.slot ++ (variable_encode p.tx_index ++ variable_encode p.cert_index))
      ≡ some p
unfolding get_stake_pointer read_first read_two read_all
get_stake_pointer-variable_encode p a b c =
    let xs = variable_encode p.slot in
    let ys = variable_encode p.tx_index in
    let zs = variable_encode p.cert_index in
    let first = read_one-variable_encode p.slot (ys ++ zs) a in
    let second = read_one-variable_encode p.tx_index zs b in
    let third : read_one zs ≡ some (p.cert_index, length zs) =
      ap read_one (sym (append-nil zs)) ∙ read_one-variable_encode p.cert_index [] c in
    let drop1 : drop (length xs) (xs ++ (ys ++ zs)) ≡ ys ++ zs = drop-append xs (ys ++ zs) in
    let drop2 : drop (length xs + length ys) (xs ++ (ys ++ zs)) ≡ zs =
      ap (λ n. drop n (xs ++ (ys ++ zs))) (sym (length-append xs ys))
      ∙ ap (drop (length (xs ++ ys))) (sym (append_assoc xs ys zs))
      ∙ drop-append (xs ++ ys) zs in
    let total : (length xs + length ys + length zs == length (xs ++ (ys ++ zs))) ≡ true =
      ground (arith, length-append xs (ys ++ zs), length-append ys zs) in
    let raw = xs ++ (ys ++ zs) in
    let n = length xs in
    ap (read_first raw) first
    ∙ ap (read_two raw p.slot n) (ap read_one drop1 ∙ second)
    ∙ ap (read_all raw p.slot p.tx_index (n + length ys)) (ap read_one drop2 ∙ third)
    ∙ rw total refl
