-- ===== src/Wallet/Texts/Numbers.antt =====
-- Decimal numbers, written and read back.
use cardano_infrastructure.Base.{
  ℕ, zero, suc, ◌+◌, ◌-◌, ◌*◌, ◌/◌, ◌%◌, ◌^◌, ◌<◌, ◌≡◌, refl, ◌∙◌, ap, inl, inr, true, false, ◌&&◌,
  Bool-cases, Option, none, some, eq_of_some, [], ◌∷◌, ◌++◌, Bytes, ltb, leb, arith,
}
use cardano_infrastructure.Wallet.Texts.{
  digits, format_uint, with_digit, digit_value, parse_digits, parse_uint,
}

-- Reading a digit behind a number.
digit_read :
    (n d : ℕ)
    → d < 10
    → n * 10 + d < 2 ^ 64
    → with_digit 10 n (digit_value (d + 48)) ≡ some (n * 10 + d)
unfolding with_digit digit_value
digit_read n d h k =
    let e : (leb 48 (d + 48) && leb (d + 48) 57) ≡ true = ground arith in
    let v : d + 48 - 48 ≡ d = omega arith in
    let f : (ltb d 10 && ltb (n * 10 + d) (2 ^ 64)) ≡ true = ground arith in simp (e, v, f)

parse-snoc :
    (s : Bytes) (o : Option ℕ) (m d : ℕ)
    → parse_digits false 10 s o ≡ some m
    → d < 10
    → m * 10 + d < 2 ^ 64
    → parse_digits false 10 (s ++ ((d + 48) ∷ [])) o ≡ some (m * 10 + d)
unfolding parse_digits
parse-snoc s none m d h l k = absurd (cc h)
parse-snoc [] (some n) m d h l k =
    let e : n ≡ m = eq_of_some h in
    ap (λ x. parse_digits false 10 [] (with_digit 10 x (digit_value (d + 48)))) e
    ∙ ap (parse_digits false 10 []) (digit_read m d l k)
parse-snoc (c ∷ s) (some n) m d h l k = parse-snoc s (with_digit 10 n (digit_value c)) m d h l k

parse_one : (d : ℕ) → d < 10 → parse_digits false 10 ((d + 48) ∷ []) (some 0) ≡ some d
unfolding parse_digits
parse_one d h =
    ap (parse_digits false 10 []) (digit_read 0 d h (omega arith)) ∙ ap some (omega arith)

parse_digits-digits :
    (fuel n : ℕ)
    → n < 10 ^ suc fuel
    → n < 2 ^ 64
    → parse_digits false 10 (digits (suc fuel) n) (some 0) ≡ some n
unfolding digits
parse_digits-digits zero n h k = elim (Bool-cases (ltb n 10)) [
  | inl e ↦ simp e (parse_one n (ground arith))
  | inr e ↦ let ten : 10 ^ suc zero ≡ 10 = refl in absurd (ground (arith, ten))
]
parse_digits-digits (suc fuel) n h k = elim (Bool-cases (ltb n 10)) [
  | inl e ↦ simp e (parse_one n (ground arith))
  | inr e ↦
      let power : 10 ^ suc (suc fuel) ≡ 10 ^ suc fuel * 10 = omega arith in
      let split : n / 10 * 10 + n % 10 ≡ n = omega arith in
      simp e (
        parse-snoc (digits (suc fuel) (n / 10)) (some 0) (n / 10) (n % 10)
          (parse_digits-digits fuel (n / 10) (omega (arith, power)) (omega arith)) (omega arith)
          (omega arith)
        ∙ ap some split)
]

-- A number is never printed as the empty text.
parse_uint-snoc :
    (s : Bytes) (c : ℕ)
    → parse_uint (s ++ (c ∷ [])) ≡ parse_digits false 10 (s ++ (c ∷ [])) (some 0)
unfolding parse_uint
parse_uint-snoc [] c = refl
parse_uint-snoc (b ∷ s) c = refl

parse_uint-digits :
    (fuel n : ℕ)
    → parse_uint (digits (suc fuel) n) ≡ parse_digits false 10 (digits (suc fuel) n) (some 0)
unfolding digits
parse_uint-digits fuel n = elim (Bool-cases (ltb n 10)) [
  | inl e ↦ simp e (parse_uint-snoc [] (n + 48))
  | inr e ↦ simp e (parse_uint-snoc (digits fuel (n / 10)) (n % 10 + 48))
]

-- `strconv.ParseUint` reads back every `uint64` that `strconv.FormatUint` or `%d` wrote.
pub parse_uint-format_uint : (n : ℕ) → n < 2 ^ 64 → parse_uint (format_uint n) ≡ some n
unfolding format_uint
parse_uint-format_uint n h = parse_uint-digits 19 n ∙ parse_digits-digits 19 n (omega arith) h
