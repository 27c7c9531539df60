-- ===== src/Wallet/Tokens/FullName.antt =====
-- The full names of tokens in wallet/data.go, written and read back.
use cardano_infrastructure.Base.{
  ℕ, ◌+◌, ◌-◌, ◌*◌, ◌/◌, ◌%◌, ◌<◌, ◌≡◌, refl, ◌∙◌, ap, true, false, ◌&&◌, Bool-cases, inl, inr,
  some, [], ◌∷◌, ◌++◌, Bytes, leb, ltb, ◌==◌, arith, All,
}
use mathlib.Core.Option
use cardano_infrastructure.Wallet.Data.{hex_digit, encode_to_string}
use cardano_infrastructure.Wallet.Tokens.{
  Token, dot, token_string, hex_value, decoded_byte, decode_string, in_first, split, token_of_parts,
  new_token_with_full_name,
}

hex_value-hex_digit : (n : ℕ) → n < 16 → hex_value (hex_digit n) ≡ some n
unfolding hex_value hex_digit
hex_value-hex_digit n h = elim (Bool-cases (ltb n 10)) [
  | inl e ↦
      let a : (leb 48 (n + 48) && leb (n + 48) 57) ≡ true = ground arith in
      let b : n + 48 - 48 ≡ n = omega arith in simp (e, a, b)
  | inr e ↦
      let a : (leb 48 (n + 87) && leb (n + 87) 57) ≡ false = ground arith in
      let c : (leb 97 (n + 87) && leb (n + 87) 102) ≡ true = ground arith in
      let b : n + 87 - 87 ≡ n = omega arith in simp (e, a, c, b)
]

decode_string-encode_to_string :
    (bs : Bytes) → All (λ b. b < 256) bs → decode_string (encode_to_string bs) ≡ some bs
unfolding decode_string encode_to_string decoded_byte
decode_string-encode_to_string [] h = refl
decode_string-encode_to_string (b ∷ bs) (h, hs) =
    let top : hex_value (hex_digit (b / 16)) ≡ some (b / 16) =
      hex_value-hex_digit (b / 16) (omega arith) in
    let low : hex_value (hex_digit (b % 16)) ≡ some (b % 16) =
      hex_value-hex_digit (b % 16) (omega arith) in
    let e : b / 16 * 16 + b % 16 ≡ b = omega arith in
    let rest = decode_string-encode_to_string bs hs in simp (top, low, rest, e)

hex_digit_no_dot : (n : ℕ) → (hex_digit n == dot) ≡ false
unfolding hex_digit
hex_digit_no_dot n = elim (Bool-cases (ltb n 10)) [
  | inl e ↦ simp e (ground arith)
  | inr e ↦ simp e (ground arith)
]

split-encode_to_string : (bs : Bytes) → split (encode_to_string bs) ≡ encode_to_string bs ∷ []
unfolding split encode_to_string in_first
split-encode_to_string [] = refl
split-encode_to_string (b ∷ bs) =
    simp (hex_digit_no_dot (b / 16), hex_digit_no_dot (b % 16), split-encode_to_string bs)

split-append :
    (p s : Bytes) → All (λ b. (b == dot) ≡ false) p → split (p ++ (dot ∷ s)) ≡ p ∷ split s
unfolding split in_first
split-append [] s h = refl
split-append (b ∷ p) s (h, hs) = simp (h, split-append p s hs)

-- A token whose policy has no dot is read back from its full name, whatever bytes its own name has.
pub new_token_with_full_name-token_string :
    (t : Token)
    → All (λ b. (b == dot) ≡ false) t.policy_id
    → All (λ b. b < 256) t.name
    → new_token_with_full_name (token_string t) true ≡ some t
unfolding new_token_with_full_name token_string token_of_parts
new_token_with_full_name-token_string t h k =
    ap (token_of_parts true) (
      split-append t.policy_id (encode_to_string t.name) h
      ∙ ap (λ x. t.policy_id ∷ x) (split-encode_to_string t.name))
    ∙ ap (Option.map (λ name. record { policy_id = t.policy_id; name = name }))
        (decode_string-encode_to_string t.name k)
