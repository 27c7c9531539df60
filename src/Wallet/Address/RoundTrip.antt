-- ===== src/Wallet/Address/RoundTrip.antt =====
-- Addresses of wallet/address.go that are built from their parts, and read again.
use cardano_infrastructure.Base.{
  ℕ, ◌+◌, ◌*◌, ◌/◌, ◌%◌, ◌<◌, ◌≤◌, ◌^◌, ◌≡◌, refl, sym, ◌∙◌, ap, Bool, true, false, some, [], ◌∷◌,
  ◌++◌, append-nil, append_assoc, Bytes, ok, ltb, ◌==◌, length, length-append, take, drop,
  take-append, drop-append, arith,
}
use cardano_infrastructure.Wallet.Address.Pointer.{
  StakePointer, variable_loop, variable_encode, get_stake_pointer,
}
use cardano_infrastructure.Wallet.Address.Pointer.RoundTrip.{
  get_stake_pointer-variable_encode, length-reverse,
}
use cardano_infrastructure.Wallet.Address.{
  CardanoAddressType, base_address, pointer_address, enterprise_address, reward_address,
  unsupported_address, CardanoAddressPayload, CardanoAddressInfo, info_of_type,
  CardanoAddressParser, base_parser, pointer_parser, enterprise_parser, reward_parser,
  get_address_parser, get_address_type_from_header, to_byte, payload_of, from_cardano_address_info,
  Byron, is_valid, to_cardano_address_info, CardanoAddress, new_cardano_address, get_info,
  address_of, parsed_address, cached_info, to_cardano_address, base_bytes, base_is_valid, base_info,
  pointer_bytes, pointer_is_valid, pointer_info, enterprise_bytes, enterprise_is_valid,
  enterprise_info, reward_bytes, reward_is_valid, reward_info,
}

-- What the Go type `[KeyHashSize]byte` grants.
abbrev pub IsPayload : CardanoAddressPayload → Type 0
IsPayload p = length p.payload ≡ 28

-- The parts that an address of each format has, with the networks that fit a header.
pub data IsInfo : CardanoAddressInfo → Type 0 where
  base :
      (network : ℕ) (p s : CardanoAddressPayload) (extra : Bytes)
      → network < 16
      → IsPayload p
      → IsPayload s
      → IsInfo (record (info_of_type base_address) {
        network = network;
        payment = some p;
        stake = some s;
        extra = extra;
      })
  pointer :
      (network : ℕ) (p : CardanoAddressPayload) (sp : StakePointer)
      → network < 16
      → IsPayload p
      → sp.slot < 2 ^ 64
      → sp.tx_index < 2 ^ 64
      → sp.cert_index < 2 ^ 64
      → IsInfo (record (info_of_type pointer_address) {
        network = network;
        payment = some p;
        stake_pointer = some sp;
      })
  enterprise :
      (network : ℕ) (p : CardanoAddressPayload)
      → network < 16
      → IsPayload p
      → IsInfo (record (info_of_type enterprise_address) { network = network; payment = some p })
  reward :
      (network : ℕ) (s : CardanoAddressPayload)
      → network < 16
      → IsPayload s
      → IsInfo (record (info_of_type reward_address) { network = network; stake = some s })

take_28 : (xs ys : Bytes) → length xs ≡ 28 → take 28 (xs ++ ys) ≡ xs
take_28 xs ys h = ap (λ n. take n (xs ++ ys)) (sym h) ∙ take-append xs ys

drop_28 : (xs ys : Bytes) → length xs ≡ 28 → drop 28 (xs ++ ys) ≡ ys
drop_28 xs ys h = ap (λ n. drop n (xs ++ ys)) (sym h) ∙ drop-append xs ys

drop_56 : (xs ys zs : Bytes) → length xs ≡ 28 → length ys ≡ 28 → drop 56 (xs ++ (ys ++ zs)) ≡ zs
drop_56 xs ys zs h k =
    let n : length (xs ++ ys) ≡ 56 = omega (arith, length-append xs ys) in
    ap (drop 56) (sym (append_assoc xs ys zs))
    ∙ ap (λ n. drop n ((xs ++ ys) ++ zs)) (sym n)
    ∙ drop-append (xs ++ ys) zs

-- The header of an address: its type, its network and its flags.
base_header :
    (u v : Bool) (n : ℕ)
    → n < 16
    → let h = to_byte u * 16 + to_byte v * 32 + n % 16 in
      (get_address_type_from_header h ≡ base_address)
      × (h % 16 ≡ n)
      × ((h / 16 / 1 % 2 == 1) ≡ u)
      × ((h / 16 / 2 % 2 == 1) ≡ v)
unfolding to_byte get_address_type_from_header
base_header true true n h = (ground arith, omega arith, ground arith, ground arith)
base_header true false n h = (ground arith, omega arith, ground arith, ground arith)
base_header false true n h = (ground arith, omega arith, ground arith, ground arith)
base_header false false n h = (ground arith, omega arith, ground arith, ground arith)

pointer_header :
    (u : Bool) (n : ℕ)
    → n < 16
    → let h = 64 + to_byte u * 16 + n % 16 in
      (get_address_type_from_header h ≡ pointer_address)
      × (h % 16 ≡ n)
      × ((h / 16 / 1 % 2 == 1) ≡ u)
unfolding to_byte get_address_type_from_header
pointer_header true n h = (ground arith, omega arith, ground arith)
pointer_header false n h = (ground arith, omega arith, ground arith)

enterprise_header :
    (u : Bool) (n : ℕ)
    → n < 16
    → let h = 96 + to_byte u * 16 + n % 16 in
      (get_address_type_from_header h ≡ enterprise_address)
      × (h % 16 ≡ n)
      × ((h / 16 / 1 % 2 == 1) ≡ u)
unfolding to_byte get_address_type_from_header
enterprise_header true n h = (ground arith, omega arith, ground arith)
enterprise_header false n h = (ground arith, omega arith, ground arith)

reward_header :
    (u : Bool) (n : ℕ)
    → n < 16
    → let h = 224 + to_byte u * 16 + n % 16 in
      (get_address_type_from_header h ≡ reward_address) × (h % 16 ≡ n) × ((h / 16 / 1 % 2 == 1) ≡ u)
unfolding to_byte get_address_type_from_header
reward_header true n h = (ground arith, omega arith, ground arith)
reward_header false n h = (ground arith, omega arith, ground arith)

payload_of_lem :
    (h bit : ℕ) (xs : Bytes) (p : CardanoAddressPayload)
    → take 28 xs ≡ p.payload
    → (h / 16 / bit % 2 == 1) ≡ p.is_script
    → payload_of h bit xs ≡ p
payload_of_lem h bit xs p e f =
    ap (λ x. record { payload = x; is_script = h / 16 / bit % 2 == 1 }) e
    ∙ ap (λ x. record { payload = p.payload; is_script = x }) f

ltb-false : (m n : ℕ) → n ≤ m → ltb m n ≡ false
ltb-false m n h = ground arith

variable_encode_pos : (num : ℕ) → 1 ≤ length (variable_encode num)
unfolding variable_encode
variable_encode_pos num =
    let rest = variable_loop 10 (num / 128) in omega (arith, length-reverse ((num % 128) ∷ rest))

length-variable_encode_three :
    (sp : StakePointer)
    → 3
      ≤ length (
          variable_encode sp.slot ++ (variable_encode sp.tx_index ++ variable_encode sp.cert_index))
length-variable_encode_three sp = omega (
  arith,
  length-append (variable_encode sp.slot)
      (variable_encode sp.tx_index ++ variable_encode sp.cert_index),
  length-append (variable_encode sp.tx_index) (variable_encode sp.cert_index),
  variable_encode_pos sp.slot,
  variable_encode_pos sp.tx_index,
  variable_encode_pos sp.cert_index,
)

module _ (byron : Byron) where
  -- The address with the bytes, none of whose parts has been read yet.
  abbrev pub unread : CardanoAddressParser → Bytes → CardanoAddress byron
  unread parser raw = record {
    raw = raw;
    address_parser = parser;
    cached_address_info = info_of_type unsupported_address;
  }

  -- `a` is made into an address, and it is what is read of that address.
  abbrev pub ReadsBack : CardanoAddressInfo → Type 0
  ReadsBack a =
      (addr : CardanoAddress byron) × (to_cardano_address byron a ≡ some (ok addr))
      × (get_info byron addr ≡ some (a, record addr { cached_address_info = a }))

  new_unread :
      (t : CardanoAddressType) (parser : CardanoAddressParser) (header : ℕ) (bs : Bytes)
      → get_address_parser t ≡ ok parser
      → get_address_type_from_header header ≡ t
      → is_valid byron parser (header ∷ bs) ≡ ok tt
      → new_cardano_address byron (header ∷ bs) ≡ ok (unread parser (header ∷ bs))
  unfolding new_cardano_address
  new_unread t parser header bs e f g = simp (f, e, g)

  info_unread :
      (parser : CardanoAddressParser) (raw : Bytes) (a : CardanoAddressInfo)
      → to_cardano_address_info byron parser raw ≡ some a
      → get_info byron (unread parser raw)
        ≡ some (a, record (unread parser raw) { cached_address_info = a })
  unfolding get_info cached_info to_cardano_address_info
  info_unread parser raw a e = simp e

  read_back :
      (a : CardanoAddressInfo) (parser : CardanoAddressParser) (header : ℕ) (bs : Bytes)
      → get_address_parser a.address_type ≡ ok parser
      → from_cardano_address_info parser a ≡ some (header ∷ bs)
      → get_address_type_from_header header ≡ a.address_type
      → is_valid byron parser (header ∷ bs) ≡ ok tt
      → to_cardano_address_info byron parser (header ∷ bs) ≡ some a
      → ReadsBack a
  unfolding to_cardano_address parsed_address address_of
  read_back a parser header bs e f t v i = (
    unread parser (header ∷ bs),
    ap (parsed_address byron a) e
        ∙ ap (address_of byron) f
        ∙ ap some (new_unread a.address_type parser header bs e t v),
    info_unread parser (header ∷ bs) a i,
  )

  base_reads :
      (n : ℕ) (p s : CardanoAddressPayload) (extra : Bytes)
      → n < 16
      → IsPayload p
      → IsPayload s
      → ReadsBack (record (info_of_type base_address) {
        network = n;
        payment = some p;
        stake = some s;
        extra = extra;
      })
  unfolding from_cardano_address_info get_address_parser is_valid to_cardano_address_info base_bytes
      base_is_valid base_info
  base_reads n p s extra hn hp hs =
      let h = to_byte p.is_script * 16 + to_byte s.is_script * 32 + n % 16 in
      let bs = p.payload ++ (s.payload ++ extra) in
      let (t, net, one, two) = base_header p.is_script s.is_script n hn in
      let long : length bs ≡ 28 + (28 + length extra) =
        omega
          (arith, length-append p.payload (s.payload ++ extra), length-append s.payload extra) in
      let valid : ltb (length (h ∷ bs)) 57 ≡ false = ground arith in
      let inside : ltb (length bs) 56 ≡ false = ground arith in
      let pay : payload_of h 1 bs ≡ p = payload_of_lem h 1 bs p (take_28 p.payload _ hp) one in
      let stk : payload_of h 2 (drop 28 bs) ≡ s =
        payload_of_lem h 2 (drop 28 bs) s
          (ap (take 28) (drop_28 p.payload _ hp) ∙ take_28 s.payload _ hs) two in
      let ext : drop 56 bs ≡ extra = drop_56 p.payload s.payload extra hp hs in
      read_back _ base_parser h bs refl refl t (simp valid) (simp (inside, net, pay, stk, ext))

  enterprise_reads :
      (n : ℕ) (p : CardanoAddressPayload)
      → n < 16
      → IsPayload p
      → ReadsBack (record (info_of_type enterprise_address) { network = n; payment = some p })
  unfolding from_cardano_address_info get_address_parser is_valid to_cardano_address_info
      enterprise_bytes enterprise_is_valid enterprise_info
  enterprise_reads n p hn hp =
      let h = 96 + to_byte p.is_script * 16 + n % 16 in
      let bs = p.payload ++ [] in
      let (t, net, one) = enterprise_header p.is_script n hn in
      let long : length bs ≡ 28 = omega (arith, length-append p.payload []) in
      let valid : (length (h ∷ bs) == 29) ≡ true = ground arith in
      let inside : ltb (length bs) 28 ≡ false = ground arith in
      let pay : payload_of h 1 bs ≡ p = payload_of_lem h 1 bs p (take_28 p.payload _ hp) one in
      let ext : drop 28 bs ≡ [] = drop_28 p.payload [] hp in
      read_back _ enterprise_parser h bs refl refl t (simp valid) (simp (inside, net, pay, ext))

  reward_reads :
      (n : ℕ) (p : CardanoAddressPayload)
      → n < 16
      → IsPayload p
      → ReadsBack (record (info_of_type reward_address) { network = n; stake = some p })
  unfolding from_cardano_address_info get_address_parser is_valid to_cardano_address_info
      reward_bytes reward_is_valid reward_info
  reward_reads n p hn hp =
      let h = 224 + to_byte p.is_script * 16 + n % 16 in
      let bs = p.payload ++ [] in
      let (t, net, one) = reward_header p.is_script n hn in
      let long : length bs ≡ 28 = omega (arith, length-append p.payload []) in
      let valid : (length (h ∷ bs) == 29) ≡ true = ground arith in
      let inside : ltb (length bs) 28 ≡ false = ground arith in
      let pay : payload_of h 1 bs ≡ p = payload_of_lem h 1 bs p (take_28 p.payload _ hp) one in
      let ext : drop 28 bs ≡ [] = drop_28 p.payload [] hp in
      read_back _ reward_parser h bs refl refl t (simp valid) (simp (inside, net, pay, ext))

  pointer_reads :
      (n : ℕ) (p : CardanoAddressPayload) (sp : StakePointer)
      → n < 16
      → IsPayload p
      → sp.slot < 2 ^ 64
      → sp.tx_index < 2 ^ 64
      → sp.cert_index < 2 ^ 64
      → ReadsBack (record (info_of_type pointer_address) {
        network = n;
        payment = some p;
        stake_pointer = some sp;
      })
  unfolding from_cardano_address_info get_address_parser is_valid to_cardano_address_info
      pointer_bytes pointer_is_valid pointer_info
  pointer_reads n p sp hn hp a b c =
      let h = 64 + to_byte p.is_script * 16 + n % 16 in
      let written =
        variable_encode sp.slot ++ (variable_encode sp.tx_index ++ variable_encode sp.cert_index) in
      let bs = p.payload ++ (written ++ []) in
      let (t, net, one) = pointer_header p.is_script n hn in
      let three : 3 ≤ length written = length-variable_encode_three sp in
      let long : length bs ≡ 28 + length written =
        omega (arith, length-append p.payload (written ++ []), length-append written []) in
      let valid : ltb (length (h ∷ bs)) 32 ≡ false = ltb-false (length (h ∷ bs)) 32 (omega arith) in
      let inside : ltb (length bs) 28 ≡ false = ltb-false (length bs) 28 (omega arith) in
      let pay : payload_of h 1 bs ≡ p = payload_of_lem h 1 bs p (take_28 p.payload _ hp) one in
      let read : get_stake_pointer (drop 28 bs) ≡ some sp =
        ap get_stake_pointer (drop_28 p.payload (written ++ []) hp ∙ append-nil written)
        ∙ get_stake_pointer-variable_encode sp a b c in
      read_back _ pointer_parser h bs refl refl t (simp (valid, read))
        (simp (inside, net, pay, read))

  -- An address of any format but Byron's, built of its parts (payloads of 28 bytes, a network below
  -- 16, pointer numbers of 64 bits, extra bytes in a base address only), is accepted, and `GetInfo`
  -- reads exactly these parts from its bytes.
  pub get_info-to_cardano_address : (a : CardanoAddressInfo) → IsInfo a → ReadsBack a
  get_info-to_cardano_address a (base n p s extra hn hp hs) = base_reads n p s extra hn hp hs
  get_info-to_cardano_address a (pointer n p sp hn hp i j k) = pointer_reads n p sp hn hp i j k
  get_info-to_cardano_address a (enterprise n p hn hp) = enterprise_reads n p hn hp
  get_info-to_cardano_address a (reward n s hn hp) = reward_reads n s hn hp
