-- ===== src/Wallet/PolicyScript.antt =====
-- wallet/policy_script.go: native scripts, the signatures they need, and their addresses.
pub mod Counts
pub mod Canonical
mod Tests
use cardano_infrastructure.Base.{
  ℕ, zero, suc, ◌+◌, Bool, true, false, ◌||◌, Option, none, some, List, [], ◌∷◌, Bytes, ascii,
  bytes_eq, bytes_lt, Result, ok, err, ltb, if◌then◌else◌, length, take,
}
use cardano_infrastructure.Wallet.Tokens.{decode_string}
use cardano_infrastructure.Wallet.Address.{
  AddressError, invalid_address_data, CardanoAddressPayload, CardanoAddressInfo, info_of_type,
  base_address, enterprise_address, reward_address, Byron, CardanoAddress, to_cardano_address,
  key_hash_size,
}

abbrev pub at_least_type : Bytes
at_least_type = ascii "atLeast"

abbrev pub sig_type : Bytes
sig_type = ascii "sig"

abbrev pub any_type : Bytes
any_type = ascii "any"

abbrev pub all_type : Bytes
all_type = ascii "all"

-- The fields are the type, the number of scripts required, the scripts below, the key hash and the
-- slot. A negative `required` does what 0 does.
mutual
  pub data PolicyScript : Type 0 where
    script : Bytes → ℕ → Scripts → Bytes → ℕ → PolicyScript

  pub data Scripts : Type 0 where
    nil : Scripts
    cons : PolicyScript → Scripts → Scripts

-- `GetCount`, with its two loops from a count on.
unfoldable mutual
  pub get_count : PolicyScript → ℕ
  get_count (script type required scripts key_hash slot) =
      if bytes_eq type sig_type
      then 1
      else if bytes_eq type any_type
      then max_count 0 scripts
      else if bytes_eq type all_type || bytes_eq type at_least_type
      then sum_count 0 scripts
      else 0

  pub max_count : ℕ → Scripts → ℕ
  max_count cnt nil = cnt
  max_count cnt (cons x xs) = max_count (if ltb cnt (get_count x) then get_count x else cnt) xs

  pub sum_count : ℕ → Scripts → ℕ
  sum_count cnt nil = cnt
  sum_count cnt (cons x xs) = sum_count (cnt + get_count x) xs

abbrev pub sig_script : Bytes → PolicyScript
sig_script key_hash = script sig_type 0 nil key_hash 0

-- `sort.Slice` by the key hash, by insertion. Scripts with one key hash are equal here.
unfoldable pub insert_key : Bytes → List Bytes → List Bytes
insert_key x [] = x ∷ []
insert_key x (y ∷ ys) = let rest = insert_key x ys in if bytes_lt y x then y ∷ rest else x ∷ y ∷ ys

unfoldable pub sort_keys : List Bytes → List Bytes
unfolding insert_key
sort_keys [] = []
sort_keys (x ∷ xs) = insert_key x (sort_keys xs)

unfoldable pub sig_scripts : List Bytes → Scripts
sig_scripts [] = nil
sig_scripts (key ∷ keys) = cons (sig_script key) (sig_scripts keys)

unfoldable pub new_policy_script : List Bytes → ℕ → PolicyScript
unfolding sort_keys sig_scripts
new_policy_script key_hashes at_least_signers_count =
    script at_least_type at_least_signers_count (sig_scripts (sort_keys key_hashes)) [] 0

-- `[KeyHashSize]byte(…)` of a decoded policy id, which panics on fewer bytes.
unfoldable pub script_payload : Bytes → Option CardanoAddressPayload
script_payload bytes =
    if ltb (length bytes) key_hash_size
    then none
    else some (record { payload = take key_hash_size bytes; is_script = true })

module _ (byron : Byron) where
  abbrev pub Made : Type 0
  Made = Option (Result AddressError (CardanoAddress byron))

  -- The decoding of an id, whose error ends the function, and the payload, whose panic does.
  unfoldable pub with_script : Option Bytes → (CardanoAddressPayload → Made) → Made
  with_script none make = some (err invalid_address_data)
  with_script (some bytes) make = elim (script_payload bytes) [ none ↦ none | some p ↦ make p ]

  -- A function whose first decoding succeeds decodes the second id before it makes a payload.
  unfoldable pub both_decoded : Option Bytes → Option Bytes → (Bytes → Bytes → Made) → Made
  both_decoded none stake make = some (err invalid_address_data)
  both_decoded (some bytes) none make = some (err invalid_address_data)
  both_decoded (some bytes) (some stake) make = make bytes stake

  pub new_policy_script_base_address : ℕ → Bytes → Bytes → Made
  new_policy_script_base_address network_id policy_id stake_policy_id =
      both_decoded (decode_string policy_id) (decode_string stake_policy_id) (λ bytes stake.
        with_script (some bytes) (λ p. with_script (some stake) (λ s.
          to_cardano_address byron (record (info_of_type base_address) {
            network = network_id;
            payment = some p;
            stake = some s;
          }))))

  pub new_policy_script_enterprise_address : ℕ → Bytes → Made
  new_policy_script_enterprise_address network_id policy_id =
      with_script (decode_string policy_id) (λ p.
        to_cardano_address byron
          (record (info_of_type enterprise_address) { network = network_id; payment = some p }))

  pub new_policy_script_reward_address : ℕ → Bytes → Made
  new_policy_script_reward_address network_id policy_id =
      with_script (decode_string policy_id) (λ s.
        to_cardano_address byron
          (record (info_of_type reward_address) { network = network_id; stake = some s }))
