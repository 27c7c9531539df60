-- ===== src/Wallet/PolicyScript/Tests.antt =====
-- Scripts of wallet/policy_script.go.
use cardano_infrastructure.Base.{◌≤◌, ◌≡◌, refl, List, [], ◌∷◌, Bytes, ascii, bytes_eq, arith}
use cardano_infrastructure.Wallet.PolicyScript.{
  PolicyScript, script, nil, cons, sig_script, any_type, at_least_type, get_count,
  new_policy_script,
}
use cardano_infrastructure.Wallet.PolicyScript.Counts.{
  Signs, by_key, by_some, by_one, this, some_done, taken, skipped, Signs-le-get_count,
  get_count-new_policy_script,
}
use cardano_infrastructure.Wallet.PolicyScript.Canonical.{count, new_policy_script_unordered}

-- Two of three keys, the last of which may be replaced by another.
abbrev either : PolicyScript
either = script any_type 0 (cons (sig_script (ascii "c")) (cons (sig_script (ascii "d")) nil)) [] 0

abbrev two_of_three : PolicyScript
two_of_three =
    script at_least_type 2
      (cons (sig_script (ascii "a")) (cons (sig_script (ascii "b")) (cons either nil))) [] 0

three : get_count two_of_three ≡ 3
unfolding get_count bytes_eq
three = refl

signed : Signs two_of_three 2
signed =
    by_some (taken by_key (skipped (taken (by_one (this by_key)) some_done refl)) refl)
      (omega arith)

Signs-le-get_count_example : 2 ≤ get_count two_of_three
Signs-le-get_count_example = Signs-le-get_count signed

abbrev forth : List Bytes
forth = ascii "b" ∷ ascii "a" ∷ []

abbrev back : List Bytes
back = ascii "a" ∷ ascii "b" ∷ []

get_count-new_policy_script_example : get_count (new_policy_script forth 1) ≡ 2
get_count-new_policy_script_example = get_count-new_policy_script forth 1

same_keys : (key : Bytes) → count key forth ≡ count key back
same_keys key = omega arith

new_policy_script_unordered_example : new_policy_script forth 2 ≡ new_policy_script back 2
new_policy_script_unordered_example = new_policy_script_unordered forth back 2 same_keys
