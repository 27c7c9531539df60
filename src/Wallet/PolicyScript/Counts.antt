-- ===== src/Wallet/PolicyScript/Counts.antt =====
-- How many signatures a script of wallet/policy_script.go can take, and `GetCount`.
use cardano_infrastructure.Base.{
  ℕ, suc, ◌+◌, ◌≤◌, ◌≡◌, refl, ◌∙◌, List, [], ◌∷◌, Bytes, ascii, bytes_eq, ltb, if◌then◌else◌,
  length, arith,
}
use cardano_infrastructure.Wallet.PolicyScript.{
  PolicyScript, Scripts, script, nil, cons, get_count, max_count, sum_count, sig_type, any_type,
  all_type, at_least_type, sig_script, sig_scripts, sort_keys, insert_key, new_policy_script,
}

-- A script is met by `n` signatures: that of a key by its own, an `any` by those of one script
-- below, an `all` by those of each, an `atLeast` by those of the required number or more, and a time
-- lock by none.
mutual
  pub data Signs : PolicyScript → ℕ → Type 0 where
    by_key :
        {required : ℕ} {scripts : Scripts} {key_hash : Bytes} {slot : ℕ}
        → Signs (script sig_type required scripts key_hash slot) 1
    by_one :
        {required : ℕ} {scripts : Scripts} {key_hash : Bytes} {slot n : ℕ}
        → SignsOne scripts n
        → Signs (script any_type required scripts key_hash slot) n
    by_all :
        {required : ℕ} {scripts : Scripts} {key_hash : Bytes} {slot n : ℕ}
        → SignsAll scripts n
        → Signs (script all_type required scripts key_hash slot) n
    by_some :
        {required : ℕ} {scripts : Scripts} {key_hash : Bytes} {slot k n : ℕ}
        → SignsSome scripts k n
        → required ≤ k
        → Signs (script at_least_type required scripts key_hash slot) n
    after :
        {required : ℕ} {scripts : Scripts} {key_hash : Bytes} {slot : ℕ}
        → Signs (script (ascii "after") required scripts key_hash slot) 0
    before :
        {required : ℕ} {scripts : Scripts} {key_hash : Bytes} {slot : ℕ}
        → Signs (script (ascii "before") required scripts key_hash slot) 0

  pub data SignsOne : Scripts → ℕ → Type 0 where
    this : {x : PolicyScript} {xs : Scripts} {n : ℕ} → Signs x n → SignsOne (cons x xs) n
    later : {x : PolicyScript} {xs : Scripts} {n : ℕ} → SignsOne xs n → SignsOne (cons x xs) n

  pub data SignsAll : Scripts → ℕ → Type 0 where
    all_done : SignsAll nil 0
    each :
        {x : PolicyScript} {xs : Scripts} {m n s : ℕ}
        → Signs x m
        → SignsAll xs n
        → s ≡ m + n
        → SignsAll (cons x xs) s

  -- `k` of the scripts are met, by `n` signatures.
  pub data SignsSome : Scripts → ℕ → ℕ → Type 0 where
    some_done : SignsSome nil 0 0
    taken :
        {x : PolicyScript} {xs : Scripts} {k m n s : ℕ}
        → Signs x m
        → SignsSome xs k n
        → s ≡ m + n
        → SignsSome (cons x xs) (suc k) s
    skipped :
        {x : PolicyScript} {xs : Scripts} {k n : ℕ} → SignsSome xs k n → SignsSome (cons x xs) k n

sum_count-eq-add : (cnt : ℕ) (xs : Scripts) → sum_count cnt xs ≡ cnt + sum_count 0 xs
unfolding sum_count
sum_count-eq-add cnt nil = omega arith
sum_count-eq-add cnt (cons x xs) =
    omega (arith, sum_count-eq-add (cnt + get_count x) xs, sum_count-eq-add (0 + get_count x) xs)

le-max_count : (cnt : ℕ) (xs : Scripts) → cnt ≤ max_count cnt xs
unfolding max_count
le-max_count cnt nil = omega arith
le-max_count cnt (cons x xs) =
    let next = if ltb cnt (get_count x) then get_count x else cnt in
    let grows : cnt ≤ next = ground arith in omega (arith, grows, le-max_count next xs)

max_count_mono : (a b : ℕ) (xs : Scripts) → a ≤ b → max_count a xs ≤ max_count b xs
unfolding max_count
max_count_mono a b nil h = h
max_count_mono a b (cons x xs) h =
    max_count_mono (if ltb a (get_count x) then get_count x else a)
      (if ltb b (get_count x) then get_count x else b) xs (ground arith)

get_count-le-max_count :
    (cnt : ℕ) (x : PolicyScript) (xs : Scripts) → get_count x ≤ max_count cnt (cons x xs)
unfolding max_count
get_count-le-max_count cnt x xs =
    let next = if ltb cnt (get_count x) then get_count x else cnt in
    let grows : get_count x ≤ next = ground arith in omega (arith, grows, le-max_count next xs)

max_count-le-cons :
    (cnt : ℕ) (x : PolicyScript) (xs : Scripts) → max_count cnt xs ≤ max_count cnt (cons x xs)
unfolding max_count
max_count-le-cons cnt x xs =
    max_count_mono cnt (if ltb cnt (get_count x) then get_count x else cnt) xs (ground arith)

sum_count-cons :
    (x : PolicyScript) (xs : Scripts) → sum_count 0 (cons x xs) ≡ get_count x + sum_count 0 xs
unfolding sum_count
sum_count-cons x xs = omega (arith, sum_count-eq-add (0 + get_count x) xs)

-- What `GetCount` gives for each type of script.
count_any :
    (required : ℕ) (xs : Scripts) (key : Bytes) (slot : ℕ)
    → get_count (script any_type required xs key slot) ≡ max_count 0 xs
unfolding get_count bytes_eq
count_any required xs key slot = refl

count_all :
    (required : ℕ) (xs : Scripts) (key : Bytes) (slot : ℕ)
    → get_count (script all_type required xs key slot) ≡ sum_count 0 xs
unfolding get_count bytes_eq
count_all required xs key slot = refl

count_at_least :
    (required : ℕ) (xs : Scripts) (key : Bytes) (slot : ℕ)
    → get_count (script at_least_type required xs key slot) ≡ sum_count 0 xs
unfolding get_count bytes_eq
count_at_least required xs key slot = refl

count_sig :
    (required : ℕ) (xs : Scripts) (key : Bytes) (slot : ℕ)
    → get_count (script sig_type required xs key slot) ≡ 1
unfolding get_count bytes_eq
count_sig required xs key slot = refl

mutual
  Signs-le : {x : PolicyScript} {n : ℕ} → Signs x n → n ≤ get_count x
  Signs-le (by_key {required} {scripts} {key_hash} {slot}) =
      omega (arith, count_sig required scripts key_hash slot)
  Signs-le (by_one {required} {scripts} {key_hash} {slot} s) =
      omega (arith, one_le s, count_any required scripts key_hash slot)
  Signs-le (by_all {required} {scripts} {key_hash} {slot} s) =
      omega (arith, all_le s, count_all required scripts key_hash slot)
  Signs-le (by_some {required} {scripts} {key_hash} {slot} s h) =
      omega (arith, some_le s, count_at_least required scripts key_hash slot)
  Signs-le after = omega arith
  Signs-le before = omega arith

  one_le : {xs : Scripts} {n : ℕ} → SignsOne xs n → n ≤ max_count 0 xs
  one_le (this {x} {xs} s) = omega (arith, Signs-le s, get_count-le-max_count 0 x xs)
  one_le (later {x} {xs} s) = omega (arith, one_le s, max_count-le-cons 0 x xs)

  all_le : {xs : Scripts} {n : ℕ} → SignsAll xs n → n ≤ sum_count 0 xs
  all_le all_done = omega arith
  all_le (each {x} {xs} s t e) = omega (arith, Signs-le s, all_le t, sum_count-cons x xs)

  some_le : {xs : Scripts} {k n : ℕ} → SignsSome xs k n → n ≤ sum_count 0 xs
  some_le some_done = omega arith
  some_le (taken {x} {xs} s t e) = omega (arith, Signs-le s, some_le t, sum_count-cons x xs)
  some_le (skipped {x} {xs} t) = omega (arith, some_le t, sum_count-cons x xs)

-- However a script is met, it takes no more signatures than `GetCount` says.
pub Signs-le-get_count : {x : PolicyScript} {n : ℕ} → Signs x n → n ≤ get_count x
Signs-le-get_count s = Signs-le s

sum_count-sig_scripts : (keys : List Bytes) → sum_count 0 (sig_scripts keys) ≡ length keys
unfolding sig_scripts sum_count
sum_count-sig_scripts [] = refl
sum_count-sig_scripts (key ∷ keys) = omega (
  arith,
  sum_count-cons (sig_script key) (sig_scripts keys),
  count_sig 0 nil key 0,
  sum_count-sig_scripts keys,
)

length-insert_key : (x : Bytes) (xs : List Bytes) → length (insert_key x xs) ≡ suc (length xs)
unfolding insert_key
length-insert_key x [] = refl
length-insert_key x (y ∷ ys) = ground (arith, length-insert_key x ys)

length-sort_keys : (xs : List Bytes) → length (sort_keys xs) ≡ length xs
unfolding sort_keys
length-sort_keys [] = refl
length-sort_keys (x ∷ xs) = omega (arith, length-insert_key x (sort_keys xs), length-sort_keys xs)

-- A new policy script counts one signature for each key hash, whatever number it requires.
pub get_count-new_policy_script :
    (keys : List Bytes) (required : ℕ) → get_count (new_policy_script keys required) ≡ length keys
unfolding new_policy_script
get_count-new_policy_script keys required =
    count_at_least required (sig_scripts (sort_keys keys)) [] 0
    ∙ sum_count-sig_scripts (sort_keys keys)
    ∙ length-sort_keys keys
