-- ===== src/Common/Utils/Pieces.antt =====
-- The pieces of common/utils.go make the whole string.
use cardano_infrastructure.Base.{
  ℕ, zero, suc, ◌<◌, ◌≤◌, ◌≡◌, refl, ◌∙◌, ap, List, [], ◌∷◌, ◌++◌, Bytes, arith, length,
  length-drop, length-take, take, drop, take-append-drop, All,
}
use cardano_infrastructure.Common.Utils.{split_loop, split_string}

abbrev pub joined_pieces : List Bytes → Bytes
joined_pieces [] = []
joined_pieces (p ∷ ps) = p ++ joined_pieces ps

split_loop-joined :
    (mxlen fuel : ℕ) (s : Bytes)
    → 0 < mxlen
    → length s ≤ fuel
    → joined_pieces (split_loop mxlen fuel s) ≡ s
unfolding split_loop
split_loop-joined mxlen zero [] h l = refl
split_loop-joined mxlen zero (c ∷ s) h l = absurd (omega arith)
split_loop-joined mxlen (suc fuel) [] h l = refl
split_loop-joined mxlen (suc fuel) (c ∷ s) h l =
    ap (λ x. take mxlen (c ∷ s) ++ x)
      (split_loop-joined mxlen fuel (drop mxlen (c ∷ s)) h
        (omega (arith, length-drop mxlen (c ∷ s))))
    ∙ take-append-drop mxlen (c ∷ s)

split_loop_sizes :
    (mxlen fuel : ℕ) (s : Bytes)
    → 0 < mxlen
    → All (λ p. (0 < length p) × (length p ≤ mxlen)) (split_loop mxlen fuel s)
unfolding split_loop
split_loop_sizes mxlen zero s h = tt
split_loop_sizes mxlen (suc fuel) [] h = tt
split_loop_sizes mxlen (suc fuel) (c ∷ s) h =
    let size = length-take mxlen (c ∷ s) in
    ((omega (arith, size), omega (arith, size)), split_loop_sizes mxlen fuel (drop mxlen (c ∷ s)) h)

-- With a positive length of pieces `SplitString` comes to an end after a round for each byte at most: its
-- pieces make the whole string, and none of them is empty or longer than that.
pub split_string_whole :
    (s : Bytes) (mxlen : ℕ)
    → 0 < mxlen
    → (joined_pieces (split_string s mxlen) ≡ s)
      × All (λ p. (0 < length p) × (length p ≤ mxlen)) (split_string s mxlen)
unfolding split_string
split_string_whole s mxlen h =
    (split_loop-joined mxlen (length s) s h (omega arith), split_loop_sizes mxlen (length s) s h)
