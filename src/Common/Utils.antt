-- ===== src/Common/Utils.antt =====
-- common/utils.go: the pieces of a long string. The loop runs on fuel: with a positive length of pieces
-- every round takes a byte at least, so the length of the string is enough.
pub mod Pieces
use cardano_infrastructure.Base.{ℕ, zero, suc, List, [], ◌∷◌, Bytes, length, take, drop}

-- The rounds of the loop on the string behind the index.
unfoldable pub split_loop : ℕ → ℕ → Bytes → List Bytes
split_loop mxlen zero s = []
split_loop mxlen (suc fuel) [] = []
split_loop mxlen (suc fuel) (c ∷ s) =
    take mxlen (c ∷ s) ∷ split_loop mxlen fuel (drop mxlen (c ∷ s))

unfoldable pub split_string : Bytes → ℕ → List Bytes
split_string s mxlen = split_loop mxlen (length s) s
