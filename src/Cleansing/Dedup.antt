-- ===== src/Cleansing/Dedup.antt =====
-- src/services/cleansing/cleansing/dedup.py. A fingerprint is a number of 64 bits; the hash of a token and the
-- tokens of a text come from Python's library.
use stock_prediction.Base.{
  ℕ, zero, suc, ◌+◌, ◌*◌, ◌/◌, ◌%◌, Bool, List, [], ◌∷◌, leb, ◌==◌, if◌then◌else◌,
}
use stock_prediction.Base.Int.{ℤ, pos, ◌+ℤ◌, ◌-ℤ◌, ltb_ℤ}

-- The inner loop of `simhash`, from the lowest bit of a hash to the highest.
add_feature : ℕ → List ℤ → List ℤ
add_feature h [] = []
add_feature h (w ∷ ws) = (if h % 2 == 1 then w +ℤ pos 1 else w -ℤ pos 1) ∷ add_feature (h / 2) ws

weights_of : List ℕ → List ℤ → List ℤ
unfolding add_feature
weights_of [] ws = ws
weights_of (h ∷ hs) ws = weights_of hs (add_feature h ws)

zeros : ℕ → List ℤ
zeros zero = []
zeros (suc n) = pos 0 ∷ zeros n

bits_of : List ℤ → ℕ
bits_of [] = 0
bits_of (w ∷ ws) = (if ltb_ℤ (pos 0) w then 1 else 0) + 2 * bits_of ws

-- `simhash`, of the hashes of the tokens: `_feature_hash`.
pub simhash : List ℕ → ℕ
unfolding weights_of zeros bits_of
simhash [] = 0
simhash (h ∷ hs) = bits_of (weights_of (h ∷ hs) (zeros 64))

differing_bits : ℕ → ℕ → ℕ → ℕ
differing_bits zero left right = 0
differing_bits (suc n) left right =
    let rest = differing_bits n (left / 2) (right / 2) in
    if left % 2 == right % 2 then rest else suc rest

pub hamming_distance : ℕ → ℕ → ℕ
unfolding differing_bits
hamming_distance = differing_bits 64

pub is_near_duplicate : ℕ → ℕ → ℕ → Bool
unfolding hamming_distance
is_near_duplicate candidate existing max_distance =
    leb (hamming_distance candidate existing) max_distance
