-- ===== src/Chunking.antt =====
-- `CAS._blocks` of spikes/storage/cas.py: fixed blocks, and content-defined chunks by a gear hash.
pub mod Lossless
pub mod Bounds
use Prim.Native.Nat.{bit_and, bit_or}
use klados.Base.{
  ℕ, zero, suc, ◌+◌, ◌-◌, ◌*◌, ◌%◌, ◌^◌, Bool, true, false, ◌&&◌, ◌||◌, List, [], ◌∷◌, length, drop,
  slice, ltb, leb, ◌==◌, if◌then◌else◌,
}
use klados.Codec.{Bytes, Codec}

-- `for i in range(0, len(data), block): yield data[i:i + block]`, with fuel for the rounds
fixed_from : ℕ → ℕ → ℕ → Bytes → List Bytes
fixed_from zero block i xs = []
fixed_from (suc fuel) block i xs =
    let rest = fixed_from fuel block (i + block) xs in
    if ltb i (length xs) then slice i (i + block) xs ∷ rest else []

-- `mask, mn, mx = (1 << 13) - 1, 2048, 65536`
abbrev pub mask : ℕ
mask = 2 ^ 13 - 1

abbrev pub min_size : ℕ
min_size = 2048

abbrev pub max_size : ℕ
max_size = 65536

-- one round of the gear hash, on 64 bits
roll : (ℕ → ℕ) → ℕ → ℕ → ℕ
roll gear h b = (h * 2 + gear b) % 2 ^ 64

-- the test that ends a chunk of `size` bytes
is_cut : ℕ → ℕ → Bool
is_cut size h = (leb min_size size && bit_and h mask == 0) || leb max_size size

-- The loop over `enumerate(data)`: `i` is the index of the first byte of `rest`, and `start` and
-- `h` are the loop's variables. What is left at the end is the last chunk.
cdc_from : (ℕ → ℕ) → Bytes → ℕ → ℕ → ℕ → Bytes → List Bytes
cdc_from gear xs h start i [] = if ltb start (length xs) then drop start xs ∷ [] else []
cdc_from gear xs h start i (b ∷ rest) =
    let h' = roll gear h b in
    let cut = slice start (i + 1) xs ∷ cdc_from gear xs 0 (i + 1) (i + 1) rest in
    let go_on = cdc_from gear xs h' start (i + 1) rest in
    if is_cut (i - start + 1) h' then cut else go_on

-- `int.from_bytes(d, "big")`, on the bytes read so far
from_bytes : ℕ → Bytes → ℕ
from_bytes acc [] = acc
from_bytes acc (b ∷ d) = from_bytes (acc * 256 + b) d

-- the first byte, in the top place
top_byte : Bytes → ℕ
top_byte [] = 0
top_byte (b ∷ d) = b * 2 ^ 56

-- `_GEAR[i]`
gear : Codec → ℕ → ℕ
unfolding from_bytes top_byte
gear k i = bit_or (top_byte (k.digest8 i)) (from_bytes 0 (k.digest8 i)) % 2 ^ 64

-- `_blocks`: a file of `n` bytes has at most `n` fixed blocks.
unfoldable pub blocks : Codec → ℕ → Bool → Bytes → List Bytes
unfolding fixed_from cdc_from roll is_cut gear
blocks k block false xs = fixed_from (length xs) block 0 xs
blocks k block true xs = cdc_from (gear k) xs 0 0 0 xs
