-- ===== src/Cas/Accounting.antt =====
-- The counters of a store: `logical` counts the bytes that were put, `stored` the bytes that the
-- index says are kept, and no more chunks are kept than were put.
use klados.Base.{
  ℕ, ◌+◌, ◌<◌, ◌≤◌, String, ◌≡◌, refl, ap, Bool, false, List, [], ◌∷◌, arith, concat, length,
  length-append,
}
use klados.Base.Dict.{Dict, lookup, insert, contains, length-insert}
use klados.Codec.{Bytes, Codec}
use klados.Chunking.{blocks}
use klados.Chunking.Lossless.{blocks-concat}
use klados.Cas.{init, Cas, add_chunk, count_block, put_block, put_blocks, put_bytes}

-- the stored lengths that the index lists
pub total : Dict ℕ → ℕ
total [] = 0
total ((h, n) ∷ d) = n + total d

total-insert :
    (h : String) (n : ℕ) (d : Dict ℕ) → contains h d ≡ false → total (insert h n d) ≡ total d + n
unfolding total insert lookup
total-insert h n [] e = omega arith
total-insert h n ((j, m) ∷ d) e = ground (arith, total-insert h n d)

-- The counters agree with the index.
pub record IsCounted (s : Cas) : Type 0 where
  pub stored : s.stored ≡ total s.index
  pub unique : length s.index ≤ s.chunks

-- a new store
pub init-IsCounted :
    (block : ℕ) (cdc : Bool) (level : ℕ) (rooted tiered : Bool) (hot cold : Dict Bytes)
    → IsCounted (init block cdc level rooted tiered hot cold)
unfolding total
init-IsCounted block cdc level rooted tiered hot cold = record {
  stored = refl;
  unique = omega arith;
}

module _ (k : Codec) where
  put_block-IsCounted : (x : Bytes) (s : Cas) → IsCounted s → IsCounted (put_block k x s)
  unfolding put_block add_chunk count_block
  put_block-IsCounted x s h = ground (
    arith,
    total-insert (k.hash x) (length (k.compress s.level x)) s.index,
    length-insert (k.hash x) (length (k.compress s.level x)) s.index,
  )

  put_blocks-IsCounted : (bs : List Bytes) (s : Cas) → IsCounted s → IsCounted (put_blocks k bs s).0
  unfolding put_blocks
  put_blocks-IsCounted [] s h = h
  put_blocks-IsCounted (x ∷ bs) s h =
      put_blocks-IsCounted bs (put_block k x s) (put_block-IsCounted x s h)

  put_block-logical : (x : Bytes) (s : Cas) → (put_block k x s).logical ≡ s.logical + length x
  unfolding put_block add_chunk count_block
  put_block-logical x s = ground arith

  put_block-chunks : (x : Bytes) (s : Cas) → (put_block k x s).chunks ≡ s.chunks + 1
  unfolding put_block add_chunk count_block
  put_block-chunks x s = ground arith

  pub put_blocks_counts :
      (bs : List Bytes) (s : Cas)
      → ((put_blocks k bs s).0.logical ≡ s.logical + length (concat bs))
        × ((put_blocks k bs s).0.chunks ≡ s.chunks + length bs)
  unfolding put_blocks
  put_blocks_counts [] s = omega arith
  put_blocks_counts (x ∷ bs) s = omega (
    arith,
    put_blocks_counts bs (put_block k x s),
    put_block-logical x s,
    put_block-chunks x s,
    length-append x (concat bs),
  )

  -- In a store with a block size above zero, whose counters agree with its index, putting bytes
  -- raises the logical count by exactly their number and the chunk count by the number of their
  -- blocks, and the counters still agree with the index.
  pub put_bytes_counts :
      (xs : Bytes) (s : Cas)
      → 0 < s.block
      → IsCounted s
      → let (t, manifest) = put_bytes k xs s in
        IsCounted t
        × (t.logical ≡ s.logical + length xs)
        × (t.chunks ≡ s.chunks + length (blocks k s.block s.cdc xs))
  unfolding put_bytes
  put_bytes_counts xs s p h =
      let bs = blocks k s.block s.cdc xs in
      let counts = put_blocks_counts bs s in
      (
        put_blocks-IsCounted bs s h,
        omega (arith, counts.0, ap (λ (l : Bytes). length l) (blocks-concat k s.block s.cdc xs p)),
        counts.1,
      )
