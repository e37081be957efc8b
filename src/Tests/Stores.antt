-- ===== src/Tests/Stores.antt =====
-- The chunk store and the memory images on concrete bytes (spikes/storage/cas.py, and `_chunk_mem`
-- and `_reconstruct_mem` of spikes/engine/kladosd.py).
use klados.Base.{
  ◌+◌, String, ◌≡◌, refl, inl, Bool, true, false, none, some, [], ◌∷◌, map, arith, concat, length,
}
use klados.Base.Dict.{lookup, contains}
use klados.Base.Result.{ok, err, failure}
use klados.Codec.{Bytes}
use klados.Chunking.{blocks}
use klados.Chunking.Lossless.{blocks-concat}
use klados.Chunking.Bounds.{blocks-Sized, Sized}
use klados.Cas.{Cas, init, key, put_block, add_chunk, count_block, put_bytes, flush_s3, read_all}
use klados.Cas.Sound.{IsSound, init-IsSound, put_block-IsSound, queued}
use klados.Cas.Put.{put_block-Indexed}
use klados.Cas.Accounting.{IsCounted, put_bytes_counts, init-IsCounted}
use klados.Cas.Dedup.{counted, put_bytes_twice, flush_s3_loses}
use klados.Cas.Fetch.{InReach}
use klados.Cas.Restore.{read_all-concat}
use klados.Memory.{MemFiles, chunk_mem, reconstruct_mem}
use klados.Memory.Image.{Holds, HasManifest, chunk_mem_returns}
use klados.Memory.Restore.{
  reconstruct_mem-chunk_mem, reconstruct_mem-restart, restart, Holds-chunk_mem, chunk_mem_completes,
}
use klados.Tests.Codecs.{codec}

abbrev pub store : Cas
store = init 2 false 6 true true [] []

pub store-IsSound : IsSound codec store
store-IsSound = init-IsSound codec 2 false 6 true true

abbrev bytes : Bytes
bytes = 7 ∷ 8 ∷ 7 ∷ 8 ∷ 9 ∷ []

abbrev files : MemFiles
files = record { mem = some bytes; manifest = none }

abbrev other : MemFiles
other = record { mem = some (1 ∷ 2 ∷ 3 ∷ []); manifest = none }

abbrev all_go : String → Bool
all_go h = true

chunked : (chunk_mem codec all_go files store).0 ≡ ok 5
chunked = chunk_mem_returns codec all_go files bytes store (λ h. refl) refl

blocks_runs : blocks codec 2 false bytes ≡ (7 ∷ 8 ∷ []) ∷ (7 ∷ 8 ∷ []) ∷ (9 ∷ []) ∷ []
unfolding blocks
blocks_runs = refl

blocks-concat_example : concat (blocks codec 2 false bytes) ≡ bytes
blocks-concat_example = blocks-concat codec 2 false bytes (omega arith)

blocks-Sized_example : Sized 2 2 (blocks codec 2 false bytes)
blocks-Sized_example = blocks-Sized codec 2 false bytes (omega arith)

chunk_mem_completes_example :
    let (r, files', t) = chunk_mem codec all_go files store in
    (r ≡ ok 5) × (files'.mem ≡ none) × IsSound codec t × HasManifest codec t files' bytes
chunk_mem_completes_example =
    chunk_mem_completes codec all_go files bytes store store-IsSound (omega arith) (inl refl) refl
      (λ h. refl)

reconstruct_mem-chunk_mem_example :
    let (_, files', t) = chunk_mem codec all_go files store in
    let (r, files'', _) = reconstruct_mem codec files' t in
    (5 ≡ length bytes) × (files'.mem ≡ none) × (r ≡ ok tt) × (files''.mem ≡ some bytes)
reconstruct_mem-chunk_mem_example =
    reconstruct_mem-chunk_mem codec all_go files bytes store 5 store-IsSound (omega arith)
      (inl refl) refl chunked

reconstruct_mem-restart_example :
    let (_, files', t) = chunk_mem codec all_go files store in
    let (r, files'', _) = reconstruct_mem codec files' (restart codec t) in
    (r ≡ ok tt) × (files''.mem ≡ some bytes)
reconstruct_mem-restart_example =
    reconstruct_mem-restart codec all_go files bytes store 5 store-IsSound (omega arith) refl refl
      chunked

other_chunked : (chunk_mem codec all_go other store).0 ≡ ok 3
other_chunked = chunk_mem_returns codec all_go other (1 ∷ 2 ∷ 3 ∷ []) store (λ h. refl) refl

Holds-chunk_mem_example :
    let (_, _, t) = chunk_mem codec all_go other store in Holds codec t files bytes
Holds-chunk_mem_example =
    Holds-chunk_mem codec all_go files other bytes (1 ∷ 2 ∷ 3 ∷ []) store 3 store-IsSound
      (omega arith) (inl refl) refl other_chunked (inl refl)

put_bytes_counts_example :
    let (t, manifest) = put_bytes codec bytes store in
    IsCounted t
    × (t.logical ≡ store.logical + length bytes)
    × (t.chunks ≡ store.chunks + length (blocks codec store.block store.cdc bytes))
put_bytes_counts_example =
    put_bytes_counts codec bytes store (omega arith) (init-IsCounted 2 false 6 true true [] [])

put_bytes_twice_example :
    let t = (put_bytes codec bytes store).0 in (put_bytes codec bytes t).0 ≡ counted codec 5 3 t
unfolding blocks
put_bytes_twice_example = put_bytes_twice codec bytes store (omega arith) store-IsSound

-- a store with one block queued for the bucket
abbrev queueing : Cas
queueing = put_block codec (7 ∷ []) store

flush_s3_loses_example :
    let (r, t) = flush_s3 (λ h. false) queueing in
    let u = put_block codec (7 ∷ []) t in
    (r ≡ err (failure "S3 PUT"))
    × (contains (key (codec.hash (7 ∷ []))) u.cold ≡ false)
    × (queued codec (codec.hash (7 ∷ [])) u.pending ≡ false)
unfolding put_block add_chunk count_block lookup
flush_s3_loses_example =
    flush_s3_loses codec (λ h. false) (7 ∷ []) queueing
      (put_block-IsSound codec (7 ∷ []) store store-IsSound) refl
      (put_block-Indexed codec (7 ∷ []) store) refl refl

queueing-IsSound : IsSound codec queueing
queueing-IsSound = put_block-IsSound codec (7 ∷ []) store store-IsSound

read_all-concat_example :
    (read_all codec (map codec.hash ((7 ∷ []) ∷ (7 ∷ []) ∷ [])) queueing).0
    ≡ ok (concat ((7 ∷ []) ∷ (7 ∷ []) ∷ []))
unfolding put_block add_chunk count_block lookup
read_all-concat_example =
    read_all-concat codec ((7 ∷ []) ∷ (7 ∷ []) ∷ []) queueing queueing-IsSound.hot_pure
      queueing-IsSound.cold_pure (here, here_too)
  where
    here_too : InReach codec (7 ∷ []) queueing × Unit {0}
    here_too = (
      inl (refl, queueing-IsSound.kept (7 ∷ []) (put_block-Indexed codec (7 ∷ []) store) refl),
      tt,
    )

    here : InReach codec (7 ∷ []) queueing
    here = inl (refl, queueing-IsSound.kept (7 ∷ []) (put_block-Indexed codec (7 ∷ []) store) refl)
