-- ===== src/Memory.antt =====
-- `_chunk_mem` and `_reconstruct_mem` of spikes/engine/kladosd.py: a snapshot's memory image as a
-- raw file (hot form), or as a manifest of chunks (cold form).
pub mod Image
pub mod Restore
use klados.Base.{
  ℕ, ◌*◌, ◌^◌, String, Bool, ◌||◌, Option, none, some, List, length, is_some, not, if◌then◌else◌,
}
use klados.Base.Result.{Result, ok, err, failure}
use klados.Codec.{Bytes, Codec}
use klados.Cas.{Cas, put_file, flush_s3, read_all}

-- `mem` and `mem.manifest` in a snapshot's directory
pub record MemFiles : Type 0 where
  pub mem : Option Bytes
  pub manifest : Option (List String)

-- `buf`, the default of `put_file`: 8 << 20
abbrev pub buf : ℕ
buf = 8 * 2 ^ 20

-- after the flush: the manifest is written and the raw file removed
seal : ℕ → List String → MemFiles → Result ℕ → Cas → Result ℕ × MemFiles × Cas
seal logical hashes files (err e) s = (err e, files, s)
seal logical hashes files (ok n) s = (ok logical, record { mem = none; manifest = some hashes }, s)

chunk_image : Codec → (String → Bool) → MemFiles → Option Bytes → Cas → Result ℕ × MemFiles × Cas
unfolding seal
chunk_image k sent files none s = (err (failure "no such file"), files, s)
chunk_image k sent files (some image) s =
    let (s', hashes) = put_file k buf image s in
    let (r, s'') = flush_s3 sent s' in seal (length image) hashes files r s''

-- `_chunk_mem`: the logical bytes, or the exception of a read or of the flush
unfoldable pub chunk_mem : Codec → (String → Bool) → MemFiles → Cas → Result ℕ × MemFiles × Cas
unfolding chunk_image
chunk_mem k sent files s = chunk_image k sent files files.mem s

-- `os.replace(tmp, mem)`, if every chunk was got
publish : MemFiles → Result Bytes → Cas → Result (Unit {0}) × MemFiles × Cas
publish files (err e) s = (err e, files, s)
publish files (ok image) s = (ok tt, record files { mem = some image }, s)

read_manifest : Codec → MemFiles → Option (List String) → Cas → Result (Unit {0}) × MemFiles × Cas
unfolding publish
read_manifest k files none s = (ok tt, files, s)
read_manifest k files (some hashes) s = let (r, s') = read_all k hashes s in publish files r s'

-- `_reconstruct_mem`, which does nothing if the raw file is there or the manifest is not
unfoldable pub reconstruct_mem : Codec → MemFiles → Cas → Result (Unit {0}) × MemFiles × Cas
unfolding read_manifest
reconstruct_mem k files s =
    if is_some files.mem || not (is_some files.manifest)
    then (ok tt, files, s)
    else read_manifest k files files.manifest s
