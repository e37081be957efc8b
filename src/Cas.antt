-- ===== src/Cas.antt =====
-- `class CAS` of spikes/storage/cas.py: the chunk index, the hot cache (files below `root`) and the
-- cold tier (objects of the S3 bucket, spikes/storage/s3.py).
pub mod Sound
pub mod Put
pub mod Fetch
pub mod Restore
pub mod Accounting
pub mod Dedup
use Prim.Native.String.{◌++◌ as ◌<>◌}
use klados.Base.{
  ℕ, zero, suc, ◌+◌, ◌-◌, ◌*◌, ◌^◌, String, Bool, true, false, not, ◌&&◌, ◌||◌, Option, none, some,
  List, [], ◌∷◌, ◌++◌, length, take, drop, if◌then◌else◌,
}
use klados.Base.Dict.{Dict, lookup, insert, contains}
use klados.Base.Result.{Result, ok, err, failure}
use klados.Codec.{Bytes, Codec}
use klados.Chunking.{blocks}

pub record Cas : Type 0 where
  pub block : ℕ
  pub cdc : Bool
  pub level : ℕ
  -- `self.root` is set: chunks are written to disk
  pub rooted : Bool
  -- `self.s3 and self.bucket`
  pub tiered : Bool
  pub index : Dict ℕ
  pub pending : List (String × Bytes)
  pub logical : ℕ
  pub stored : ℕ
  pub chunks : ℕ
  -- the files below `root`, by their path in it
  pub hot : Dict Bytes
  -- the objects of the bucket, by their key
  pub cold : Dict Bytes

-- `CAS(root, block, cdc, level, s3, bucket)` over what disk and bucket hold already
abbrev pub init : ℕ → Bool → ℕ → Bool → Bool → Dict Bytes → Dict Bytes → Cas
init block cdc level rooted tiered hot cold = record {
  block = block;
  cdc = cdc;
  level = level;
  rooted = rooted;
  tiered = tiered;
  index = [];
  pending = [];
  logical = 0;
  stored = 0;
  chunks = 0;
  hot = hot;
  cold = cold;
}

-- `h[:2]`
abbrev first_two : String → String
first_two String.[] = String.[]
first_two (String.◌∷◌ c String.[]) = String.◌∷◌ c String.[]
first_two (String.◌∷◌ c (String.◌∷◌ d r)) = String.◌∷◌ c (String.◌∷◌ d String.[])

-- `CAS._key`; the path of the file below `root` is the same text.
pub key : String → String
key h = first_two h <> ("/" <> h)

-- `if not os.path.exists(p): … cf.write(comp)`
pub write_if_absent : String → Bytes → Dict Bytes → Dict Bytes
write_if_absent p comp hot = if contains p hot then hot else insert p comp hot

-- the body of `if h not in self.index`
unfoldable pub add_chunk : String → Bytes → Cas → Cas
unfolding write_if_absent
add_chunk h comp s = record s {
  index = insert h (length comp) s.index;
  stored = s.stored + length comp;
  hot = if s.rooted then write_if_absent (key h) comp s.hot else s.hot;
  pending = if s.tiered then s.pending ++ (h, comp) ∷ [] else s.pending;
}

unfoldable pub count_block : Bytes → Cas → Cas
count_block blk s = record s { logical = s.logical + length blk; chunks = s.chunks + 1 }

module _ (k : Codec) where
  -- one round of the loop in `put_bytes`
  unfoldable pub put_block : Bytes → Cas → Cas
  unfolding add_chunk count_block
  put_block blk s =
      let h = k.hash blk in
      if contains h s.index
      then count_block blk s
      else add_chunk h (k.compress s.level blk) (count_block blk s)

  pub put_blocks : List Bytes → Cas → Cas × List String
  put_blocks [] s = (s, [])
  put_blocks (blk ∷ rest) s =
      let (s', manifest) = put_blocks rest (put_block blk s) in (s', k.hash blk ∷ manifest)

  unfoldable pub put_bytes : Bytes → Cas → Cas × List String
  unfolding put_blocks put_block
  put_bytes xs s = put_blocks (blocks k s.block s.cdc xs) s

  -- the loop of `put_file`: `f.read(buf)` until it returns nothing, with fuel for the reads
  pub put_reads : ℕ → ℕ → Bytes → Cas → Cas × List String
  unfolding put_bytes
  put_reads zero buf file s = (s, [])
  put_reads (suc fuel) buf [] s = (s, [])
  put_reads (suc fuel) buf (b ∷ file) s =
      let (s', manifest) = put_bytes (take buf (b ∷ file)) s in
      let (s'', rest) = put_reads fuel buf (drop buf (b ∷ file)) s' in (s'', manifest ++ rest)

  -- Each read of a file of `n` bytes takes one byte at least, so `n` reads are enough.
  unfoldable pub put_file : ℕ → Bytes → Cas → Cas × List String
  unfolding put_reads
  put_file buf file s = put_reads (length file) buf file s

-- the parallel PUTs; `sent` says which uploads reach the bucket
unfoldable pub upload : (String → Bool) → List (String × Bytes) → Dict Bytes → Dict Bytes
upload sent [] cold = cold
upload sent ((h, comp) ∷ rest) cold =
    upload sent rest (if sent h then insert (key h) comp cold else cold)

unfoldable pub all_sent : (String → Bool) → List (String × Bytes) → Bool
all_sent sent [] = true
all_sent sent ((h, comp) ∷ rest) = sent h && all_sent sent rest

abbrev pub is_nil {ℓ} : {A : Type ℓ} → List A → Bool
is_nil [] = true
is_nil (x ∷ xs) = false

-- `flush_s3`: the queue is emptied before the uploads, and the first failed one is raised.
unfoldable pub flush_s3 : (String → Bool) → Cas → Result ℕ × Cas
unfolding upload all_sent
flush_s3 sent s = if not s.tiered || is_nil s.pending then (ok 0, s) else (
  if all_sent sent s.pending then ok (length s.pending) else err (failure "S3 PUT"),
  record s { pending = []; cold = upload sent s.pending s.cold },
)

-- `zlib.decompress`, as a call that may raise
pub inflate : Option Bytes → Result Bytes
inflate none = err (failure "zlib")
inflate (some blk) = ok blk

-- the cold half of `get`: a hit warms the cache, where there is one
pub from_cold : Codec → String → Option Bytes → Cas → Result Bytes × Cas
from_cold k h none s = (err (failure "S3 GET"), s)
from_cold k h (some comp) s = (
  inflate (k.decompress comp),
  if s.rooted then record s { hot = insert (key h) comp s.hot } else s,
)

pub get_miss : Codec → String → Cas → Result Bytes × Cas
unfolding from_cold inflate
get_miss k h s =
    if s.tiered
    then from_cold k h (lookup (key h) s.cold) s
    else (err (failure "not in hot cache and no S3 tier configured"), s)

-- the file at `p`, if it exists
pub from_hot : Codec → String → Option Bytes → Cas → Result Bytes × Cas
from_hot k h none s = get_miss k h s
from_hot k h (some comp) s = (inflate (k.decompress comp), s)

unfoldable pub get : Codec → String → Cas → Result Bytes × Cas
unfolding from_hot get_miss from_cold inflate
get k h s = from_hot k h (if s.rooted then lookup (key h) s.hot else none) s

pub prepend : Bytes → Result Bytes → Result Bytes
prepend blk (ok tail) = ok (blk ++ tail)
prepend blk (err e) = err e

-- `for h in m["hashes"]: out.write(STORE.get(h))`: the first chunk that cannot be got ends the loop
unfoldable pub read_all : Codec → List String → Cas → Result Bytes × Cas
read_all k [] s = (ok [], s)
read_all k (h ∷ rest) s =
    let (r, s') = get k h s in
    elim r [
      | err e ↦ (err e, s')
      | ok blk ↦ let (tail, s'') = read_all k rest s' in (prepend blk tail, s'')
    ]

-- `stats`: the counters, and the two ratios as fractions, 0 where there is nothing to divide by
pub record Stats : Type 0 where
  pub logical_bytes : ℕ
  pub chunks_total : ℕ
  pub chunks_unique : ℕ
  pub stored_bytes : ℕ
  pub dedup_ratio : ℕ × ℕ
  pub unique_fraction : ℕ × ℕ

abbrev pub fraction : ℕ → ℕ → ℕ × ℕ
fraction a zero = (0, 1)
fraction a (suc b) = (a, suc b)

unfoldable pub stats : Cas → Stats
stats s = record {
  logical_bytes = s.logical;
  chunks_total = s.chunks;
  chunks_unique = length s.index;
  stored_bytes = s.stored;
  dedup_ratio = fraction s.logical s.stored;
  unique_fraction = fraction (length s.index) s.chunks;
}
