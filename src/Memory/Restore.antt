-- ===== src/Memory/Restore.antt =====
-- Restoring a chunked memory image: on the same daemon, after later snapshots, after a restart.
use klados.Base.{
  ℕ, ◌<◌, String, ◌≡◌, ◌∙◌, ◌⊎◌, inl, inr, Bool, true, none, some, [], All-map, length,
}
use klados.Base.Dict.{contains, lookup}
use klados.Base.Result.{ok}
use klados.Codec.{Bytes, Codec}
use klados.Cas.{Cas, init, key}
use klados.Cas.Sound.{IsSound, IsPure}
use klados.Cas.Fetch.{InReach}
use klados.Memory.{MemFiles, chunk_mem, reconstruct_mem}
use klados.Memory.Image.{
  HasManifest, Holds, chunk_mem-Chunked, chunk_mem_returns, reconstruct_mem-Rebuilt,
}

module _ (k : Codec) where
  -- On a sound store with a block size above zero and with a disk cache or an S3 tier: if the raw
  -- image is there and `_chunk_mem` returns, `_reconstruct_mem` afterwards gives back that image,
  -- and the logical size that was returned is the image's length.
  pub reconstruct_mem-chunk_mem :
      (sent : String → Bool) (files : MemFiles) (image : Bytes) (s : Cas) (n : ℕ)
      → IsSound k s
      → 0 < s.block
      → (s.rooted ≡ true) ⊎ (s.tiered ≡ true)
      → files.mem ≡ some image
      → (chunk_mem k sent files s).0 ≡ ok n
      → let (_, files', t) = chunk_mem k sent files s in
        let (r, files'', _) = reconstruct_mem k files' t in
        (n ≡ length image) × (files'.mem ≡ none) × (r ≡ ok tt) × (files''.mem ≡ some image)
  reconstruct_mem-chunk_mem sent files image s n h p tier m e =
      let (_, files', t) = chunk_mem k sent files s in
      let done = chunk_mem-Chunked k sent files image s n h p tier m e in
      let back =
        reconstruct_mem-Rebuilt k files' image t done.sound.hot_pure done.sound.cold_pure
          (inr (done.raw_removed, done.holds)) in
      (done.logical, done.raw_removed, back.returned, back.hot_form)

  -- On a sound store with a block size above zero and with a disk cache or an S3 tier, if the raw image
  -- is there and every upload goes through: `_chunk_mem` returns the image's length, has removed the raw
  -- image, and has left a manifest of blocks that make the image and are all in reach of the store, which
  -- is sound still.
  pub chunk_mem_completes :
      (sent : String → Bool) (files : MemFiles) (image : Bytes) (s : Cas)
      → IsSound k s
      → 0 < s.block
      → (s.rooted ≡ true) ⊎ (s.tiered ≡ true)
      → files.mem ≡ some image
      → ((h : String) → sent h ≡ true)
      → let (r, files', t) = chunk_mem k sent files s in
        (r ≡ ok (length image)) × (files'.mem ≡ none) × IsSound k t × HasManifest k t files' image
  chunk_mem_completes sent files image s h p tier m all =
      let returns = chunk_mem_returns k sent files image s all m in
      let done = chunk_mem-Chunked k sent files image s (length image) h p tier m returns in
      (returns, done.raw_removed, done.sound, done.holds)

  -- a new daemon over the same bucket: an empty cache and an empty index
  abbrev pub restart : Cas → Cas
  restart s = init s.block s.cdc s.level s.rooted s.tiered [] s.cold

  empty-IsPure : IsPure k []
  unfolding lookup
  empty-IsPure b c e = cc

  -- On a sound store with a block size above zero and an S3 tier: if the raw image is there and
  -- `_chunk_mem` returns, the image is given back by a new daemon too, whose cache and index are
  -- empty.
  pub reconstruct_mem-restart :
      (sent : String → Bool) (files : MemFiles) (image : Bytes) (s : Cas) (n : ℕ)
      → IsSound k s
      → 0 < s.block
      → s.tiered ≡ true
      → files.mem ≡ some image
      → (chunk_mem k sent files s).0 ≡ ok n
      → let (_, files', t) = chunk_mem k sent files s in
        let (r, files'', _) = reconstruct_mem k files' (restart t) in
        (r ≡ ok tt) × (files''.mem ≡ some image)
  reconstruct_mem-restart sent files image s n h p tier m e =
      let (_, files', t) = chunk_mem k sent files s in
      let done = chunk_mem-Chunked k sent files image s n h p (inr tier) m e in
      let tiered : t.tiered ≡ true = done.same_tiers.1 ∙ tier in
      let cold : HasManifest k (restart t) files' image = record {
        pieces = done.holds.pieces;
        manifest = done.holds.manifest;
        whole = done.holds.whole;
        in_reach =
            All-map (λ b. contains (key (k.hash b)) t.cold ≡ true) (λ b. InReach k b (restart t))
              done.holds.pieces (λ b i. inr (tiered, i)) (done.shipped tiered);
      } in
      let back =
        reconstruct_mem-Rebuilt k files' image (restart t) empty-IsPure done.sound.cold_pure
          (inr (done.raw_removed, cold)) in
      (back.returned, back.hot_form)

  -- On a sound store with a block size above zero and with a disk cache or an S3 tier: a snapshot
  -- that holds an image holds it still after a `_chunk_mem` of another snapshot's image has
  -- returned.
  pub Holds-chunk_mem :
      (sent : String → Bool) (files other : MemFiles) (image image' : Bytes) (s : Cas) (n : ℕ)
      → IsSound k s
      → 0 < s.block
      → (s.rooted ≡ true) ⊎ (s.tiered ≡ true)
      → other.mem ≡ some image'
      → (chunk_mem k sent other s).0 ≡ ok n
      → Holds k s files image
      → let (_, _, t) = chunk_mem k sent other s in Holds k t files image
  Holds-chunk_mem sent files other image image' s n h p tier m e (inl raw) = inl raw
  Holds-chunk_mem sent files other image image' s n h p tier m e (inr (gone, held)) =
      let (_, _, t) = chunk_mem k sent other s in
      let done = chunk_mem-Chunked k sent other image' s n h p tier m e in
      inr (
        gone,
        record {
          pieces = held.pieces;
          manifest = held.manifest;
          whole = held.whole;
          in_reach =
              All-map (λ b. InReach k b s) (λ b. InReach k b t) held.pieces done.keeps
                held.in_reach;
        },
      )
