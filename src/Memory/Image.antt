-- ===== src/Memory/Image.antt =====
-- A snapshot's memory image survives its chunking, later snapshots, and the loss of the hot cache.
use klados.Base.{
  ℕ, ◌<◌, String, ◌≡◌, refl, sym, ap, ◌∙◌, ◌⊎◌, inl, inr, Bool, true, none, some, List, [], ◌∷◌,
  map, arith, All, concat, not, ◌||◌, All-map, Bool-cases, length,
}
use klados.Base.Dict.{contains}
use klados.Base.Result.{Result, ok, err}
use klados.Codec.{Bytes, Codec}
use klados.Cas.{Cas, key, put_file, flush_s3, all_sent, is_nil}
use klados.Cas.Sound.{IsSound, IsPure}
use klados.Cas.Put.{Stores, put_file-blocks, put_file-Stores, put_file-manifest, put_file-concat}
use klados.Cas.Fetch.{InReach, Flushed, flush_s3-Flushed}
use klados.Cas.Restore.{read_all-concat}
use klados.Memory.{MemFiles, buf, chunk_mem, chunk_image, seal, reconstruct_mem}

module _ (k : Codec) where
  -- The cold form of an image: a manifest of blocks, all in reach, that make it.
  pub record HasManifest (s : Cas) (files : MemFiles) (image : Bytes) : Type 0 where
    pub pieces : List Bytes
    pub manifest : files.manifest ≡ some (map k.hash pieces)
    pub whole : concat pieces ≡ image
    pub in_reach : All (λ b. InReach k b s) pieces

  -- A snapshot's directory holds an image: as the raw file, or in cold form.
  abbrev pub Holds : Cas → MemFiles → Bytes → Type 0
  Holds s files image = (files.mem ≡ some image) ⊎ ((files.mem ≡ none) × HasManifest s files image)

  stored-InReach :
      (s t u : Cas) (bs : List Bytes)
      → (s.rooted ≡ true) ⊎ (s.tiered ≡ true)
      → Stores k s bs t
      → Flushed k t u
      → (b : Bytes) → contains (k.hash b) t.index ≡ true
      → InReach k b u
  stored-InReach s t u bs (inl r) st fl b i =
      let r' : t.rooted ≡ true = sym st.settings.rooted ∙ r in
      inl (fl.same_rooted ∙ r', rw fl.same_hot (st.sound.kept b i r'))
  stored-InReach s t u bs (inr w) st fl b i =
      let w' : t.tiered ≡ true = sym st.settings.tiered ∙ w in
      inr (fl.same_tiered ∙ w', fl.in_bucket b (rw fl.same_index i) (fl.same_tiered ∙ w'))

  sealed_ok :
      (logical n : ℕ) (hashes : List String) (files : MemFiles) (r : Result ℕ) (s : Cas)
      → (seal logical hashes files r s).0 ≡ ok n
      → (m : ℕ) × (r ≡ ok m) × (n ≡ logical)
  unfolding seal
  sealed_ok logical n hashes files (err e) s h = cc
  sealed_ok logical n hashes files (ok j) s h = (j, refl, cc)

  -- What a successful `_chunk_mem` has done with the image `image`.
  pub record Chunked (s t : Cas) (files : MemFiles) (image : Bytes) (n : ℕ) : Type 0 where
    pub logical : n ≡ length image
    pub raw_removed : files.mem ≡ none
    pub sound : IsSound k t
    pub same_tiers : (t.rooted ≡ s.rooted) × (t.tiered ≡ s.tiered)
    pub holds : HasManifest t files image
    -- and the bucket, where there is one, has every chunk of it
    pub shipped : t.tiered ≡ true → All (λ b. contains (key (k.hash b)) t.cold ≡ true) holds.pieces
    -- what was in reach is in reach still
    pub keeps : (b : Bytes) → InReach k b s → InReach k b t

  keeps_reach :
      (s t u : Cas) (bs : List Bytes) (b : Bytes)
      → Stores k s bs t
      → Flushed k t u
      → InReach k b s
      → InReach k b u
  keeps_reach s t u bs b st fl (inl (r, i)) =
      inl (fl.same_rooted ∙ sym st.settings.rooted ∙ r, rw fl.same_hot (st.hot_grows _ i))
  keeps_reach s t u bs b st fl (inr (w, i)) =
      inr (fl.same_tiered ∙ sym st.settings.tiered ∙ w, fl.cold_grows _ (rw st.same_cold i))

  flushed_image :
      (sent : String → Bool) (image : Bytes) (s : Cas) (n : ℕ)
      → IsSound k s
      → 0 < s.block
      → (s.rooted ≡ true) ⊎ (s.tiered ≡ true)
      → (flush_s3 sent (put_file k buf image s).0).0 ≡ ok n
      → Chunked s
          (flush_s3 sent (put_file k buf image s).0).1
          (record { mem = none; manifest = some (put_file k buf image s).1 })
          image
          (length image)
  flushed_image sent image s n h p tier r =
      let t = (put_file k buf image s).0 in
      let bs = put_file-blocks k buf image s in
      let st = put_file-Stores k buf image s h in
      let fl = flush_s3-Flushed k sent t n st.sound r in
      record {
        logical = refl;
        raw_removed = refl;
        sound = fl.sound;
        same_tiers =
            (fl.same_rooted ∙ sym st.settings.rooted, fl.same_tiered ∙ sym st.settings.tiered);
        holds = record {
          pieces = bs;
          manifest = ap some (put_file-manifest k buf image s h);
          whole = put_file-concat k buf image s p (omega arith);
          in_reach =
              All-map (λ b. contains (k.hash b) t.index ≡ true)
                (λ b. InReach k b (flush_s3 sent t).1) bs
                (stored-InReach s t (flush_s3 sent t).1 bs tier st fl) st.new;
        };
        shipped = λ w.
            All-map (λ b. contains (k.hash b) t.index ≡ true)
              (λ b. contains (key (k.hash b)) (flush_s3 sent t).1.cold ≡ true) bs
              (λ b i. fl.in_bucket b (rw fl.same_index i) w) st.new;
        keeps = λ b. keeps_reach s t (flush_s3 sent t).1 bs b st fl;
      }

  chunk_image-Chunked :
      (sent : String → Bool) (files : MemFiles) (image : Bytes) (s : Cas) (n : ℕ)
      → IsSound k s
      → 0 < s.block
      → (s.rooted ≡ true) ⊎ (s.tiered ≡ true)
      → (chunk_image k sent files (some image) s).0 ≡ ok n
      → let (_, files', t) = chunk_image k sent files (some image) s in Chunked s t files' image n
  unfolding chunk_image
  chunk_image-Chunked sent files image s n h p tier e =
      let hashes = (put_file k buf image s).1 in
      let flushed = flush_s3 sent (put_file k buf image s).0 in
      let (m, r, l) = sealed_ok (length image) n hashes files flushed.0 flushed.1 e in
      rw (r, l) (flushed_image sent image s m h p tier r)

  -- `_chunk_mem`, when it returns, has turned the raw image into a manifest of chunks that are in
  -- reach and make the image; the store is still sound and every block in reach before is so still.
  pub chunk_mem-Chunked :
      (sent : String → Bool) (files : MemFiles) (image : Bytes) (s : Cas) (n : ℕ)
      → IsSound k s
      → 0 < s.block
      → (s.rooted ≡ true) ⊎ (s.tiered ≡ true)
      → files.mem ≡ some image
      → (chunk_mem k sent files s).0 ≡ ok n
      → let (_, files', t) = chunk_mem k sent files s in Chunked s t files' image n
  unfolding chunk_mem
  chunk_mem-Chunked sent files image s n h p tier m e =
      simp m (chunk_image-Chunked sent files image s n h p tier (simp m at e))

  all_sent_if :
      (sent : String → Bool) (q : List (String × Bytes))
      → ((h : String) → sent h ≡ true)
      → all_sent sent q ≡ true
  unfolding all_sent
  all_sent_if sent [] all = refl
  all_sent_if sent ((h, comp) ∷ rest) all = rw (all h) (all_sent_if sent rest all)

  flush_s3_returns :
      (sent : String → Bool) (s : Cas)
      → ((h : String) → sent h ≡ true)
      → (n : ℕ) × ((flush_s3 sent s).0 ≡ ok n)
  unfolding flush_s3
  flush_s3_returns sent s all = elim (Bool-cases (not s.tiered || is_nil s.pending)) [
    | inl idle ↦ (0, rw idle refl)
    | inr busy ↦ (length s.pending, rw (busy, all_sent_if sent s.pending all) refl)
  ]

  seal_returns :
      (logical n : ℕ) (hashes : List String) (files : MemFiles) (r : Result ℕ) (s : Cas)
      → r ≡ ok n
      → (seal logical hashes files r s).0 ≡ ok logical
  unfolding seal
  seal_returns logical n hashes files r s e = rw e refl

  -- `_chunk_mem` returns the image's length if the raw image is there and every upload goes through.
  pub chunk_mem_returns :
      (sent : String → Bool) (files : MemFiles) (image : Bytes) (s : Cas)
      → ((h : String) → sent h ≡ true)
      → files.mem ≡ some image
      → (chunk_mem k sent files s).0 ≡ ok (length image)
  unfolding chunk_mem chunk_image
  chunk_mem_returns sent files image s all m =
      let (s', hashes) = put_file k buf image s in
      let (n, e) = flush_s3_returns sent s' all in
      simp m
        (seal_returns (length image) n hashes files (flush_s3 sent s').0 (flush_s3 sent s').1 e)

  -- What `_reconstruct_mem` has done.
  pub record Rebuilt (files' : MemFiles) (image : Bytes) (r : Result (Unit {0})) : Type 0 where
    pub returned : r ≡ ok tt
    pub hot_form : files'.mem ≡ some image

  -- `_reconstruct_mem` returns on a directory that holds an image, and leaves the raw image there.
  pub reconstruct_mem-Rebuilt :
      (files : MemFiles) (image : Bytes) (s : Cas)
      → IsPure k s.hot
      → IsPure k s.cold
      → Holds s files image
      → let (r, files', _) = reconstruct_mem k files s in Rebuilt files' image r
  unfolding reconstruct_mem
  reconstruct_mem-Rebuilt files image s p q (inl raw) =
      rw raw (record { returned = refl; hot_form = refl })
  reconstruct_mem-Rebuilt files image s p q (inr (gone, h)) =
      let read = read_all-concat k h.pieces s p q h.in_reach in
      rw (gone, h.manifest, read, h.whole) (record { returned = refl; hot_form = refl })
