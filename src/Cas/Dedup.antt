-- ===== src/Cas/Dedup.antt =====
-- Data that is indexed already costs nothing but the counting; and what a failed flush loses.
use mathlib.Core.Path.{ap₂}
use klados.Base.{
  ℕ, ◌+◌, ◌<◌, String, ◌≡◌, refl, sym, ap, ◌∙◌, Bool, true, false, inl, inr, List, [], ◌∷◌, arith,
  All, concat, length, length-append, if◌then◌else◌, ◌≟◌, ≟_iff, Bool-cases,
}
use klados.Base.Dict.{Dict, insert, contains, lookup-insert}
use klados.Base.Result.{err, failure}
use klados.Codec.{Bytes, Codec}
use klados.Chunking.{blocks}
use klados.Chunking.Lossless.{blocks-concat}
use klados.Cas.{
  Cas, key, count_block, put_block, put_blocks, put_bytes, upload, all_sent, flush_s3, is_nil,
}
use klados.Cas.Sound.{IsSound, IsChunk, queued, key_injective}
use klados.Cas.Put.{Indexed, put_bytes-Stores}

module _ (k : Codec) where
  -- The store with more bytes and chunks counted, and nothing else changed.
  abbrev pub counted : ℕ → ℕ → Cas → Cas
  counted bytes n s = record s { logical = s.logical + bytes; chunks = s.chunks + n }

  put_known : (x : Bytes) (s : Cas) → Indexed k s x → put_block k x s ≡ count_block x s
  unfolding put_block
  put_known x s h = rw h refl

  put_blocks_known :
      (bs : List Bytes) (s : Cas)
      → All (Indexed k s) bs
      → (put_blocks k bs s).0 ≡ counted (length (concat bs)) (length bs) s
  unfolding put_blocks count_block
  put_blocks_known [] s h = ground arith
  put_blocks_known (x ∷ bs) s (here, there) =
      rw (put_known x s here)
        (put_blocks_known bs (count_block x s) there ∙ ground (arith, length-append x (concat bs)))

  put_bytes_known :
      (block : ℕ) (cdc : Bool) (xs : Bytes) (t : Cas)
      → 0 < block
      → t.block ≡ block
      → t.cdc ≡ cdc
      → All (Indexed k t) (blocks k block cdc xs)
      → (put_bytes k xs t).0 ≡ counted (length xs) (length (blocks k block cdc xs)) t
  unfolding put_bytes
  put_bytes_known block cdc xs t p e c h =
      let bs = blocks k block cdc xs in
      ap₂ (λ n d. (put_blocks k (blocks k n d xs) t).0) e c
      ∙ put_blocks_known bs t h
      ∙ ap (λ (l : Bytes). counted (length l) (length bs) t) (blocks-concat k block cdc xs p)

  -- In a sound store with a block size above zero, putting bytes a second time changes nothing but
  -- the counts: no chunk is compressed, written or queued again.
  pub put_bytes_twice :
      (xs : Bytes) (s : Cas)
      → 0 < s.block
      → IsSound k s
      → let t = (put_bytes k xs s).0 in
        (put_bytes k xs t).0 ≡ counted (length xs) (length (blocks k s.block s.cdc xs)) t
  put_bytes_twice xs s p h =
      let st = put_bytes-Stores k s.block s.cdc xs s refl refl h in
      put_bytes_known s.block s.cdc xs (put_bytes k xs s).0 p (sym st.settings.block)
        (sym st.settings.cdc) st.new

  never_uploaded :
      (sent : String → Bool) (b : Bytes) (q : List (String × Bytes)) (d : Dict Bytes)
      → All (IsChunk k) q
      → sent (k.hash b) ≡ false
      → contains (key (k.hash b)) d ≡ false
      → contains (key (k.hash b)) (upload sent q d) ≡ false
  unfolding upload
  never_uploaded sent b [] d h n e = e
  never_uploaded sent b ((j, comp) ∷ q) d ((c, hc, z), h) n e =
      never_uploaded sent b q (if sent j then insert (key j) comp d else d) h n
        (elim (Bool-cases (key j ≟ key (k.hash b))) [
          | inl same ↦
              let c_is_b =
                key_injective k c b (rw hc at ((≟_iff (key j) (key (k.hash b))).0 same)) in
              let unsent : sent j ≡ false = ap sent (hc ∙ ap k.hash c_is_b) ∙ n in rw unsent e
          | inr differ ↦ ground (arith, lookup-insert (key j) (key (k.hash b)) comp d)
        ])

  unsent_fails :
      (sent : String → Bool) (h : String) (q : List (String × Bytes))
      → sent h ≡ false
      → queued k h q ≡ true
      → all_sent sent q ≡ false
  unfolding all_sent
  unsent_fails sent h [] n e = cc
  unsent_fails sent h ((j, comp) ∷ q) n e =
      ground (arith, unsent_fails sent h q n, ≟_iff j h, λ (z : j ≡ h). ap sent z)

  not_nil : (h : String) (q : List (String × Bytes)) → is_nil q ≡ true → queued k h q ≡ true → ⊥
  not_nil h [] e w = cc
  not_nil h (x ∷ q) e w = cc

  flush_fails :
      (sent : String → Bool) (h : String) (s : Cas)
      → s.tiered ≡ true
      → queued k h s.pending ≡ true
      → all_sent sent s.pending ≡ false
      → flush_s3 sent s
        ≡ (err (failure "S3 PUT"), record s { pending = []; cold = upload sent s.pending s.cold })
  unfolding flush_s3
  flush_fails sent h s t q f = elim (Bool-cases (is_nil s.pending)) [
    | inl empty ↦ absurd (not_nil h s.pending empty q)
    | inr busy ↦ simp (t, busy, f)
  ]

  -- In a sound store with an S3 tier, an indexed block that is not in the bucket, and whose upload
  -- fails, is lost to the cold tier: the flush raises, the queue is gone, and putting the same
  -- block again neither uploads nor queues it.
  pub flush_s3_loses :
      (sent : String → Bool) (b : Bytes) (s : Cas)
      → IsSound k s
      → s.tiered ≡ true
      → Indexed k s b
      → contains (key (k.hash b)) s.cold ≡ false
      → sent (k.hash b) ≡ false
      → let (r, t) = flush_s3 sent s in
        let u = put_block k b t in
        (r ≡ err (failure "S3 PUT"))
        × (contains (key (k.hash b)) u.cold ≡ false)
        × (queued k (k.hash b) u.pending ≡ false)
  unfolding count_block
  flush_s3_loses sent b s h t i absent n =
      let waits : queued k (k.hash b) s.pending ≡ true = ground (arith, h.shipped b i t) in
      let fails = unsent_fails sent (k.hash b) s.pending n waits in
      let gone = never_uploaded sent b s.pending s.cold h.queue_pure n absent in
      let after = record s { pending = []; cold = upload sent s.pending s.cold } in
      rw (flush_fails sent (k.hash b) s t waits fails, put_known b after i) (refl, gone, refl)
