-- ===== src/Cas/Sound.antt =====
-- What the index promises of the hot cache, the queue and the bucket, and that putting, flushing and
-- getting keep the promise.
use Prim.Native.Char.{Char}
use Prim.Native.String.{◌++◌ as ◌<>◌}
use text.Mathlib.TextLemmas.{cons-append, nil-append}
use klados.Base.{
  ℕ, String, ◌≡◌, refl, sym, ap, ◌∙◌, inl, inr, Bool, true, false, some, List, [], ◌∷◌, ◌++◌, ◌||◌,
  arith, All, ◌≟◌, ≟_iff, if_both, length, Bool-cases,
}
use klados.Base.Dict.{
  Dict, lookup, insert, contains, lookup-insert, contains-insert_self, contains-insert,
  contains-insert_inv,
}
use klados.Codec.{Bytes, Codec}
use klados.Cas.{Cas, init, key, write_if_absent, add_chunk, count_block, put_block}

-- drops the directory of a key
abbrev after_slash : String → String
after_slash (String.◌∷◌ a (String.◌∷◌ b (String.◌∷◌ c r))) = r
after_slash s = s

slash-append : (s : String) → "/" <> s ≡ String.◌∷◌ "/" s
slash-append s = cons-append "/" String.[] s ∙ ap (String.◌∷◌ "/") (nil-append s)

module _ (k : Codec) where
  key-long :
      (h r : String) (c d : Char) → h ≡ String.◌∷◌ c (String.◌∷◌ d r) → after_slash (key h) ≡ h
  unfolding key
  key-long h r c d e = rw e (simp (cons-append, nil-append, slash-append))

  after_slash-key : (b : Bytes) → after_slash (key (k.hash b)) ≡ k.hash b
  after_slash-key b = let (c, d, r, e) = k.hash_long b in key-long (k.hash b) r c d e

  -- two blocks never share a key
  pub key_injective : (a b : Bytes) → key (k.hash a) ≡ key (k.hash b) → a ≡ b
  key_injective a b e =
      k.hash_injective a b (sym (after_slash-key a) ∙ ap after_slash e ∙ after_slash-key b)

  -- Whatever lies under a block's key decompresses to that block.
  abbrev pub IsPure : Dict Bytes → Type 0
  IsPure d = (b c : Bytes) → lookup (key (k.hash b)) d ≡ some c → k.decompress c ≡ some b

  -- a queued upload: a block's digest and its compressed form
  abbrev pub IsChunk : String × Bytes → Type 0
  IsChunk (h, comp) = (b : Bytes) × (h ≡ k.hash b) × (k.decompress comp ≡ some b)

  abbrev pub queued : String → List (String × Bytes) → Bool
  queued h [] = false
  queued h ((j, comp) ∷ rest) = j ≟ h || queued h rest

  pub record IsSound (s : Cas) : Type 0 where
    pub hot_pure : IsPure s.hot
    pub cold_pure : IsPure s.cold
    pub queue_pure : All IsChunk s.pending
    -- an indexed block is in the hot cache, where there is one
    pub kept :
        (b : Bytes)
        → contains (k.hash b) s.index ≡ true
        → s.rooted ≡ true
        → contains (key (k.hash b)) s.hot ≡ true
    -- and it is in the bucket or queued for it, where there is one
    pub shipped :
        (b : Bytes)
        → contains (k.hash b) s.index ≡ true
        → s.tiered ≡ true
        → (contains (key (k.hash b)) s.cold || queued (k.hash b) s.pending) ≡ true

  pub insert-IsPure :
      (x comp : Bytes) (d : Dict Bytes)
      → IsPure d
      → k.decompress comp ≡ some x
      → IsPure (insert (key (k.hash x)) comp d)
  insert-IsPure x comp d pure e b c at_key = elim (Bool-cases (key (k.hash x) ≟ key (k.hash b))) [
    | inl same ↦
        let x_is_b = key_injective x b ((≟_iff (key (k.hash x)) (key (k.hash b))).0 same) in
        ground (
          arith,
          lookup-insert (key (k.hash x)) (key (k.hash b)) comp d,
          at_key,
          e,
          ap (λ (z : Bytes). some z) x_is_b,
        )
    | inr differ ↦
        pure b c (ground (arith, lookup-insert (key (k.hash x)) (key (k.hash b)) comp d, at_key))
  ]

  write_if_absent-IsPure :
      (x comp : Bytes) (d : Dict Bytes)
      → IsPure d
      → k.decompress comp ≡ some x
      → IsPure (write_if_absent (key (k.hash x)) comp d)
  unfolding write_if_absent
  write_if_absent-IsPure x comp d pure e = elim (Bool-cases (contains (key (k.hash x)) d)) [
    | inl old ↦ rw old pure
    | inr new ↦ rw new (insert-IsPure x comp d pure e)
  ]

  pub queued-append :
      (h j : String) (c : Bytes) (q : List (String × Bytes))
      → queued h (q ++ (j, c) ∷ []) ≡ (queued h q || j ≟ h)
  queued-append h j c [] = ground arith
  queued-append h j c ((i, d) ∷ q) = ground (arith, queued-append h j c q)

  All-snoc :
      (q : List (String × Bytes)) (x : String × Bytes)
      → All IsChunk q
      → IsChunk x
      → All IsChunk (q ++ x ∷ [])
  All-snoc [] x h p = (p, tt)
  All-snoc (y ∷ q) x h p = (h.0, All-snoc q x h.1 p)

  write_if_absent_self :
      (p : String) (c : Bytes) (d : Dict Bytes) → contains p (write_if_absent p c d) ≡ true
  unfolding write_if_absent
  write_if_absent_self p c d = elim (Bool-cases (contains p d)) [
    | inl old ↦ rw old old
    | inr new ↦ rw new (contains-insert_self p c d)
  ]

  pub write_if_absent_grows :
      (p j : String) (c : Bytes) (d : Dict Bytes)
      → contains j d ≡ true
      → contains j (write_if_absent p c d) ≡ true
  unfolding write_if_absent
  write_if_absent_grows p j c d h =
      if_both (λ z. contains j z ≡ true) (contains p d) d (insert p c d) h
        (contains-insert p j c d h)

  -- a new block, written wherever the store writes
  add_chunk-IsSound :
      (x comp : Bytes) (s : Cas)
      → k.decompress comp ≡ some x
      → IsSound s
      → IsSound (add_chunk (k.hash x) comp s)
  unfolding add_chunk
  add_chunk-IsSound x comp s e h = record {
    hot_pure =
        if_both IsPure s.rooted (write_if_absent (key (k.hash x)) comp s.hot) s.hot
          (write_if_absent-IsPure x comp s.hot h.hot_pure e) h.hot_pure;
    cold_pure = h.cold_pure;
    queue_pure =
        if_both (All IsChunk) s.tiered (s.pending ++ (k.hash x, comp) ∷ []) s.pending
          (All-snoc s.pending (k.hash x, comp) h.queue_pure (x, refl, e)) h.queue_pure;
    kept = λ b i r. rw r (elim (contains-insert_inv (k.hash x) (k.hash b) (length comp) s.index i) [
      | inl same ↦ rw (← same) (write_if_absent_self (key (k.hash x)) comp s.hot)
      | inr old ↦ write_if_absent_grows (key (k.hash x)) _ comp s.hot (h.kept b old r)
    ]);
    shipped = λ b i t.
        rw (t, queued-append (k.hash b) (k.hash x) comp s.pending)
          (elim (contains-insert_inv (k.hash x) (k.hash b) (length comp) s.index i) [
            | inl same ↦ ground (arith, ≟_iff (k.hash x) (k.hash b))
            | inr old ↦ ground (arith, h.shipped b old t)
          ]);
  }

  pub put_block-IsSound : (x : Bytes) (s : Cas) → IsSound s → IsSound (put_block k x s)
  unfolding put_block count_block
  put_block-IsSound x s h =
      if_both IsSound (contains (k.hash x) s.index) (count_block x s)
        (add_chunk (k.hash x) (k.compress s.level x) (count_block x s))
        (record {
          hot_pure = h.hot_pure;
          cold_pure = h.cold_pure;
          queue_pure = h.queue_pure;
          kept = h.kept;
          shipped = h.shipped;
        })
        (add_chunk-IsSound x (k.compress s.level x) (count_block x s)
          (k.decompress-compress s.level x)
          (record {
            hot_pure = h.hot_pure;
            cold_pure = h.cold_pure;
            queue_pure = h.queue_pure;
            kept = h.kept;
            shipped = h.shipped;
          }))

  empty-IsPure : IsPure []
  unfolding lookup
  empty-IsPure b c e = cc

  -- a new store with no files and no objects
  pub init-IsSound :
      (block : ℕ) (cdc : Bool) (level : ℕ) (rooted tiered : Bool)
      → IsSound (init block cdc level rooted tiered [] [])
  unfolding lookup
  init-IsSound block cdc level rooted tiered = record {
    hot_pure = empty-IsPure;
    cold_pure = empty-IsPure;
    queue_pure = tt;
    kept = λ b i r. cc;
    shipped = λ b i t. cc;
  }
