-- ===== src/Cas/Restore.antt =====
-- Reading a manifest back: the loop of `_reconstruct_mem` (spikes/engine/kladosd.py) over `get`.
use klados.Base.{
  String, ◌≡◌, refl, ap, ◌∙◌, inl, inr, true, Option, none, some, List, [], ◌∷◌, map, arith, All,
  concat, All-map, if_both, if◌then◌else◌, Option-cases,
}
use klados.Base.Dict.{Dict, lookup, insert, contains, contains-insert}
use klados.Base.Result.{Result, ok}
use klados.Codec.{Bytes, Codec}
use klados.Cas.{Cas, key, get, from_hot, read_all, prepend}
use klados.Cas.Sound.{IsPure, insert-IsPure}
use klados.Cas.Fetch.{InReach, hot_hit, cold_hit}

module _ (k : Codec) where
  -- What a successful `get` leaves: caches that hold what they did, and nothing wrong.
  pub record Warmed (s t : Cas) : Type 0 where
    pub hot_pure : IsPure k t.hot
    pub hot_grows : (p : String) → contains p s.hot ≡ true → contains p t.hot ≡ true
    pub same_cold : t.cold ≡ s.cold
    pub same_rooted : t.rooted ≡ s.rooted
    pub same_tiered : t.tiered ≡ s.tiered

  same-Warmed : (s : Cas) → IsPure k s.hot → Warmed s s
  same-Warmed s h = record {
    hot_pure = h;
    hot_grows = λ p i. i;
    same_cold = refl;
    same_rooted = refl;
    same_tiered = refl;
  }

  insert-Warmed :
      (b c : Bytes) (s : Cas)
      → IsPure k s.hot
      → k.decompress c ≡ some b
      → Warmed s (record s { hot = insert (key (k.hash b)) c s.hot })
  insert-Warmed b c s h e = record {
    hot_pure = insert-IsPure k b c s.hot h e;
    hot_grows = λ p i. contains-insert (key (k.hash b)) p c s.hot i;
    same_cold = refl;
    same_rooted = refl;
    same_tiered = refl;
  }

  abbrev Gets : Bytes → Cas → Result Bytes × Cas → Type 0
  Gets b s (r, t) = (r ≡ ok b) × Warmed s t

  from_cold-Gets :
      (b c : Bytes) (s : Cas)
      → IsPure k s.hot
      → IsPure k s.cold
      → s.tiered ≡ true
      → lookup (key (k.hash b)) s.cold ≡ some c
      → Gets b s (from_hot k (k.hash b) none s)
  from_cold-Gets b c s p q t l =
      let e = q b c l in
      rw (cold_hit k b c s e t l) (
        refl,
        if_both (Warmed s) s.rooted (record s { hot = insert (key (k.hash b)) c s.hot }) s
            (insert-Warmed b c s p e) (same-Warmed s p),
      )

  bucket_hit :
      (b : Bytes) (s : Cas)
      → IsPure k s.hot
      → IsPure k s.cold
      → s.tiered ≡ true
      → contains (key (k.hash b)) s.cold ≡ true
      → Gets b s (from_hot k (k.hash b) none s)
  bucket_hit b s p q t i = elim (Option-cases (lookup (key (k.hash b)) s.cold)) [
    | inl missing ↦ cc
    | inr (c, l) ↦ from_cold-Gets b c s p q t l
  ]

  get_at :
      (h : String) (s : Cas) (o : Option Bytes)
      → (if s.rooted then lookup (key h) s.hot else none) ≡ o
      → get k h s ≡ from_hot k h o s
  unfolding get
  get_at h s o e = ap (λ z. from_hot k h z s) e

  get_hot :
      (b c : Bytes) (s : Cas)
      → IsPure k s.hot
      → s.rooted ≡ true
      → lookup (key (k.hash b)) s.hot ≡ some c
      → Gets b s (get k (k.hash b) s)
  get_hot b c s p r l =
      rw (get_at (k.hash b) s (some c) (ground arith), hot_hit k b c s (p b c l))
        (refl, same-Warmed s p)

  get_miss-Gets :
      (b : Bytes) (s : Cas)
      → (if s.rooted then lookup (key (k.hash b)) s.hot else none) ≡ none
      → Gets b s (from_hot k (k.hash b) none s)
      → Gets b s (get k (k.hash b) s)
  get_miss-Gets b s e g = rw (get_at (k.hash b) s none e) g

  -- A block that is in reach is got back, whole, from either tier.
  pub get-Gets :
      (b : Bytes) (s : Cas)
      → IsPure k s.hot
      → IsPure k s.cold
      → InReach k b s
      → Gets b s (get k (k.hash b) s)
  get-Gets b s p q (inl (r, i)) = elim (Option-cases (lookup (key (k.hash b)) s.hot)) [
    | inl missing ↦ cc
    | inr (c, l) ↦ get_hot b c s p r l
  ]
  get-Gets b s p q (inr (t, i)) =
      elim (Option-cases (if s.rooted then lookup (key (k.hash b)) s.hot else none)) [
        | inl missing ↦ get_miss-Gets b s missing (bucket_hit b s p q t i)
        | inr (c, l) ↦ get_hot b c s p (ground arith) (ground arith)
      ]

  Warmed-InReach : (b : Bytes) (s t : Cas) → Warmed s t → InReach k b s → InReach k b t
  Warmed-InReach b s t w (inl (r, i)) = inl (w.same_rooted ∙ r, w.hot_grows _ i)
  Warmed-InReach b s t w (inr (u, i)) =
      inr (w.same_tiered ∙ u, ap (λ (d : Dict Bytes). contains (key (k.hash b)) d) w.same_cold ∙ i)

  -- A manifest whose blocks are all in reach, in tiers that hold under each block's key only what
  -- decompresses to it, reads back as the blocks, joined.
  pub read_all-concat :
      (bs : List Bytes) (s : Cas)
      → IsPure k s.hot
      → IsPure k s.cold
      → All (λ b. InReach k b s) bs
      → (read_all k (map k.hash bs) s).0 ≡ ok (concat bs)
  unfolding read_all prepend
  read_all-concat [] s p q h = refl
  read_all-concat (b ∷ bs) s p q (here, there) =
      let (r, t) = get k (k.hash b) s in
      let (found, warm) = get-Gets b s p q here in
      let rest = read_all-concat bs t warm.hot_pure (rw warm.same_cold q) (
        All-map (λ c. InReach k c s) (λ c. InReach k c t) bs (λ c. Warmed-InReach c s t warm)
          there) in
      ground (arith, found, rest)
