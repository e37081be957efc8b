-- ===== src/Cas/Put.antt =====
-- `put_bytes` and `put_file`: what the manifest names, and what is indexed afterwards.
use klados.Base.{
  ℕ, zero, suc, ◌<◌, ◌≤◌, String, ◌≡◌, refl, sym, ap, ◌∙◌, Bool, true, List, [], ◌∷◌, ◌++◌, map,
  arith, All, length, take, drop, concat, concat-append, length-drop, take-append-drop, All-append,
  All-map, if_both,
}
use mathlib.Core.List.{map-append}
use klados.Base.Dict.{contains, contains-insert_self, contains-insert}
use klados.Codec.{Bytes, Codec}
use klados.Chunking.{blocks}
use klados.Chunking.Lossless.{blocks-concat}
use klados.Cas.{
  key, write_if_absent, Cas, add_chunk, count_block, put_block, put_blocks, put_bytes, put_reads,
  put_file,
}
use klados.Cas.Sound.{IsSound, put_block-IsSound, write_if_absent_grows}

-- The settings of a store, which no operation changes.
pub record SameSettings (s t : Cas) : Type 0 where
  pub block : s.block ≡ t.block
  pub cdc : s.cdc ≡ t.cdc
  pub level : s.level ≡ t.level
  pub rooted : s.rooted ≡ t.rooted
  pub tiered : s.tiered ≡ t.tiered

SameSettings-trans : {s t u : Cas} → SameSettings s t → SameSettings t u → SameSettings s u
SameSettings-trans h g = record {
  block = h.block ∙ g.block;
  cdc = h.cdc ∙ g.cdc;
  level = h.level ∙ g.level;
  rooted = h.rooted ∙ g.rooted;
  tiered = h.tiered ∙ g.tiered;
}

module _ (k : Codec) where
  abbrev pub Indexed : Cas → Bytes → Type 0
  Indexed s b = contains (k.hash b) s.index ≡ true

  pub put_block-Indexed : (x : Bytes) (s : Cas) → Indexed (put_block k x s) x
  unfolding put_block add_chunk count_block
  put_block-Indexed x s =
      ground (arith, contains-insert_self (k.hash x) (length (k.compress s.level x)) s.index)

  put_block_grows : (x b : Bytes) (s : Cas) → Indexed s b → Indexed (put_block k x s) b
  unfolding put_block add_chunk count_block
  put_block_grows x b s h =
      ground
        (arith, contains-insert (k.hash x) (k.hash b) (length (k.compress s.level x)) s.index h)

  put_block-SameSettings : (x : Bytes) (s : Cas) → SameSettings s (put_block k x s)
  unfolding put_block add_chunk count_block
  put_block-SameSettings x s = ground arith

  -- What a run of puts has done: the store is sound and has every block of `bs`, what it had before
  -- too, and its settings.
  pub record Stores (s : Cas) (bs : List Bytes) (t : Cas) : Type 0 where
    pub sound : IsSound k t
    pub new : All (Indexed t) bs
    pub old : (b : Bytes) → Indexed s b → Indexed t b
    pub settings : SameSettings s t
    pub hot_grows : (p : String) → contains p s.hot ≡ true → contains p t.hot ≡ true
    pub same_cold : t.cold ≡ s.cold

  put_block_hot :
      (x : Bytes) (s : Cas) (p : String)
      → contains p s.hot ≡ true
      → contains p (put_block k x s).hot ≡ true
  unfolding put_block add_chunk count_block
  put_block_hot x s p h =
      let comp = k.compress s.level x in
      let kept = write_if_absent_grows k (key (k.hash x)) p comp s.hot h in
      if_both (λ (t : Cas). contains p t.hot ≡ true) (contains (k.hash x) s.index) (count_block x s)
        (add_chunk (k.hash x) comp (count_block x s)) h
        (if_both (λ d. contains p d ≡ true) s.rooted (write_if_absent (key (k.hash x)) comp s.hot)
          s.hot kept h)

  put_block_cold : (x : Bytes) (s : Cas) → (put_block k x s).cold ≡ s.cold
  unfolding put_block add_chunk count_block
  put_block_cold x s = ground arith

  put_blocks-Stores : (bs : List Bytes) (s : Cas) → IsSound k s → Stores s bs (put_blocks k bs s).0
  unfolding put_blocks
  put_blocks-Stores [] s h = record {
    sound = h;
    new = tt;
    old = λ b i. i;
    settings = record { block = refl; cdc = refl; level = refl; rooted = refl; tiered = refl };
    hot_grows = λ p i. i;
    same_cold = refl;
  }
  put_blocks-Stores (x ∷ bs) s h =
      let rest = put_blocks-Stores bs (put_block k x s) (put_block-IsSound k x s h) in
      record {
        sound = rest.sound;
        new = (rest.old x (put_block-Indexed x s), rest.new);
        old = λ b i. rest.old b (put_block_grows x b s i);
        settings = SameSettings-trans (put_block-SameSettings x s) rest.settings;
        hot_grows = λ p i. rest.hot_grows p (put_block_hot x s p i);
        same_cold = rest.same_cold ∙ put_block_cold x s;
      }

  put_blocks-manifest : (bs : List Bytes) (s : Cas) → (put_blocks k bs s).1 ≡ map k.hash bs
  unfolding put_blocks
  put_blocks-manifest [] s = refl
  put_blocks-manifest (x ∷ bs) s = rw (put_blocks-manifest bs (put_block k x s))

  -- the blocks that `put_file` makes of a file: each read is cut by itself
  pub file_blocks : ℕ → ℕ → Bool → ℕ → Bytes → List Bytes
  file_blocks zero block cdc buf file = []
  file_blocks (suc fuel) block cdc buf [] = []
  file_blocks (suc fuel) block cdc buf (b ∷ file) =
      blocks k block cdc (take buf (b ∷ file))
      ++ file_blocks fuel block cdc buf (drop buf (b ∷ file))

  file_blocks-concat :
      (fuel block : ℕ) (cdc : Bool) (buf : ℕ) (file : Bytes)
      → 0 < block
      → 0 < buf
      → length file ≤ fuel
      → concat (file_blocks fuel block cdc buf file) ≡ file
  unfolding file_blocks
  file_blocks-concat zero block cdc buf [] p q h = refl
  file_blocks-concat zero block cdc buf (b ∷ file) p q h = absurd (omega arith)
  file_blocks-concat (suc fuel) block cdc buf [] p q h = refl
  file_blocks-concat (suc fuel) block cdc buf (b ∷ file) p q h =
      rw
        (
          concat-append (blocks k block cdc (take buf (b ∷ file)))
              (file_blocks fuel block cdc buf (drop buf (b ∷ file))),
          blocks-concat k block cdc (take buf (b ∷ file)) p,
          file_blocks-concat fuel block cdc buf (drop buf (b ∷ file)) p q
              (omega (arith, length-drop buf (b ∷ file))),
        )
        (take-append-drop buf (b ∷ file))

  Stores-trans :
      (bs cs : List Bytes) {s t u : Cas} → Stores s bs t → Stores t cs u → Stores s (bs ++ cs) u
  Stores-trans bs cs {t} {u} h g = record {
    sound = g.sound;
    new = All-append (Indexed u) bs cs (All-map (Indexed t) (Indexed u) bs g.old h.new) g.new;
    old = λ b i. g.old b (h.old b i);
    settings = SameSettings-trans h.settings g.settings;
    hot_grows = λ p i. g.hot_grows p (h.hot_grows p i);
    same_cold = g.same_cold ∙ h.same_cold;
  }

  module _ (block : ℕ) (cdc : Bool) where
    pub put_bytes-Stores :
        (xs : Bytes) (s : Cas)
        → s.block ≡ block
        → s.cdc ≡ cdc
        → IsSound k s
        → Stores s (blocks k block cdc xs) (put_bytes k xs s).0
    unfolding put_bytes
    put_bytes-Stores xs s e c h = rw (← e, ← c) (put_blocks-Stores (blocks k s.block s.cdc xs) s h)

    put_bytes-manifest :
        (xs : Bytes) (s : Cas)
        → s.block ≡ block
        → s.cdc ≡ cdc
        → (put_bytes k xs s).1 ≡ map k.hash (blocks k block cdc xs)
    unfolding put_bytes
    put_bytes-manifest xs s e c = rw (← e, ← c) (put_blocks-manifest (blocks k s.block s.cdc xs) s)

    put_reads-Stores :
        (fuel buf : ℕ) (file : Bytes) (s : Cas)
        → s.block ≡ block
        → s.cdc ≡ cdc
        → IsSound k s
        → Stores s (file_blocks fuel block cdc buf file) (put_reads k fuel buf file s).0
    unfolding put_reads file_blocks
    put_reads-Stores zero buf file s e c h = put_blocks-Stores [] s h
    put_reads-Stores (suc fuel) buf [] s e c h = put_blocks-Stores [] s h
    put_reads-Stores (suc fuel) buf (b ∷ file) s e c h =
        let piece = take buf (b ∷ file) in
        let first = put_bytes-Stores piece s e c h in
        Stores-trans (blocks k block cdc piece)
          (file_blocks fuel block cdc buf (drop buf (b ∷ file))) first
          (put_reads-Stores fuel buf (drop buf (b ∷ file)) (put_bytes k piece s).0
            (sym first.settings.block ∙ e) (sym first.settings.cdc ∙ c) first.sound)

    put_reads-manifest :
        (fuel buf : ℕ) (file : Bytes) (s : Cas)
        → s.block ≡ block
        → s.cdc ≡ cdc
        → IsSound k s
        → (put_reads k fuel buf file s).1 ≡ map k.hash (file_blocks fuel block cdc buf file)
    unfolding put_reads file_blocks
    put_reads-manifest zero buf file s e c h = refl
    put_reads-manifest (suc fuel) buf [] s e c h = refl
    put_reads-manifest (suc fuel) buf (b ∷ file) s e c h =
        let piece = take buf (b ∷ file) in
        let first = put_bytes-Stores piece s e c h in
        rw
          (
            map-append k.hash (blocks k block cdc piece)
                (file_blocks fuel block cdc buf (drop buf (b ∷ file))),
            ← put_reads-manifest fuel buf (drop buf (b ∷ file)) (put_bytes k piece s).0
                (sym first.settings.block ∙ e) (sym first.settings.cdc ∙ c) first.sound,
          )
          (ap (λ m. m ++ (put_reads k fuel buf (drop buf (b ∷ file)) (put_bytes k piece s).0).1)
            (put_bytes-manifest piece s e c))

  -- Putting a whole file, in reads of `buf` bytes: the blocks that it was cut into make the file,
  -- each is indexed, and the manifest has their digests in order.
  pub put_file-blocks : ℕ → Bytes → Cas → List Bytes
  put_file-blocks buf file s = file_blocks (length file) s.block s.cdc buf file

  pub put_file-Stores :
      (buf : ℕ) (file : Bytes) (s : Cas)
      → IsSound k s
      → Stores s (put_file-blocks buf file s) (put_file k buf file s).0
  unfolding put_file put_file-blocks
  put_file-Stores buf file s h = put_reads-Stores s.block s.cdc (length file) buf file s refl refl h

  pub put_file-manifest :
      (buf : ℕ) (file : Bytes) (s : Cas)
      → IsSound k s
      → (put_file k buf file s).1 ≡ map k.hash (put_file-blocks buf file s)
  unfolding put_file put_file-blocks
  put_file-manifest buf file s h =
      put_reads-manifest s.block s.cdc (length file) buf file s refl refl h

  pub put_file-concat :
      (buf : ℕ) (file : Bytes) (s : Cas)
      → 0 < s.block
      → 0 < buf
      → concat (put_file-blocks buf file s) ≡ file
  unfolding put_file-blocks
  put_file-concat buf file s p q =
      file_blocks-concat (length file) s.block s.cdc buf file p q (omega arith)
