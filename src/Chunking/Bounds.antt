-- ===== src/Chunking/Bounds.antt =====
-- The sizes of the chunks.
use klados.Base.{
  ℕ, zero, suc, ◌+◌, ◌-◌, ◌<◌, ◌≤◌, ◌≡◌, refl, inl, inr, Bool, true, false, List, [], ◌∷◌, length,
  ap, sym, ◌∙◌, drop, slice, drop-drop, length-slice, length-drop, ltb, Bool-cases, ltb-false,
  ltb→lt, arith, if◌then◌else◌,
}
use klados.Codec.{Bytes, Codec}
use klados.Chunking.{fixed_from, roll, is_cut, cdc_from, gear, blocks, min_size, max_size}

-- Every chunk has between `lo` and `hi` bytes, but the last one, which has at least one byte.
abbrev pub Sized : ℕ → ℕ → List Bytes → Type 0
Sized lo hi [] = Unit
Sized lo hi (c ∷ []) = (0 < length c) × (length c ≤ hi)
Sized lo hi (c ∷ d ∷ cs) = (lo ≤ length c) × (length c ≤ hi) × Sized lo hi (d ∷ cs)

Sized-cons :
    (lo hi : ℕ) (c : Bytes) (cs : List Bytes)
    → 0 < lo
    → lo ≤ length c
    → length c ≤ hi
    → Sized lo hi cs
    → Sized lo hi (c ∷ cs)
Sized-cons lo hi c [] z p q h = (omega arith, q)
Sized-cons lo hi c (d ∷ cs) z p q h = (p, q, h)

fixed_from_done : (fuel block i : ℕ) (xs : Bytes) → length xs ≤ i → fixed_from fuel block i xs ≡ []
unfolding fixed_from
fixed_from_done zero block i xs h = refl
fixed_from_done (suc fuel) block i xs h = ground arith

fixed_from-Sized :
    (fuel block i : ℕ) (xs : Bytes) → 0 < block → Sized block block (fixed_from fuel block i xs)
unfolding fixed_from
fixed_from-Sized zero block i xs p = tt
fixed_from-Sized (suc fuel) block i xs p = elim (Bool-cases (ltb i (length xs))) [
  | inr done ↦ rw done tt
  | inl more ↦ elim (Bool-cases (ltb (i + block) (length xs))) [
    | inl full ↦ rw more (
        Sized-cons block block (slice i (i + block) xs) (fixed_from fuel block (i + block) xs) p
          (omega (arith, ltb→lt _ _ full, length-slice i (i + block) xs))
          (omega (arith, ltb→lt _ _ full, length-slice i (i + block) xs))
          (fixed_from-Sized fuel block (i + block) xs p))
    | inr last ↦
        rw (more, fixed_from_done fuel block (i + block) xs (ltb-false _ _ last))
          (omega (arith, ltb→lt i _ more, length-slice i (i + block) xs))
  ]
]

-- what a cut says of the size, and what going on says of it
cut_size : (size h : ℕ) → size ≤ max_size → is_cut size h ≡ true → min_size ≤ size
unfolding is_cut
cut_size size h p e = ground arith

go_on_size : (size h : ℕ) → is_cut size h ≡ false → size < max_size
unfolding is_cut
go_on_size size h e = ground arith

in_range : (i b : ℕ) (xs rest : Bytes) → drop i xs ≡ b ∷ rest → i < length xs
in_range i b xs rest e = omega (arith, length-drop i xs, ap (λ (l : Bytes). length l) e)

at_end : (i : ℕ) (xs : Bytes) → drop i xs ≡ [] → length xs ≤ i
at_end i xs e = omega (arith, length-drop i xs, ap (λ (l : Bytes). length l) e)

-- the loop's invariant: the open chunk has fewer than `max_size` bytes
cdc_from-Sized :
    (gear : ℕ → ℕ) (xs : Bytes) (h start i : ℕ) (rest : Bytes)
    → start ≤ i
    → i < start + max_size
    → drop i xs ≡ rest
    → Sized min_size max_size (cdc_from gear xs h start i rest)
unfolding cdc_from
cdc_from-Sized gear xs h start i [] p q e = elim (Bool-cases (ltb start (length xs))) [
  | inl more ↦ rw more (omega (arith, ltb→lt _ _ more, at_end i xs e, length-drop start xs))
  | inr done ↦ rw done tt
]
cdc_from-Sized gear xs h start i (b ∷ rest) p q e =
    let e' : drop (i + 1) xs ≡ rest = sym (drop-drop i 1 (i + 1) xs refl) ∙ ap (drop 1) e in
    elim (Bool-cases (is_cut (i - start + 1) (roll gear h b))) [
      | inl cut ↦ rw cut (
          Sized-cons min_size max_size (slice start (i + 1) xs)
            (cdc_from gear xs 0 (i + 1) (i + 1) rest) (omega arith)
            (omega (
              arith,
              in_range i b xs rest e,
              length-slice start (i + 1) xs,
              cut_size (i - start + 1) (roll gear h b) (omega arith) cut,
            ))
            (omega (arith, length-slice start (i + 1) xs))
            (cdc_from-Sized gear xs 0 (i + 1) (i + 1) rest (omega arith) (omega arith) e'))
      | inr go_on ↦ rw go_on (
          cdc_from-Sized gear xs (roll gear h b) start (i + 1) rest (omega arith)
            (omega (arith, go_on_size (i - start + 1) (roll gear h b) go_on)) e')
    ]

-- the bounds of each mode
abbrev pub lower : ℕ → Bool → ℕ
lower block cdc = if cdc then min_size else block

abbrev pub upper : ℕ → Bool → ℕ
upper block cdc = if cdc then max_size else block

-- With a block size above zero: in the fixed mode every chunk but the last has exactly `block`
-- bytes and the last between 1 and `block`; in the gear-hash mode every chunk but the last has
-- between 2048 and 65536 bytes and the last between 1 and 65536.
pub blocks-Sized :
    (k : Codec) (block : ℕ) (cdc : Bool) (xs : Bytes)
    → 0 < block
    → Sized (lower block cdc) (upper block cdc) (blocks k block cdc xs)
unfolding blocks
blocks-Sized k block false xs p = fixed_from-Sized (length xs) block 0 xs p
blocks-Sized k block true xs p =
    cdc_from-Sized (gear k) xs 0 0 0 xs (omega arith) (omega arith) refl
