-- ===== src/Chunking/Lossless.antt =====
-- The chunks of a text, joined, are the text, in either mode.
use klados.Base.{
  ℕ, zero, suc, ◌+◌, ◌-◌, ◌<◌, ◌≤◌, ◌≡◌, refl, sym, ◌∙◌, ap, inl, inr, Bool, true, false, [], ◌∷◌,
  length, drop, concat, drop_all, drop-drop, slice-append-drop, ltb, Bool-cases, ltb-false, arith,
}
use mathlib.Core.List.{append-nil}
use klados.Codec.{Bytes, Codec}
use klados.Chunking.{fixed_from, roll, is_cut, cdc_from, gear, blocks}

fixed_from-concat :
    (fuel block i : ℕ) (xs : Bytes)
    → 0 < block
    → length xs ≤ i + fuel
    → concat (fixed_from fuel block i xs) ≡ drop i xs
unfolding fixed_from
fixed_from-concat zero block i xs p h = sym (drop_all i xs (omega arith))
fixed_from-concat (suc fuel) block i xs p h = elim (Bool-cases (ltb i (length xs))) [
  | inl more ↦
      rw (more, fixed_from-concat fuel block (i + block) xs p (omega arith))
        (slice-append-drop i (i + block) xs (omega arith))
  | inr done ↦ rw done (sym (drop_all i xs (ltb-false i _ done)))
]

-- the loop's invariant: `rest` is what stands behind `i`
cdc_from-concat :
    (gear : ℕ → ℕ) (xs : Bytes) (h start i : ℕ) (rest : Bytes)
    → start ≤ i
    → drop i xs ≡ rest
    → concat (cdc_from gear xs h start i rest) ≡ drop start xs
unfolding cdc_from
cdc_from-concat gear xs h start i [] p e = elim (Bool-cases (ltb start (length xs))) [
  | inl more ↦ rw more (append-nil _)
  | inr done ↦ rw done (sym (drop_all start xs (ltb-false start _ done)))
]
cdc_from-concat gear xs h start i (b ∷ rest) p e =
    let e' : drop (i + 1) xs ≡ rest = sym (drop-drop i 1 (i + 1) xs refl) ∙ ap (drop 1) e in
    elim (Bool-cases (is_cut (i - start + 1) (roll gear h b))) [
      | inl cut ↦
          rw (cut, cdc_from-concat gear xs 0 (i + 1) (i + 1) rest (omega arith) e')
            (slice-append-drop start (i + 1) xs (omega arith))
      | inr go_on ↦
          rw go_on (cdc_from-concat gear xs (roll gear h b) start (i + 1) rest (omega arith) e')
    ]

-- With a block size above zero, the chunks of either mode, joined in order, are the data.
pub blocks-concat :
    (k : Codec) (block : ℕ) (cdc : Bool) (xs : Bytes)
    → 0 < block
    → concat (blocks k block cdc xs) ≡ xs
unfolding blocks
blocks-concat k block false xs p = fixed_from-concat (length xs) block 0 xs p (omega arith)
blocks-concat k block true xs p = cdc_from-concat (gear k) xs 0 0 0 xs (omega arith) refl
