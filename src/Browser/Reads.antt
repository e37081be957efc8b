-- ===== src/Browser/Reads.antt =====
-- `WS._read` gives the next bytes of the stream, however it is cut into pieces
-- (spikes/guest/browser_workload.py).
use mathlib.Core.List.{append_assoc, append-nil}
use klados.Base.{
  ℕ, zero, suc, ◌+◌, ◌-◌, ◌≤◌, ◌<◌, ◌≡◌, refl, sym, ap, ◌∙◌, true, false, [], ◌∷◌, ◌++◌, leb, ltb,
  arith, inl, inr, Bool-cases, length, take, drop, concat, length-append,
}
use klados.Base.Cuts.{
  take-append_late, drop-append_late, take-append_early, drop-append_early, take_exact, drop_exact,
}
use klados.Base.Result.{Result, ok}
use klados.Codec.{Bytes}
use klados.Vsock.{Stream, is_chunk}
use klados.Vsock.Lines.{IsOpen}
use klados.Browser.{read}

is_chunk-drop : (k : ℕ) (xs : Bytes) → k < length xs → is_chunk (drop k xs) ≡ true
is_chunk-drop k [] h = absurd (omega arith)
is_chunk-drop zero (x ∷ xs) h = refl
is_chunk-drop (suc k) (x ∷ xs) h = is_chunk-drop k xs (omega arith)

-- What is left of an open stream when `gone` bytes have been read.
pub record Leaves (chunks : Stream) (gone : ℕ) (rest : Stream) : Type 0 where
  pub is_open : IsOpen rest
  pub left : concat rest ≡ drop gone (concat chunks)

abbrev got : Bytes → Stream → Result (Bytes × Stream)
got d rest = ok (d, rest)

-- The next piece is longer than what is asked for.
read_part :
    (b : ℕ) (c : Bytes) (chunks : Stream) (n k : ℕ) (d : Bytes)
    → IsOpen chunks
    → length d + k ≡ n
    → k < length (b ∷ c)
    → (rest : Stream) × (got
          (d ++ take (n - length d) (b ∷ c))
          (drop (n - length d) (b ∷ c) ∷ chunks)
        ≡ got (d ++ take k (concat ((b ∷ c) ∷ chunks))) rest)
      × Leaves ((b ∷ c) ∷ chunks) k rest
read_part b c chunks n k d o e h =
    let rest : n - length d ≡ k = omega arith in
    let early : k ≤ length (b ∷ c) = omega arith in
    rw rest (
      drop k (b ∷ c) ∷ chunks,
      ap (λ z. ok (d ++ z, drop k (b ∷ c) ∷ chunks))
          (sym (take-append_early k (b ∷ c) (concat chunks) early)),
      record {
        is_open = (is_chunk-drop k (b ∷ c) h, o);
        left = sym (drop-append_early k (b ∷ c) (concat chunks) early);
      },
    )

read_lem :
    (chunks : Stream) (n k : ℕ) (d : Bytes)
    → IsOpen chunks
    → length d + k ≡ n
    → k ≤ length (concat chunks)
    → (rest : Stream) × (read chunks n d ≡ ok (d ++ take k (concat chunks), rest))
      × Leaves chunks k rest
unfolding read
read_lem [] n k d o e h =
    let none : k ≡ 0 = omega arith in
    let enough : ltb (length d) n ≡ false = ground arith in
    rw (none, enough)
      ([], ap (λ z. ok (z, [])) (sym (append-nil d)), record { is_open = tt; left = refl })
read_lem ([] ∷ chunks) n k d o e h = absurd (shut o.0)
  where
    shut : false ≡ true → ⊥
    shut e = cc
read_lem ((b ∷ c) ∷ chunks) n k d o e h = elim (Bool-cases (leb n (length d))) [
  | inl enough ↦
      let none : k ≡ 0 = ground arith in
      rw (enough, none)
        (
          (b ∷ c) ∷ chunks,
          ap (λ z. ok (z, (b ∷ c) ∷ chunks)) (sym (append-nil d)),
          record { is_open = o; left = refl },
        )
  | inr lack ↦ elim (Bool-cases (leb (length (b ∷ c)) (n - length d))) [
    | inl all ↦
        let k' = k - length (b ∷ c) in
        let parts : length (b ∷ c) + k' ≡ k = ground arith in
        let (rest, gives, l) =
          read_lem chunks n k' (d ++ b ∷ c) o.1 (omega (arith, length-append d (b ∷ c)))
            (omega (arith, length-append (b ∷ c) (concat chunks))) in
        rw (lack, all)
          (
            rest,
            gives
                ∙ ap (λ z. ok (z, rest))
                    (append_assoc d (b ∷ c) (take k' (concat chunks))
                      ∙ ap (λ z. d ++ z)
                          (sym (take-append_late k' k (b ∷ c) (concat chunks) parts))),
            record {
              is_open = l.is_open;
              left = l.left ∙ sym (drop-append_late k' k (b ∷ c) (concat chunks) parts);
            },
          )
    | inr part ↦ rw (lack, part) (read_part b c chunks n k d o.1 e (ground arith))
  ]
]

-- The stream begins with `pre`: that is what `_read` gives, and the rest is left.
pub read_prefix :
    (chunks : Stream) (pre suf : Bytes)
    → IsOpen chunks
    → concat chunks ≡ pre ++ suf
    → (rest : Stream) × (read chunks (length pre) [] ≡ ok (pre, rest))
      × IsOpen rest
      × (concat rest ≡ suf)
read_prefix chunks pre suf o e =
    let n = length pre in
    let (rest, gives, l) =
      read_lem chunks n n [] o (omega arith) (omega (arith, ap length e, length-append pre suf)) in
    (
      rest,
      gives ∙ ap (λ z. ok (z, rest)) (ap (take n) e ∙ take_exact n pre suf refl),
      l.is_open,
      l.left ∙ ap (drop n) e ∙ drop_exact n pre suf refl,
    )
