-- ===== src/Browser/Server.antt =====
-- What `WS.send` of spikes/guest/browser_workload.py puts on the socket, read as RFC 6455 asks of a server.
use Prim.Native.Nat.{bit_xor}
use mathlib.Core.List.{append_assoc}
use klados.Base.{
  ℕ, zero, suc, ◌+◌, ◌%◌, ◌^◌, ◌<◌, ◌≡◌, refl, ap, ◌∙◌, [], ◌∷◌, ◌++◌, ltb, arith, inl, inr,
  Bool-cases, if◌then◌else◌, length, length-append, Option, none, some, All, ◌-◌, ◌==◌, ◌⊎◌, false,
  take, drop,
}
use klados.Base.Cuts.{take_exact, drop_exact}
use klados.Base.Bits.{mask_twice}
use klados.Base.Result.{ok}
use klados.Codec.{Bytes}
use klados.Browser.{pack, unpack, Mask, mask_at, masked, frame}
use klados.Browser.Frames.{
  length_head, length_tail, unpack-pack, length-pack, client_frame, frame_lem,
}

abbrev pub IsByte : ℕ → Type 0
IsByte b = b < 256

-- `os.urandom` gives bytes.
pub record IsKey (m : Mask) : Type 0 where
  pub byte0 : IsByte m.m0
  pub byte1 : IsByte m.m1
  pub byte2 : IsByte m.m2
  pub byte3 : IsByte m.m3

mask_at-IsByte : (m : Mask) (i : ℕ) → IsKey m → IsByte (mask_at m i)
unfolding mask_at
mask_at-IsByte m zero k = k.byte0
mask_at-IsByte m (suc zero) k = k.byte1
mask_at-IsByte m (suc (suc zero)) k = k.byte2
mask_at-IsByte m (suc (suc (suc i))) k = k.byte3

length-masked : (m : Mask) (i : ℕ) (msg : Bytes) → length (masked m i msg) ≡ length msg
unfolding masked
length-masked m i [] = refl
length-masked m i (b ∷ msg) = ap suc (length-masked m (suc i) msg)

-- The other end, as RFC 6455 asks of a server. The payload's bytes are taken with those of the key in
-- turn, the first again after the fourth.
unmask : ℕ → ℕ → ℕ → ℕ → Bytes → Bytes
unmask k0 k1 k2 k3 [] = []
unmask k0 k1 k2 k3 (b ∷ bytes) = bit_xor b k0 ∷ unmask k1 k2 k3 k0 bytes

-- after the length: the key, the payload of that length, and what follows the frame
server_payload : ℕ → ℕ → Bytes → Option ((ℕ × Bytes) × Bytes)
unfolding unmask
server_payload b0 n (k0 ∷ k1 ∷ k2 ∷ k3 ∷ more) =
    if ltb (length more) n then none else some ((b0, unmask k0 k1 k2 k3 (take n more)), drop n more)
server_payload b0 n _ = none

-- the first byte, the unmasked payload and what follows; a frame without the mask's flag is refused
pub server_reads : Bytes → Option ((ℕ × Bytes) × Bytes)
unfolding server_payload
server_reads (b0 ∷ b1 ∷ more) =
    let two = server_payload b0 (unpack 0 (take 2 more)) (drop 2 more) in
    let eight = server_payload b0 (unpack 0 (take 8 more)) (drop 8 more) in
    let short = server_payload b0 (b1 - 128) more in
    if ltb b1 128 then none else if b1 == 254 then two else if b1 == 255 then eight else short
server_reads _ = none

-- The key's bytes come in turn, whatever the place is from which the client counts.
masked_twice :
    (m : Mask) (i : ℕ) (msg : Bytes)
    → IsKey m
    → All IsByte msg
    → unmask
        (mask_at m (i % 4))
        (mask_at m ((i + 1) % 4))
        (mask_at m ((i + 2) % 4))
        (mask_at m ((i + 3) % 4))
        (masked m i msg)
      ≡ msg
unfolding masked unmask
masked_twice m i [] k h = refl
masked_twice m i (b ∷ msg) k h =
    let e1 : (i + 1) % 4 ≡ suc i % 4 = omega arith in
    let e2 : (i + 2) % 4 ≡ (suc i + 1) % 4 = omega arith in
    let e3 : (i + 3) % 4 ≡ (suc i + 2) % 4 = omega arith in
    let e4 : i % 4 ≡ (suc i + 3) % 4 = omega arith in
    let turned : unmask (mask_at m ((i + 1) % 4)) (mask_at m ((i + 2) % 4))
          (mask_at m ((i + 3) % 4)) (mask_at m (i % 4)) (masked m (suc i) msg)
        ≡ msg =
      rw (e1, e2, e3, e4) (masked_twice m (suc i) msg k h.1) in
    rw (mask_twice b (mask_at m (i % 4)) h.0 (mask_at-IsByte m (i % 4) k)) (ap (◌∷◌ b) turned)

payload_lem :
    (b0 : ℕ) (m : Mask) (msg suf : Bytes)
    → IsKey m
    → All IsByte msg
    → server_payload b0 (length msg) (m.m0 ∷ m.m1 ∷ m.m2 ∷ m.m3 ∷ masked m 0 msg ++ suf)
      ≡ some ((b0, msg), suf)
unfolding server_payload mask_at
payload_lem b0 m msg suf k h =
    let body = masked m 0 msg in
    let same = length-masked m 0 msg in
    let enough : ltb (length (body ++ suf)) (length msg) ≡ false =
      ground (arith, length-append body suf, same) in
    let taken = take_exact (length msg) body suf same in
    let dropped = drop_exact (length msg) body suf same in
    let clear : unmask m.m0 m.m1 m.m2 m.m3 body ≡ msg = masked_twice m 0 msg k h in
    rw (enough, taken, dropped, clear) refl

reads_short :
    (b0 n : ℕ) (more : Bytes)
    → n < 126
    → server_reads (b0 ∷ (n + 128) ∷ more) ≡ server_payload b0 n more
unfolding server_reads
reads_short b0 n more h =
    let flag : ltb (n + 128) 128 ≡ false = ground arith in
    let two : (n + 128 == 254) ≡ false = ground arith in
    let eight : (n + 128 == 255) ≡ false = ground arith in
    let back : n + 128 - 128 ≡ n = omega arith in rw (flag, two, eight, back) refl

-- the two bytes of the length, or its eight
reads_long :
    (b0 b1 k n : ℕ) (more : Bytes)
    → ((k ≡ 2) × (b1 ≡ 254)) ⊎ ((k ≡ 8) × (b1 ≡ 255))
    → n < 256 ^ k
    → server_reads (b0 ∷ b1 ∷ pack k n ++ more) ≡ server_payload b0 n more
unfolding server_reads
reads_long b0 b1 k n more (inl (e, f)) h =
    let size = length-pack 2 n in
    rw
      (
        e,
        f,
        take_exact 2 (pack 2 n) more size,
        drop_exact 2 (pack 2 n) more size,
        unpack-pack 2 n (rw e at h),
      )
      refl
reads_long b0 b1 k n more (inr (e, f)) h =
    let size = length-pack 8 n in
    rw
      (
        e,
        f,
        take_exact 8 (pack 8 n) more size,
        drop_exact 8 (pack 8 n) more size,
        unpack-pack 8 n (rw e at h),
      )
      refl

reads_lem :
    (b0 n : ℕ) (more : Bytes)
    → n < 2 ^ 64
    → server_reads (b0 ∷ (length_head n + 128) ∷ length_tail n ++ more) ≡ server_payload b0 n more
reads_lem b0 n more h = elim (Bool-cases (ltb n 126)) [
  | inl short ↦ rw short (reads_short b0 n more (ground arith))
  | inr long ↦ elim (Bool-cases (ltb n 65536)) [
    | inl two ↦ rw (long, two) (reads_long b0 254 2 n more (inl (refl, refl)) (ground arith))
    | inr eight ↦ rw (long, eight) (reads_long b0 255 8 n more (inr (refl, refl)) (omega arith))
  ]
]

-- A message of fewer than 2 ^ 64 bytes is sent as bytes that a server which follows RFC 6455 reads as one
-- masked text frame with that message, whatever follows.
pub send_received :
    (m : Mask) (msg suf : Bytes)
    → IsKey m
    → All IsByte msg
    → length msg < 2 ^ 64
    → (bytes : Bytes) × (frame m msg ≡ ok bytes)
      × (server_reads (bytes ++ suf) ≡ some ((0x81, msg), suf))
send_received m msg suf k b h =
    let n = length msg in
    let key = m.m0 ∷ m.m1 ∷ m.m2 ∷ m.m3 ∷ [] in
    let body = masked m 0 msg in
    let parts =
      append_assoc (length_tail n ++ key) body suf
      ∙ append_assoc (length_tail n) key (body ++ suf) in
    (
      client_frame m msg,
      frame_lem m msg h,
      ap (λ z. server_reads (0x81 ∷ (length_head n + 128) ∷ z)) parts
          ∙ reads_lem 0x81 n (key ++ (body ++ suf)) h
          ∙ payload_lem 0x81 m msg suf k b,
    )
