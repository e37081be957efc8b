-- ===== src/Browser/Frames.antt =====
-- The websocket frames of spikes/guest/browser_workload.py: a server's frame is received whole.
use Prim.Native.Nat.{bit_and}
use mathlib.Core.List.{append_assoc}
use klados.Base.{
  ℕ, zero, suc, ◌+◌, ◌*◌, ◌/◌, ◌%◌, ◌^◌, ◌<◌, ◌≡◌, refl, ap, ◌∙◌, [], ◌∷◌, ◌++◌, ltb, arith, inl,
  inr, Bool-cases, if◌then◌else◌, length, concat, length-append, Option,
}
use klados.Base.Bits.{low_bits, set_flag}
use klados.Base.Result.{ok}
use klados.Codec.{Bytes}
use klados.Vsock.{Stream}
use klados.Vsock.Lines.{IsOpen}
use klados.Browser.{
  pack, unpack, length_field, Mask, masked, frame, Cdp, Answer, payload_of, read_number,
  read_length, recv,
}
use klados.Browser.Reads.{read_prefix}

-- The frame format of RFC 6455: the seven bits of the length, and the bytes after them.
abbrev pub length_head : ℕ → ℕ
length_head n = if ltb n 126 then n else if ltb n 65536 then 126 else 127

abbrev pub length_tail : ℕ → Bytes
length_tail n = if ltb n 126 then [] else if ltb n 65536 then pack 2 n else pack 8 n

-- a frame of a server, which masks nothing
abbrev pub server_frame : ℕ → Bytes → Bytes
server_frame b0 payload =
    b0 ∷ length_head (length payload) ∷ length_tail (length payload) ++ payload

-- The stream goes on with `suf` after what was read.
pub record Goes (rest : Stream) (suf : Bytes) : Type 0 where
  pub is_open : IsOpen rest
  pub left : concat rest ≡ suf

unpack-append : (a : ℕ) (xs ys : Bytes) → unpack a (xs ++ ys) ≡ unpack (unpack a xs) ys
unfolding unpack
unpack-append a [] ys = refl
unpack-append a (x ∷ xs) ys = unpack-append (a * 256 + x) xs ys

pub unpack-pack : (k n : ℕ) → n < 256 ^ k → unpack 0 (pack k n) ≡ n
unfolding pack unpack
unpack-pack zero n h = omega arith
unpack-pack (suc k) n h =
    unpack-append 0 (pack k (n / 256)) ((n % 256) ∷ [])
    ∙ omega (arith, unpack-pack k (n / 256) (omega arith))

pub length-pack : (k n : ℕ) → length (pack k n) ≡ k
unfolding pack
length-pack zero n = refl
length-pack (suc k) n =
    omega (arith, length-append (pack k (n / 256)) ((n % 256) ∷ []), length-pack k (n / 256))

read_number_lem :
    (k : ℕ) (chunks : Stream) (pre suf : Bytes)
    → IsOpen chunks
    → length pre ≡ k
    → concat chunks ≡ pre ++ suf
    → (rest : Stream) × (read_number k chunks ≡ ok (unpack 0 pre, rest)) × Goes rest suf
unfolding read_number
read_number_lem k chunks pre suf o l e =
    let (rest, got, is_open, left) = read_prefix chunks pre suf o e in
    rw (← l, read_number, got) (rest, refl, record { is_open = is_open; left = left })

read_byte :
    (chunks : Stream) (b : ℕ) (suf : Bytes)
    → IsOpen chunks
    → concat chunks ≡ b ∷ suf
    → (rest : Stream) × (read_number 1 chunks ≡ ok (b, rest)) × Goes rest suf
unfolding unpack
read_byte chunks b suf o e =
    let (rest, got, goes) = read_number_lem 1 chunks (b ∷ []) suf o refl e in
    let same : 0 * 256 + b ≡ b = omega arith in (rest, got ∙ ap (λ z. ok (z, rest)) same, goes)

read_length_lem :
    (b1 n : ℕ) (chunks : Stream) (suf : Bytes)
    → n < 2 ^ 64
    → bit_and b1 0x7f ≡ length_head n
    → IsOpen chunks
    → concat chunks ≡ length_tail n ++ suf
    → (rest : Stream) × (read_length b1 chunks ≡ ok (n, rest)) × Goes rest suf
unfolding read_length
read_length_lem b1 n chunks suf h m o e = elim (Bool-cases (ltb n 126)) [
  | inl short ↦
      let head : bit_and b1 0x7f ≡ n = ground (arith, m) in
      let rest : concat chunks ≡ suf = rw short at e in
      let lt : n < 126 = ground arith in
      rw (read_length, head) (chunks, ground arith, record { is_open = o; left = rest })
  | inr long ↦ elim (Bool-cases (ltb n 65536)) [
    | inl two ↦
        let head : bit_and b1 0x7f ≡ 126 = ground (arith, m) in
        let bytes : concat chunks ≡ pack 2 n ++ suf = rw (long, two) at e in
        let (rest, got, goes) = read_number_lem 2 chunks (pack 2 n) suf o (length-pack 2 n) bytes in
        let same : unpack 0 (pack 2 n) ≡ n = unpack-pack 2 n (ground arith) in
        rw (read_length, head) (rest, got ∙ ap (λ z. ok (z, rest)) same, goes)
    | inr more ↦
        let head : bit_and b1 0x7f ≡ 127 = ground (arith, m) in
        let bytes : concat chunks ≡ pack 8 n ++ suf = rw (long, more) at e in
        let (rest, got, goes) = read_number_lem 8 chunks (pack 8 n) suf o (length-pack 8 n) bytes in
        let same : unpack 0 (pack 8 n) ≡ n = unpack-pack 8 n (omega arith) in
        rw (read_length, head) (rest, got ∙ ap (λ z. ok (z, rest)) same, goes)
  ]
]

-- A frame of fewer than 2 ^ 64 bytes is received whole, however the stream is cut into pieces, and
-- what follows it is left for the next call.
pub recv_frame :
    (cdp : Cdp) (b0 : ℕ) (payload suf : Bytes) (m : Option Answer) (chunks : Stream)
    → length payload < 2 ^ 64
    → payload_of cdp b0 payload ≡ ok m
    → IsOpen chunks
    → concat chunks ≡ server_frame b0 payload ++ suf
    → (rest : Stream) × (recv cdp chunks ≡ ok (m, rest)) × Goes rest suf
unfolding recv
recv_frame cdp b0 payload suf m chunks h j o e =
    let n = length payload in
    let after = length_tail n ++ payload in
    let (at1, got1, g1) = read_byte chunks b0 (length_head n ∷ after ++ suf) o e in
    let (at2, got2, g2) = read_byte at1 (length_head n) (after ++ suf) g1.is_open g1.left in
    let masks : bit_and (length_head n) 0x7f ≡ length_head n =
      low_bits (length_head n) (ground arith) ∙ ground arith in
    let (at3, got3, g3) =
      read_length_lem (length_head n) n at2 (payload ++ suf) h masks g2.is_open
        (g2.left ∙ append_assoc (length_tail n) payload suf) in
    let (rest, got4, is_open, left) = read_prefix at3 payload suf g3.is_open g3.left in
    rw (recv, got1, got2, got3, got4, j) (rest, refl, record { is_open = is_open; left = left })

length_field_lem :
    (n : ℕ) → n < 2 ^ 64 → length_field n ≡ ok ((length_head n + 128) ∷ length_tail n)
unfolding length_field
length_field_lem n h = ground (arith, set_flag n, set_flag 126, set_flag 127)

-- a final text frame of a client, masked with a key
abbrev pub client_frame : Mask → Bytes → Bytes
client_frame m msg =
    0x81 ∷ (length_head (length msg) + 128) ∷ length_tail (length msg)
    ++ (m.m0 ∷ m.m1 ∷ m.m2 ∷ m.m3 ∷ [])
    ++ masked m 0 msg

pub frame_lem :
    (m : Mask) (msg : Bytes) → length msg < 2 ^ 64 → frame m msg ≡ ok (client_frame m msg)
unfolding frame
frame_lem m msg h = rw (frame, length_field_lem (length msg) h) refl
