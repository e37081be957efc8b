-- ===== src/Browser.antt =====
-- The websocket client of spikes/guest/browser_workload.py, by which the browser workload talks to Chrome.
pub mod Reads
pub mod Frames
pub mod Server
pub mod Session
pub mod Answers
use Prim.Native.Nat.{bit_and, bit_or, bit_xor}
use klados.Base.{
  ℕ, zero, suc, ◌+◌, ◌-◌, ◌*◌, ◌/◌, ◌%◌, ◌≡◌, refl, Bool, true, false, not, ◌||◌, Option, none,
  some, String, List, [], ◌∷◌, ◌++◌, ◌==◌, ltb, leb, if◌then◌else◌, length, take, drop,
}
use klados.Base.Result.{Result, ok, err, failure}
use klados.Codec.{Bytes}
use klados.Vsock.{Stream}

-- The last `k` bytes of `n`, the highest first: `struct.pack(">H", n)` for two, `">Q"` for eight.
unfoldable pub pack : ℕ → ℕ → Bytes
pack zero n = []
pack (suc k) n = pack k (n / 256) ++ (n % 256) ∷ []

-- `struct.unpack`, after the number that the bytes before these give
unfoldable pub unpack : ℕ → Bytes → ℕ
unpack n [] = n
unpack n (b ∷ bytes) = unpack (n * 256 + b) bytes

-- The header's second byte with the longer lengths; `struct.error` is raised from 2 ^ 64 on.
unfoldable pub length_field : ℕ → Result Bytes
unfolding pack
length_field n =
    if ltb n 126
    then ok (bit_or 0x80 n ∷ [])
    else if ltb n 65536
    then ok (bit_or 0x80 126 ∷ pack 2 n)
    else if ltb n 18446744073709551616
    then ok (bit_or 0x80 127 ∷ pack 8 n)
    else err (failure "struct.error")

-- `os.urandom(4)`
pub record Mask : Type 0 where
  pub m0 : ℕ
  pub m1 : ℕ
  pub m2 : ℕ
  pub m3 : ℕ

-- `mask[i % 4]`, for `i % 4`
unfoldable pub mask_at : Mask → ℕ → ℕ
mask_at m zero = m.m0
mask_at m (suc zero) = m.m1
mask_at m (suc (suc zero)) = m.m2
mask_at m (suc (suc (suc i))) = m.m3

-- `bytes(b ^ mask[i % 4] for i, b in enumerate(msg))`, from the place `i` on
unfoldable pub masked : Mask → ℕ → Bytes → Bytes
unfolding mask_at
masked m i [] = []
masked m i (b ∷ msg) = bit_xor b (mask_at m (i % 4)) ∷ masked m (suc i) msg

-- What `WS.send` puts on the socket for the text `msg`.
unfoldable pub frame : Mask → Bytes → Result Bytes
unfolding length_field masked
frame m msg = elim (length_field (length msg)) [
  | err e ↦ err e
  | ok field ↦ ok ((0x81 ∷ field) ++ (m.m0 ∷ m.m1 ∷ m.m2 ∷ m.m3 ∷ []) ++ masked m 0 msg)
]

-- `WS._read`: `recv(n - len(d))` takes at most that much of a piece and leaves the rest of it
unfoldable pub read : Stream → ℕ → Bytes → Result (Bytes × Stream)
read [] n d = if ltb (length d) n then err (failure "ws closed") else ok (d, [])
read ([] ∷ chunks) n d = if ltb (length d) n then err (failure "ws closed") else ok (d, [] ∷ chunks)
read ((b ∷ chunk) ∷ chunks) n d =
    let all = read chunks n (d ++ b ∷ chunk) in
    if leb n (length d)
    then ok (d, (b ∷ chunk) ∷ chunks)
    else if leb (length (b ∷ chunk)) (n - length d)
    then all
    else ok (d ++ take (n - length d) (b ∷ chunk), drop (n - length d) (b ∷ chunk) ∷ chunks)

-- The values of an evaluated expression that the workload meets.
pub data Value : Type 0 where
  null : Value
  number : ℕ → Value
  text : String → Value

-- What is read of an object that Chrome sends: `m.get("id")` and
-- `m.get("result", {}).get("result", {}).get("value")`.
pub record Answer : Type 0 where
  pub id : Option ℕ
  pub value : Value

pub record Cdp : Type 0 where
  -- `json.loads(payload)` of an object; none is an exception
  pub loads : Bytes → Option Answer
  -- `json.dumps({"id": …, "method": …, "params": …})`, with the parameter that is given
  pub dumps : ℕ → String → String → Bytes

-- `recv`, after the header: a control frame is read and passed over
unfoldable pub payload_of : Cdp → ℕ → Bytes → Result (Option Answer)
payload_of cdp b0 payload =
    if bit_and b0 0x0f == 1 || bit_and b0 0x0f == 2
    then elim (cdp.loads payload) [ none ↦ err (failure "json") | some m ↦ ok (some m) ]
    else ok none

-- `self._read(1)[0]`, and `struct.unpack` of what was read
unfoldable pub read_number : ℕ → Stream → Result (ℕ × Stream)
unfolding read unpack
read_number k chunks = elim (read chunks k []) [
  | err e ↦ err e
  | ok (d, rest) ↦ ok (unpack 0 d, rest)
]

-- the length, from the second byte on
unfoldable pub read_length : ℕ → Stream → Result (ℕ × Stream)
unfolding read_number
read_length b1 chunks =
    let ln = bit_and b1 0x7f in
    let two = read_number 2 chunks in
    let eight = read_number 8 chunks in
    if ln == 126 then two else if ln == 127 then eight else ok (ln, chunks)

infixl 10 ◌>>=◌
abbrev pub ◌>>=◌ : {A B : Type 0} → Result A → (A → Result B) → Result B
err e >>= f = err e
ok a >>= f = f a

-- `WS.recv`
unfoldable pub recv : Cdp → Stream → Result (Option Answer × Stream)
unfolding payload_of read_length
recv cdp chunks = do
  (b0, at1) ← read_number 1 chunks
  (b1, at2) ← read_number 1 at1
  (ln, at3) ← read_length b1 at2
  (payload, rest) ← read at3 ln []
  m ← payload_of cdp b0 payload
  ok (m, rest)
