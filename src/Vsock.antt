-- ===== src/Vsock.antt =====
-- One request over vsock: `vsock_request` of spikes/harness/fc.py on the host, and a round of the loop of
-- `main` in spikes/guest/guest_agent.py in the guest.
pub mod Lines
pub mod Exchange
use klados.Base.{
  ◌≡◌, ℕ, Bool, true, false, not, ◌&&◌, ◌||◌, Option, none, some, List, [], ◌∷◌, ◌++◌, ◌==◌,
  if◌then◌else◌,
}
use klados.Base.Result.{Result, ok, err, failure}
use klados.Codec.{Bytes}
use klados.Agent.{Guest, Msg, Reply, handle}

abbrev pub newline : ℕ
newline = 10

-- a chunk that is not the stream's end
abbrev pub is_chunk : Bytes → Bool
is_chunk [] = false
is_chunk (b ∷ chunk) = true

-- `b"\n" in data`
unfoldable pub has_newline : Bytes → Bool
has_newline [] = false
has_newline (b ∷ buf) = b == newline || has_newline buf

-- `data.split(b"\n", 1)[0]`
unfoldable pub first_line : Bytes → Bytes
first_line [] = []
first_line (b ∷ buf) = if b == newline then [] else b ∷ first_line buf

-- What `recv` gives, one item for each call; an empty item, or the list's end, is the stream's end.
abbrev pub Stream : Type 0
Stream = List Bytes

-- `while b"\n" not in data: …`, which stops at the stream's end
unfoldable pub receive : Stream → Bytes → Bytes
unfolding has_newline
receive [] buf = buf
receive ([] ∷ chunks) buf = buf
receive ((b ∷ chunk) ∷ chunks) buf =
    let more = receive chunks (buf ++ b ∷ chunk) in if has_newline buf then buf else more

-- the line that the loop waits for
unfoldable pub read_line : Stream → Bytes
unfolding receive first_line
read_line chunks = first_line (receive chunks [])

-- What `json` makes of a line, and the line of an answer.
pub record Json : Type 0 where
  -- `json.loads(line)`; none is an exception, also one that `handle` raises on what is no object
  pub loads : Bytes → Option Msg
  pub dumps_msg : Msg → Bytes
  pub dumps : Reply → Bytes
  -- `{"status": "ERR"}`, and the answer that carries an exception's text
  pub no_line : Bytes
  pub raised : Bytes

module _ (j : Json) where
  unfoldable pub respond_to : Option Msg → Guest → Bytes × Guest
  respond_to none g = (j.raised, g)
  respond_to (some m) g = let (reply, g') = handle m g in (j.dumps reply, g')

  unfoldable pub respond_line : Bytes → Guest → Bytes × Guest
  unfolding respond_to
  respond_line [] g = (j.no_line, g)
  respond_line (b ∷ line) g = respond_to (j.loads (b ∷ line)) g

  -- a round of the loop of `main`, on one connection: what is sent, and the guest afterwards
  unfoldable pub serve_conn : Stream → Guest → Bytes × Guest
  unfolding respond_line read_line
  serve_conn chunks g =
      let (answer, g') = respond_line (read_line chunks) g in (answer ++ newline ∷ [], g')

-- `while b"\n" not in buf: …`, which raises at the stream's end
unfoldable pub await_ack : Stream → Bytes → Result Bytes
unfolding has_newline
await_ack [] buf = if has_newline buf then ok buf else err (failure "vsock: no CONNECT ack")
await_ack ([] ∷ chunks) buf =
    if has_newline buf then ok buf else err (failure "vsock: no CONNECT ack")
await_ack ((b ∷ chunk) ∷ chunks) buf =
    let more = await_ack chunks (buf ++ b ∷ chunk) in if has_newline buf then ok buf else more

-- `buf.startswith(b"OK")`
unfoldable pub starts_ok : Bytes → Bool
starts_ok (o ∷ k ∷ rest) = o == 79 && k == 75
starts_ok rest = false

unfoldable pub after_ack : Result Bytes → Stream → Result Bytes
unfolding starts_ok read_line
after_ack (err e) resp = err e
after_ack (ok buf) resp =
    if starts_ok buf then ok (read_line resp) else err (failure "vsock CONNECT rejected")

-- `vsock_request`, on what the two loops receive: the line of the answer, where the empty line stands
-- for `{}`
unfoldable pub vsock_request : Stream → Stream → Result Bytes
unfolding after_ack await_ack
vsock_request ack resp = after_ack (await_ack ack []) resp
