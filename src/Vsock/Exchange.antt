-- ===== src/Vsock/Exchange.antt =====
-- A request reaches the guest as it was sent, and its answer the host (spikes/harness/fc.py,
-- spikes/guest/guest_agent.py).
use mathlib.Core.Path.{subst}
use mathlib.Core.List.{append_assoc, append-nil}
use klados.Base.{
  ◌≡◌, refl, sym, ap, ◌∙◌, true, false, some, [], ◌∷◌, ◌++◌, arith, inl, inr, Bool-cases, concat,
}
use klados.Base.Result.{ok}
use klados.Codec.{Bytes}
use klados.Agent.{Guest, Msg, handle}
use klados.Vsock.{
  newline, is_chunk, has_newline, Stream, read_line, Json, respond_line, respond_to, serve_conn,
  await_ack, starts_ok, vsock_request,
}
use klados.Vsock.Lines.{IsOpen, read_line_whole}

-- a prefix that has a newline is long enough to show its first two bytes
starts_ok-append :
    (xs ys : Bytes) → has_newline xs ≡ true → starts_ok (xs ++ ys) ≡ true → starts_ok xs ≡ true
unfolding has_newline starts_ok
starts_ok-append [] ys h s = cc
starts_ok-append (x ∷ []) [] h s = cc
starts_ok-append (x ∷ []) (y ∷ ys) h s = ground arith
starts_ok-append (x ∷ y ∷ xs) ys h s = s

await_ack_lem :
    (chunks : Stream) (buf : Bytes)
    → IsOpen chunks
    → has_newline (buf ++ concat chunks) ≡ true
    → starts_ok (buf ++ concat chunks) ≡ true
    → (got : Bytes) × (await_ack chunks buf ≡ ok got) × (starts_ok got ≡ true)
unfolding await_ack
await_ack_lem [] buf o h s = (
  buf,
  rw (subst (λ z. has_newline z ≡ true) (append-nil buf) h) refl,
  subst (λ z. starts_ok z ≡ true) (append-nil buf) s,
)
await_ack_lem ([] ∷ chunks) buf o h s = absurd (shut o.0)
  where
    shut : false ≡ true → ⊥
    shut e = cc
await_ack_lem ((b ∷ chunk) ∷ chunks) buf o h s = elim (Bool-cases (has_newline buf)) [
  | inl have ↦ (buf, rw have refl, starts_ok-append buf (concat ((b ∷ chunk) ∷ chunks)) have s)
  | inr lack ↦ rw lack (
      await_ack_lem chunks (buf ++ b ∷ chunk) o.1
        (subst (λ z. has_newline z ≡ true) (sym (append_assoc buf (b ∷ chunk) (concat chunks))) h)
        (subst (λ z. starts_ok z ≡ true) (sym (append_assoc buf (b ∷ chunk) (concat chunks))) s))
]

respond_line_lem :
    (j : Json) (line : Bytes) (m : Msg) (g : Guest)
    → is_chunk line ≡ true
    → j.loads line ≡ some m
    → respond_line j line g ≡ (j.dumps (handle m g).0, (handle m g).1)
unfolding respond_line
respond_line_lem j [] m g c e = cc
respond_line_lem j (b ∷ line) m g c e = ap (λ o. respond_to j o g) e

-- Whatever the pieces in which the socket hands over request, acknowledgement and answer, none of
-- them empty: if the encodings are lines, the agent handles exactly the message that was sent, and
-- the host gets exactly the agent's reply.
pub exchange :
    (j : Json) (m : Msg) (g : Guest) (sent ack resp : Stream)
    → IsOpen sent
    → concat sent ≡ j.dumps_msg m ++ newline ∷ []
    → is_chunk (j.dumps_msg m) ≡ true
    → has_newline (j.dumps_msg m) ≡ false
    → j.loads (j.dumps_msg m) ≡ some m
    → IsOpen ack
    → has_newline (concat ack) ≡ true
    → starts_ok (concat ack) ≡ true
    → IsOpen resp
    → concat resp ≡ (serve_conn j sent g).0
    → has_newline (j.dumps (handle m g).0) ≡ false
    → ((serve_conn j sent g).1 ≡ (handle m g).1)
      × (vsock_request ack resp ≡ ok (j.dumps (handle m g).0))
unfolding serve_conn vsock_request
exchange j m g sent ack resp so se sn sl le ao al ak ro re rl =
    let read : read_line sent ≡ j.dumps_msg m = read_line_whole sent (j.dumps_msg m) so se sl in
    let served : respond_line j (read_line sent) g ≡ (j.dumps (handle m g).0, (handle m g).1) =
      ap (λ l. respond_line j l g) read ∙ respond_line_lem j (j.dumps_msg m) m g sn le in
    let answer =
      read_line_whole resp (j.dumps (handle m g).0) ro (re ∙ ap (λ p. p.0 ++ newline ∷ []) served)
        rl in
    let (got, arrived, good) = await_ack_lem ack [] ao al ak in
    (ap (λ p. p.1) served, rw (arrived, good) (ap ok answer))
