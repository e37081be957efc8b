-- ===== src/Browser/Answers.antt =====
-- `ev` and `navigate` get the answer to their own message (spikes/guest/browser_workload.py).
use mathlib.Core.List.{append_assoc}
use klados.Base.{
  ℕ, suc, zero, ◌^◌, ◌≤◌, ◌<◌, ◌≡◌, refl, ap, ◌∙◌, String, List, [], ◌∷◌, ◌++◌, arith, length,
  concat, length-append, Option, none, some, All, ◌==◌, false, ==_self, inl, inr, Option-cases,
}
use klados.Base.Result.{ok}
use klados.Codec.{Bytes}
use klados.Vsock.{Stream}
use klados.Vsock.Lines.{IsOpen}
use klados.Browser.{Mask, Value, Answer, Cdp, payload_of}
use klados.Browser.Frames.{server_frame, client_frame, frame_lem, recv_frame, Goes}
use klados.Browser.Session.{Page, answers, await_answer, frames_within, request}

-- What a server sends, frame by frame: the first byte and the payload.
abbrev pub wire : List (ℕ × Bytes) → Bytes
wire [] = []
wire ((b0, payload) ∷ frames) = server_frame b0 payload ++ wire frames

-- a control frame, or a message with another id or without one
abbrev pub IsOther : ℕ → Option Answer → Type 0
IsOther mid none = Unit
IsOther mid (some m) = ¬ (m.id ≡ some mid)

answers-IsOther : (mid : ℕ) (m : Option Answer) → IsOther mid m → answers mid m ≡ none
unfolding answers
answers-IsOther mid none other = refl
answers-IsOther mid (some m) other = elim (Option-cases m.id) [
  | inl e ↦ rw e refl
  | inr (id, e) ↦
      let apart : ¬ (id ≡ mid) = λ q. other (e ∙ ap some q) in
      let differs : (id == mid) ≡ false = ground arith in rw (e, differs) refl
]

answers-own : (mid : ℕ) (m : Answer) → m.id ≡ some mid → answers mid (some m) ≡ some m.value
unfolding answers
answers-own mid m e = rw (e, ==_self mid) refl

module _ (cdp : Cdp) where
  -- a frame that the loop of `ev` reads as `m`
  pub record Reads (b0 : ℕ) (payload : Bytes) (m : Option Answer) : Type 0 where
    pub is_short : length payload < 2 ^ 64
    pub parsed : payload_of cdp b0 payload ≡ ok m

  -- a frame that is not the answer to the message `mid`
  abbrev pub IsPassed : ℕ → ℕ × Bytes → Type 0
  IsPassed mid (b0, payload) = (m : Option Answer) × Reads b0 payload m × IsOther mid m

  await_answer_lem :
      (fuel mid : ℕ) (passed : List (ℕ × Bytes)) (b0 : ℕ) (payload suf : Bytes) (m : Option Answer)
      (value : Value) (chunks : Stream)
      → length passed < fuel
      → All (IsPassed mid) passed
      → Reads b0 payload m
      → answers mid m ≡ some value
      → IsOpen chunks
      → concat chunks ≡ wire passed ++ (server_frame b0 payload ++ suf)
      → (rest : Stream) × (await_answer cdp fuel mid chunks ≡ ok (value, rest)) × Goes rest suf
  unfolding await_answer
  await_answer_lem zero mid passed b0 payload suf m value chunks f a r v o e = absurd (omega arith)
  await_answer_lem (suc fuel) mid [] b0 payload suf m value chunks f a r v o e =
      let (rest, got, goes) = recv_frame cdp b0 payload suf m chunks r.is_short r.parsed o e in
      rw (got, v) (rest, refl, goes)
  await_answer_lem (suc fuel) mid ((c0, other) ∷ passed) b0 payload suf m value chunks f a r v o e =
      let (m', r', skip) = a.0 in
      let more = wire passed ++ (server_frame b0 payload ++ suf) in
      let (at, got, goes) =
        recv_frame cdp c0 other more m' chunks r'.is_short r'.parsed o (
          e
          ∙ append_assoc (server_frame c0 other) (wire passed) (server_frame b0 payload ++ suf)) in
      rw (got, answers-IsOther mid m' skip)
        (await_answer_lem fuel mid passed b0 payload suf m value at (omega arith) a.1 r v
          goes.is_open goes.left)

  length-wire : (frames : List (ℕ × Bytes)) → length frames ≤ length (wire frames)
  length-wire [] = omega arith
  length-wire ((b0, payload) ∷ frames) =
      omega (arith, length-append (server_frame b0 payload) (wire frames), length-wire frames)

  -- Whatever control frames and messages with other ids come first, and however the stream is cut into
  -- pieces: once the answer with the message's own id comes, the wait ends with its value, the message
  -- has been sent as one frame under the next id, and what follows the answer is left unread.
  pub request_answered :
      (urandom : ℕ → Mask) (method param : String) (p : Page) (passed : List (ℕ × Bytes)) (b0 : ℕ)
      (payload suf : Bytes) (m : Answer)
      → length (cdp.dumps (suc p.mid) method param) < 2 ^ 64
      → All (IsPassed (suc p.mid)) passed
      → Reads b0 payload (some m)
      → m.id ≡ some (suc p.mid)
      → IsOpen p.incoming
      → concat p.incoming ≡ wire passed ++ (server_frame b0 payload ++ suf)
      → (rest : Stream) × (request cdp urandom method param p
          ≡ ok (
            m.value,
            record {
              mid = suc p.mid;
              sent =
                  p.sent ++ client_frame (urandom (suc p.mid)) (cdp.dumps (suc p.mid) method param);
              incoming = rest;
            },
          ))
        × Goes rest suf
  unfolding request
  request_answered urandom method param p passed b0 payload suf m s a r v o e =
      let enough : length passed < frames_within p.incoming = omega (
        arith,
        ap length e,
        length-append (wire passed) (server_frame b0 payload ++ suf),
        length-wire passed,
      ) in
      let (rest, got, goes) =
        await_answer_lem (frames_within p.incoming) (suc p.mid) passed b0 payload suf (some m)
          m.value p.incoming enough a r (answers-own (suc p.mid) m v) o e in
      rw (frame_lem (urandom (suc p.mid)) (cdp.dumps (suc p.mid) method param) s, got)
        (rest, refl, goes)
