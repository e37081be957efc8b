-- ===== src/Vsock/Lines.antt =====
-- A line is read as it was sent, however the stream is cut into chunks (spikes/harness/fc.py,
-- spikes/guest/guest_agent.py).
use mathlib.Core.List.{append_assoc, append-nil}
use klados.Base.{
  ◌≡◌, refl, sym, ap, ◌∙◌, true, false, [], ◌∷◌, ◌++◌, arith, inl, inr, Bool-cases, concat, All,
}
use klados.Codec.{Bytes}
use klados.Vsock.{is_chunk, newline, has_newline, first_line, Stream, receive, read_line}

-- no chunk is empty: the stream has not ended
abbrev pub IsOpen : Stream → Type 0
IsOpen chunks = All (λ c. is_chunk c ≡ true) chunks

first_line-append : (xs ys : Bytes) → has_newline xs ≡ true → first_line (xs ++ ys) ≡ first_line xs
unfolding has_newline first_line
first_line-append [] ys h = cc
first_line-append (x ∷ xs) ys h = ground (arith, first_line-append xs ys)

pub first_line_whole :
    (xs ys : Bytes) → has_newline xs ≡ false → first_line (xs ++ newline ∷ ys) ≡ xs
unfolding has_newline first_line
first_line_whole [] ys h = refl
first_line_whole (x ∷ xs) ys h = ground (arith, first_line_whole xs ys)

receive_lem :
    (chunks : Stream) (buf : Bytes)
    → IsOpen chunks
    → first_line (receive chunks buf) ≡ first_line (buf ++ concat chunks)
unfolding receive
receive_lem [] buf o = ap first_line (sym (append-nil buf))
receive_lem ([] ∷ chunks) buf o = ground arith
receive_lem ((b ∷ chunk) ∷ chunks) buf o = elim (Bool-cases (has_newline buf)) [
  | inl have ↦ rw have (sym (first_line-append buf (concat ((b ∷ chunk) ∷ chunks)) have))
  | inr lack ↦ rw lack (
      receive_lem chunks (buf ++ b ∷ chunk) o.1
      ∙ ap first_line (append_assoc buf (b ∷ chunk) (concat chunks)))
]

pub read_line_lem :
    (chunks : Stream) → IsOpen chunks → read_line chunks ≡ first_line (concat chunks)
unfolding read_line
read_line_lem chunks o = receive_lem chunks [] o

-- a stream that holds one whole line
pub read_line_whole :
    (chunks : Stream) (line : Bytes)
    → IsOpen chunks
    → concat chunks ≡ line ++ newline ∷ []
    → has_newline line ≡ false
    → read_line chunks ≡ line
read_line_whole chunks line o e h =
    read_line_lem chunks o ∙ ap first_line e ∙ first_line_whole line [] h
