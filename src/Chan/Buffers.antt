-- ===== src/Chan/Buffers.antt =====
-- inc/net/chan.h and impl/all/core/wineing.cc: the buffers that the response thread
-- allocates for messages. ZeroMQ calls the free function of a message once it is done with it, as it
-- documents; a message that `zmq_send` refuses stays with its sender, who never closes it.
use wineing.Prelude.{
  ℕ, ℤ, pos, suc, ◌+◌, ◌-◌, ◌≡◌, ap, ◌∙◌, is_neg, Bool, true, List, [], ◌∷◌, Option, some, ◌||◌,
  if◌then◌else◌, length, Bool-cases, inl, inr, arith, ◌≤◌,
}
use wineing.Prelude.Memory.{◌>>=◌}
use wineing.Chan.{chan_recv, chan_recv-message, chan_recv-failed}
use wineing.Out.{OutTurn, out_buffer_size, cchan_in_mem_copy}
use wineing.Out.Forward.{Receives, copy-fits}

-- The number of buffers after `chan_send`, with or without `_send_free`, once ZeroMQ is done with the
-- message.
unfoldable pub send_buffer : Bool → ℤ → ℕ → ℕ
send_buffer has_free rc n = if is_neg rc then n else if has_free then n - 1 else n

-- A round of `cchan_out_thread` that does not break: `continue` after a failed receive.
unfoldable pub out_buffers : OutTurn → ℕ → Option ℕ
out_buffers t n = chan_recv t.received cchan_in_mem_copy t.memory >>= λ p.
    some (if is_neg p.0 then n + 1 else send_buffer true t.send_rc (n + 1))

unfoldable pub all_out_buffers : List OutTurn → ℕ → Option ℕ
all_out_buffers [] n = some n
all_out_buffers (t ∷ ts) n = out_buffers t n >>= λ m. all_out_buffers ts m

-- The rounds whose receive or send fails.
abbrev pub failed_rounds : List OutTurn → ℕ
failed_rounds [] = 0
failed_rounds (t ∷ ts) =
    if is_neg t.received.rc || is_neg t.send_rc then suc (failed_rounds ts) else failed_rounds ts

-- A round receives into a buffer of the size allocated, and every message fits.
abbrev pub AllReceive : List OutTurn → Type 0
AllReceive [] = Unit {0}
AllReceive (t ∷ ts) = (length t.memory ≡ out_buffer_size) × Receives t × AllReceive ts

out_buffers-failed :
    (t : OutTurn) (n : ℕ) → is_neg t.received.rc ≡ true → out_buffers t n ≡ some (n + 1)
unfolding out_buffers
out_buffers-failed t n e = rw (chan_recv-failed t.received cchan_in_mem_copy t.memory e, e)

out_buffers-received :
    (t : OutTurn) (n : ℕ)
    → length t.memory ≡ out_buffer_size
    → t.received.rc ≡ pos 0
    → length t.received.message ≤ out_buffer_size
    → out_buffers t n ≡ some (if is_neg t.send_rc then n + 1 else n)
unfolding out_buffers send_buffer
out_buffers-received t n a e l =
    rw
      (
        chan_recv-message t.received cchan_in_mem_copy t.memory e (omega arith),
        copy-fits t.received.message t.memory (omega (arith, a)),
      )
      (ground arith)

-- Once ZeroMQ is done with the messages that it took over, every buffer that `cchan_out_thread`
-- allocated is freed but those of the rounds whose receive or send failed: each of these leaks one.
-- Every message that is received fits in its buffer.
pub out_buffers_leak :
    (ts : List OutTurn) (n : ℕ) → AllReceive ts → all_out_buffers ts n ≡ some (n + failed_rounds ts)
unfolding all_out_buffers
out_buffers_leak [] n h = ground arith
out_buffers_leak (t ∷ ts) n (a, inl e, h) =
    rw (out_buffers-failed t n e, e) (out_buffers_leak ts (n + 1) h ∙ ap some (omega arith))
out_buffers_leak (t ∷ ts) n (a, inr e, h) = elim (Bool-cases (is_neg t.send_rc)) [
  | inl b ↦
      rw (out_buffers-received t n a e.0 e.1, e.0, b)
        (out_buffers_leak ts (n + 1) h ∙ ap some (omega arith))
  | inr b ↦ rw (out_buffers-received t n a e.0 e.1, e.0, b) (out_buffers_leak ts n h)
]
