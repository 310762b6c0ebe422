-- ===== src/Chan.antt =====
-- inc/net/chan.h and impl/all/net/chan.cc: messages over a ZeroMQ socket. ZeroMQ itself is not
-- under this repository: what its calls return are arguments.
pub mod Socket
pub mod Sockets
pub mod Buffers
use wineing.Prelude.{
  ℕ, ℤ, pos, negsuc, is_neg, is_zero, int_of_size, size_of_int, Bool, true, false, List, [], ◌∷◌,
  ◌++◌, Option, none, some, ltb, if◌then◌else◌, length, take, take-length, ◌<◌, ◌^◌, ◌≡◌, arith,
  int_of_size-small,
}
use wineing.Prelude.Memory.{Bytes, ◌>>=◌}

-- What one `zmq_recv` gave: its return code, and the message where that is 0.
pub record ZmqRecv : Type 0 where
  pub rc : ℤ
  pub message : Bytes

-- `fn` is given the data, the size that is passed on, and the user's object.
unfoldable pub chan_recv {ℓ} :
    {S : Type ℓ} → ZmqRecv → (Bytes → ℕ → S → Option (ℤ × S)) → S → Option (ℤ × S)
chan_recv z fn obj =
    if is_zero z.rc
    then (let read = int_of_size (length z.message) in
        fn z.message (size_of_int read) obj >>= λ r.
        some (if is_neg r.0 then negsuc 0 else read, r.1))
    else some (z.rc, obj)

-- `queue` holds the messages that the socket has taken over; `rc` is what `zmq_send` returns. The
-- message is the first `size` bytes of the buffer.
unfoldable pub chan_send : ℤ → Bytes → ℕ → List Bytes → Option (ℤ × List Bytes)
chan_send rc buffer size queue =
    if ltb (length buffer) size
    then none
    else if is_neg rc
    then some (rc, queue)
    else some (rc, queue ++ take size buffer ∷ [])

-- A message of less than 2^31 bytes is handed to `fn` with its size.
pub chan_recv-message {ℓ} :
    {S : Type ℓ} (z : ZmqRecv) (fn : Bytes → ℕ → S → Option (ℤ × S)) (obj : S)
    → z.rc ≡ pos 0
    → length z.message < 2 ^ 31
    → chan_recv z fn obj ≡ (
        fn z.message (length z.message) obj >>= λ r.
        some (if is_neg r.0 then negsuc 0 else pos (length z.message), r.1))
unfolding chan_recv
chan_recv-message z fn obj e h = simp (e, int_of_size-small (length z.message) h)

pub chan_recv-failed {ℓ} :
    {S : Type ℓ} (z : ZmqRecv) (fn : Bytes → ℕ → S → Option (ℤ × S)) (obj : S)
    → is_neg z.rc ≡ true
    → chan_recv z fn obj ≡ some (z.rc, obj)
unfolding chan_recv
chan_recv-failed z fn obj h = ground arith

pub chan_send-all :
    (rc : ℤ) (buffer : Bytes) (queue : List Bytes)
    → chan_send rc buffer (length buffer) queue
      ≡ some (rc, if is_neg rc then queue else queue ++ buffer ∷ [])
unfolding chan_send
chan_send-all rc buffer queue = ground (arith, take-length buffer)
