-- ===== src/Out/Forward.antt =====
-- impl/all/core/wineing.cc, `cchan_out_thread`: messages are passed on unchanged and in order.
use mathlib.Core.List.{append-nil, append_assoc}
use native.Mathlib.Decide.{dec_lt}
use wineing.Prelude.{
  ℤ, pos, is_neg, ◌^◌, ◌≤◌, ◌<◌, ◌≡◌, refl, sym, ◌∙◌, true, List, [], ◌∷◌, ◌++◌, none, some, ◌==◌,
  if◌then◌else◌, length, drop, take-append_all, take-length, length-append, Bool-cases, inl, inr,
  ◌⊎◌, arith,
}
use wineing.Prelude.Memory.{Bytes, memcpy-fits, memcpy-overflow}
use wineing.Ctrl.{WCtrl, cmd_shutdown}
use wineing.Ctrl.Copy.{IsValid}
use wineing.Conc.{Shared}
use wineing.Reader.{Reader}
use wineing.Reader.Fresh.{InSync, IsFresh, read_shared-IsFresh}
use wineing.Reader.Behind.{Later, IsFresh-Later}
use wineing.Chan.{chan_send, chan_recv-message, chan_recv-failed}
use wineing.Out.{OutTurn, OutState, out_buffer_size, cchan_in_mem_copy, pass_on, out_turn, out_loop}

-- What a round sends on if the thread has not seen a shutdown.
abbrev pub passed : OutTurn → List Bytes
passed t =
    if is_neg t.received.rc then [] else if is_neg t.send_rc then [] else t.received.message ∷ []

-- A receive that fails, or a message that fits in the buffer.
abbrev pub Receives : OutTurn → Type 0
Receives t =
    (is_neg t.received.rc ≡ true)
    ⊎ ((t.received.rc ≡ pos 0) × (length t.received.message ≤ out_buffer_size))

pub copy-fits :
    (m out : Bytes)
    → length m ≤ length out
    → cchan_in_mem_copy m (length m) out ≡ some (pos 0, m ++ drop (length m) out)
unfolding cchan_in_mem_copy
copy-fits m out h = rw (memcpy-fits out m (length m) h (omega arith), take-length m)

copy-overflow : (m out : Bytes) → length out < length m → cchan_in_mem_copy m (length m) out ≡ none
unfolding cchan_in_mem_copy
copy-overflow m out h = rw (memcpy-overflow out m (length m) h)

send-prefix :
    (rc : ℤ) (m rest : Bytes) (sent : List Bytes)
    → chan_send rc (m ++ rest) (length m) sent
      ≡ some (rc, sent ++ (if is_neg rc then [] else m ∷ []))
unfolding chan_send
send-prefix rc m rest sent =
    ground (arith, length-append m rest, take-append_all m rest, append-nil sent)

module _ (t : OutTurn) (r : Reader) (sent : List Bytes)
    (alloc : length t.memory ≡ out_buffer_size) where
  pass_on-failed :
      is_neg t.received.rc ≡ true
      → pass_on t r sent ≡ some (record { reader = r; sent = sent ++ passed t })
  unfolding pass_on
  pass_on-failed e =
      rw (chan_recv-failed t.received cchan_in_mem_copy t.memory e, e, append-nil sent)

  pass_on-message :
      t.received.rc ≡ pos 0
      → length t.received.message ≤ out_buffer_size
      → pass_on t r sent ≡ some (record { reader = r; sent = sent ++ passed t })
  unfolding pass_on
  pass_on-message e l =
      rw
        (
          chan_recv-message t.received cchan_in_mem_copy t.memory e (omega arith),
          copy-fits t.received.message t.memory (omega (arith, alloc)),
          send-prefix t.send_rc t.received.message (drop (length t.received.message) t.memory) sent,
        )
        (simp e)

  -- The copy into the thread's buffer overflows.
  pub pass_on-overflow :
      t.received.rc ≡ pos 0
      → length t.received.message < 2 ^ 31
      → out_buffer_size < length t.received.message
      → pass_on t r sent ≡ none
  unfolding pass_on
  pass_on-overflow e s l = rw (
    chan_recv-message t.received cchan_in_mem_copy t.memory e s,
    copy-overflow t.received.message t.memory (omega (arith, alloc)),
  )

-- The shared states at the reads follow one another, and every message fits.
abbrev pub LinksTo : Shared WCtrl → List OutTurn → Type 0
LinksTo g [] = Unit {0}
LinksTo g (t ∷ ts) = Later g t.shared

abbrev pub Chain : List OutTurn → Type 0
Chain [] = Unit {0}
Chain (t ∷ ts) =
    IsValid t.shared.value
    × (length t.memory ≡ out_buffer_size)
    × Receives t
    × LinksTo t.shared ts
    × Chain ts

-- The reader notices the state of the first round.
abbrev pub Starts : List OutTurn → Reader → Type 0
Starts [] r = Unit {0}
Starts (t ∷ ts) r = InSync t.shared r

-- The messages of the rounds before the first whose shared command is a shutdown.
abbrev pub forwarded : List OutTurn → List Bytes
forwarded [] = []
forwarded (t ∷ ts) = if t.shared.value.cmd == cmd_shutdown then [] else passed t ++ forwarded ts

pub pass_on-passed :
    (t : OutTurn) (r : Reader) (sent : List Bytes)
    → length t.memory ≡ out_buffer_size
    → Receives t
    → pass_on t r sent ≡ some (record { reader = r; sent = sent ++ passed t })
pass_on-passed t r sent a (inl e) = pass_on-failed t r sent a e
pass_on-passed t r sent a (inr (e, l)) = pass_on-message t r sent a e l

-- A round that comes to an end has received a message that fits.
pub pass_on-fits :
    (t : OutTurn) (r : Reader) (sent : List Bytes) (st : OutState)
    → length t.memory ≡ out_buffer_size
    → t.received.rc ≡ pos 0
    → length t.received.message < 2 ^ 31
    → pass_on t r sent ≡ some st
    → length t.received.message ≤ out_buffer_size
pass_on-fits t r sent st a z s e = elim (dec_lt out_buffer_size (length t.received.message)) [
  | yes l ↦ absurd (cc (pass_on-overflow t r sent a z s l, e))
  | no l ↦ omega (arith, l)
]

Starts-next :
    {g : Shared WCtrl} {r : Reader} (ts : List OutTurn) → IsFresh g r → LinksTo g ts → Starts ts r
Starts-next [] f l = tt
Starts-next (t ∷ ts) f l = IsFresh-Later f l

-- The thread sends on exactly the messages that it receives up to the first read that shows a
-- shutdown, unchanged and in order, less those whose send fails. It meets no memory fault if
-- every message has at most 1024 bytes and between two reads fewer than 2^32 updates are made.
pub out_loop-forwarded :
    (ts : List OutTurn) (st : OutState)
    → Chain ts
    → Starts ts st.reader
    → (st' : OutState) × (out_loop ts st ≡ some st') × (st'.sent ≡ st.sent ++ forwarded ts)
unfolding out_loop out_turn
out_loop-forwarded [] st c i = (st, refl, sym (append-nil st.sent))
out_loop-forwarded (t ∷ ts) st c i =
    let (r, e, f) = read_shared-IsFresh t.shared st.reader c.0 i in
    elim (Bool-cases (t.shared.value.cmd == cmd_shutdown)) [
      | inl d ↦ (
        record { reader = r; sent = st.sent },
        rw (e, f.shows.same_cmd, d),
        rw (d, append-nil st.sent),
      )
      | inr d ↦
          (let (st', o, m) =
              out_loop-forwarded ts (record { reader = r; sent = st.sent ++ passed t }) c.4
                (Starts-next ts f c.3) in
            (
              st',
              rw (e, f.shows.same_cmd, d, pass_on-passed t r st.sent c.1 c.2) o,
              rw d (m ∙ append_assoc st.sent (passed t) (forwarded ts)),
            ))
    ]
