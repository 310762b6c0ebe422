-- ===== src/System/Overflow.antt =====
-- impl/all/core/wineing.cc: a long file name comes back in an error response that is larger than
-- the buffer of `cchan_out_thread`.
use wineing.Prelude.{
  pos, ◌+◌, ◌^◌, ◌<◌, ◌≡◌, ◌≢◌, refl, ap, none, some, arith, length, length-append, ◌==◌, false,
}
use wineing.Prelude.Memory.{Bytes, codes}
use wineing.Ctrl.{cmd_shutdown}
use wineing.Ctrl.Copy.{IsValid}
use wineing.Proto.{Request, err, HoldsText}
use wineing.Control.{Env, InState, process, respond_err, not_found}
use wineing.Control.Owner.{IsReady, no_tape}
use wineing.Control.Cases.{tape_path}
use wineing.Control.Outcome.{IsMissingStart, process-missing}
use wineing.Reader.Fresh.{InSync, read_shared-IsFresh}
use wineing.Out.{OutTurn, OutState, out_buffer_size, out_turn}
use wineing.Out.Forward.{pass_on-overflow}

-- A round of `cchan_out_thread` that receives the message `m` and has seen no shutdown.
pub record Takes (t : OutTurn) (st : OutState) (m : Bytes) : Type 0 where
  pub received : t.received.rc ≡ pos 0
  pub message : t.received.message ≡ m
  pub small : length m < 2 ^ 31
  pub allocated : length t.memory ≡ out_buffer_size
  pub valid : IsValid t.shared.value
  pub synced : InSync t.shared st.reader
  pub goes_on : t.shared.value.cmd ≢ cmd_shutdown

-- Such a round is a memory fault if the message has more than 1024 bytes.
pub out_turn-overflow :
    (t : OutTurn) (st : OutState) (m : Bytes)
    → Takes t st m
    → out_buffer_size < length m
    → out_turn t st ≡ none
unfolding out_turn
out_turn-overflow t st m k l =
    let (r, e, f) = read_shared-IsFresh t.shared st.reader k.valid k.synced in
    let seen : (t.shared.value.cmd == cmd_shutdown) ≡ false = ground (arith, k.goes_on) in
    let n = ap length k.message in
    rw (
      e,
      f.shows.same_cmd,
      seen,
      pass_on-overflow t r st.sent k.allocated k.received (omega (arith, n, k.small))
          (omega (arith, n, l)),
    )

length-not_found : (path : Bytes) → length (not_found path) ≡ length path + 18
length-not_found path = omega (arith, length-append path (codes "' not found."))

-- While the market is not running, a start request for a tape that is not there, with a path of more
-- than 1006 bytes, is answered by
-- an error response that overflows the buffer of `cchan_out_thread`, if the serialised response
-- contains its text and comes to that thread as one message below 2^31 bytes before a shutdown. The
-- control blocks are well formed, and the thread's version is the global one.
pub missing_overflows :
    (env : Env) (req : Request) (s : InState) (file : Bytes) (t : OutTurn) (st : OutState)
    → IsReady s
    → HoldsText env.codec
    → IsMissingStart env req s file
    → 1006 < length (tape_path env file)
    → Takes t st
        (env.codec.serialize_response (respond_err req err (not_found (tape_path env file))))
    → (process env req s ≡ some (respond_err req err (not_found (tape_path env file)), no_tape s))
      × (out_turn t st ≡ none)
missing_overflows env req s file t st r h p l k =
    let path = tape_path env file in
    let res = respond_err req err (not_found path) in
    (
      process-missing env req s file r p,
      out_turn-overflow t st (env.codec.serialize_response res) k
          (omega (arith, h.text_inside res (not_found path) refl, length-not_found path)),
    )
