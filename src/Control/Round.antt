-- ===== src/Control/Round.antt =====
-- impl/all/core/wineing.cc, `cchan_in_thread`: one round of the loop over incoming messages.
use wineing.Prelude.{
  pos, negsuc, lt→ltb, ◌<◌, ◌^◌, ◌≡◌, ap, ◌∙◌, List, [], ◌∷◌, ◌++◌, Option, none, some, arith,
  length, true, false, is_neg, take-length,
}
use wineing.Prelude.Memory.{Bytes}
use wineing.Proto.{Request, Response, Codec}
use wineing.Chan.{ZmqRecv, chan_recv, chan_recv-message, chan_recv-failed, chan_send-all}
use wineing.Control.{Env, Turn, InState, cleared, recv_ctrl, process, reply, in_turn}
use wineing.Control.Owner.{IsOwner}
use wineing.Control.Updates.{Advanced, process-Advanced}
use wineing.Control.Spec.{told, answer, Fits, process-answer}

-- What one round receives: a request, or nothing that the thread can use.
pub data Hears (env : Env) (t : Turn) : Option Request → Type 0 where
  request :
      (req : Request)
      → t.received.rc ≡ pos 0
      → env.codec.parse_request t.received.message ≡ some req
      → 0 < length t.received.message
      → length t.received.message < 2 ^ 31
      → is_neg t.send_rc ≡ false
      → Fits env req.tape_file
      → Hears env t (some req)
  garbled :
      t.received.rc ≡ pos 0
      → env.codec.parse_request t.received.message ≡ none
      → length t.received.message < 2 ^ 31
      → Hears env t none
  failed : is_neg t.received.rc ≡ true → Hears env t none

recv_ctrl-parse :
    (codec : Codec) (m : Bytes) (obj : Request)
    → recv_ctrl codec m (length m) obj
      ≡ elim (codec.parse_request m) [ none ↦ some (negsuc 0, obj) | some r ↦ some (pos 0, r) ]
unfolding recv_ctrl
recv_ctrl-parse codec m obj = ground (arith, take-length m)

pub recv-request :
    (codec : Codec) (z : ZmqRecv) (req : Request)
    → z.rc ≡ pos 0
    → codec.parse_request z.message ≡ some req
    → length z.message < 2 ^ 31
    → chan_recv z (recv_ctrl codec) cleared ≡ some (pos (length z.message), req)
recv-request codec z req e p h =
    chan_recv-message z (recv_ctrl codec) cleared e h ∙ rw (recv_ctrl-parse, p)

recv-garbled :
    (codec : Codec) (z : ZmqRecv)
    → z.rc ≡ pos 0
    → codec.parse_request z.message ≡ none
    → length z.message < 2 ^ 31
    → chan_recv z (recv_ctrl codec) cleared ≡ some (negsuc 0, cleared)
recv-garbled codec z e p h =
    chan_recv-message z (recv_ctrl codec) cleared e h ∙ rw (recv_ctrl-parse, p)

-- A round that brings nothing usable changes nothing.
pub in_turn-none :
    (env : Env) (t : Turn) (s : InState) → Hears env t none → in_turn env t s ≡ some s
unfolding in_turn
in_turn-none env t s (garbled e p h) = rw (recv-garbled env.codec t.received e p h)
in_turn-none env t s (failed h) =
    rw (chan_recv-failed t.received (recv_ctrl env.codec) cleared h) (ground arith)

-- A round that brings a request processes it and sends the response.
pub in_turn-request :
    (env : Env) (t : Turn) (req : Request) (s s' : InState) (res : Response)
    → Hears env t (some req)
    → process env req s ≡ some (res, s')
    → in_turn env t s ≡ some (record s' { sent = s'.sent ++ env.codec.serialize_response res ∷ [] })
unfolding in_turn reply
in_turn-request env t req s s' res (request q e p l h k f) o = rw (
  recv-request env.codec t.received req e p h,
  lt→ltb 0 (length t.received.message) l,
  o,
  chan_send-all t.send_rc (env.codec.serialize_response res) s'.sent,
  k,
)

pub sent-IsOwner : (s : InState) (out : List Bytes) → IsOwner s → IsOwner (record s { sent = out })
sent-IsOwner s out w = record {
  ready = record {
    current = w.ready.current;
    local_valid = w.ready.local_valid;
    shared_valid = w.ready.shared_valid;
  };
  same_cmd = w.same_cmd;
}

Hears-Fits :
    {env : Env} {t : Turn} {req : Request} → Hears env t (some req) → Fits env req.tape_file
Hears-Fits (request q e p l h k f) = f

-- A round that brings a request is answered as the abstract machine answers it.
pub in_turn-answer :
    (env : Env) (t : Turn) (req : Request) (s : InState)
    → IsOwner s
    → s.shared.version < 2 ^ 32
    → Hears env t (some req)
    → (s' : InState) × (in_turn env t s ≡ some s')
      × IsOwner s'
      × (told s' ≡ (answer env (told s) req).1)
      × (s'.sent ≡ s.sent ++ env.codec.serialize_response (answer env (told s) req).0 ∷ [])
      × Advanced 1 s.shared s'.shared
in_turn-answer env t req s w b h =
    let (s', o, e, w', m) = process-answer env req s w (Hears-Fits h) in
    let res = (answer env (told s) req).0 in
    let out = s'.sent ++ env.codec.serialize_response res ∷ [] in
    (
      record s' { sent = out },
      in_turn-request env t req s s' res h o,
      sent-IsOwner s' out w',
      e,
      ap (λ m. m ++ env.codec.serialize_response res ∷ []) m,
      process-Advanced env req s s' res b w.ready o,
    )
