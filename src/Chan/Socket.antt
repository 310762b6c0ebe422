-- ===== src/Chan/Socket.antt =====
-- inc/net/chan.h and impl/all/net/chan.cc: how a channel is opened. ZeroMQ's constants and what its
-- calls return are arguments; the calls that are made are recorded.
use wineing.Prelude.{
  ℕ, ℤ, pos, negsuc, is_zero, Bool, true, false, ◌&&◌, ◌||◌, List, [], ◌∷◌, ◌++◌, ◌==◌,
  if◌then◌else◌, ◌≡◌, ◌↔◌, ◌<◌, ◌≤◌, arith,
}
use wineing.Prelude.Memory.{Bytes}

-- CHAN_TYPE_*
abbrev pub chan_type_pub : ℕ
chan_type_pub = 0

abbrev pub chan_type_sub : ℕ
chan_type_sub = 1

abbrev pub chan_type_req : ℕ
chan_type_req = 2

abbrev pub chan_type_rep : ℕ
chan_type_rep = 3

abbrev pub chan_type_pull_bind : ℕ
chan_type_pull_bind = 4

abbrev pub chan_type_pull_connect : ℕ
chan_type_pull_connect = 5

abbrev pub chan_type_push_bind : ℕ
chan_type_push_bind = 6

abbrev pub chan_type_push_connect : ℕ
chan_type_push_connect = 7

-- The socket types of zmq.h.
pub record ZmqTypes : Type 0 where
  pub zmq_pub : ℕ
  pub zmq_sub : ℕ
  pub zmq_push : ℕ
  pub zmq_pull : ℕ
  pub zmq_req : ℕ
  pub zmq_rep : ℕ

-- What `zmq_socket` (whether it gives a socket), `zmq_bind` and `zmq_connect` return.
pub record Zmq : Type 0 where
  pub types : ZmqTypes
  pub open types use *
  pub has_socket : ℕ → Bool
  pub bind_rc : Bytes → ℤ
  pub connect_rc : Bytes → ℤ

pub data ZmqCall : Type 0 where
  socket : ℕ → ZmqCall
  bind connect : Bytes → ZmqCall
  subscribe_all : ZmqCall

-- `chan`, with whether its socket is there in place of the pointer.
pub record Chan : Type 0 where
  pub fqcn : Bytes
  pub type : ℕ
  pub sock : Bool

unfoldable pub chan_init : Bytes → ℕ → Chan
chan_init fqcn type = record { fqcn = fqcn; type = type; sock = false }

unfoldable pub to_zmq_type : ZmqTypes → ℕ → ℕ
to_zmq_type z type =
    if type == chan_type_pub
    then z.zmq_pub
    else if type == chan_type_sub
    then z.zmq_sub
    else if type == chan_type_push_bind || type == chan_type_push_connect
    then z.zmq_push
    else if type == chan_type_pull_bind || type == chan_type_pull_connect
    then z.zmq_pull
    else if type == chan_type_req
    then z.zmq_req
    else if type == chan_type_rep
    then z.zmq_rep
    else 0

-- The inner `switch` of `chan_bind`: the code after it, and the call that is made.
unfoldable pub attach : Zmq → Chan → ℤ × List ZmqCall
attach z c =
    if c.type == chan_type_pub
      || c.type == chan_type_rep
      || c.type == chan_type_push_bind
      || c.type == chan_type_pull_bind
    then (z.bind_rc c.fqcn, bind c.fqcn ∷ [])
    else if c.type == chan_type_sub
        || c.type == chan_type_req
        || c.type == chan_type_push_connect
        || c.type == chan_type_pull_connect
    then (z.connect_rc c.fqcn, connect c.fqcn ∷ [])
    else (pos 0, [])

-- `chan_bind`: its return code, the channel and the calls to ZeroMQ.
unfoldable pub chan_bind : Zmq → Chan → ℤ × Chan × List ZmqCall
unfolding to_zmq_type attach
chan_bind z c =
    let t = to_zmq_type z.types c.type in
    if z.has_socket t
    then (let a = attach z c in
        (
          a.0,
          record c { sock = true },
          socket t ∷ a.1
              ++ (if is_zero a.0 && c.type == chan_type_sub then subscribe_all ∷ [] else []),
        ))
    else (negsuc 0, record c { sock = false }, socket t ∷ [])

-- The types whose socket is bound to its endpoint; the other valid ones connect.
abbrev pub is_server : ℕ → Bool
is_server t = t == 0 || t == 3 || t == 4 || t == 6

-- What the endpoint's call returns for a valid type.
abbrev pub endpoint_rc : Zmq → Chan → ℤ
endpoint_rc z c = if is_server c.type then z.bind_rc c.fqcn else z.connect_rc c.fqcn

module _ (z : Zmq) (c : Chan) where
  -- Opening a channel of a valid type succeeds exactly when ZeroMQ gives a socket and the call for
  -- its endpoint succeeds: a bind for PUB, REP and the BIND types, a connect for the others.
  pub chan_bind-valid :
      c.type < 8
      → (is_zero (chan_bind z c).0 ≡ true)
        ↔ ((z.has_socket (to_zmq_type z.types c.type) ≡ true) × (is_zero (endpoint_rc z c) ≡ true))
  unfolding chan_bind
  chan_bind-valid h = ground arith

  -- Opening a channel of any other type succeeds although no endpoint is bound or connected, as
  -- soon as ZeroMQ gives a socket of type 0.
  pub chan_bind-invalid :
      8 ≤ c.type
      → z.has_socket 0 ≡ true
      → chan_bind z c ≡ (pos 0, record c { sock = true }, socket 0 ∷ [])
  unfolding chan_bind
  chan_bind-invalid h e = ground arith
