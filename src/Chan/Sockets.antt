-- ===== src/Chan/Sockets.antt =====
-- impl/all/net/chan.cc and impl/all/core/wineing.cc: the sockets that the program holds, from
-- `zmq_socket` in `chan_bind` to `zmq_close` in `chan_destroy`. `zmq_term` in `chan_shutdown` waits
-- until there is none and all messages are sent, as ZeroMQ documents.
pub mod Lost
use wineing.Prelude.{
  ℕ, ℤ, suc, ◌+◌, ◌-◌, ◌≡◌, is_neg, Bool, true, false, List, [], ◌∷◌, Option, none, some, ◌==◌,
  if◌then◌else◌, ◌&&◌,
}
use wineing.Prelude.Memory.{Bytes, codes, ◌>>=◌}
use wineing.Chan.Socket.{
  Zmq, Chan, chan_init, chan_bind, chan_type_pub, chan_type_pull_bind, chan_type_push_connect,
}

-- `chan_bind` with the number of open sockets: its code, the channel and the number after it.
unfoldable pub open_chan : Zmq → Chan → ℕ → ℤ × Chan × ℕ
open_chan z c n = let b = chan_bind z c in (b.0, b.1, if b.1.sock then suc n else n)

-- `zmq_close(c->sock)`. Without a socket ZeroMQ returns an error.
unfoldable pub chan_destroy : Chan → ℕ → ℕ
chan_destroy c n = if c.sock then n - 1 else n

-- Whether `zmq_term` returns, with `n` sockets still open. As ZeroMQ documents, it also waits until
-- all messages that the sockets took over are sent; `sent` says whether they come to be.
unfoldable pub chan_shutdown : ℕ → Bool → Bool
chan_shutdown n sent = n == 0 && sent

-- DEFAULTS_ICHAN_NAME
abbrev pub ichan_name : Bytes
ichan_name = codes "inproc://ctrl.out"

-- `while(0 > chan_bind(c)) sleep(1)`, over what ZeroMQ gives at each attempt; `none` while it goes
-- on.
unfoldable pub retry : List Zmq → Chan → ℕ → Option (Chan × ℕ)
retry [] c n = none
retry (z ∷ zs) c n =
    let b = open_chan z c n in
    let rest = retry zs b.1 b.2 in if is_neg b.0 then rest else some (b.1, b.2)

-- The sockets that a thread leaves open, which binds `first` and connects to the inproc channel, and
-- whose loop ends; `none` if it never returns.
unfoldable pub connecting_thread : Chan → Zmq → List Zmq → Option ℕ
connecting_thread first z attempts =
    let b = open_chan z first 0 in
    if is_neg b.0
    then some b.2
    else (retry attempts (chan_init ichan_name chan_type_push_connect) b.2 >>= λ r.
        some (chan_destroy r.0 (chan_destroy b.1 r.1)))

-- `cchan_in_thread`, which closes `cchan_in` first.
unfoldable pub cchan_in_sockets : Bytes → Zmq → List Zmq → Option ℕ
cchan_in_sockets fqcn z attempts = connecting_thread (chan_init fqcn chan_type_pull_bind) z attempts

-- `market_thread`, which closes `mchan` first.
unfoldable pub market_sockets : Bytes → Zmq → List Zmq → Option ℕ
market_sockets fqcn z attempts = connecting_thread (chan_init fqcn chan_type_pub) z attempts

-- `cchan_out_thread`, whose failing binds return at once.
unfoldable pub cchan_out_sockets : Bytes → Zmq → Zmq → ℕ
cchan_out_sockets fqcn z y =
    let b = open_chan z (chan_init fqcn chan_type_pub) 0 in
    let c = open_chan y (chan_init ichan_name chan_type_pull_bind) b.2 in
    if is_neg b.0 then b.2 else if is_neg c.0 then c.2 else chan_destroy b.1 (chan_destroy c.1 c.2)
