-- ===== src/Chan/Sockets/Lost.antt =====
-- impl/all/net/chan.cc and impl/all/core/wineing.cc: the sockets that are lost, and what that does to
-- the end of the program.
use wineing.Prelude.{
  not, ℕ, ℤ, suc, ◌+◌, ◌-◌, ◌≡◌, ◌↔◌, refl, sym, ap, is_neg, Bool, true, false, List, [], ◌∷◌,
  Option, none, some, if◌then◌else◌, Bool-cases, inl, inr, arith,
}
use wineing.Prelude.Memory.{Bytes, >>=-eq-some}
use wineing.Chan.Socket.{
  Zmq, Chan, chan_init, chan_bind, attach, chan_type_pub, chan_type_pull_bind,
  chan_type_push_connect,
}
use wineing.Chan.Sockets.{
  open_chan, chan_destroy, chan_shutdown, ichan_name, retry, connecting_thread, cchan_in_sockets,
  market_sockets, cchan_out_sockets,
}

-- The inproc channel of a thread that connects to it.
abbrev inproc : Bool → Chan
inproc s = record { fqcn = ichan_name; type = chan_type_push_connect; sock = s }

abbrev attempt_rc : Zmq → ℤ
attempt_rc z = (chan_bind z (inproc false)).0

abbrev attempt_sock : Zmq → Bool
attempt_sock z = (chan_bind z (inproc false)).1.sock

-- The attempts before the first that succeeds, of those that got a socket.
lost_sockets : List Zmq → ℕ
lost_sockets [] = 0
lost_sockets (z ∷ zs) =
    let rest = lost_sockets zs in
    if is_neg (attempt_rc z) then (if attempt_sock z then suc rest else rest) else 0

-- A channel is opened in the same way whatever socket it had.
same-rc : (z : Zmq) (s : Bool) → (chan_bind z (inproc s)).0 ≡ attempt_rc z
unfolding chan_bind attach
same-rc z s = ground arith

same-chan : (z : Zmq) (s : Bool) → (chan_bind z (inproc s)).1 ≡ inproc (attempt_sock z)
unfolding chan_bind attach
same-chan z s = ground arith

-- A channel that opens has a socket.
chan_bind-sock :
    (z : Zmq) (c : Chan) → is_neg (chan_bind z c).0 ≡ false → (chan_bind z c).1.sock ≡ true
unfolding chan_bind
chan_bind-sock z c h = ground arith

open-inproc :
    (z : Zmq) (s : Bool) (n : ℕ)
    → open_chan z (inproc s) n
      ≡ (attempt_rc z, inproc (attempt_sock z), if attempt_sock z then suc n else n)
unfolding open_chan
open-inproc z s n = rw (same-rc z s, same-chan z s) refl

retry-lost :
    (zs : List Zmq) (s : Bool) (n : ℕ) (c : Chan) (m : ℕ)
    → retry zs (inproc s) n ≡ some (c, m)
    → (c.sock ≡ true) × (m ≡ suc (n + lost_sockets zs))
unfolding retry lost_sockets
retry-lost [] s n c m e = cc
retry-lost (z ∷ zs) s n c m e = elim (Bool-cases (is_neg (attempt_rc z))) [
  | inl b ↦
      (let (x, y) =
          retry-lost zs (attempt_sock z) (if attempt_sock z then suc n else n) c m
            (rw (open-inproc z s n, b) at e) in
        (
          x,
          elim (Bool-cases (attempt_sock z)) [
            | inl a ↦ rw (b, a) (omega (arith, rw a at y))
            | inr a ↦ rw (b, a) (omega (arith, rw a at y))
          ],
        ))
  | inr b ↦
      (let a = chan_bind-sock z (inproc false) b in
        let q : ◌≡◌ {A = Option (Chan × ℕ)} (some (inproc true, suc n)) (some (c, m)) =
          rw (open-inproc z s n, b, a) at e in
        let x : inproc true ≡ c = ground (arith, q) in
        let y : suc n ≡ m = ground (arith, q) in
        (ap (λ k. k.sock) (sym x), rw b (omega (arith, y))))
]

-- The channel that the thread binds opens.
abbrev Opens : Zmq → Chan → Type 0
Opens z c = is_neg (chan_bind z c).0 ≡ false

connecting-lost :
    (first : Chan) (z : Zmq) (zs : List Zmq) (m : ℕ)
    → Opens z first
    → connecting_thread first z zs ≡ some m
    → m ≡ lost_sockets zs
unfolding connecting_thread open_chan chan_destroy chan_init
connecting-lost first z zs m h e =
    let a = chan_bind-sock z first h in
    let ((c, k), o, q) = >>=-eq-some (retry zs (inproc false) 1) _ (rw (h, a) at e) in
    let (x, y) = retry-lost zs false 1 c k o in
    let r : (if c.sock then k - 1 - 1 else k - 1) ≡ m = ground (arith, q) in
    omega (arith, rw x at r, y)

cchan_out-lost :
    (fqcn : Bytes) (o p : Zmq)
    → Opens o (chan_init fqcn chan_type_pub)
    → Opens p (chan_init ichan_name chan_type_pull_bind)
    → cchan_out_sockets fqcn o p ≡ 0
unfolding cchan_out_sockets open_chan chan_destroy
cchan_out-lost fqcn o p h k = rw (
  h,
  k,
  chan_bind-sock o (chan_init fqcn chan_type_pub) h,
  chan_bind-sock p (chan_init ichan_name chan_type_pull_bind) k,
)

-- Whether the first attempt at the inproc channel succeeds.
abbrev first_connects : List Zmq → Bool
first_connects [] = false
first_connects (z ∷ zs) = not (is_neg (attempt_rc z))

-- ZeroMQ gives a socket at every attempt.
abbrev AllSockets : List Zmq → Type 0
AllSockets [] = Unit {0}
AllSockets (z ∷ zs) = (z.has_socket z.types.zmq_push ≡ true) × AllSockets zs

attempt-socket : (z : Zmq) → z.has_socket z.types.zmq_push ≡ true → attempt_sock z ≡ true
unfolding chan_bind
attempt-socket z h = ground (arith, h)

none_lost :
    (zs : List Zmq) (first : Chan) (z : Zmq) (m : ℕ)
    → AllSockets zs
    → Opens z first
    → connecting_thread first z zs ≡ some m
    → (m ≡ 0) ↔ (first_connects zs ≡ true)
unfolding lost_sockets connecting_thread retry open_chan
none_lost [] first z m h o e = let n : ◌≡◌ {A = Option ℕ} none (some m) = rw o at e in absurd (cc n)
none_lost (y ∷ ys) first z m h o e =
    let q = connecting-lost first z (y ∷ ys) m o e in
    let a = attempt-socket y h.0 in
    elim (Bool-cases (is_neg (attempt_rc y))) [
      | inl b ↦
          (let r : m ≡ suc (lost_sockets ys) = rw (b, a) at q in
            rw b ((λ k. absurd (omega (arith, k, r))), (λ k. absurd (cc k))))
      | inr b ↦ (let r : m ≡ 0 = rw b at q in rw b ((λ k. refl), (λ k. r)))
    ]

-- The end of the program waits in `zmq_term` for ever as soon as one attempt at the inproc channel
-- has failed: when the threads have returned and all messages are sent, `chan_shutdown` returns exactly if `cchan_in_thread`
-- and `market_thread` each connected at the first attempt, that is, if `cchan_out_thread` had bound
-- the inproc channel before. The other binds succeed, and ZeroMQ gives a socket at every attempt.
chan_shutdown_lem :
    (in_fqcn market_fqcn out_fqcn : Bytes) (z y o p : Zmq) (zs ys : List Zmq) (a b : ℕ)
    → Opens z (chan_init in_fqcn chan_type_pull_bind)
    → Opens y (chan_init market_fqcn chan_type_pub)
    → Opens o (chan_init out_fqcn chan_type_pub)
    → Opens p (chan_init ichan_name chan_type_pull_bind)
    → AllSockets zs
    → AllSockets ys
    → cchan_in_sockets in_fqcn z zs ≡ some a
    → market_sockets market_fqcn y ys ≡ some b
    → (chan_shutdown (a + b + cchan_out_sockets out_fqcn o p) true ≡ true)
      ↔ ((first_connects zs ≡ true) × (first_connects ys ≡ true))
unfolding cchan_in_sockets market_sockets chan_shutdown
chan_shutdown_lem i m u z y o p zs ys a b hz hy ho hp sz sy e f =
    let c = none_lost zs (chan_init i chan_type_pull_bind) z a sz hz e in
    let d = none_lost ys (chan_init m chan_type_pub) y b sy hy f in
    rw (cchan_out-lost u o p ho hp) (
      (λ k.
          let n : a + b + 0 ≡ 0 = ground (arith, k) in
          (c.0 (omega (arith, n)), d.0 (omega (arith, n)))),
      (λ k.
          let n : a ≡ 0 = c.1 k.0 in
          let w : b ≡ 0 = d.1 k.1 in
          let c : a + b + 0 ≡ 0 = omega (arith, n, w) in ground (arith, c)),
    )
