-- ===== src/Out/Start.antt =====
-- impl/all/core/wineing.cc, `cchan_out_thread`: the thread from its start.
use wineing.Prelude.{
  ℤ, is_neg, ◌≡◌, ◌≢◌, refl, sym, true, false, List, [], ◌∷◌, some, length, Bool-cases, inl, inr,
  arith,
}
use wineing.Prelude.Memory.{Bytes}
use wineing.Ctrl.{default_data_size, shared_version_read_init}
use wineing.Startup.{Progress, unbound, looping}
use wineing.Reader.{reader_init}
use wineing.Out.{OutTurn, OutState, cchan_out_thread}
use wineing.Out.Forward.{Chain, Starts, forwarded, out_loop-forwarded}

-- How far the thread comes in its rounds.
pub data Passes (out_rc in_mem_rc : ℤ) (ts : List OutTurn) : Progress OutState → Type 0 where
  no_out : is_neg out_rc ≡ true → Passes out_rc in_mem_rc ts unbound
  no_in : is_neg out_rc ≡ false → is_neg in_mem_rc ≡ true → Passes out_rc in_mem_rc ts unbound
  works :
      (st : OutState)
      → is_neg out_rc ≡ false
      → is_neg in_mem_rc ≡ false
      → st.sent ≡ forwarded ts
      → Passes out_rc in_mem_rc ts (looping st)

-- The first read finds a version that no reader starts with.
abbrev pub Noticed : List OutTurn → Type 0
Noticed [] = Unit {0}
Noticed (t ∷ ts) = t.shared.version ≢ shared_version_read_init

reader_init-Starts :
    (ts : List OutTurn) (memory : Bytes)
    → length memory ≡ default_data_size
    → Noticed ts
    → Starts ts (reader_init memory)
unfolding reader_init
reader_init-Starts [] memory a h = tt
reader_init-Starts (t ∷ ts) memory a h = record {
  valid = record { allocated = a; within = omega arith };
  synced = λ e. absurd (h (sym e));
}

-- The thread ends at once if it cannot bind one of its two channels. Otherwise what the clients get
-- is exactly the messages that it receives up to the first read that shows a shutdown, unchanged and
-- in order, less those whose send fails. It meets no memory fault, if the buffer has its size,
-- every message has at most 1024 bytes, fewer than 2^32 updates are made between two reads, and the
-- first read does not find version 2^32 - 1.
pub cchan_out_thread_lem :
    (out_rc in_mem_rc : ℤ) (memory : Bytes) (ts : List OutTurn)
    → length memory ≡ default_data_size
    → Chain ts
    → Noticed ts
    → (p : Progress OutState) × (cchan_out_thread out_rc in_mem_rc memory ts ≡ some p)
      × Passes out_rc in_mem_rc ts p
unfolding cchan_out_thread
cchan_out_thread_lem out_rc in_mem_rc memory ts a c h =
    let (st, o, m) =
      out_loop-forwarded ts (record { reader = reader_init memory; sent = [] }) c
        (reader_init-Starts ts memory a h) in
    elim (Bool-cases (is_neg out_rc)) [
      | inl x ↦ (unbound, rw x refl, no_out x)
      | inr x ↦ elim (Bool-cases (is_neg in_mem_rc)) [
        | inl y ↦ (unbound, rw (x, y) refl, no_in x y)
        | inr y ↦ (looping st, rw (x, y, o) refl, works st x y m)
      ]
    ]
