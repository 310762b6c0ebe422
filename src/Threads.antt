-- ===== src/Threads.antt =====
-- impl/all/conc/conc.cc and inc/core/wineing.h: the two functions on the shared control block, a
-- shared access at a time, run by one writer (`cchan_in_thread`) and any number of readers in any
-- order. Accesses are sequentially consistent.
pub mod Invariant
pub mod Moves
pub mod Safety
pub mod Alone
pub mod Progress
pub mod Fresh
pub mod Atomic
pub mod Relaxed
use wineing.Prelude.{ℕ, suc, ◌≡◌, ◌≢◌, Bool, Option, none, some, ltb, if◌then◌else◌}
use mathlib.Core.Logic.{ite}
use native.Mathlib.Decide.{ℕ_discrete}
use wineing.Prelude.Memory.{Bytes, memcpy}
use wineing.Ctrl.{WCtrl, shared_version_init, shared_version_read_init}
use wineing.Conc.{next_version}

-- Where a thread stands: outside the functions, before `pthread_mutex_lock`, or in the critical
-- section with the version and the fields of the control block that it has copied.
pub data Pc : Type 0 where
  idle waiting entered versioned cmd_copied size_copied data_copied : Pc

-- `g_lock`
pub data Lock : Type 0 where
  free by_writer : Lock
  by_reader : ℕ → Lock

pub record Memory : Type 0 where
  pub version : ℕ
  pub lock : Lock
  pub value : WCtrl

-- `t_version` and `t_data` of a thread.
pub record Local : Type 0 where
  pub t_version : ℕ
  pub t_data : WCtrl
  pub pc : Pc

-- The `memcpy` of the copy functions, under its test.
unfoldable pub copy_data : WCtrl → WCtrl → Option Bytes
copy_data dst src =
    if ltb 0 src.size then memcpy dst.buffer src.buffer src.size else some dst.buffer

-- One step of the writer, but the store of the version. `prepare` is its own work on `t_data`
-- between two calls.
pub data WriterMove (m : Memory) (l : Local) : Memory → Local → Type 0 where
  prepare : (d : WCtrl) → l.pc ≡ idle → WriterMove m l m (record l { t_data = d })
  refused :
      l.pc ≡ idle → l.t_version ≢ m.version → WriterMove m l m (record l { t_version = m.version })
  owns : l.pc ≡ idle → l.t_version ≡ m.version → WriterMove m l m (record l { pc = waiting })
  lock :
      l.pc ≡ waiting
      → m.lock ≡ free
      → WriterMove m l (record m { lock = by_writer }) (record l { pc = entered })
  store_cmd :
      l.pc ≡ versioned
      → WriterMove m l
          (record m { value = record m.value { cmd = l.t_data.cmd } })
          (record l { pc = cmd_copied })
  store_size :
      l.pc ≡ cmd_copied
      → WriterMove m l
          (record m { value = record m.value { size = l.t_data.size } })
          (record l { pc = size_copied })
  store_data :
      (b : Bytes)
      → l.pc ≡ size_copied
      → copy_data m.value l.t_data ≡ some b
      → WriterMove m l
          (record m { value = record m.value { buffer = b } })
          (record l { pc = data_copied })
  unlock : l.pc ≡ data_copied → WriterMove m l (record m { lock = free }) (record l { pc = idle })

-- One step of the reader `i`.
pub data ReaderMove (i : ℕ) (m : Memory) (l : Local) : Memory → Local → Type 0 where
  same : l.pc ≡ idle → l.t_version ≡ m.version → ReaderMove i m l m l
  changed : l.pc ≡ idle → l.t_version ≢ m.version → ReaderMove i m l m (record l { pc = waiting })
  lock :
      l.pc ≡ waiting
      → m.lock ≡ free
      → ReaderMove i m l (record m { lock = by_reader i }) (record l { pc = entered })
  load_version :
      l.pc ≡ entered → ReaderMove i m l m (record l { t_version = m.version; pc = versioned })
  load_cmd :
      l.pc ≡ versioned
      → ReaderMove i m l m
          (record l { t_data = record l.t_data { cmd = m.value.cmd }; pc = cmd_copied })
  load_size :
      l.pc ≡ cmd_copied
      → ReaderMove i m l m
          (record l { t_data = record l.t_data { size = m.value.size }; pc = size_copied })
  load_data :
      (b : Bytes)
      → l.pc ≡ size_copied
      → copy_data l.t_data m.value ≡ some b
      → ReaderMove i m l m (record l { t_data = record l.t_data { buffer = b }; pc = data_copied })
  unlock : l.pc ≡ data_copied → ReaderMove i m l (record m { lock = free }) (record l { pc = idle })

abbrev pub update : (ℕ → Local) → ℕ → Local → ℕ → Local
update f i l j = ite (ℕ_discrete i j) l (f j)

abbrev pub record_value : (ℕ → WCtrl) → ℕ → WCtrl → ℕ → WCtrl
record_value f n d k = ite (ℕ_discrete n k) d (f k)

-- `updates` and `values` only record what happened: how often the version was stored, and which
-- control block the writer published under which number. No step reads them.
pub record World : Type 0 where
  pub memory : Memory
  pub writer : Local
  pub readers : ℕ → Local
  pub updates : ℕ
  pub values : ℕ → WCtrl

pub data Step (s : World) : World → Type 0 where
  writes :
      {m : Memory} {l : Local}
      → WriterMove s.memory s.writer m l
      → Step s (record s { memory = m; writer = l })
  store_version :
      s.writer.pc ≡ entered
      → Step s (record s {
        memory = record s.memory { version = next_version s.writer.t_version };
        writer = record s.writer { t_version = next_version s.writer.t_version; pc = versioned };
        updates = suc s.updates;
        values = record_value s.values (suc s.updates) s.writer.t_data;
      })
  reads :
      (i : ℕ) {m : Memory} {l : Local}
      → ReaderMove i s.memory (s.readers i) m l
      → Step s (record s { memory = m; readers = update s.readers i l })

-- After `lazy_init`, before any thread has called a function. The control blocks are arbitrary.
abbrev pub start : WCtrl → WCtrl → (ℕ → WCtrl) → World
start g_data t_data r_data = record {
  memory = record { version = shared_version_init; lock = free; value = g_data };
  writer = record { t_version = shared_version_init; t_data = t_data; pc = idle };
  readers = λ i. record { t_version = shared_version_read_init; t_data = r_data i; pc = idle };
  updates = 0;
  values = λ n. g_data;
}

pub data Reach (g_data t_data : WCtrl) (r_data : ℕ → WCtrl) : World → Type 0 where
  here : Reach g_data t_data r_data (start g_data t_data r_data)
  next : {s t : World} → Reach g_data t_data r_data s → Step s t → Reach g_data t_data r_data t
