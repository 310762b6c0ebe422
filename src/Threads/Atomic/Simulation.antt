-- ===== src/Threads/Atomic/Simulation.antt =====
-- impl/all/conc/conc.cc: how a state of the threads in the middle of their calls stands for a state
-- between two single actions. An update counts from its last store on, a read from its last load on.
use wineing.Prelude.{
  ℕ, ◌≡◌, ◌≢◌, ◌∙◌, sym, subst, ◌⊎◌, inl, inr, Bool, true, false, Option, none, some,
}
use wineing.Ctrl.{WCtrl}
use wineing.Conc.{Shared, next_version}
use wineing.Reader.{Reader}
use wineing.Threads.{
  Pc, idle, waiting, entered, versioned, cmd_copied, size_copied, data_copied, Memory, Local, World,
}
use wineing.Threads.Safety.{is_critical}
use wineing.Threads.Alone.{shared_of}
use wineing.Threads.Atomic.{Atoms, Act, Event, event}

-- The writer has stored the version and not yet the whole block.
abbrev pub is_storing : Pc → Bool
is_storing versioned = true
is_storing cmd_copied = true
is_storing size_copied = true
is_storing _ = false

abbrev pub own : Local → Reader
own l = record { t_version = l.t_version; t_data = l.t_data }

-- The update has not counted yet: the block has the fields of `c` that are stored.
pub record Pending (m : Memory) (g : Shared WCtrl) (version : ℕ) (d : WCtrl) : Type 0 where
  pub owned : version ≡ g.version
  pub stored : m.version ≡ next_version version
  pub block : m.value ≡ d

-- Every call has counted, or has not begun to store.
pub record Settled (m : Memory) (t_version : ℕ) (g : Shared WCtrl) (version : ℕ) : Type 0 where
  pub same_block : g ≡ shared_of m
  pub same_version : version ≡ t_version

abbrev pub WritesAt : Memory → ℕ → WCtrl → Shared WCtrl → ℕ → Pc → Type 0
WritesAt m t_version d g version versioned = Pending m g version g.value
WritesAt m t_version d g version cmd_copied = Pending m g version (record g.value { cmd = d.cmd })
WritesAt m t_version d g version size_copied =
    Pending m g version (record g.value { cmd = d.cmd; size = d.size })
WritesAt m t_version d g version _ = Settled m t_version g version

-- A reader, at its place, while the writer is at `w`.
abbrev pub ReadsAt : Memory → Pc → ℕ → WCtrl → Reader → Pc → Type 0
ReadsAt m w version d r idle =
    (r ≡ record { t_version = version; t_data = d }) × (is_storing w ≡ true → version ≢ m.version)
ReadsAt m w version d r waiting =
    (r ≡ record { t_version = version; t_data = d }) × (version ≢ m.version)
ReadsAt m w version d r entered =
    (r ≡ record { t_version = version; t_data = d }) × (version ≢ m.version)
ReadsAt m w version d r versioned = (r.t_version ≢ m.version) × (d ≡ r.t_data)
ReadsAt m w version d r cmd_copied =
    (r.t_version ≢ m.version) × (d ≡ record r.t_data { cmd = m.value.cmd })
ReadsAt m w version d r size_copied =
    (r.t_version ≢ m.version) × (d ≡ record r.t_data { cmd = m.value.cmd; size = m.value.size })
ReadsAt m w version d r data_copied = r ≡ record { t_version = version; t_data = d }

abbrev pub Reads : Memory → Pc → Local → Reader → Type 0
Reads m w l r = ReadsAt m w l.t_version l.t_data r l.pc

pub record Sim (s : World) (a : Atoms) : Type 0 where
  pub same_data : a.writer.t_data ≡ s.writer.t_data
  pub writes :
      WritesAt s.memory s.writer.t_version s.writer.t_data a.shared a.writer.t_version s.writer.pc
  pub reads : (i : ℕ) → Reads s.memory s.writer.pc (s.readers i) (a.readers i)

-- A reader stays as it is while the version stays, and the block does or the reader does not look.
pub Reads-frame :
    (m m' : Memory) (w w' : Pc) (l : Local) (r : Reader)
    → m'.version ≡ m.version
    → (is_storing w' ≡ true → is_storing w ≡ true)
    → (is_critical l.pc ≡ false) ⊎ (m'.value ≡ m.value)
    → Reads m w l r
    → Reads m' w' l r
Reads-frame m m' w w' l r e h o x = at l.pc o x
  where
    apart : {v : ℕ} → v ≢ m.version → v ≢ m'.version
    apart n q = n (q ∙ e)

    at :
        (p : Pc)
        → (is_critical p ≡ false) ⊎ (m'.value ≡ m.value)
        → ReadsAt m w l.t_version l.t_data r p
        → ReadsAt m' w' l.t_version l.t_data r p
    at idle o x = (x.0, λ k. apart (x.1 (h k)))
    at waiting o x = (x.0, apart x.1)
    at entered o x = (x.0, apart x.1)
    at versioned o x = (apart x.0, x.1)
    at cmd_copied (inl c) x = absurd (cc (c))
    at cmd_copied (inr c) x =
        (apart x.0, subst (λ v. l.t_data ≡ record r.t_data { cmd = v.cmd }) (sym c) x.1)
    at size_copied (inl c) x = absurd (cc (c))
    at size_copied (inr c) x = (
      apart x.0,
      subst (λ v. l.t_data ≡ record r.t_data { cmd = v.cmd; size = v.size }) (sym c) x.1,
    )
    at data_copied o x = x

-- The writer stays as it is while a reader only takes or frees the lock.
pub WritesAt-frame :
    (m m' : Memory) (t_version : ℕ) (d : WCtrl) (g : Shared WCtrl) (version : ℕ) (w : Pc)
    → m'.version ≡ m.version
    → m'.value ≡ m.value
    → WritesAt m t_version d g version w
    → WritesAt m' t_version d g version w
WritesAt-frame m m' t_version d g version w e f = at w
  where
    settled : Settled m t_version g version → Settled m' t_version g version
    settled x = record { same_block = rw (e, f) x.same_block; same_version = x.same_version }

    pending : {c : WCtrl} → Pending m g version c → Pending m' g version c
    pending x = record { owned = x.owned; stored = e ∙ x.stored; block = f ∙ x.block }

    at : (w : Pc) → WritesAt m t_version d g version w → WritesAt m' t_version d g version w
    at idle = settled
    at waiting = settled
    at entered = settled
    at versioned = pending
    at cmd_copied = pending
    at size_copied = pending
    at data_copied = settled

pub WritesAt-Settled :
    {m : Memory} {t_version : ℕ} (d : WCtrl) {g : Shared WCtrl} {version : ℕ} (w : Pc)
    → is_storing w ≡ false
    → WritesAt m t_version d g version w
    → Settled m t_version g version
WritesAt-Settled d idle e x = x
WritesAt-Settled d waiting e x = x
WritesAt-Settled d entered e x = x
WritesAt-Settled d versioned e x = absurd (cc e)
WritesAt-Settled d cmd_copied e x = absurd (cc e)
WritesAt-Settled d size_copied e x = absurd (cc e)
WritesAt-Settled d data_copied e x = x

-- A step is answered by no action, or by one that stands for it.
pub data Matched (t : World) (a : Atoms) : Option Event → Type 0 where
  stutters : Sim t a → Matched t a none
  acts : {b : Atoms} (x : Act a b) → Sim t b → Matched t a (some (event x))

pub WritesAt-place :
    {s : World} {a : Atoms} {p : Pc}
    → Sim s a
    → s.writer.pc ≡ p
    → WritesAt s.memory s.writer.t_version s.writer.t_data a.shared a.writer.t_version p
WritesAt-place {s} {a} z e =
    subst (WritesAt s.memory s.writer.t_version s.writer.t_data a.shared a.writer.t_version) e
      z.writes

pub ReadsAt-place :
    {s : World} {a : Atoms} {p : Pc} (i : ℕ)
    → Sim s a
    → (s.readers i).pc ≡ p
    → ReadsAt s.memory s.writer.pc (s.readers i).t_version (s.readers i).t_data (a.readers i) p
ReadsAt-place {s} {a} i z e =
    subst (ReadsAt s.memory s.writer.pc (s.readers i).t_version (s.readers i).t_data (a.readers i))
      e (z.reads i)
