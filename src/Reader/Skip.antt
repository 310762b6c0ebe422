-- ===== src/Reader/Skip.antt =====
-- impl/all/conc/conc.cc: reads that skip the copy while the version stays, against reads that
-- always copy.
use wineing.Prelude.{ℕ, ◌≡◌, refl, sym, ◌∙◌, List, [], ◌∷◌, Option, some, take}
use wineing.Prelude.Memory.{Bytes, ◌>>=◌}
use wineing.Ctrl.{WCtrl, copy_shared_to_local}
use wineing.Ctrl.Copy.{
  IsValid, Shows, copied, copied-IsValid, copied-Shows, copy_local_to_shared-copied,
  copy_shared_to_local-swap,
}
use wineing.Conc.{Shared}
use wineing.Reader.{Reader, read_shared}
use wineing.Reader.Fresh.{InSync, IsFresh, read_shared-IsFresh}
use wineing.Reader.Behind.{Later, IsFresh-Later}

-- The reference: a read that copies whatever the version is.
unfoldable pub read_always : Shared WCtrl → Reader → Option Reader
read_always g r = copy_shared_to_local r.t_data g.value >>= λ d.
    some (record { t_version = g.version; t_data = d })

-- What a thread can see of its copy: the command, and the data up to the size.
abbrev pub seen : WCtrl → ℕ × Bytes
seen d = (d.cmd, take d.size d.buffer)

-- What a thread sees at a sequence of reads, each of which finds the next shared state.
unfoldable pub views :
    (Shared WCtrl → Reader → Option Reader)
    → List (Shared WCtrl)
    → Reader
    → Option (List (ℕ × Bytes))
views read [] r = some []
views read (g ∷ gs) r = read g r >>= λ r'. views read gs r' >>= λ vs. some (seen r'.t_data ∷ vs)

-- The shared states at the reads follow one another, and the reader notices the first.
abbrev pub Linked : Shared WCtrl → List (Shared WCtrl) → Type 0
Linked g [] = Unit {0}
Linked g (h ∷ hs) = Later g h × IsValid h.value × Linked h hs

abbrev pub Reads : List (Shared WCtrl) → Reader → Type 0
Reads [] r = Unit {0}
Reads (g ∷ gs) r = InSync g r × IsValid g.value × Linked g gs

pub Reads-next :
    {g : Shared WCtrl} {r : Reader} (gs : List (Shared WCtrl))
    → IsFresh g r
    → Linked g gs
    → Reads gs r
Reads-next [] f l = tt
Reads-next (h ∷ hs) f l = (IsFresh-Later f l.0, l.1, l.2)

read_always-Shows :
    (g : Shared WCtrl) (r : Reader)
    → IsValid g.value
    → IsValid r.t_data
    → (r' : Reader) × (read_always g r ≡ some r') × IsValid r'.t_data × Shows r'.t_data g.value
unfolding read_always
read_always-Shows g r v w = (
  record { t_version = g.version; t_data = copied g.value r.t_data },
  rw (copy_shared_to_local-swap r.t_data g.value, copy_local_to_shared-copied g.value r.t_data v w),
  copied-IsValid g.value r.t_data v w,
  copied-Shows g.value r.t_data v,
)

seen-Shows : (c d : WCtrl) → Shows c d → seen c ≡ seen d
seen-Shows c d s = rw (s.same_cmd, s.same_size, s.same_data)

-- Skipping the copy while the version stays cannot be observed: at any sequence of reads a thread
-- sees the same commands and data as if it always copied, whatever else the two buffers hold, if the
-- published blocks are valid and fewer than 2^32 updates are made between two reads.
pub views-read_always :
    (gs : List (Shared WCtrl)) (r q : Reader)
    → Reads gs r
    → IsValid q.t_data
    → views read_shared gs r ≡ views read_always gs q
unfolding views
views-read_always [] r q h w = refl
views-read_always (g ∷ gs) r q h w =
    let (r', e, f) = read_shared-IsFresh g r h.1 h.0 in
    let (q', o, x, s) = read_always-Shows g q h.1 w in
    let rest = views-read_always gs r' q' (Reads-next gs f h.2) x in
    let same : seen r'.t_data ≡ seen q'.t_data =
      seen-Shows r'.t_data g.value f.shows ∙ sym (seen-Shows q'.t_data g.value s) in
    rw (e, o, rest, same)
