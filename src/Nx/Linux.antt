-- ===== src/Nx/Linux.antt =====
-- impl/linux/nx/nxinf.cc and impl/linux/nx/nxtape.cc: the stubs that stand for Windows and NxCore in a
-- build for Linux. NxCore is never reached, so the callback is never called.
use wineing.Prelude.{ℕ, ℤ, pos, Option, some}
use wineing.Prelude.Memory.{Bytes}

abbrev pub wininf_nxcore_load : ℤ
wininf_nxcore_load = pos 0

abbrev pub wininf_nxcore_run {ℓ} : {S : Type ℓ} → Bytes → S → Option (ℤ × S)
wininf_nxcore_run tape s = some (pos 0, s)

abbrev pub wininf_file_exists : Bytes → ℤ
wininf_file_exists str = pos 0

abbrev pub nxtape_process {ℓ} : {S : Type ℓ} → ℕ → S → Option (ℤ × S)
nxtape_process message_type st = some (pos 0, st)
