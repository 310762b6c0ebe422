-- ===== src/Nx.antt =====
-- impl/wine/nx/nxinf.cc: the functions that reach NxCore and Windows, on Wine. The Windows calls and
-- NxCore are arguments.
pub mod Linux
use Prim.Native.Nat.{bit_and}
use mathlib.Core.Path.{ap₂}
use wineing.Prelude.{
  ℕ, ℤ, pos, negsuc, ◌≡◌, ◌↔◌, sym, ◌∙◌, Bool, not, ◌&&◌, Option, none, some, ◌==◌, if◌then◌else◌,
  arith,
}
use wineing.Prelude.Memory.{Bytes, ◌>>=◌}

-- `GetFileAttributes` and the two constants of windows.h.
pub record FileApi : Type 0 where
  pub get_file_attributes : Bytes → ℕ
  pub invalid_file_attributes : ℕ
  pub file_attribute_directory : ℕ

-- Their documented values.
pub record IsDocumented (w : FileApi) : Type 0 where
  pub invalid : w.invalid_file_attributes ≡ 0xffff_ffff
  pub directory : w.file_attribute_directory ≡ 0x10

-- `LoadLibrary`: whether it gives a handle.
unfoldable pub wininf_nxcore_load : Bool → ℤ
wininf_nxcore_load loaded = if loaded then pos 0 else negsuc 0

-- `GetProcAddress` gives the function or nothing; NxCore's function takes the tape and acts on the
-- state `S` of the callback.
unfoldable pub wininf_nxcore_run {ℓ} :
    {S : Type ℓ} → Option (Bytes → S → Option S) → Bytes → S → Option (ℤ × S)
wininf_nxcore_run none tape s = some (negsuc 0, s)
wininf_nxcore_run (some process_tape) tape s = process_tape tape s >>= λ s'. some (pos 0, s')

unfoldable pub wininf_file_exists : FileApi → Bytes → ℤ
wininf_file_exists w str =
    let attrs = w.get_file_attributes str in
    if attrs == w.invalid_file_attributes && not (bit_and attrs w.file_attribute_directory == 0)
    then negsuc 0
    else pos 0

reported : ℕ → ℕ → ℕ → ℤ
reported a inv dir = if a == inv && not (bit_and a dir == 0) then negsuc 0 else pos 0

reported-invalid : (a : ℕ) → (a ≡ 0xffff_ffff) → reported a 0xffff_ffff 0x10 ≡ negsuc 0
unfolding reported
reported-invalid a e = rw e

reported-valid : (a : ℕ) → reported a 0xffff_ffff 0x10 ≡ negsuc 0 → a ≡ 0xffff_ffff
unfolding reported
reported-valid a e = ground arith

-- A path is reported missing exactly when Windows has no attributes for it; so a directory, whose
-- attributes are others, is reported as a file that exists.
pub wininf_file_exists_lem :
    (w : FileApi) (str : Bytes)
    → IsDocumented w
    → (wininf_file_exists w str ≡ negsuc 0) ↔ (w.get_file_attributes str ≡ 0xffff_ffff)
unfolding wininf_file_exists reported
wininf_file_exists_lem w str d =
    let a = w.get_file_attributes str in
    let e : wininf_file_exists w str ≡ reported a 0xffff_ffff 0x10 =
      ap₂ (reported a) d.invalid d.directory in
    (λ h. reported-valid a (sym e ∙ h), λ h. e ∙ reported-invalid a h)
