-- ===== src/Tests/Conc.antt =====
-- src/test/c/impl/conc/conc_test.cc: the unit test of `lazy_update_global_if_owner`.
use wineing.Prelude.{ℕ, ◌≡◌, refl, Option, some}
use wineing.Conc.{Shared, lazy_init, lazy_update_global_if_owner}

record MyData : Type 0 where
  data_byte : ℕ
  size : ℕ

abbrev t_to_g : MyData → MyData → Option MyData
t_to_g t g = some (record { data_byte = t.data_byte; size = t.size })

-- 'a' and 'b'
abbrev g_data : Shared MyData
g_data = record { version = 0; value = record { data_byte = 97; size = 1 } }

abbrev t_data : MyData
t_data = record { data_byte = 98; size = 0 }

-- `test_UpdateGlobalFailsIfNotOwner`: the version -1 is not the shared one, so the call returns the
-- shared version and leaves the data alone.
update_fails :
    lazy_update_global_if_owner t_to_g 0xffff_ffff t_data (lazy_init 2 g_data)
    ≡ some (2, record { version = 2; value = g_data.value })
unfolding lazy_update_global_if_owner lazy_init
update_fails = refl
