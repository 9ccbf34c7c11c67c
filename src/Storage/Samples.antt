-- ===== src/Storage/Samples.antt =====
-- Columns of fixed width at concrete values.
use distributed_tracing_plat.Prelude.{◌≡◌, refl, some}
use distributed_tracing_plat.Storage.FixedStrings.{decode_fixed_string, pad}

padded_test : decode_fixed_string (pad "4bf9" 16) ≡ some "4bf9"
unfolding decode_fixed_string pad
padded_test = refl

-- A root has no parent.
root_parent_test : decode_fixed_string (pad "" 16) ≡ some ""
unfolding decode_fixed_string pad
root_parent_test = refl
