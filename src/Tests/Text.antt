-- ===== src/Tests/Text.antt =====
-- Texts and numbers at concrete inputs.
use num_forge.Base.{◌≡◌, refl, true, [], ◌∷◌}
use num_forge.Runtime.Budget.{alloc, budget_check}
use num_forge.BigInt.Types.{Computes, Gives, empty, is_ok, to_ℤ}
use num_forge.BigInt.Storage.{copy, ensure_capacity, grow, size_add, size_mul}
use num_forge.BigInt.Magnitude.Trim.{trim, significant}
use num_forge.BigInt.Magnitude.Divide.{divide_limbs}
use num_forge.BigInt.Division.{divide_by_uint64}
use num_forge.BigInt.Text.{chunk_loop, chunks_room, set_string, text_room, to_string}
use num_forge.BigInt.Text.Parsing.{Reads, set_string-Reads}
use num_forge.BigInt.Text.Bases.{set_string_base}
use num_forge.BigInt.Text.Bases.Parsing.{ReadsBase, set_string_base-ReadsBase}
use num_forge.BigInt.Text.RoundTrip.{to_string-round_trip}
use num_forge.Tests.Data.{calm, full, minus, minus-IsValid}

set_string-Reads_example :
    Gives (Reads (45 ∷ 52 ∷ 50 ∷ [])) full (set_string full (45 ∷ 52 ∷ 50 ∷ []) calm)
set_string-Reads_example = set_string-Reads full (45 ∷ 52 ∷ 50 ∷ []) calm

printed : is_ok (to_string minus calm).status ≡ true
unfolding to_string copy ensure_capacity grow size_add size_mul alloc budget_check chunks_room
    text_room chunk_loop divide_by_uint64 divide_limbs trim significant
printed = refl

to_string-round_trip_example :
    Computes empty (to_ℤ minus) (set_string empty (to_string minus calm).object calm)
to_string-round_trip_example = to_string-round_trip minus empty calm calm minus-IsValid printed

-- "+ff" in base 16.
set_string_base-ReadsBase_example :
    Gives
      (ReadsBase 16 (43 ∷ 102 ∷ 102 ∷ []))
      full
      (set_string_base full (43 ∷ 102 ∷ 102 ∷ []) 16 calm)
set_string_base-ReadsBase_example = set_string_base-ReadsBase full (43 ∷ 102 ∷ 102 ∷ []) 16 calm
