-- ===== src/Base/Set.antt =====
-- src/core/base.c: the functions that set an `oval_t`.
use otic.Prelude.{ℕ, ◌%◌, ◌^◌, Bool, List, if◌then◌else◌}
use otic.Base.Oval.{Oval, null, int_neg, int_pos, double, string}

-- `otic_oval_setd`, whose parameter is a `uint32_t`, as that of `otic_oval_setdn`.
unfoldable pub set_d : ℕ → Bool → Oval
set_d value neg = if neg then int_neg (value % 2 ^ 32) else int_pos (value % 2 ^ 32)

unfoldable pub set_dp : ℕ → Oval
set_dp value = int_pos (value % 2 ^ 64)

unfoldable pub set_dn : ℕ → Oval
set_dn value = int_neg (value % 2 ^ 32)

unfoldable pub set_lf : ℕ → Oval
set_lf value = double value

-- The pointer and its length are the text.
unfoldable pub set_s : List ℕ → Oval
set_s value = string value

unfoldable pub set_n : Oval
set_n = null
