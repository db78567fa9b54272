-- ===== src/Common/Tests.antt =====
-- Runs of the functions of src/common.cpp.
use pingweave.Base.{◌-◌, ◌≡◌, refl}
use pingweave.Common.{calc_time_delta_with_bitwrap, uint64_max}

bitwrap_runs : calc_time_delta_with_bitwrap (uint64_max - 4) 10 uint64_max ≡ 15
unfolding calc_time_delta_with_bitwrap
bitwrap_runs = refl
