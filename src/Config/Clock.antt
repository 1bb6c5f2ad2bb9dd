-- ===== src/Config/Clock.antt =====
-- `get_cpu_mhz` of config.c, on the readings of the time stamp counter.
use freepacket.Base.{ℕ, ◌+◌, ◌*◌, ◌/◌, List, [], ◌∷◌, u32, sub32, sub64, is_negative, if◌then◌else◌}

-- `total += (new - old) / (delayms * 1000)` for each pair of readings, half a second apart.
unfoldable pub mhz_total : ℕ → List (ℕ × ℕ) → ℕ
mhz_total total [] = total
mhz_total total ((old, new) ∷ readings) =
    mhz_total (u32 (total + sub64 new old / (500 * 1000))) readings

-- `total / loop_num`, of an `int`.
unfoldable pub get_cpu_mhz : (ℕ × ℕ) × (ℕ × ℕ) × (ℕ × ℕ) × (ℕ × ℕ) → ℕ
get_cpu_mhz (a, b, c, d) =
    let total = mhz_total 0 (a ∷ b ∷ c ∷ d ∷ []) in
    if is_negative total then sub32 0 (sub32 0 total / 4) else total / 4
