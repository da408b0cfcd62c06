-- ===== src/MemGuard/Consumers.antt =====
-- Which processes `MemGuard::top_memory_consumers` keeps.
use bettercpu.Base.{ℕ, List, [], drop, length, ltb, if◌then◌else◌}

-- The items behind the limit, which `resize` drops.
abbrev pub cut_off : {A : Type 0} → ℕ → List A → List A
cut_off limit xs = if ltb limit (length xs) then drop limit xs else []
