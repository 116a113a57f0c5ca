-- ===== src/Engine/Scan/Windows.antt =====
-- The windows of the `while (from <= head)` loop of worker/engine.ts `scanOnce`. The loop's bounds
-- depend on nothing that its body does.
use cr3d_x.Base.{ℕ, zero, suc, ◌+◌, ◌-◌, min, List, [], ◌∷◌, ltb, if◌then◌else◌}

-- Each round takes the window from `from` to `min(from + 999, head)` and goes on behind it.
unfoldable pub window_loop : ℕ → ℕ → ℕ → List (ℕ × ℕ)
window_loop zero from head = []
window_loop (suc fuel) from head =
    let rest = window_loop fuel (min (from + 999) head + 1) head in
    if ltb head from then [] else (from, min (from + 999) head) ∷ rest

-- A window holds a block at least, so a round for each block is enough.
unfoldable pub windows : ℕ → ℕ → List (ℕ × ℕ)
unfolding window_loop
windows from head = window_loop (suc head - from) from head
