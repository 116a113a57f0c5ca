-- ===== src/Engine/Scan/Tiles.antt =====
-- How the windows of `scanOnce` in worker/engine.ts lie in the range of blocks.
use cr3d_x.Base.{
  ℕ, zero, suc, ◌+◌, ◌-◌, ◌≤◌, ◌<◌, min, ◌≡◌, refl, List, [], ◌∷◌, ltb, arith, Bool-cases, inl, inr,
}
use cr3d_x.Engine.Scan.Windows.{window_loop, windows}

-- The windows start at `from`, each starts behind the last block of the one before and has 1000 blocks at
-- most, and the last ends at the head.
abbrev pub Tiles : ℕ → ℕ → List (ℕ × ℕ) → Type 0
Tiles from head [] = head < from
Tiles from head ((first, last) ∷ rest) =
    (first ≡ from)
    × (first ≤ last)
    × (last ≤ head)
    × (last < first + 1000)
    × Tiles (last + 1) head rest

window_loop-Tiles :
    (fuel from head : ℕ) → suc head ≤ fuel + from → Tiles from head (window_loop fuel from head)
unfolding window_loop
window_loop-Tiles zero from head enough = ground arith
window_loop-Tiles (suc fuel) from head enough = elim (Bool-cases (ltb head from)) [
  | inl above ↦ rw above (ground arith)
  | inr below ↦
      let more : suc head ≤ fuel + (min (from + 999) head + 1) = ground arith in
      rw below (
        refl,
        ground arith,
        ground arith,
        ground arith,
        window_loop-Tiles fuel (min (from + 999) head + 1) head more,
      )
]

-- Whatever the start and the head, the windows of a scan cover every block from the start to the head
-- exactly once, in order, with 1000 blocks each at most, and nothing beyond.
pub windows-Tiles : (from head : ℕ) → Tiles from head (windows from head)
unfolding windows
windows-Tiles from head = window_loop-Tiles (suc head - from) from head (ground arith)
