-- ===== src/Protocol/FileInfo/Equivalence.antt =====
-- lib/protocol/bep_fileinfo.go, `isEquivalent` and `ModTimeEqual`.
use syncthing_mem.Base.{ℕ, ◌+◌, ◌≤◌, ◌<◌, ◌≡◌, ◌↔◌, ◌⊎◌, true, arith}
use syncthing_mem.Protocol.FileInfo.{
  mod_time_equal, max_duration, sub_time, negate, is_negative, less_than_window,
}

-- Two times less than 2^63 nanoseconds apart are taken as equal exactly if they are, or are
-- less than the window apart.
mod_time_equal_iff :
    (a b window : ℕ)
    → a ≤ b + max_duration
    → b ≤ a + max_duration
    → (mod_time_equal a b window ≡ true) ↔ ((a ≡ b) ⊎ ((a < b + window) × (b < a + window)))
unfolding mod_time_equal sub_time negate is_negative less_than_window
mod_time_equal_iff a b window near far = ground arith

-- A time 2^63 nanoseconds or more before another is taken as equal to it, whatever the window.
pub mod_time_equal_far : (a b window : ℕ) → a + max_duration < b → mod_time_equal a b window ≡ true
unfolding mod_time_equal sub_time negate is_negative less_than_window
mod_time_equal_far a b window far = ground arith
