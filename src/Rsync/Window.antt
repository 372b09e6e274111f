-- ===== src/Rsync/Window.antt =====
-- lib/rsync/engine.go: `deltaWindow`, the sliding window over the reader of the target.
pub mod Content
use syncthing_mem.Base.{
  ℕ, zero, suc, ◌+◌, ◌-◌, ◌*◌, Bool, true, false, not, [], ◌++◌, ◌&&◌, length, take, drop, max, ltb,
  if◌then◌else◌,
}
use syncthing_mem.Rsync.{
  Bytes, Result, ok, err, read_failed, ◌>>=◌, Reader, ReadEnd, full, short, failed, read_full,
}

pub record Window : Type 0 where
  pub source : Reader
  pub buf : Bytes
  pub pos : ℕ
  pub eof : Bool

abbrev pub delta_read_chunk : ℕ
delta_read_chunk = 64 * 1024

unfoldable pub new_window : Reader → Window
new_window r = record { source = r; buf = []; pos = 0; eof = false }

abbrev pub available : Window → ℕ
available w = length w.buf - w.pos

-- The bytes before the cursor are dropped.
unfoldable pub compact : Window → Window
compact w = if ltb 0 w.pos then record w { buf = drop w.pos w.buf; pos = 0 } else w

-- What the loop of `ensure` does with what it has read.
abbrev pub store : Window → Bytes × ReadEnd × Reader → Result Window
store c (chunk, full, source) = ok (record c { source = source; buf = c.buf ++ chunk })
store c (chunk, short, source) = ok (record c { source = source; buf = c.buf ++ chunk; eof = true })
store c (chunk, failed, source) = err read_failed

-- The body of the loop of `ensure`: compact, then read at least `n` bytes more.
unfoldable pub refill : ℕ → Window → Result Window
refill n w = store (compact w) (read_full (max n delta_read_chunk) (compact w).source)

-- `ensure`. One refill brings `n` bytes or reaches the end, so the loop needs no second round.
unfoldable pub ensure_loop : ℕ → ℕ → Window → Result Window
unfolding refill
ensure_loop zero n w = ok w
ensure_loop (suc f) n w = elim (ltb (available w) n && not w.eof) [
  | true ↦ refill n w >>= λ w'. ensure_loop f n w'
  | false ↦ ok w
]

unfoldable pub ensure : ℕ → Window → Result Window
unfolding ensure_loop
ensure n w = ensure_loop 2 n w

unfoldable pub peek : ℕ → Window → Bytes
peek n w = take n (drop w.pos w.buf)

unfoldable pub advance : ℕ → Window → Window
advance n w = record w { pos = w.pos + n }
