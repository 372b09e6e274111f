-- ===== src/Rsync/Rolling.antt =====
-- lib/rsync/rolling.go: the weak checksum of a window that slides over the bytes. The two sums are
-- uint16 with their wrap-around; the window is a ring whose oldest byte stands at `pos`.
pub mod Slide
use syncthing_mem.Base.{
  ℕ, suc, ◌+◌, ◌-◌, ◌*◌, ◌%◌, [], ◌∷◌, length, get_or, set, replicate, ltb, if◌then◌else◌,
}
use syncthing_mem.Rsync.{Bytes, u16_mod}

pub record RollingHash : Type 0 where
  pub a : ℕ
  pub b : ℕ
  pub block_size : ℕ
  pub window : Bytes
  pub pos : ℕ

unfoldable pub new_rolling_hash : ℕ → RollingHash
new_rolling_hash block_size = record {
  a = 0;
  b = 0;
  block_size = block_size;
  window = replicate block_size 0;
  pos = 0;
}

-- `Reset`
unfoldable pub reset : RollingHash → RollingHash
reset r = record r { a = 0; b = 0; pos = 0; window = replicate (length r.window) 0 }

abbrev pub u16 : ℕ → ℕ
u16 n = n % u16_mod

-- The second loop of `Write`, at index `i` of a slice of `total` bytes.
unfoldable pub write_from : ℕ → ℕ → Bytes → RollingHash → RollingHash
write_from total i [] r = r
write_from total i (v ∷ rest) r = write_from total (suc i) rest (record r {
  a = u16 (r.a + u16 v);
  b = u16 (r.b + u16 (u16 (total - i) * u16 v));
  window = if ltb i (length r.window) then set r.window i v else r.window;
})

-- `Write` clears the sums and the window first.
unfoldable pub write : RollingHash → Bytes → RollingHash
unfolding write_from reset
write r bytes = write_from (length bytes) 0 bytes (reset r)

-- `Roll`: the oldest byte leaves and `byte` enters. The callers keep `pos` inside the window.
unfoldable pub roll : RollingHash → ℕ → RollingHash
roll r byte =
    let out = get_or r.window r.pos 0 in
    let a' = u16 (r.a + u16 (u16 byte + u16_mod - u16 out)) in
    let less = u16 (r.b + u16_mod - u16 (u16 r.block_size * u16 out)) in
    record r {
      a = a';
      b = u16 (less + a');
      window = set r.window r.pos byte;
      pos = (r.pos + 1) % r.block_size;
    }

-- `Sum`: the two sums side by side in 32 bits.
unfoldable pub sum : RollingHash → ℕ
sum r = r.a + r.b * u16_mod
