-- ===== src/Wal/Ring/Refine/Geometry.antt =====
-- Arithmetic of the data area of the ring of `crates/wal/src/ring.rs`: cursors stay on sector
-- boundaries inside the area, and go round it without meeting early.
use native.Mathlib.Nat.{mod-eq_of_lt, mod-eq-sub-mod, mod-add-mod}
use native.Mathlib.Decide.{dec_lt}
use mimisbrunnr.Base.{ℕ, suc, ◌+◌, ◌-◌, ◌*◌, ◌%◌, ◌≤◌, ◌<◌, ◌≡◌, ◌≢◌, ap, ◌∙◌, arith, false}
use mimisbrunnr.Wal.Ring.State.{Wal, data_capacity, data_offset, size_is_invalid}

-- A sum below twice the modulus is reduced by one subtraction.
pub mod_wrap : (x m : ℕ) → m ≤ x → x < m + m → x % m ≡ x - m
mod_wrap x m h k = mod-eq-sub-mod {n = x} {m = m} h ∙ mod-eq_of_lt {n = x - m} {m = m} (omega arith)

pub next_aligned :
    (cap cursor : ℕ)
    → cap % 4096 ≡ 0
    → cursor % 4096 ≡ 0
    → cursor < cap
    → ((cursor + 4096) % cap % 4096 ≡ 0) × ((cursor + 4096) % cap < cap)
next_aligned cap cursor w a i = elim (dec_lt (cursor + 4096) cap) [
  | yes p ↦ omega (arith, mod-eq_of_lt p)
  | no p ↦ omega (arith, mod_wrap (cursor + 4096) cap (omega arith) (omega arith))
]

pub turn_aligned :
    (cap cursor k : ℕ)
    → cap % 4096 ≡ 0
    → cursor % 4096 ≡ 0
    → k % 4096 ≡ 0
    → cursor < cap
    → k ≤ cap
    → ((cursor + k) % cap % 4096 ≡ 0) × ((cursor + k) % cap < cap)
turn_aligned cap cursor k w a b i h = elim (dec_lt (cursor + k) cap) [
  | yes p ↦ omega (arith, mod-eq_of_lt p)
  | no p ↦ omega (arith, mod_wrap (cursor + k) cap (omega arith) (omega arith))
]

-- Two places less than one turn apart are different.
pub turn_ne : (cap cursor k : ℕ) → cursor < cap → 0 < k → k < cap → (cursor + k) % cap ≢ cursor
turn_ne cap cursor k i p h = elim (dec_lt (cursor + k) cap) [
  | yes q ↦ omega (arith, mod-eq_of_lt q)
  | no q ↦ omega (arith, mod_wrap (cursor + k) cap (omega arith) (omega arith))
]

-- Going on from the next sector is going on from this one.
pub next_turn :
    (cap cursor n : ℕ) → ((cursor + 4096) % cap + 4096 * n) % cap ≡ (cursor + 4096 * suc n) % cap
next_turn cap cursor n = rw mod-add-mod (ap (λ k. k % cap) (omega arith))

-- A cursor behind the used part, moved on by a sector.
pub cursor_moves : (cap p a b : ℕ) → p ≡ (a + b) % cap → (p + 4096) % cap ≡ (a + (b + 4096)) % cap
cursor_moves cap p a b h =
    ap (λ k. (k + 4096) % cap) h ∙ rw mod-add-mod (ap (λ k. k % cap) (omega arith))

-- The end of the used part, seen from the second sector.
pub release_cursor :
    (cap a b : ℕ) → 4096 ≤ b → (a + b) % cap ≡ ((a + 4096) % cap + (b - 4096)) % cap
release_cursor cap a b h = rw mod-add-mod (ap (λ k. k % cap) (omega arith))

-- The data area of a ring of valid size: its two header blocks and its sectors fill the ring.
pub data_area :
    (w : Wal)
    → size_is_invalid w.size ≡ false
    → (data_capacity w + 8192 ≡ w.size)
      × (data_capacity w % 4096 ≡ 0)
      × (4096 ≤ data_capacity w)
      × (data_offset w ≡ w.base + 8192)
unfolding size_is_invalid data_capacity data_offset
data_area w h = ground arith
