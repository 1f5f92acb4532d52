-- ===== src/Storage/Device/Image.antt =====
-- `FileBlockDevice::read_at`, `write_at`, `capacity` and `sync`. Offsets are plain numbers: the sum
-- `offset + buf.len()` is taken to stay below 2 ^ 64.
use mimisbrunnr.Base.{
  ℕ, zero, suc, ◌+◌, Bool, List, [], ◌∷◌, length, Result, ok, err, if◌then◌else◌, ltb, ◌==◌,
}
use mimisbrunnr.Storage.Error.{StorageError, out_of_bounds, read_only}

pub record Device : Type 0 where
  pub mem : ℕ → ℕ
  pub capacity : ℕ
  pub is_read_only : Bool

-- The `n` bytes from address `i` on.
unfoldable pub read_bytes : (ℕ → ℕ) → ℕ → ℕ → List ℕ
read_bytes m i zero = []
read_bytes m i (suc n) = m i ∷ read_bytes m (i + 1) n

unfoldable pub update : (ℕ → ℕ) → ℕ → ℕ → ℕ → ℕ
update m i b j = if j == i then b else m j

unfoldable pub write_bytes : (ℕ → ℕ) → ℕ → List ℕ → ℕ → ℕ
write_bytes m i [] = m
write_bytes m i (b ∷ bs) = write_bytes (update m i b) (i + 1) bs

unfoldable pub read_at : Device → ℕ → ℕ → Result StorageError (List ℕ)
read_at d offset n =
    if ltb d.capacity (offset + n)
    then err (out_of_bounds offset n d.capacity)
    else ok (read_bytes d.mem offset n)

-- The device after the call, beside its result.
unfoldable pub write_at : Device → ℕ → List ℕ → Device × Result StorageError (Unit {0})
write_at d offset buf =
    if d.is_read_only
    then (d, err read_only)
    else if ltb d.capacity (offset + length buf)
    then (d, err (out_of_bounds offset (length buf) d.capacity))
    else (record d { mem = write_bytes d.mem offset buf }, ok tt)

unfoldable pub sync : Device → Result StorageError (Unit {0})
sync d = if d.is_read_only then err read_only else ok tt
