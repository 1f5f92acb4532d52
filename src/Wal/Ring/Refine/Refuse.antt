-- ===== src/Wal/Ring/Refine/Refuse.antt =====
-- The calls that the ring of `crates/wal/src/ring.rs` refuses, and what an iterator does after an error.
use mimisbrunnr.Base.{
  ℕ, zero, suc, ◌*◌, ◌≤◌, ◌≡◌, bit_and, List, length, none, some, ok, err, true, false, arith,
}
use mimisbrunnr.Types.Timestamp.{HybridTimestamp}
use mimisbrunnr.Storage.Device.Image.{Device}
use mimisbrunnr.Wal.Error.{WalError, ring_full, read_only}
use mimisbrunnr.Wal.Ring.State.{Wal, data_capacity}
use mimisbrunnr.Wal.Ring.Open.{open_read_only}
use mimisbrunnr.Wal.Ring.Append.{append_raw}
use mimisbrunnr.Wal.Ring.Checkpoint.{checkpoint}
use mimisbrunnr.Wal.Ring.Iter.{WalEntry, WalIter, advance, finished, next_loop, next}
use mimisbrunnr.Wal.Ring.Refine.Queue.{Holds}

module _ (crc32c : List ℕ → ℕ) where
  opened_read_only :
      (d : Device) (offset size : ℕ) (w : Wal)
      → open_read_only crc32c d offset size ≡ ok w
      → w.read_only ≡ true
  unfolding open_read_only
  opened_read_only d offset size w h = ground arith

  -- A ring that `open_read_only` returns refuses every append and every checkpoint, and these change
  -- neither the ring nor the device.
  pub open_read_only-refuses :
      (d : Device) (offset size : ℕ) (w : Wal) (op_kind : ℕ) (payload : List ℕ)
      (ts : HybridTimestamp) (flags last : ℕ)
      → open_read_only crc32c d offset size ≡ ok w
      → (append_raw crc32c op_kind payload ts flags w d
          ≡ record { wal = w; device = d; result = err read_only })
        × (checkpoint crc32c last w d ≡ record { wal = w; device = d; result = err read_only })
  unfolding append_raw checkpoint
  open_read_only-refuses d offset size w op_kind payload ts flags last h =
      let locked = opened_read_only d offset size w h in
      (ground (arith, locked), ground (arith, locked))

  -- A ring whose entries fill the data area refuses a further one, and changes neither itself nor the
  -- device.
  append_raw-ring_full :
      (w : Wal) (d : Device) (es : List WalEntry) (op_kind : ℕ) (payload : List ℕ)
      (ts : HybridTimestamp) (flags : ℕ)
      → Holds crc32c w d es
      → 4096 * length es ≡ data_capacity w
      → w.read_only ≡ false
      → bit_and flags 1 ≡ 0
      → bit_and flags 2 ≡ 0
      → length payload ≤ 4052
      → append_raw crc32c op_kind payload ts flags w d ≡ record {
        wal = w;
        device = d;
        result = err (ring_full (4096 * length es) (4096 * length es));
      }
  unfolding append_raw
  append_raw-ring_full w d es op_kind payload ts flags v full writable plain uncompressed short =
      ground (arith, v.used, full, writable, plain, uncompressed, short)

  error_finishes :
      (fuel : ℕ) (d : Device) (it it' : WalIter) (e : WalError)
      → next_loop crc32c fuel d it ≡ (it', some (err e))
      → it'.done ≡ true
  unfolding next_loop finished advance
  error_finishes zero d it it' e h = ground arith
  error_finishes (suc fuel) d it it' e h = ground (arith, error_finishes fuel d (advance it) it' e)

  -- After an item that is an error the iterator yields nothing more, on whatever device.
  next_after_error :
      (d d' : Device) (it it' : WalIter) (e : WalError)
      → next crc32c d it ≡ (it', some (err e))
      → next crc32c d' it' ≡ (it', none)
  unfolding next next_loop
  next_after_error d d' it it' e h = ground (arith, error_finishes (suc it.remaining) d it it' e h)
