-- ===== src/Wal/Ring/Refine/Queue.antt =====
-- The abstract view of the ring of `crates/wal/src/ring.rs`: a queue of entries, oldest first.
use mimisbrunnr.Base.{
  ℕ, ◌+◌, ◌*◌, ◌%◌, ◌^◌, ◌≤◌, ◌<◌, ◌≡◌, refl, List, [], ◌∷◌, ◌++◌, map, length, keep, ok, leb,
  false, arith,
}
use mimisbrunnr.Storage.Device.Image.{Device}
use mimisbrunnr.Wal.Header.Codec.{InRange}
use mimisbrunnr.Wal.Ring.State.{Wal, data_capacity, data_offset, size_is_invalid}
use mimisbrunnr.Wal.Ring.Iter.{WalEntry, iter_from, drain}
use mimisbrunnr.Wal.Ring.Refine.Geometry.{data_area}
use mimisbrunnr.Wal.Ring.Refine.Replay.{Stored, drain_lem}

-- The LSNs ascend, from above `low` to below `high`.
abbrev pub Ascending : ℕ → ℕ → List WalEntry → Type 0
Ascending low high [] = low < high
Ascending low high (e ∷ es) = (low < e.header.lsn) × Ascending e.header.lsn high es

pub Ascending-snoc :
    (low high : ℕ) (es : List WalEntry) (e : WalEntry)
    → Ascending low high es
    → e.header.lsn ≡ high
    → Ascending low (high + 1) (es ++ (e ∷ []))
Ascending-snoc low high [] e a h = omega arith
Ascending-snoc low high (e' ∷ es) e a h = (a.0, Ascending-snoc e'.header.lsn high es e a.1 h)

module _ (crc32c : List ℕ → ℕ) where
  -- The ring `w` on the device `d` holds the entries `es`.
  pub record Holds (w : Wal) (d : Device) (es : List WalEntry) : Type 0 where
    pub size : size_is_invalid w.size ≡ false
    pub on_device : w.base + w.size ≤ d.capacity
    pub small : w.base + w.size < 2 ^ 64
    pub aligned : w.header.read_cursor % 4096 ≡ 0
    pub inside : w.header.read_cursor < data_capacity w
    pub used : w.header.used_bytes ≡ 4096 * length es
    pub room : w.header.used_bytes ≤ data_capacity w
    pub write_at :
        w.header.write_cursor ≡ (w.header.read_cursor + w.header.used_bytes) % data_capacity w
    pub in_range : InRange w.header
    pub slot : w.active_slot ≤ 1
    pub lsns : Ascending 0 w.header.next_lsn es
    pub stored : Stored crc32c d.mem (data_offset w) (data_capacity w) w.header.read_cursor es

  -- A ring holds its entries on another content of the device, where their sectors stand on that too.
  pub Holds-memory :
      (w : Wal) (d : Device) (es : List WalEntry) (m : ℕ → ℕ)
      → Holds w d es
      → Stored crc32c m (data_offset w) (data_capacity w) w.header.read_cursor es
      → Holds w (record d { mem = m }) es
  Holds-memory w d es m v stored = record {
    size = v.size;
    on_device = v.on_device;
    small = v.small;
    aligned = v.aligned;
    inside = v.inside;
    used = v.used;
    room = v.room;
    write_at = v.write_at;
    in_range = v.in_range;
    slot = v.slot;
    lsns = v.lsns;
    stored = stored;
  }

  module _ (crc_lt : (bs : List ℕ) → crc32c bs < 2 ^ 32) where
    -- Replaying a ring that holds the entries `es` from an LSN on yields exactly the entries of `es`
    -- with that LSN or a later one, in order, without an error.
    pub replay :
        (w : Wal) (d : Device) (es : List WalEntry) (start n : ℕ)
        → Holds w d es
        → length es < n
        → drain crc32c n d (iter_from w start) ≡ map ok (keep (λ e. leb start e.header.lsn) es)
    unfolding iter_from
    replay w d es start n v h =
        let (area, whole, _, offset) = data_area w v.size in
        drain_lem crc32c crc_lt d n (iter_from w start) es
          (record {
            running = refl;
            remaining = v.used;
            whole = whole;
            aligned = v.aligned;
            inside = v.inside;
            on_device = omega (arith, v.on_device);
            stored = v.stored;
          })
          h
