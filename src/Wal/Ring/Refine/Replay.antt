-- ===== src/Wal/Ring/Refine/Replay.antt =====
-- `WalIter` of `crates/wal/src/ring.rs` over a window of framed sectors yields the entries in them.
use mimisbrunnr.Base.{
  ℕ, zero, suc, ◌+◌, ◌*◌, ◌%◌, ◌^◌, ◌≤◌, ◌<◌, ◌≡◌, ap, ◌∙◌, List, [], ◌∷◌, map, length, keep,
  Option, none, some, Result, ok, arith, ltb, leb, true, false, Bool-cases, inl, inr,
}
use mimisbrunnr.Storage.Device.Image
use mimisbrunnr.Storage.Device.Image.{Device, read_bytes}
use mimisbrunnr.Wal.Error.{WalError}
use mimisbrunnr.Wal.Ring.Iter.{WalEntry, WalIter, advance, finished, next_loop, next, drain}
use mimisbrunnr.Wal.Ring.Refine.Geometry.{next_aligned}
use mimisbrunnr.Wal.Ring.Refine.Sector.{IsFramed, image, decode_sector-image}

pub read_at_inside :
    (d : Device) (i n : ℕ) → i + n ≤ d.capacity → Image.read_at d i n ≡ ok (read_bytes d.mem i n)
unfolding Image.read_at
read_at_inside d i n h = ground arith

module _ (crc32c : List ℕ → ℕ) where
  -- The sectors from `cursor` on, round the ring, hold these entries.
  abbrev pub Stored : (ℕ → ℕ) → ℕ → ℕ → ℕ → List WalEntry → Type 0
  Stored m offset cap cursor [] = Unit
  Stored m offset cap cursor (e ∷ es) =
      IsFramed crc32c e
      × (read_bytes m (offset + cursor) 4096 ≡ image crc32c e)
      × Stored m offset cap ((cursor + 4096) % cap) es

  -- An iterator in front of the sectors of `es`.
  pub record Window (d : Device) (it : WalIter) (es : List WalEntry) : Type 0 where
    pub running : it.done ≡ false
    pub remaining : it.remaining ≡ 4096 * length es
    pub whole : it.data_capacity % 4096 ≡ 0
    pub aligned : it.cursor % 4096 ≡ 0
    pub inside : it.cursor < it.data_capacity
    pub on_device : it.data_offset + it.data_capacity ≤ d.capacity
    pub stored : Stored d.mem it.data_offset it.data_capacity it.cursor es

  advance-Window :
      (d : Device) (it : WalIter) (e : WalEntry) (es : List WalEntry)
      → Window d it (e ∷ es)
      → Window d (advance it) es
  unfolding advance
  advance-Window d it e es w = record {
    running = w.running;
    remaining = omega (arith, w.remaining);
    whole = w.whole;
    aligned = (next_aligned it.data_capacity it.cursor w.whole w.aligned w.inside).0;
    inside = (next_aligned it.data_capacity it.cursor w.whole w.aligned w.inside).1;
    on_device = w.on_device;
    stored = w.stored.2;
  }

  -- What `next` returns in front of these entries.
  abbrev next_result : WalIter → List WalEntry → WalIter × Option (Result WalError WalEntry)
  next_result it [] = (finished it, none)
  next_result it (e ∷ es) = elim (ltb e.header.lsn it.start_lsn) [
    | true ↦ next_result (advance it) es
    | false ↦ (advance it, some (ok e))
  ]

  module _ (crc_lt : (bs : List ℕ) → crc32c bs < 2 ^ 32) (d : Device) where
    next_loop_lem :
        (fuel : ℕ) (it : WalIter) (es : List WalEntry)
        → Window d it es
        → length es < fuel
        → next_loop crc32c fuel d it ≡ next_result it es
    unfolding next_loop
    next_loop_lem zero it es w h = absurd (omega arith)
    next_loop_lem (suc fuel) it [] w h = ground (arith, w.running, w.remaining)
    next_loop_lem (suc fuel) it (e ∷ es) w h =
        let read : Image.read_at d (it.data_offset + it.cursor) 4096 ≡ ok (image crc32c e) =
          read_at_inside d (it.data_offset + it.cursor) 4096
            (omega (arith, w.inside, w.aligned, w.whole, w.on_device))
          ∙ ap ok w.stored.1 in
        let decoded = decode_sector-image crc32c crc_lt e w.stored.0 in
        let rest = next_loop_lem fuel (advance it) es (advance-Window d it e es w) (omega arith) in
        ground (arith, w.running, w.remaining, read, decoded, rest)

    -- `next` yields the first entry that is not older than the start, behind the skipped ones.
    pub next_lem :
        (it : WalIter) (es : List WalEntry) → Window d it es → next crc32c d it ≡ next_result it es
    unfolding next
    next_lem it es w = next_loop_lem (suc it.remaining) it es w (omega (arith, w.remaining))

    -- Draining the iterator yields every entry from the start on, in order, and nothing else.
    pub drain_lem :
        (n : ℕ) (it : WalIter) (es : List WalEntry)
        → Window d it es
        → length es < n
        → drain crc32c n d it ≡ map ok (keep (λ e. leb it.start_lsn e.header.lsn) es)
    unfolding drain keep advance
    drain_lem zero it es w h = absurd (omega arith)
    drain_lem (suc n) it [] w h = ground (arith, next_lem it [] w)
    drain_lem (suc n) it (e ∷ es) w h =
        let w' : Window d (advance it) es = advance-Window d it e es w in
        let skipped = drain_lem (suc n) (advance it) es w' (omega arith) in
        let taken = drain_lem n (advance it) es w' (omega arith) in
        elim (Bool-cases (ltb e.header.lsn it.start_lsn)) [
          | inl old ↦ ground (arith, next_lem it (e ∷ es) w, next_lem (advance it) es w', skipped)
          | inr new ↦ ground (arith, next_lem it (e ∷ es) w, taken)
        ]
