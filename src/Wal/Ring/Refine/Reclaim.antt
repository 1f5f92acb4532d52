-- ===== src/Wal/Ring/Refine/Reclaim.antt =====
-- The loop of `checkpoint` of `crates/wal/src/ring.rs` releases the leading entries that the checkpoint
-- covers.
use mimisbrunnr.Base.{
  ℕ, zero, suc, ◌+◌, ◌-◌, ◌%◌, ◌^◌, ◌≤◌, ◌<◌, ◌≡◌, refl, sym, ap, ◌∙◌, List, [], ◌∷◌, length, take,
  keep, ok, ltb, ◌==◌, true, false, Bool-cases, if◌then◌else◌, subst, inl, inr, arith,
}
use mimisbrunnr.Storage.Device.Image.{Device, sync}
use mimisbrunnr.Storage.Device.Image
use mimisbrunnr.Wal.Entry.{WalEntryHeader, entry_of_bytes, check_magic}
use mimisbrunnr.Wal.Ring.State.{Wal, data_capacity, data_offset}
use mimisbrunnr.Wal.Ring.Monad.{Outcome}
use mimisbrunnr.Wal.Ring.Checkpoint.{released, stops_at, reclaim}
use mimisbrunnr.Wal.Ring.Iter.{WalEntry}
use mimisbrunnr.Wal.Ring.Refine.Geometry.{data_area, next_aligned, release_cursor}
use mimisbrunnr.Wal.Ring.Refine.Sector.{image, header_decoded, magic_here}
use mimisbrunnr.Wal.Ring.Refine.Replay.{read_at_inside}
use mimisbrunnr.Wal.Ring.Refine.Queue.{Ascending, Holds}

-- The entries that a checkpoint at `last` leaves.
abbrev pub uncovered : ℕ → List WalEntry → List WalEntry
uncovered last es = keep (λ e. ltb last e.header.lsn) es

Ascending-weaken :
    (low low' high : ℕ) (es : List WalEntry)
    → low' ≤ low
    → Ascending low high es
    → Ascending low' high es
Ascending-weaken low low' high [] h a = omega arith
Ascending-weaken low low' high (e ∷ es) h a = (omega (arith, a.0), a.1)

-- Above an entry that is kept, all are kept.
uncovered_all :
    (last low high : ℕ) (es : List WalEntry)
    → last ≤ low
    → Ascending low high es
    → uncovered last es ≡ es
unfolding keep
uncovered_all last low high [] h a = refl
uncovered_all last low high (e ∷ es) h a =
    ground (arith, uncovered_all last e.header.lsn high es (omega (arith, a.0)) a.1, a.0)

length-uncovered : (last : ℕ) (es : List WalEntry) → length (uncovered last es) ≤ length es
unfolding keep
length-uncovered last [] = omega arith
length-uncovered last (e ∷ es) = ground (arith, length-uncovered last es)

stops_at_lem :
    (last : ℕ) (h : WalEntryHeader) → check_magic h ≡ ok tt → stops_at last h ≡ ltb last h.lsn
unfolding stops_at
stops_at_lem last h m = rw m refl

-- One round of the loop, on a sector that stops it or not.
reclaim_round :
    (fuel last r : ℕ) (w : Wal) (d : Device) (sector : List ℕ)
    → (w.header.used_bytes == 0) ≡ false
    → Image.read_at d (data_offset w + w.header.read_cursor) 4096 ≡ ok sector
    → reclaim (suc fuel) last r w d ≡ (
        if stops_at last (entry_of_bytes (take 40 sector))
        then record { wal = w; device = d; result = ok r }
        else reclaim fuel last (r + 1) (released w) d)
unfolding reclaim
reclaim_round fuel last r w d sector u h = ground (arith, u, h)

module _ (crc32c : List ℕ → ℕ) (crc_lt : (bs : List ℕ) → crc32c bs < 2 ^ 32) (d : Device) where
  no_wrap : (u : ℕ) → 4096 ≤ u → u < 2 ^ 64 → (u + 2 ^ 64 - 4096) % 2 ^ 64 ≡ u - 4096
  no_wrap u h k = omega arith

  released-Holds :
      (w : Wal) (e : WalEntry) (es : List WalEntry)
      → Holds crc32c w d (e ∷ es)
      → Holds crc32c (released w) d es
  unfolding released data_capacity data_offset
  released-Holds w e es v =
      let (area, whole, _, _) = data_area w v.size in
      record {
        size = v.size;
        on_device = v.on_device;
        small = v.small;
        aligned = (next_aligned (data_capacity w) w.header.read_cursor whole v.aligned v.inside).0;
        inside = (next_aligned (data_capacity w) w.header.read_cursor whole v.aligned v.inside).1;
        used = omega (arith, v.used);
        room = omega (arith, v.room);
        write_at =
            v.write_at
            ∙ release_cursor (data_capacity w) w.header.read_cursor w.header.used_bytes
                (omega (arith, v.used))
            ∙ sym (
                ap (λ u. ((w.header.read_cursor + 4096) % data_capacity w + u) % data_capacity w)
                  (no_wrap w.header.used_bytes (omega (arith, v.used)) v.in_range.used_bytes));
        in_range = record {
          header = v.in_range.header;
          next_lsn = v.in_range.next_lsn;
          write_cursor = v.in_range.write_cursor;
          read_cursor = omega (
            arith,
            (next_aligned (data_capacity w) w.header.read_cursor whole v.aligned v.inside).1,
            area,
            v.small,
          );
          used_bytes = omega (arith, v.in_range.used_bytes);
          last_checkpoint_lsn = v.in_range.last_checkpoint_lsn;
          segment_size = v.in_range.segment_size;
          pad = v.in_range.pad;
          encryption_keyid = v.in_range.encryption_keyid;
          reserved = v.in_range.reserved;
          crc = v.in_range.crc;
        };
        slot = v.slot;
        lsns = Ascending-weaken e.header.lsn 0 w.header.next_lsn es (omega arith) v.lsns.1;
        stored = v.stored.2;
      }

  -- What the loop leaves of a ring that holds `es`.
  pub record Reclaimed (last r : ℕ) (w : Wal) (es : List WalEntry) (o : Outcome ℕ) : Type 0 where
    pub device : o.device ≡ d
    pub result : o.result ≡ ok (r + (length es - length (uncovered last es)))
    pub base : o.wal.base ≡ w.base
    pub size : o.wal.size ≡ w.size
    pub active_slot : o.wal.active_slot ≡ w.active_slot
    pub read_only : o.wal.read_only ≡ w.read_only
    pub header : o.wal.header.header ≡ w.header.header
    pub holds : Holds crc32c o.wal d (uncovered last es)

  module _ (last : ℕ) (w : Wal) (e : WalEntry) (es : List WalEntry)
      (v : Holds crc32c w d (e ∷ es)) where
    oldest_read : Image.read_at d (data_offset w + w.header.read_cursor) 4096 ≡ ok (image crc32c e)
    oldest_read =
        let (area, whole, _, offset) = data_area w v.size in
        read_at_inside d (data_offset w + w.header.read_cursor) 4096
          (omega (arith, v.inside, v.aligned, whole, area, offset, v.on_device))
        ∙ ap ok v.stored.1

    oldest_stops : stops_at last (entry_of_bytes (take 40 (image crc32c e))) ≡ ltb last e.header.lsn
    oldest_stops =
        ap (stops_at last) (header_decoded crc32c crc_lt e v.stored.0)
        ∙ stops_at_lem last e.header (magic_here crc32c crc_lt e v.stored.0)

    round :
        (fuel r : ℕ)
        → reclaim (suc fuel) last r w d ≡ (
            if ltb last e.header.lsn
            then record { wal = w; device = d; result = ok r }
            else reclaim fuel last (r + 1) (released w) d)
    round fuel r =
        reclaim_round fuel last r w d (image crc32c e) (ground (arith, v.used)) oldest_read
        ∙ rw oldest_stops refl

    round_stop :
        (fuel r : ℕ)
        → ltb last e.header.lsn ≡ true
        → Reclaimed last r w (e ∷ es) (reclaim (suc fuel) last r w d)
    unfolding keep
    round_stop fuel r h =
        let all = uncovered_all last e.header.lsn w.header.next_lsn es (ground arith) v.lsns.1 in
        let stopped : reclaim (suc fuel) last r w d
            ≡ record { wal = w; device = d; result = ok r } =
          round fuel r ∙ rw h refl in
        subst (Reclaimed last r w (e ∷ es)) (sym stopped) (record {
          device = refl;
          result = ground (arith, all);
          base = refl;
          size = refl;
          active_slot = refl;
          read_only = refl;
          header = refl;
          holds = subst (Holds crc32c w d) (ground (arith, all)) v;
        })

    round_go :
        (fuel r : ℕ)
        → ltb last e.header.lsn ≡ false
        → Reclaimed last (r + 1) (released w) es (reclaim fuel last (r + 1) (released w) d)
        → Reclaimed last r w (e ∷ es) (reclaim (suc fuel) last r w d)
    unfolding keep released
    round_go fuel r h rest =
        let gone : uncovered last (e ∷ es) ≡ uncovered last es = ground arith in
        subst (Reclaimed last r w (e ∷ es)) (sym (round fuel r ∙ rw h refl)) (record {
          device = rest.device;
          result = rest.result ∙ ap ok (omega (arith, ap length gone, length-uncovered last es));
          base = rest.base;
          size = rest.size;
          active_slot = rest.active_slot;
          read_only = rest.read_only;
          header = rest.header;
          holds =
              subst (Holds crc32c (reclaim fuel last (r + 1) (released w) d).wal d) (sym gone)
                rest.holds;
        })

  pub reclaim_lem :
      (fuel last r : ℕ) (w : Wal) (es : List WalEntry)
      → Holds crc32c w d es
      → length es < fuel
      → Reclaimed last r w es (reclaim fuel last r w d)
  unfolding keep
  reclaim_lem zero last r w es v h = absurd (omega arith)
  reclaim_lem (suc fuel) last r w [] v h = subst (Reclaimed last r w []) ground_stop (record {
    device = refl;
    result = ap ok (omega arith);
    base = refl;
    size = refl;
    active_slot = refl;
    read_only = refl;
    header = refl;
    holds = v;
  })
    where
      ground_stop : record { wal = w; device = d; result = ok r } ≡ reclaim (suc fuel) last r w d
      ground_stop = unfold reclaim in ground (arith, v.used)
  reclaim_lem (suc fuel) last r w (e ∷ es) v h =
      let rest =
        reclaim_lem fuel last (r + 1) (released w) es (released-Holds w e es v) (omega arith) in
      elim (Bool-cases (ltb last e.header.lsn)) [
        | inl kept ↦ round_stop last w e es v fuel r kept
        | inr dropped ↦ round_go last w e es v fuel r dropped rest
      ]
