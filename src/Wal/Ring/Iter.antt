-- ===== src/Wal/Ring/Iter.antt =====
-- `WalIter` of `crates/wal/src/ring.rs`: the replay of a ring. The loop of `next` takes fuel; each round
-- takes a sector off `remaining`, so that number, plus one, is enough.
use mimisbrunnr.Base.{
  ℕ, zero, suc, ◌+◌, ◌-◌, ◌%◌, bit_and, List, [], ◌∷◌, take, drop, Option, none, some, Bool, true,
  false, ltb, leb, ◌==◌, if◌then◌else◌, Result, ok, err, ◌>>◌, guard, from_le,
}
use mimisbrunnr.Storage.Block.{block_size}
use mimisbrunnr.Storage.Device.Image
use mimisbrunnr.Storage.Device.Image.{Device}
use mimisbrunnr.Wal.Error.{
  WalError, storage, payload_too_large, crc_mismatch, encryption_unsupported,
  compression_unsupported,
}
use mimisbrunnr.Wal.Entry.{
  WalEntryHeader, entry_of_bytes, check_magic, wal_entry_header_len, wal_framing_crc_len,
  wal_max_payload_plaintext, wal_entry_flag_encrypted, wal_entry_flag_compressed,
}
use mimisbrunnr.Wal.Ring.State.{Wal, data_capacity, data_offset}

pub record WalEntry : Type 0 where
  pub header : WalEntryHeader
  pub payload : List ℕ

pub record WalIter : Type 0 where
  pub data_offset : ℕ
  pub data_capacity : ℕ
  pub cursor : ℕ
  pub remaining : ℕ
  pub start_lsn : ℕ
  pub done : Bool

unfoldable pub iter_from : Wal → ℕ → WalIter
iter_from w start_lsn = record {
  data_offset = data_offset w;
  data_capacity = data_capacity w;
  cursor = w.header.read_cursor;
  remaining = w.header.used_bytes;
  start_lsn = start_lsn;
  done = false;
}

-- `self.cursor` and `self.remaining` moved past one sector.
unfoldable pub advance : WalIter → WalIter
advance it = record it {
  cursor = (it.cursor + block_size) % it.data_capacity;
  remaining = it.remaining - block_size;
}

unfoldable pub finished : WalIter → WalIter
finished it = record it { done = true }

module _ (crc32c : List ℕ → ℕ) where
  -- The checks of `next` on the sector that it has read, and the entry that it decodes.
  unfoldable pub decode_sector : List ℕ → Result WalError WalEntry
  decode_sector sector = do
    let hdr = entry_of_bytes (take wal_entry_header_len sector)
    check_magic hdr
    guard (leb (wal_entry_header_len + hdr.payload_length + wal_framing_crc_len) block_size)
        (payload_too_large hdr.payload_length wal_max_payload_plaintext)
    let frame_end = wal_entry_header_len + hdr.payload_length
    let stored_crc = from_le (take 4 (drop frame_end sector))
    let computed = crc32c (take frame_end sector)
    guard (stored_crc == computed) (crc_mismatch stored_crc computed)
    let payload = take hdr.payload_length (drop wal_entry_header_len sector)
    guard (hdr.payload_crc == crc32c payload) (crc_mismatch hdr.payload_crc (crc32c payload))
    guard (bit_and hdr.flags wal_entry_flag_encrypted == 0) encryption_unsupported
    guard (bit_and hdr.flags wal_entry_flag_compressed == 0) compression_unsupported
    ok (record { header = hdr; payload = payload })

  unfoldable pub next_loop : ℕ → Device → WalIter → WalIter × Option (Result WalError WalEntry)
  next_loop zero d it = (it, none)
  next_loop (suc fuel) d it =
      if it.done
      then (it, none)
      else if it.remaining == 0
      then (finished it, none)
      else elim (Image.read_at d (it.data_offset + it.cursor) block_size) [
        | err e ↦ (finished it, some (err (storage e)))
        | ok sector ↦ elim (decode_sector sector) [
          | err e ↦ (finished (advance it), some (err e))
          | ok entry ↦ elim (ltb entry.header.lsn it.start_lsn) [
            | true ↦ next_loop fuel d (advance it)
            | false ↦ (advance it, some (ok entry))
          ]
        ]
      ]

  unfoldable pub next : Device → WalIter → WalIter × Option (Result WalError WalEntry)
  unfolding next_loop
  next d it = next_loop (suc it.remaining) d it

  -- What a `for` loop over the iterator sees, for at most `n` items.
  unfoldable pub drain : ℕ → Device → WalIter → List (Result WalError WalEntry)
  unfolding next
  drain zero d it = []
  drain (suc n) d it =
      let (it', item) = next d it in elim item [ none ↦ [] | some r ↦ r ∷ drain n d it' ]
