-- ===== src/Wal/Ring/Append.antt =====
-- `append_raw` of `crates/wal/src/ring.rs`. `append` is `append_raw` on the bytes that an outside crate
-- encodes, with no flags.
use mimisbrunnr.Base.{
  ℕ, ◌+◌, ◌-◌, ◌%◌, ◌^◌, bit_and, List, ◌++◌, length, not, ltb, leb, ◌==◌, le_bytes, zeros,
}
use mimisbrunnr.Types.Timestamp.{HybridTimestamp}
use mimisbrunnr.Storage.Block.{block_size}
use mimisbrunnr.Wal.Error.{
  payload_too_large, ring_full, encryption_unsupported, compression_unsupported, read_only,
  panic_lsn_overflow,
}
use mimisbrunnr.Wal.Entry.{
  WalEntryHeader, new_entry_header, entry_bytes, wal_entry_header_len, wal_framing_crc_len,
  wal_max_payload_plaintext, wal_entry_flag_encrypted, wal_entry_flag_compressed,
}
use mimisbrunnr.Wal.Header.{WalHeader}
use mimisbrunnr.Wal.Ring.State.{Wal, data_capacity, data_offset}
use mimisbrunnr.Wal.Ring.Monad.{Method, ◌>>=◌, ◌>>◌, pure, guard, get_wal, put_wal, write_at, sync}
use mimisbrunnr.Wal.Ring.Open.{flush_header}

module _ (crc32c : List ℕ → ℕ) where
  -- The sector image: header, payload, framing checksum, and zeros up to 4096 bytes.
  unfoldable pub sector_image : WalEntryHeader → List ℕ → List ℕ
  sector_image h payload =
      entry_bytes h
      ++ (payload
          ++ (le_bytes 4 (crc32c (entry_bytes h ++ payload))
              ++ zeros
                  (block_size - (wal_entry_header_len + length payload + wal_framing_crc_len))))

  -- The header of the new entry, with the checksum of its payload.
  unfoldable pub entry_header_for : ℕ → List ℕ → HybridTimestamp → ℕ → ℕ → WalEntryHeader
  entry_header_for op_kind payload ts flags lsn =
      let h = new_entry_header op_kind flags lsn ts (length payload) in
      record h { payload_crc = crc32c payload }

  -- The header of the ring behind a write of one sector.
  unfoldable pub advanced : Wal → WalHeader
  advanced w =
      let h : WalHeader = w.header in
      record h {
        write_cursor = (h.write_cursor + block_size) % data_capacity w;
        used_bytes = h.used_bytes + block_size;
        next_lsn = h.next_lsn + 1;
      }

  unfoldable pub append_raw : ℕ → List ℕ → HybridTimestamp → ℕ → Method ℕ
  unfolding sector_image entry_header_for advanced
  append_raw op_kind payload ts flags = do
    w ← get_wal
    guard (not w.read_only) read_only
    guard (bit_and flags wal_entry_flag_encrypted == 0) encryption_unsupported
    guard (bit_and flags wal_entry_flag_compressed == 0) compression_unsupported
    guard (leb (length payload) wal_max_payload_plaintext)
        (payload_too_large (length payload) wal_max_payload_plaintext)
    guard (leb (w.header.used_bytes + block_size) (data_capacity w))
        (ring_full w.header.used_bytes (data_capacity w))
    guard (ltb (w.header.next_lsn + 1) (2 ^ 64)) panic_lsn_overflow
    write_at (data_offset w + w.header.write_cursor)
        (sector_image (entry_header_for op_kind payload ts flags w.header.next_lsn) payload)
    put_wal (record w { header = advanced w })
    flush_header crc32c
    sync
    pure w.header.next_lsn
