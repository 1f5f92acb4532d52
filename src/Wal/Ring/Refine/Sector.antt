-- ===== src/Wal/Ring/Refine/Sector.antt =====
-- A sector that `append_raw` of `crates/wal/src/ring.rs` frames is decoded by `WalIter::next` to the
-- entry that went in.
use mimisbrunnr.Base.{
  ℕ, ◌+◌, ◌-◌, ◌^◌, ◌≤◌, ◌<◌, ◌≡◌, sym, ap, ◌∙◌, bit_and, List, ◌++◌, append_assoc, length,
  length-append, take, drop, take-append, drop-append, le_bytes, from_le, zeros, length-zeros,
  length-le_bytes, from_le-le_bytes, take-le_bytes, ok, arith, bytes_eq_refl,
}
use mimisbrunnr.Storage.Block.{block_size}
use mimisbrunnr.Wal.Entry.{
  entry_bytes, entry_of_bytes, check_magic, wal_entry_magic, wal_entry_header_len,
  wal_framing_crc_len, wal_max_payload_plaintext,
}
use mimisbrunnr.Wal.Entry.Codec.{InRange, length-entry_bytes, entry_of_bytes-entry_bytes}
use mimisbrunnr.Wal.Ring.Append.{sector_image}
use mimisbrunnr.Wal.Ring.Iter.{WalEntry, decode_sector}

module _ (crc32c : List ℕ → ℕ) where
  -- What `append_raw` puts into a sector.
  pub record IsFramed (e : WalEntry) : Type 0 where
    pub in_range : InRange e.header
    pub magic : e.header.magic ≡ wal_entry_magic
    pub payload_length : e.header.payload_length ≡ length e.payload
    pub fits : length e.payload ≤ wal_max_payload_plaintext
    pub payload_crc : e.header.payload_crc ≡ crc32c e.payload
    pub plain : bit_and e.header.flags 1 ≡ 0
    pub uncompressed : bit_and e.header.flags 2 ≡ 0

  abbrev pub image : WalEntry → List ℕ
  image e = sector_image crc32c e.header e.payload

  pub length-image : (e : WalEntry) → IsFramed e → length (image e) ≡ 4096
  unfolding sector_image
  length-image e f =
      simp
        (length-append, length-le_bytes, length-zeros, length-entry_bytes e.header f.in_range.magic)
        (omega (arith, f.fits))

  module _ (crc_lt : (bs : List ℕ) → crc32c bs < 2 ^ 32) (e : WalEntry) (f : IsFramed e) where
    tail : List ℕ
    tail = zeros (block_size - (wal_entry_header_len + length e.payload + wal_framing_crc_len))

    header_here : take 40 (image e) ≡ entry_bytes e.header
    unfolding sector_image
    header_here =
        take-append 40 (entry_bytes e.header) _ (length-entry_bytes e.header f.in_range.magic)

    payload_here : take e.header.payload_length (drop 40 (image e)) ≡ e.payload
    unfolding sector_image
    payload_here =
        ap (take e.header.payload_length)
          (drop-append 40 (entry_bytes e.header) _ (length-entry_bytes e.header f.in_range.magic))
        ∙ take-append e.header.payload_length e.payload _ (sym f.payload_length)

    split :
        image e
        ≡ (entry_bytes e.header ++ e.payload)
          ++ (le_bytes 4 (crc32c (entry_bytes e.header ++ e.payload)) ++ tail)
    unfolding sector_image tail
    split = rw append_assoc

    frame_len : length (entry_bytes e.header ++ e.payload) ≡ 40 + e.header.payload_length
    frame_len = omega (
      arith,
      length-append {0} (entry_bytes e.header) e.payload,
      length-entry_bytes e.header f.in_range.magic,
      f.payload_length,
    )

    frame_here : take (40 + e.header.payload_length) (image e) ≡ entry_bytes e.header ++ e.payload
    frame_here =
        ap (take (40 + e.header.payload_length)) split
        ∙ take-append (40 + e.header.payload_length) (entry_bytes e.header ++ e.payload) _ frame_len

    crc_here :
        from_le (take 4 (drop (40 + e.header.payload_length) (image e)))
        ≡ crc32c (entry_bytes e.header ++ e.payload)
    crc_here =
        ap (λ bs. from_le (take 4 (drop (40 + e.header.payload_length) bs))) split
        ∙ ap (λ bs. from_le (take 4 bs))
            (drop-append (40 + e.header.payload_length) (entry_bytes e.header ++ e.payload) _
              frame_len)
        ∙ ap from_le (take-le_bytes 4 (crc32c (entry_bytes e.header ++ e.payload)) tail)
        ∙ from_le-le_bytes 4 (crc32c (entry_bytes e.header ++ e.payload)) (crc_lt _)

    pub header_decoded : entry_of_bytes (take 40 (image e)) ≡ e.header
    header_decoded = ap entry_of_bytes header_here ∙ entry_of_bytes-entry_bytes e.header f.in_range

    pub magic_here : check_magic e.header ≡ ok tt
    unfolding check_magic
    magic_here = rw f.magic (ground (arith, bytes_eq_refl wal_entry_magic))

    -- `WalIter::next` decodes the framed sector of an entry to that entry.
    pub decode_sector-image : decode_sector crc32c (image e) ≡ ok e
    unfolding decode_sector
    decode_sector-image =
        rw (header_decoded, magic_here, payload_here, crc_here, frame_here) (ground arith)
