-- ===== src/Wal/Ring/Refine/Window.antt =====
-- The entries stored in the ring of `crates/wal/src/ring.rs` under writes to the device.
use native.Mathlib.Nat.{mod-eq_of_lt, add-zero}
use mimisbrunnr.Base.{
  ℕ, suc, ◌+◌, ◌*◌, ◌%◌, ◌≤◌, ◌<◌, ◌≡◌, ◌≢◌, sym, ap, ◌∙◌, ◌⊎◌, List, [], ◌∷◌, ◌++◌, length, arith,
}
use mimisbrunnr.Storage.Device.Image.{read_bytes, write_bytes}
use mimisbrunnr.Storage.Device.Laws.{read_bytes-write_bytes_self, read_bytes-write_bytes_apart}
use mimisbrunnr.Wal.Ring.Iter.{WalEntry}
use mimisbrunnr.Wal.Ring.Refine.Geometry.{next_aligned, turn_ne, next_turn}
use mimisbrunnr.Wal.Ring.Refine.Sector.{IsFramed, image, length-image}
use mimisbrunnr.Wal.Ring.Refine.Replay.{Stored}

module _ (crc32c : List ℕ → ℕ) (m : ℕ → ℕ) (offset cap : ℕ) (whole : cap % 4096 ≡ 0) where
  -- A write outside the data area leaves the entries stored.
  pub Stored-write_outside :
      (i : ℕ) (bs : List ℕ) (cursor : ℕ) (es : List WalEntry)
      → (i + length bs ≤ offset) ⊎ (offset + cap ≤ i)
      → cursor % 4096 ≡ 0
      → cursor < cap
      → Stored crc32c m offset cap cursor es
      → Stored crc32c (write_bytes m i bs) offset cap cursor es
  Stored-write_outside i bs cursor [] out a h s = tt
  Stored-write_outside i bs cursor (e ∷ es) out a h s = (
    s.0,
    read_bytes-write_bytes_apart m i bs (offset + cursor) 4096 (omega arith) ∙ s.1,
    Stored-write_outside i bs ((cursor + 4096) % cap) es out (next_aligned cap cursor whole a h).0
        (next_aligned cap cursor whole a h).1 s.2,
  )

  -- Two aligned sectors are apart, and so is what is written into the one.
  away :
      (n x y : ℕ)
      → n ≤ 4096
      → x ≢ y
      → x % 4096 ≡ 0
      → y % 4096 ≡ 0
      → (offset + y + 4096 ≤ offset + x) ⊎ (offset + x + n ≤ offset + y)
  away n x y short ne xa ya = omega arith

  -- A write into the sector behind the stored entries leaves them stored.
  pub Stored-write_behind :
      (bs : List ℕ) (p cursor : ℕ) (es : List WalEntry)
      → length bs ≤ 4096
      → p ≡ (cursor + 4096 * length es) % cap
      → p % 4096 ≡ 0
      → 4096 * length es + 4096 ≤ cap
      → cursor % 4096 ≡ 0
      → cursor < cap
      → Stored crc32c m offset cap cursor es
      → Stored crc32c (write_bytes m (offset + p) bs) offset cap cursor es
  Stored-write_behind bs p cursor [] short at pa room a h s = tt
  Stored-write_behind bs p cursor (e ∷ es) short at pa room a h s =
      let apart : p ≢ cursor = (λ q.
        turn_ne cap cursor (4096 * suc (length es)) h (omega arith) (omega arith) (sym at ∙ q)) in
      (
        s.0,
        read_bytes-write_bytes_apart m (offset + p) bs (offset + cursor) 4096
              (away (length bs) p cursor short apart pa a)
            ∙ s.1,
        Stored-write_behind bs p ((cursor + 4096) % cap) es short
            (at ∙ sym (next_turn cap cursor (length es))) pa (omega arith)
            (next_aligned cap cursor whole a h).0 (next_aligned cap cursor whole a h).1 s.2,
      )

  -- A framed sector written behind the stored entries joins them.
  pub Stored-append :
      (e : WalEntry) (p cursor : ℕ) (es : List WalEntry)
      → IsFramed crc32c e
      → p ≡ (cursor + 4096 * length es) % cap
      → p % 4096 ≡ 0
      → 4096 * length es + 4096 ≤ cap
      → cursor % 4096 ≡ 0
      → cursor < cap
      → Stored crc32c m offset cap cursor es
      → Stored crc32c
          (write_bytes m (offset + p) (image crc32c e))
          offset
          cap
          cursor
          (es ++ (e ∷ []))
  Stored-append e p cursor [] f at pa room a h s =
      let here : p ≡ cursor = at ∙ ap (λ k. k % cap) (add-zero cursor) ∙ mod-eq_of_lt h in
      (
        f,
        ap (λ k. read_bytes (write_bytes m (offset + p) (image crc32c e)) (offset + k) 4096)
              (sym here)
            ∙ read_bytes-write_bytes_self m (offset + p) (image crc32c e) 4096
                (length-image crc32c e f),
        tt,
      )
  Stored-append e p cursor (e' ∷ es) f at pa room a h s =
      let apart : p ≢ cursor = (λ q.
        turn_ne cap cursor (4096 * suc (length es)) h (omega arith) (omega arith) (sym at ∙ q)) in
      (
        s.0,
        read_bytes-write_bytes_apart m (offset + p) (image crc32c e) (offset + cursor) 4096 (
              away (length (image crc32c e)) p cursor (omega (arith, length-image crc32c e f)) apart
                pa a)
            ∙ s.1,
        Stored-append e p ((cursor + 4096) % cap) es f (at ∙ sym (next_turn cap cursor (length es)))
            pa (omega arith) (next_aligned cap cursor whole a h).0
            (next_aligned cap cursor whole a h).1 s.2,
      )
