-- ===== src/Storage/Device/Laws.antt =====
-- Reads after writes on the bytes of a device.
use mimisbrunnr.Base.{
  ℕ, zero, suc, ◌+◌, ◌≤◌, ◌<◌, ◌≡◌, refl, ap, ap₂, ◌∙◌, ◌⊎◌, inl, inr, List, [], ◌∷◌, length, arith,
}
use mimisbrunnr.Storage.Device.Image.{read_bytes, write_bytes, update}

pub length-read_bytes : (m : ℕ → ℕ) (i n : ℕ) → length (read_bytes m i n) ≡ n
unfolding read_bytes
length-read_bytes m i zero = refl
length-read_bytes m i (suc n) = ap suc (length-read_bytes m (i + 1) n)

-- A write changes no byte before it.
write_bytes-before : (m : ℕ → ℕ) (i : ℕ) (bs : List ℕ) (j : ℕ) → j < i → write_bytes m i bs j ≡ m j
unfolding write_bytes update
write_bytes-before m i [] j h = refl
write_bytes-before m i (b ∷ bs) j h =
    write_bytes-before (update m i b) (i + 1) bs j (omega arith) ∙ ground arith

write_bytes-after :
    (m : ℕ → ℕ) (i : ℕ) (bs : List ℕ) (j : ℕ) → i + length bs ≤ j → write_bytes m i bs j ≡ m j
unfolding write_bytes update
write_bytes-after m i [] j h = refl
write_bytes-after m i (b ∷ bs) j h =
    write_bytes-after (update m i b) (i + 1) bs j (omega arith) ∙ ground arith

-- A write reads back.
pub read_bytes-write_bytes_self :
    (m : ℕ → ℕ) (i : ℕ) (bs : List ℕ) (n : ℕ)
    → length bs ≡ n
    → read_bytes (write_bytes m i bs) i n ≡ bs
unfolding read_bytes write_bytes
read_bytes-write_bytes_self m i [] zero h = refl
read_bytes-write_bytes_self m i [] (suc n) h = absurd (omega arith)
read_bytes-write_bytes_self m i (b ∷ bs) zero h = absurd (omega arith)
read_bytes-write_bytes_self m i (b ∷ bs) (suc n) h =
    ap₂ ◌∷◌ (write_bytes-before (update m i b) (i + 1) bs i (omega arith) ∙ here)
      (read_bytes-write_bytes_self (update m i b) (i + 1) bs n (omega arith))
  where
    here : update m i b i ≡ b
    here = unfold update in ground arith

-- A write elsewhere is not seen.
pub read_bytes-write_bytes_apart :
    (m : ℕ → ℕ) (i : ℕ) (bs : List ℕ) (j n : ℕ)
    → (j + n ≤ i) ⊎ (i + length bs ≤ j)
    → read_bytes (write_bytes m i bs) j n ≡ read_bytes m j n
unfolding read_bytes
read_bytes-write_bytes_apart m i bs j zero h = refl
read_bytes-write_bytes_apart m i bs j (suc n) (inl h) =
    ap₂ ◌∷◌ (write_bytes-before m i bs j (omega arith))
      (read_bytes-write_bytes_apart m i bs (j + 1) n (inl (omega arith)))
read_bytes-write_bytes_apart m i bs j (suc n) (inr h) =
    ap₂ ◌∷◌ (write_bytes-after m i bs j h)
      (read_bytes-write_bytes_apart m i bs (j + 1) n (inr (omega arith)))
