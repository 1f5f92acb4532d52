-- ===== src/Wal/Ring/Monad.antt =====
-- A method of `Wal` takes the ring and the device, and leaves both changed also where it fails.
use mimisbrunnr.Base.{ℕ, List, Bool, true, false, Result, ok, err, map_err}
use mimisbrunnr.Storage.Device.Image
use mimisbrunnr.Storage.Device.Image.{Device}
use mimisbrunnr.Wal.Error.{WalError, storage}
use mimisbrunnr.Wal.Ring.State.{Wal}

pub record Outcome (A : Type 0) : Type 0 where
  pub wal : Wal
  pub device : Device
  pub result : Result WalError A

abbrev pub Method : Type 0 → Type 0
Method A = Wal → Device → Outcome A

infixl 5 ◌>>=◌ ◌>>◌
abbrev pub ◌>>=◌ : {A B : Type 0} → Method A → (A → Method B) → Method B
◌>>=◌ m f w d =
    let o = m w d in
    elim o.result [
      | ok a ↦ f a o.wal o.device
      | err e ↦ record { wal = o.wal; device = o.device; result = err e }
    ]

abbrev pub ◌>>◌ : {B : Type 0} → Method (Unit {0}) → Method B → Method B
◌>>◌ m k = m >>= λ _. k

abbrev pub pure : {A : Type 0} → A → Method A
pure a w d = record { wal = w; device = d; result = ok a }

abbrev pub fail : {A : Type 0} → WalError → Method A
fail e w d = record { wal = w; device = d; result = err e }

abbrev pub guard : Bool → WalError → Method (Unit {0})
guard true e = pure tt
guard false e = fail e

abbrev pub get_wal : Method Wal
get_wal w d = record { wal = w; device = d; result = ok w }

abbrev pub put_wal : Wal → Method (Unit {0})
put_wal w' w d = record { wal = w'; device = d; result = ok tt }

-- `device.read_at(offset, &mut [0; n])?`
abbrev pub read_at : ℕ → ℕ → Method (List ℕ)
read_at offset n w d = record {
  wal = w;
  device = d;
  result = map_err storage (Image.read_at d offset n);
}

-- `device.write_at(offset, buf)?`
abbrev pub write_at : ℕ → List ℕ → Method (Unit {0})
write_at offset buf w d =
    let (d', r) = Image.write_at d offset buf in
    record { wal = w; device = d'; result = map_err storage r }

-- `device.sync()?`
abbrev pub sync : Method (Unit {0})
sync w d = record { wal = w; device = d; result = map_err storage (Image.sync d) }
