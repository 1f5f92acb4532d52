-- ===== src/Engine/Clock/Tests.antt =====
-- The clock of `crates/engine/src/clock.rs` under a wall clock that goes backwards.
use mimisbrunnr.Base.{◌+◌, ◌≤◌, refl, arith, [], ◌∷◌}
use mimisbrunnr.Engine.Clock.{new_clock, since_epoch, before_epoch, stamps}
use mimisbrunnr.Engine.Clock.Monotone.{Ascending, Owned, stamps-Ascending}

fresh-Owned : Owned (new_clock 4)
unfolding new_clock
fresh-Owned = refl

stamps-Ascending_example :
    Ascending
      (new_clock 4).last
      (stamps (new_clock 4) (since_epoch 50 ∷ since_epoch 20 ∷ before_epoch ∷ []))
stamps-Ascending_example =
    stamps-Ascending (new_clock 4) (since_epoch 50 ∷ since_epoch 20 ∷ before_epoch ∷ []) fresh-Owned
      room
  where
    room : (new_clock 4).last.logical + 3 ≤ 65535
    room = unfold new_clock in omega arith
