-- ===== src/Index/KvDirectory/Tests.antt =====
-- The directory of `crates/index/src/kv_directory.rs` at depth 3.
use mimisbrunnr.Base.{◌≤◌, ◌≡◌, ◌^◌, arith}
use mimisbrunnr.Storage.Block.{BlockRef}
use mimisbrunnr.Index.KvDirectory.{fresh, count}
use mimisbrunnr.Index.KvDirectory.Laws.{fresh-IsDirectory, count-IsDirectory}

abbrev bucket : BlockRef
bucket = record { disk_id = 0; pad = 0; block_no = 12; generation = 2 }

count-IsDirectory_example :
    (count (fresh 3) ≡ 2 ^ (fresh 3).global_depth)
    × (count (fresh 3) ≤ 128)
    × ((fresh 3).global_depth ≤ 7)
count-IsDirectory_example = count-IsDirectory (fresh 3) (fresh-IsDirectory 3 (omega arith))
