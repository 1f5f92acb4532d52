-- ===== src/Index/KvBucket/Tests.antt =====
-- The bucket of `crates/index/src/kv_bucket.rs`, empty and after an insertion.
use mimisbrunnr.Base.{◌≡◌, refl, ok, some, ◌&&◌, ◌==◌, if◌then◌else◌}
use mimisbrunnr.Storage.Block.{BlockRef}
use mimisbrunnr.Index.KvBucket.{new, upsert, lookup, overwrite}
use mimisbrunnr.Index.KvBucket.Laws.{new-IsBucket, lookup-upsert}

abbrev page : BlockRef
page = record { disk_id = 0; pad = 0; block_no = 77; generation = 1 }

upsert_run : (upsert (new 0) 5 9 page).1 ≡ ok tt
unfolding upsert new overwrite
upsert_run = refl

lookup-upsert_example :
    lookup (upsert (new 0) 5 9 page).0 5 8
    ≡ (if 5 == 5 && 8 == 9 then some page else lookup (new 0) 5 8)
lookup-upsert_example = lookup-upsert (new 0) 5 9 page 5 8 (new-IsBucket 0) upsert_run
