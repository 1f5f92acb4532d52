-- ===== src/Index/TagStore.antt =====
-- `TagStore` of `crates/index/src/tag_store.rs`: the members of a tag, with a sequence or with scores. Its
-- serialised form is not modelled.
pub mod Scores
pub mod Members
mod Tests
use mimisbrunnr.Base.{
  ℕ, ◌+◌, ◌%◌, ◌^◌, Bool, not, List, [], ◌∷◌, ◌++◌, Option, none, some, if◌then◌else◌, ◌==◌, keep,
  map,
}
use mimisbrunnr.Base.Int.{ℤ, pos, ltb_ℤ}
use mimisbrunnr.Types.ObjectId.{ObjectId}
use mimisbrunnr.Index.Bitmap.{Bitmap}

pub data TagStoreKind : Type 0 where
  simple_kind ordered_kind ranked_kind : TagStoreKind

-- `(oid.to_u64() & 0xffff_ffff) as u32`
abbrev pub entry : ObjectId → ℕ
entry oid = oid % 2 ^ 32

abbrev pub Ranked : Type 0
Ranked = List (ObjectId × ℤ)

-- `sort_by_key(|(_, score)| Reverse(*score))`, a stable sort.
unfoldable pub place : ObjectId × ℤ → Ranked → Ranked
place r [] = r ∷ []
place r (q ∷ qs) = if ltb_ℤ r.1 q.1 then q ∷ place r qs else r ∷ q ∷ qs

unfoldable pub sort_by_score : Ranked → Ranked
unfolding place
sort_by_score [] = []
sort_by_score (r ∷ rs) = place r (sort_by_score rs)

module _ (b : Bitmap) where
  pub data TagStore : Type 0 where
    simple : b.Set → TagStore
    ordered : (members : b.Set) (sequence : List ObjectId) → TagStore
    ranked : (members : b.Set) (entries : Ranked) → TagStore

  abbrev pub new_simple : TagStore
  new_simple = simple b.empty

  abbrev pub new_ordered : TagStore
  new_ordered = ordered b.empty []

  abbrev pub new_ranked : TagStore
  new_ranked = ranked b.empty []

  unfoldable pub members : TagStore → b.Set
  members (simple s) = s
  members (ordered s oids) = s
  members (ranked s entries) = s

  -- What `members_mut` gives out is written back.
  unfoldable pub with_members : TagStore → b.Set → TagStore
  with_members (simple s) t = simple t
  with_members (ordered s oids) t = ordered t oids
  with_members (ranked s entries) t = ranked t entries

  unfoldable pub sequence : TagStore → Option (List ObjectId)
  sequence (ordered s oids) = some oids
  sequence _ = none

  unfoldable pub ranking : TagStore → Option Ranked
  ranking (ranked s entries) = some entries
  ranking _ = none

  unfoldable pub add_member : TagStore → ObjectId → TagStore
  unfolding with_members members
  add_member s oid = with_members s (b.insert (entry oid) (members s))

  -- `retain` in the sequence or among the scores.
  unfoldable pub forget : TagStore → ObjectId → TagStore
  unfolding keep
  forget (simple s) oid = simple s
  forget (ordered s oids) oid = ordered s (keep (λ o. not (o == oid)) oids)
  forget (ranked s entries) oid = ranked s (keep (λ r. not (r.0 == oid)) entries)

  unfoldable pub remove_member : TagStore → ObjectId → TagStore × Bool
  unfolding with_members members forget
  remove_member s oid = (
    forget (with_members s (b.remove (entry oid) (members s))) oid,
    b.contains (entry oid) (members s),
  )

  unfoldable pub push_ordered : TagStore → ObjectId → TagStore
  push_ordered (ordered s oids) oid = ordered (b.insert (entry oid) s) (oids ++ (oid ∷ []))
  push_ordered s oid = s

  unfoldable pub insert_ranked : TagStore → ObjectId → ℤ → TagStore
  unfolding sort_by_score
  insert_ranked (ranked s entries) oid score =
      ranked (b.insert (entry oid) s) (sort_by_score (entries ++ ((oid, score) ∷ [])))
  insert_ranked s oid score = s

  unfoldable pub cardinality : TagStore → ℕ
  unfolding members
  cardinality s = b.len (members s)

  unfoldable pub is_empty : TagStore → Bool
  unfolding members
  is_empty s = b.is_empty (members s)

  unfoldable pub contains : TagStore → ObjectId → Bool
  unfolding members
  contains s oid = b.contains (entry oid) (members s)

  unfoldable pub kind : TagStore → TagStoreKind
  kind (simple s) = simple_kind
  kind (ordered s oids) = ordered_kind
  kind (ranked s entries) = ranked_kind

  -- The ids are those of node 0.
  unfoldable pub upgrade_to_ordered : TagStore → TagStore
  upgrade_to_ordered (simple s) = ordered s (b.iter s)
  upgrade_to_ordered s = s

  unfoldable pub upgrade_to_ranked : TagStore → TagStore
  unfolding members
  upgrade_to_ranked s = ranked (members s) (map (λ i. (i, pos 0)) (b.iter (members s)))
