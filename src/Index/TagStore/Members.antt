-- ===== src/Index/TagStore/Members.antt =====
-- `TagStore` of `crates/index/src/tag_store.rs` as a set of objects, and what it keeps in step with that set.
use mimisbrunnr.Base.{ℕ, ◌≡◌, refl, Bool, true, false, not, ◌&&◌, ◌||◌, ◌==◌, elem}
use mimisbrunnr.Base.Int.{ℤ}
use mimisbrunnr.Types.ObjectId.{ObjectId}
use mimisbrunnr.Index.Bitmap.{Bitmap}
use mimisbrunnr.Index.TagStore.{
  TagStore, simple, ordered, ranked, TagStoreKind, ordered_kind, ranked_kind, entry, members,
  with_members, forget, add_member, remove_member, push_ordered, insert_ranked, contains, kind,
}
use mimisbrunnr.Index.TagStore.Scores.{oids_of, Descends}

abbrev pub is_ordered : TagStoreKind → Bool
is_ordered ordered_kind = true
is_ordered _ = false

abbrev pub is_ranked : TagStoreKind → Bool
is_ranked ranked_kind = true
is_ranked _ = false

module _ (b : Bitmap) where
  -- The lists have members only, and the scores descend.
  unfoldable pub IsStore : TagStore b → Type 0
  IsStore (simple s) = Unit {0}
  IsStore (ordered s oids) = (x : ObjectId) → elem x oids ≡ true → b.contains (entry x) s ≡ true
  IsStore (ranked s entries) =
      ((x : ObjectId) → elem x (oids_of entries) ≡ true → b.contains (entry x) s ≡ true)
      × Descends entries

  contains-add_member :
      (s : TagStore b) (o x : ObjectId)
      → contains b (add_member b s o) x ≡ (entry x == entry o || contains b s x)
  unfolding contains add_member with_members members
  contains-add_member (simple s) o x = b.contains-insert (entry x) (entry o) s
  contains-add_member (ordered s oids) o x = b.contains-insert (entry x) (entry o) s
  contains-add_member (ranked s entries) o x = b.contains-insert (entry x) (entry o) s

  contains-remove_member :
      (s : TagStore b) (o x : ObjectId)
      → contains b (remove_member b s o).0 x ≡ (contains b s x && not (entry x == entry o))
  unfolding contains remove_member forget with_members members
  contains-remove_member (simple s) o x = b.contains-remove (entry x) (entry o) s
  contains-remove_member (ordered s oids) o x = b.contains-remove (entry x) (entry o) s
  contains-remove_member (ranked s entries) o x = b.contains-remove (entry x) (entry o) s

  contains-push_ordered :
      (s : TagStore b) (o x : ObjectId)
      → contains b (push_ordered b s o) x
        ≡ ((is_ordered (kind b s) && entry x == entry o) || contains b s x)
  unfolding contains push_ordered members kind
  contains-push_ordered (simple s) o x = refl
  contains-push_ordered (ordered s oids) o x = b.contains-insert (entry x) (entry o) s
  contains-push_ordered (ranked s entries) o x = refl

  contains-insert_ranked :
      (s : TagStore b) (o : ObjectId) (score : ℤ) (x : ObjectId)
      → contains b (insert_ranked b s o score) x
        ≡ ((is_ranked (kind b s) && entry x == entry o) || contains b s x)
  unfolding contains insert_ranked members kind
  contains-insert_ranked (simple s) o score x = refl
  contains-insert_ranked (ordered s oids) o score x = refl
  contains-insert_ranked (ranked s entries) o score x = b.contains-insert (entry x) (entry o) s

  -- Adding, pushing and ranking an object, where the variant takes it, make it a member, and with
  -- it each object whose id has the same low 32 bits; removing it removes these. No other
  -- membership changes.
  pub contains_after :
      (s : TagStore b) (o : ObjectId) (score : ℤ) (x : ObjectId)
      → (contains b (add_member b s o) x ≡ (entry x == entry o || contains b s x))
        × (contains b (remove_member b s o).0 x ≡ (contains b s x && not (entry x == entry o)))
        × (contains b (push_ordered b s o) x
            ≡ ((is_ordered (kind b s) && entry x == entry o) || contains b s x))
        × (contains b (insert_ranked b s o score) x
            ≡ ((is_ranked (kind b s) && entry x == entry o) || contains b s x))
  contains_after s o score x = (
    contains-add_member s o x,
    contains-remove_member s o x,
    contains-push_ordered s o x,
    contains-insert_ranked s o score x,
  )

  -- The lists have members only, but for objects whose id has the low 32 bits `e`, which are none; the
  -- scores descend.
  unfoldable pub IsStoreBut : ℕ → TagStore b → Type 0
  IsStoreBut e (simple s) = Unit {0}
  IsStoreBut e (ordered s oids) =
      (x : ObjectId) → elem x oids ≡ true → b.contains (entry x) s ≡ not (entry x == e)
  IsStoreBut e (ranked s entries) =
      ((x : ObjectId)
        → elem x (oids_of entries) ≡ true
        → b.contains (entry x) s ≡ not (entry x == e))
      × Descends entries
