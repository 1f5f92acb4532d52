-- ===== src/Query/Executor/Leaves.antt =====
-- What the leaves of a query ask of one object, said without the steps of `crates/query/src/executor.rs`.
use mimisbrunnr.Base.{
  ℕ, ◌%◌, ◌^◌, ◌≡◌, refl, ap, ap₂, ◌∙◌, Bool, true, false, not, ◌&&◌, ◌||◌, List, [], ◌∷◌,
  Bool-cases, inl, inr, ltb, ◌==◌, ==_refl, ==_iff, elem, take, length, bytes_eq, subst, arith,
}
use mimisbrunnr.Base.Int.{ℤ, ltb_ℤ, IsI64}
use mimisbrunnr.Types.ObjectId.{ObjectId, TagId, local_seq}
use mimisbrunnr.Types.Value.{text}
use mimisbrunnr.Types.Assertion.{Assertion, attr, relation, tagged}
use mimisbrunnr.Index.Bitmap.{Bitmap}
use mimisbrunnr.Index.RangeIndex.Ints.{Filing, AllI64, has_int, has_int_or}
use mimisbrunnr.Query.Executor.{
  Indexes, oid_low32, is_related, has_key, has_prefix, starts_with, eval_has_tag,
}
use mimisbrunnr.Query.Executor.Sets.{states, is_local, stated_of, isa_of}
use mimisbrunnr.Query.Executor.Ranges.{i64_max}
use mimisbrunnr.Query.Executor.IsA.{has-elem}

-- What the assertions of an object are asked for.
abbrev pub names_key : TagId → Assertion → Bool
names_key key (attr k v) = k == key
names_key key _ = false

abbrev pub begins : TagId → List ℕ → Assertion → Bool
begins key needle (attr k (text haystack)) =
    k == key && bytes_eq (take (length needle) haystack) needle
begins key needle _ = false

abbrev pub relates : TagId → ObjectId → Assertion → Bool
relates predicate target (relation p t) = p == predicate && t == target
relates predicate target _ = false

abbrev any : (Assertion → Bool) → List Assertion → Bool
any p [] = false
any p (a ∷ stated) = p a || any p stated

-- Some object with the local sequence `i`, of 32 bits, has an assertion that passes the test.
abbrev pub asserts : (Assertion → Bool) → ℕ → List (ObjectId × List Assertion) → Bool
asserts p i [] = false
asserts p i ((id, stated) ∷ objects) =
    (any p stated && (id % 2 ^ 48 == i && ltb i (2 ^ 32))) || asserts p i objects

starts_with_lem :
    (haystack needle : List ℕ)
    → starts_with haystack needle ≡ bytes_eq (take (length needle) haystack) needle
unfolding starts_with bytes_eq
starts_with_lem [] [] = refl
starts_with_lem (c ∷ bs) [] = refl
starts_with_lem [] (p ∷ ps) = refl
starts_with_lem (c ∷ bs) (p ∷ ps) = ap (λ t. c == p && t) (starts_with_lem bs ps)

pub has_prefix_lem :
    (key : TagId) (needle : List ℕ) (a : Assertion) → has_prefix key needle a ≡ begins key needle a
unfolding has_prefix
has_prefix_lem key needle (attr k (text haystack)) =
    ap (λ t. k == key && t) (starts_with_lem haystack needle)
has_prefix_lem key needle (attr k _) = refl
has_prefix_lem key needle (tagged t) = refl
has_prefix_lem key needle (relation p t) = refl

pub has_key_lem : (key : TagId) (a : Assertion) → has_key key a ≡ names_key key a
unfolding has_key
has_key_lem key (attr k v) = refl
has_key_lem key (tagged t) = refl
has_key_lem key (relation p t) = refl

pub is_related_lem :
    (predicate : TagId) (target : ObjectId) (a : Assertion)
    → is_related predicate target a ≡ relates predicate target a
unfolding is_related
is_related_lem predicate target (attr k v) = refl
is_related_lem predicate target (tagged t) = refl
is_related_lem predicate target (relation p t) = refl

is_local_lem :
    (p : Assertion → Bool) (i : ℕ) (id : ObjectId)
    → is_local p i (oid_low32 id) ≡ (id % 2 ^ 48 == i && ltb i (2 ^ 32))
unfolding oid_low32 local_seq
is_local_lem p i id = ground arith

states-any :
    (p q : Assertion → Bool) (i : ℕ)
    → ((a : Assertion) → p a ≡ q a)
    → (stated : List Assertion) → states p i stated ≡ any q stated
states-any p q i e [] = refl
states-any p q i e (a ∷ stated) = ap₂ ◌||◌ (e a) (states-any p q i e stated)

pub stated_of-asserts :
    (p q : Assertion → Bool) (i : ℕ)
    → ((a : Assertion) → p a ≡ q a)
    → (objects : List (ObjectId × List Assertion)) → stated_of p i objects ≡ asserts q i objects
stated_of-asserts p q i e [] = refl
stated_of-asserts p q i e ((id, stated) ∷ objects) =
    ap₂ ◌||◌ (ap₂ ◌&&◌ (states-any p q i e stated) (is_local_lem p i id))
      (stated_of-asserts p q i e objects)

-- Each integer is an i64 below i64::MAX.
abbrev pub AllBelowMax : Filing → Type 0
AllBelowMax [] = Unit {0}
AllBelowMax ((o, y) ∷ l) = IsI64 y × (ltb_ℤ y i64_max ≡ true) × AllBelowMax l

pub AllBelowMax-AllI64 : (l : Filing) → AllBelowMax l → AllI64 l
AllBelowMax-AllI64 [] h = tt
AllBelowMax-AllI64 ((o, y) ∷ l) h = (h.0, AllBelowMax-AllI64 l h.2)

pub same_ints :
    (p q : ℤ → Bool) (l : Filing) (i : ℕ)
    → AllBelowMax l
    → ((y : ℤ) → IsI64 y → ltb_ℤ y i64_max ≡ true → p y ≡ q y)
    → has_int p l i ≡ has_int q l i
same_ints p q [] i h e = refl
same_ints p q ((o, y) ∷ l) i h e =
    ap₂ ◌||◌ (ap (λ t. t && i == o) (e y h.0 h.1)) (same_ints p q l i h.2 e)

pub either_int :
    (p q r : ℤ → Bool) (l : Filing) (i : ℕ)
    → AllBelowMax l
    → ((y : ℤ) → IsI64 y → ltb_ℤ y i64_max ≡ true → (p y || q y) ≡ r y)
    → (has_int p l i || has_int q l i) ≡ has_int r l i
either_int p q r l i h e = has_int_or p q l i ∙ same_ints _ r l i h e

pub or_same : (p q r : Bool) → (p || q) ≡ (r || q) → (p && not q) ≡ (r && not q)
or_same p q r h = ground (arith, h)

module _ (b : Bitmap) (x : Indexes b) where
  -- Some store of the tag has the object.
  abbrev pub stored : TagId → ℕ → List (TagId × b.Set) → Bool
  stored tag i [] = false
  stored tag i ((t, s) ∷ stores) = (t == tag && b.contains i s) || stored tag i stores

  -- Some store of a tag whose closure has the given one has the object.
  abbrev pub stored_below : TagId → ℕ → List (TagId × b.Set) → Bool
  stored_below tag i [] = false
  stored_below tag i ((t, s) ∷ stores) =
      (elem tag (x.materialise t) && b.contains i s) || stored_below tag i stores

  abbrev pub Unlisted : TagId → List (TagId × b.Set) → Type 0
  Unlisted tag [] = Unit {0}
  Unlisted tag ((t, s) ∷ stores) = ((t == tag) ≡ false) × Unlisted tag stores

  -- The keys of a map: no tag has two stores.
  abbrev pub AreDistinct : List (TagId × b.Set) → Type 0
  AreDistinct [] = Unit {0}
  AreDistinct ((t, s) ∷ stores) = Unlisted t stores × AreDistinct stores

  Unlisted-stored :
      (tag : TagId) (i : ℕ) (stores : List (TagId × b.Set))
      → Unlisted tag stores
      → stored tag i stores ≡ false
  Unlisted-stored tag i [] h = refl
  Unlisted-stored tag i ((t, s) ∷ stores) h = ground (arith, h.0, Unlisted-stored tag i stores h.1)

  pub has_tag-stored :
      (tag : TagId) (i : ℕ) (stores : List (TagId × b.Set))
      → AreDistinct stores
      → b.contains i (eval_has_tag b x tag stores) ≡ stored tag i stores
  unfolding eval_has_tag
  has_tag-stored tag i [] h = b.contains-empty i
  has_tag-stored tag i ((t, s) ∷ stores) h = elim (Bool-cases (t == tag)) [
    | inl same ↦
        let e : t ≡ tag = (==_iff t tag).0 same in
        ground (arith, same, Unlisted-stored tag i stores (subst (λ u. Unlisted u stores) e h.0))
    | inr other ↦ ground (arith, other, has_tag-stored tag i stores h.1)
  ]

  -- Each of these stores is the one that a look-up of its tag finds.
  abbrev pub AreFound : List (TagId × b.Set) → List (TagId × b.Set) → Type 0
  AreFound full [] = Unit {0}
  AreFound full ((t, s) ∷ stores) = (eval_has_tag b x t full ≡ s) × AreFound full stores

  found_later :
      (t : TagId) (s : b.Set) (full stores : List (TagId × b.Set))
      → Unlisted t stores
      → AreFound full stores
      → AreFound ((t, s) ∷ full) stores
  unfolding eval_has_tag
  found_later t s full [] h f = tt
  found_later t s full ((u, r) ∷ stores) h f =
      (ground (arith, h.0, f.0), found_later t s full stores h.1 f.1)

  pub distinct_found : (stores : List (TagId × b.Set)) → AreDistinct stores → AreFound stores stores
  unfolding eval_has_tag
  distinct_found [] h = tt
  distinct_found ((t, s) ∷ stores) h =
      (ground (arith, ==_refl t), found_later t s stores stores h.0 (distinct_found stores h.1))

  pub isa_of-stored :
      (tag : TagId) (i : ℕ) (stores : List (TagId × b.Set))
      → AreFound x.stores stores
      → isa_of b x tag i stores ≡ stored_below tag i stores
  isa_of-stored tag i [] h = refl
  isa_of-stored tag i ((t, s) ∷ stores) h =
      ap₂ ◌||◌ (ap₂ (λ u w. u && b.contains i w) (has-elem (x.materialise t) tag) h.0)
        (isa_of-stored tag i stores h.1)
