-- ===== src/Registry/Orphans.antt =====
-- The records form a forest: a parent that a record names is there. Release and expiry take whole
-- subtrees, so no record loses its parent.
use rwkv_agent.Base.{
  ◌≡◌, inl, inr, String, true, false, ◌||◌, List, [], ◌∷◌, ◌++◌, none, some, if◌then◌else◌,
  string_dec, mentions, mentions-nil, mentions-cons, mentions-append, lookup, remove, has, Distinct,
  lookup-remove_ne, lookup-remove_self, remove-Distinct, has-lookup, arith, Bool-cases,
}
use rwkv_agent.Registry.{PersistentState, Records, children_of, subtree_of, add_new, targets_of}
use rwkv_agent.Registry.Descendants.{subtree-closed}

pub record IsForest (records : Records) : Type 0 where
  pub distinct : Distinct string_dec records
  pub keyed :
      (k : String) (r : PersistentState) → lookup string_dec k records ≡ some r → r.state_id ≡ k
  pub parents :
      (k p : String) (r : PersistentState)
      → lookup string_dec k records ≡ some r
      → r.parent_state_id ≡ some p
      → has string_dec p records ≡ true

child-listed :
    (records : Records) (k p : String) (r : PersistentState)
    → lookup string_dec k records ≡ some r
    → r.parent_state_id ≡ some p
    → mentions r.state_id (children_of records p) ≡ true
unfolding lookup children_of
child-listed [] k p r e parent = cc
child-listed ((j, q) ∷ records) k p r e parent = elim (string_dec j k) [
  | yes here ↦ ground (arith, mentions-cons r.state_id q.state_id (children_of records p))
  | no other ↦ ground (
    arith,
    child-listed records k p r (ground arith) parent,
    mentions-cons r.state_id q.state_id (children_of records p),
  )
]

-- The records without the named nodes.
unfoldable pub remove_all : List String → Records → Records
remove_all [] records = records
remove_all (id ∷ ids) records = remove_all ids (remove string_dec id records)

remove_all-Distinct :
    (ids : List String) (records : Records)
    → Distinct string_dec records
    → Distinct string_dec (remove_all ids records)
unfolding remove_all
remove_all-Distinct [] records d = d
remove_all-Distinct (id ∷ ids) records d =
    remove_all-Distinct ids (remove string_dec id records) (remove-Distinct string_dec id records d)

pub lookup-remove_all :
    (ids : List String) (records : Records) (k : String)
    → Distinct string_dec records
    → lookup string_dec k (remove_all ids records)
      ≡ (if mentions k ids then none else lookup string_dec k records)
unfolding remove_all
lookup-remove_all [] records k d = rw (mentions-nil k)
lookup-remove_all (id ∷ ids) records k d = ground (
  arith,
  lookup-remove_all ids (remove string_dec id records) k (remove-Distinct string_dec id records d),
  mentions-cons k id ids,
  lookup-remove_self string_dec id records d,
  lookup-remove_ne string_dec id k records,
)

-- With a node, the nodes hold every record whose parent it is.
abbrev pub ClosedUnder : Records → List String → Type 0
ClosedUnder records nodes =
    (x y : String)
    → mentions x nodes ≡ true
    → mentions y (children_of records x) ≡ true
    → mentions y nodes ≡ true

-- Taking a closed set of nodes out of a forest leaves a forest.
pub remove_all-IsForest :
    (nodes : List String) (records : Records)
    → ClosedUnder records nodes
    → IsForest records
    → IsForest (remove_all nodes records)
remove_all-IsForest nodes records closed f = record {
  distinct = remove_all-Distinct nodes records f.distinct;
  keyed = λ k r e. f.keyed k r (kept k r e);
  parents = λ k p r e parent.
      let there = f.parents k p r (kept k r e) parent in
      ground (
        arith,
        has-lookup string_dec p (remove_all nodes records),
        has-lookup string_dec p records,
        lookup-remove_all nodes records p f.distinct,
        there,
        stays k p r e parent,
      );
}
  where
    kept :
        (k : String) (r : PersistentState)
        → lookup string_dec k (remove_all nodes records) ≡ some r
        → lookup string_dec k records ≡ some r
    kept k r e = ground (arith, lookup-remove_all nodes records k f.distinct)

    out :
        (k : String) (r : PersistentState)
        → lookup string_dec k (remove_all nodes records) ≡ some r
        → mentions k nodes ≡ false
    out k r e = ground (arith, lookup-remove_all nodes records k f.distinct)

    stays :
        (k p : String) (r : PersistentState)
        → lookup string_dec k (remove_all nodes records) ≡ some r
        → r.parent_state_id ≡ some p
        → mentions p nodes ≡ false
    stays k p r e parent = elim (Bool-cases (mentions p nodes)) [
      | inr free ↦ free
      | inl taken ↦
          let gone = closed p r.state_id taken (child-listed records k p r (kept k r e) parent) in
          absurd (ground (arith, gone, f.keyed k r (kept k r e), out k r e))
    ]

pub subtree-ClosedUnder :
    (records : Records) (id : String) → ClosedUnder records (subtree_of records id)
subtree-ClosedUnder records id x y = subtree-closed records id x y

pub mentions-add_new :
    (x : String) (nodes targets : List String)
    → mentions x (add_new nodes targets) ≡ (mentions x targets || mentions x nodes)
unfolding add_new
mentions-add_new x [] targets = ground (arith, mentions-nil x)
mentions-add_new x (n ∷ nodes) targets = ground (
  arith,
  mentions-add_new x nodes (if mentions n targets then targets else targets ++ n ∷ []),
  mentions-cons x n nodes,
  mentions-append x targets (n ∷ []),
  mentions-cons x n [],
  mentions-nil x,
)

pub targets-ClosedUnder :
    (records : Records) (rs : List PersistentState) (targets : List String)
    → ClosedUnder records targets
    → ClosedUnder records (targets_of records rs targets)
unfolding targets_of
targets-ClosedUnder records [] targets c = c
targets-ClosedUnder records (r ∷ rs) targets c =
    targets-ClosedUnder records rs (add_new nodes targets) λ x y inside child. ground (
      arith,
      mentions-add_new x nodes targets,
      mentions-add_new y nodes targets,
      λ (h : mentions x targets ≡ true). c x y h child,
      λ (h : mentions x nodes ≡ true). subtree-closed records r.state_id x y h child,
      inside,
    )
  where
    nodes : List String
    nodes = subtree_of records r.state_id
