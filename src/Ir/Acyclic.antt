-- ===== src/Ir/Acyclic.antt =====
-- The trees that the builders make have no cycles, through any of a node's links.
use apex_engine.Common.{
  ℕ, suc, ◌+◌, ◌<◌, ◌≤◌, ◌≡◌, refl, sym, ◌∙◌, ap, arith, zero, Option-cases, inl, inr, ℤ, List,
  none, some, get_or, set, lt→ltb, le→ltb_false, dec_lt, length, replicate, get_or-set_self,
  get_or-set_ne, length-set, ℕ_discrete,
}
use apex_engine.Ir.{
  strncpy, Node, NodePool, Pointer, node_at, alloc, build, reset, new_pool, max_nodes, fresh_node,
  as_load, load_node, const_node, add_node, sub_node, gt_node, lt_node, eq_node, and_node, or_node,
  not_node, select_node, lsl_node, lsr_node,
}

-- A link to a node before `i`, or null.
abbrev pub PointsBelow : ℕ → Pointer → Type 0
PointsBelow i p = elim p [ none ↦ 0 ≤ i | some j ↦ j < i ]

pub record LinksBelow (i : ℕ) (n : Node) : Type 0 where
  pub left : PointsBelow i n.left
  pub right : PointsBelow i n.right
  pub cond : PointsBelow i n.cond

-- Every node of the storage, in use or left from before a `reset`, links only to earlier ones.
pub record IsAcyclic (p : NodePool) : Type 0 where
  pub links : (i : ℕ) → LinksBelow i (node_at p i)
  pub size : length p.storage ≡ max_nodes

-- The builders with one operand, and with two.
pub data IsUnary : (Pointer → NodePool → Pointer × NodePool) → Type 0 where
  by_not : IsUnary not_node
  by_lsl : (shift : ℤ) → IsUnary (λ a. lsl_node a shift)
  by_lsr : (shift : ℤ) → IsUnary (λ a. lsr_node a shift)

pub data IsBinary : (Pointer → Pointer → NodePool → Pointer × NodePool) → Type 0 where
  by_add : IsBinary add_node
  by_sub : IsBinary sub_node
  by_gt : IsBinary gt_node
  by_lt : IsBinary lt_node
  by_eq : IsBinary eq_node
  by_and : IsBinary and_node
  by_or : IsBinary or_node

alloc_room :
    (p : NodePool)
    → p.next_idx < max_nodes
    → alloc p ≡ (some p.next_idx, record p { next_idx = p.next_idx + 1 })
unfolding alloc
alloc_room p h = rw (alloc, lt→ltb p.next_idx max_nodes h) refl

alloc_full : (p : NodePool) → max_nodes ≤ p.next_idx → alloc p ≡ (none, p)
unfolding alloc
alloc_full p h = rw (alloc, le→ltb_false p.next_idx max_nodes h) refl

pub build_room :
    (assign : Node → Node) (p : NodePool)
    → p.next_idx < max_nodes
    → build assign p ≡ (
      some p.next_idx,
      record {
        storage = set p.storage p.next_idx (assign (node_at p p.next_idx));
        next_idx = p.next_idx + 1;
      },
    )
unfolding build
build_room assign p h = rw (build, alloc_room p h) (rw (alloc_room p h) refl)

pub load_room :
    (source copied : List ℕ) (p : NodePool)
    → strncpy 63 source ≡ some copied
    → p.next_idx < max_nodes
    → load_node source p ≡ some (build (as_load copied) p)
unfolding load_node
load_room source copied p found room = rw (load_node, alloc_room p room) (rw found refl)

build_full :
    (assign : Node → Node) (p : NodePool) → max_nodes ≤ p.next_idx → build assign p ≡ (none, p)
unfolding build
build_full assign p h = rw (build, alloc_full p h) (rw (alloc_full p h) refl)

-- An assignment that keeps the links of a node below it, written at that node.
build-IsAcyclic :
    (assign : Node → Node) (p : NodePool)
    → ((n : Node) → LinksBelow p.next_idx n → LinksBelow p.next_idx (assign n))
    → IsAcyclic p
    → IsAcyclic (build assign p).1
build-IsAcyclic assign p keeps ok = elim (dec_lt p.next_idx max_nodes) [
  | no full ↦ rw (build_full assign p (omega arith)) ok
  | yes room ↦ rw (build_room assign p room) (record {
    links = λ i. elim (ℕ_discrete p.next_idx i) [
      | yes here ↦ rw (sym here) (
          rw
            (get_or-set_self p.storage p.next_idx (assign (node_at p p.next_idx)) fresh_node
              (omega (arith, ok.size)))
            (keeps (node_at p p.next_idx) (ok.links p.next_idx)))
      | no there ↦
          rw (get_or-set_ne p.storage p.next_idx i (assign (node_at p p.next_idx)) fresh_node there)
            (ok.links i)
    ];
    size = length-set p.storage p.next_idx (assign (node_at p p.next_idx)) ∙ ok.size;
  })
]

-- One call on the pool, on operands that are null or among the nodes in use.
pub data Step (p : NodePool) : NodePool → Type 0 where
  resets : Step p (reset p)
  loads :
      (source : List ℕ) {n : Pointer} {q : NodePool} → load_node source p ≡ some (n, q) → Step p q
  constants : (value : ℤ) → Step p (const_node value p).1
  unary :
      (f : Pointer → NodePool → Pointer × NodePool) (a : Pointer)
      → IsUnary f
      → PointsBelow p.next_idx a
      → Step p (f a p).1
  binary :
      (f : Pointer → Pointer → NodePool → Pointer × NodePool) (a b : Pointer)
      → IsBinary f
      → PointsBelow p.next_idx a
      → PointsBelow p.next_idx b
      → Step p (f a b p).1
  selects :
      (c a b : Pointer)
      → PointsBelow p.next_idx c
      → PointsBelow p.next_idx a
      → PointsBelow p.next_idx b
      → Step p (select_node c a b p).1

unary-IsAcyclic :
    (f : Pointer → NodePool → Pointer × NodePool) (a : Pointer) (p : NodePool)
    → IsUnary f
    → PointsBelow p.next_idx a
    → IsAcyclic p
    → IsAcyclic (f a p).1
unfolding not_node lsl_node lsr_node
unary-IsAcyclic f a p by_not h ok =
    build-IsAcyclic _ p (λ n k. record { left = h; right = k.right; cond = k.cond }) ok
unary-IsAcyclic f a p (by_lsl shift) h ok =
    build-IsAcyclic _ p (λ n k. record { left = h; right = k.right; cond = k.cond }) ok
unary-IsAcyclic f a p (by_lsr shift) h ok =
    build-IsAcyclic _ p (λ n k. record { left = h; right = k.right; cond = k.cond }) ok

module _ (a b : Pointer) (p : NodePool) (ha : PointsBelow p.next_idx a)
    (hb : PointsBelow p.next_idx b) (ok : IsAcyclic p) where
  two_links :
      (assign : Node → Node)
      → ((n : Node) → ((assign n).left ≡ a) × ((assign n).right ≡ b) × ((assign n).cond ≡ n.cond))
      → IsAcyclic (build assign p).1
  two_links assign same =
      build-IsAcyclic assign p
        (λ n k.
          let (l, r, c) = same n in
          record { left = rw l ha; right = rw r hb; cond = rw c (k.cond) })
        ok

  binary-IsAcyclic :
      (f : Pointer → Pointer → NodePool → Pointer × NodePool) → IsBinary f → IsAcyclic (f a b p).1
  unfolding add_node sub_node gt_node lt_node eq_node and_node or_node
  binary-IsAcyclic f by_add = two_links _ (λ n. (refl, refl, refl))
  binary-IsAcyclic f by_sub = two_links _ (λ n. (refl, refl, refl))
  binary-IsAcyclic f by_gt = two_links _ (λ n. (refl, refl, refl))
  binary-IsAcyclic f by_lt =
      build-IsAcyclic _ p (λ n k. record { left = hb; right = ha; cond = k.cond }) ok
  binary-IsAcyclic f by_eq = two_links _ (λ n. (refl, refl, refl))
  binary-IsAcyclic f by_and = two_links _ (λ n. (refl, refl, refl))
  binary-IsAcyclic f by_or = two_links _ (λ n. (refl, refl, refl))

ended :
    (r : Pointer × NodePool) {s : Pointer × NodePool}
    → IsAcyclic r.1
    → some r ≡ some s
    → IsAcyclic s.1
ended r {s} ok e = let same : r ≡ s = cc in rw (sym same) ok

load-IsAcyclic :
    (source : List ℕ) {n : Pointer} {q : NodePool} (p : NodePool)
    → load_node source p ≡ some (n, q)
    → IsAcyclic p
    → IsAcyclic q
unfolding load_node
load-IsAcyclic source {n} {q} p e ok = elim (dec_lt p.next_idx max_nodes) [
  | no full ↦
      let same : load_node source p ≡ some (none, p) =
        rw (load_node, alloc_full p (omega arith)) (rw (alloc_full p (omega arith)) refl) in
      ended (none, p) ok (sym same ∙ e)
  | yes room ↦ elim (Option-cases (strncpy 63 source)) [
    | inl stuck ↦
        let same : load_node source p ≡ none = rw (load_node, alloc_room p room) (rw stuck refl) in
        absurd (cc (same, e))
    | inr (copied, found) ↦
        let same = load_room source copied p found room in
        ended (build (as_load copied) p)
          (build-IsAcyclic (as_load copied) p
            (λ n k. record { left = k.left; right = k.right; cond = k.cond }) ok)
          (sym same ∙ e)
  ]
]

Step-IsAcyclic : {p q : NodePool} → Step p q → IsAcyclic p → IsAcyclic q
unfolding reset const_node select_node
Step-IsAcyclic resets ok = record { links = ok.links; size = ok.size }
Step-IsAcyclic {p} (loads source e) ok = load-IsAcyclic source p e ok
Step-IsAcyclic {p} (constants value) ok =
    build-IsAcyclic _ p (λ n k. record { left = k.left; right = k.right; cond = k.cond }) ok
Step-IsAcyclic {p} (unary f a u h) ok = unary-IsAcyclic f a p u h ok
Step-IsAcyclic {p} (binary f a b u ha hb) ok = binary-IsAcyclic a b p ha hb ok f u
Step-IsAcyclic {p} (selects c a b hc ha hb) ok =
    build-IsAcyclic _ p (λ n k. record { left = ha; right = hb; cond = hc }) ok

-- The pools that calls lead to from the pool that a thread starts with.
pub data IsReachable : NodePool → Type 0 where
  starts : IsReachable new_pool
  steps : {p q : NodePool} → IsReachable p → Step p q → IsReachable q

same_everywhere : {A : Type 0} (n i : ℕ) (x : A) → get_or (replicate n x) i x ≡ x
same_everywhere zero i x = refl
same_everywhere (suc n) zero x = refl
same_everywhere (suc n) (suc i) x = same_everywhere n i x

length-replicate : {A : Type 0} (n : ℕ) (x : A) → length (replicate n x) ≡ n
length-replicate zero x = refl
length-replicate (suc n) x = ap suc (length-replicate n x)

new_pool-IsAcyclic : IsAcyclic new_pool
new_pool-IsAcyclic = record {
  links = λ i.
      rw (same_everywhere max_nodes i fresh_node)
        (record { left = omega arith; right = omega arith; cond = omega arith });
  size = length-replicate max_nodes fresh_node;
}

-- In every pool that the builders and `reset` can make, if each operand is null or a node in use,
-- all links of every node, stale ones too, lead to nodes before it: no traversal can run in a cycle.
pub reachable-IsAcyclic : {p : NodePool} → IsReachable p → IsAcyclic p
reachable-IsAcyclic starts = new_pool-IsAcyclic
reachable-IsAcyclic (steps r s) = Step-IsAcyclic s (reachable-IsAcyclic r)
