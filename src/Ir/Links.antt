-- ===== src/Ir/Links.antt =====
-- Writes to the pool that keep a part of each node, its links above all.
use apex_engine.Common.{
  ℕ, zero, suc, ◌≡◌, refl, ◌∙◌, ap, List, [], ◌∷◌, length, set, get_or, length-set,
}
use apex_engine.Ir.{Node, NodePool, Pointer, node_at, fresh_node}
use apex_engine.Ir.Acyclic.{IsAcyclic}

-- A write that keeps a part of a node keeps it in every node.
pub set-keeps {ℓ} :
    {A : Type ℓ} (part : Node → A) (nodes : List Node) (i j : ℕ) (n : Node)
    → part n ≡ part (get_or nodes i fresh_node)
    → part (get_or (set nodes i n) j fresh_node) ≡ part (get_or nodes j fresh_node)
set-keeps part [] i j n h = refl
set-keeps part (x ∷ nodes) zero zero n h = h
set-keeps part (x ∷ nodes) zero (suc j) n h = refl
set-keeps part (x ∷ nodes) (suc i) zero n h = refl
set-keeps part (x ∷ nodes) (suc i) (suc j) n h = set-keeps part nodes i j n h

abbrev pub Links : Type 0
Links = Pointer × Pointer × Pointer

abbrev pub links_of : Node → Links
links_of n = (n.left, n.right, n.cond)

-- The nodes of both pools have the same part.
pub record SamePart {A : Type 0} (part : Node → A) (p q : NodePool) : Type 0 where
  pub parts : (j : ℕ) → part (node_at q j) ≡ part (node_at p j)
  pub size : length q.storage ≡ length p.storage

module _ {A : Type 0} {part : Node → A} where
  pub SamePart-refl : (p : NodePool) → SamePart part p p
  SamePart-refl p = record { parts = λ j. refl; size = refl }

  pub SamePart-trans :
      {p q r : NodePool} → SamePart part p q → SamePart part q r → SamePart part p r
  SamePart-trans a b = record { parts = λ j. b.parts j ∙ a.parts j; size = b.size ∙ a.size }

  pub write-SamePart :
      (i : ℕ) (n : Node) (p : NodePool)
      → part n ≡ part (node_at p i)
      → SamePart part p (record p { storage = set p.storage i n })
  write-SamePart i n p same = record {
    parts = λ j. set-keeps part p.storage i j n same;
    size = length-set p.storage i n;
  }

abbrev pub SameLinks : NodePool → NodePool → Type 0
SameLinks p q = SamePart links_of p q

pub SameLinks-IsAcyclic : {p q : NodePool} → SameLinks p q → IsAcyclic p → IsAcyclic q
SameLinks-IsAcyclic {p} {q} same ok = record {
  links = λ i.
      let below = ok.links i in
      let e = same.parts i in
      record {
        left = rw (ap (λ (l : Links). l.0) e) (below.left);
        right = rw (ap (λ (l : Links). l.1) e) (below.right);
        cond = rw (ap (λ (l : Links). l.2) e) (below.cond);
      };
  size = same.size ∙ ok.size;
}
