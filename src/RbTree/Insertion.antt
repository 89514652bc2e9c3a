-- ===== src/RbTree/Insertion.antt =====
-- `pcinfo_rb_tree_insert` and `blkbuffer_rb_tree_insert` as insertions into an ordered list.
use x_os_tmp.Base.{
  ℕ, ◌+◌, ◌≤◌, ◌<◌, ◌≡◌, ◌≢◌, refl, sym, ap, subst, ◌∙◌, ◌==◌, Bool, List, [], ◌∷◌, length, arith,
  Bool-cases, inl, inr, set_at, set_at_self, set_at_ne, Run, ok, ==→eq, ==→ne,
}
use x_os_tmp.Base.{occurs, occurs-append}
use x_os_tmp.RbTree.{
  Color, red, black, Side, left, right, opp, Nodes, nil, set_color, rb_tree_rebalance,
  rebalance_from, rb_tree_init,
}
use x_os_tmp.RbTree.Shape.{
  Tree, leaf, bin, Frame, frame, plug, one, one_self, one_ne, one_cases, ne_of_one, occ, occ_above,
  occ-plug, Once,
}
use x_os_tmp.RbTree.Frame.{Same, Sub-frame, Hole-frame}
use x_os_tmp.RbTree.Relink.{put_self, put-opp, put_ne}
use x_os_tmp.RbTree.Balance.{
  inorder, IsRbAbove, Balanced, rebalanced, rebalanced-Balanced, inorder-rebalanced,
}
use x_os_tmp.RbTree.Rebalance.{At, Whole}
use x_os_tmp.RbTree.Loop.{rebalance_from-Whole}
use x_os_tmp.RbTree.Order.{Weak, Sorted, insert_by, insert_by-Sorted}
use x_os_tmp.RbTree.Keys.{pid_less-Weak, blk_less2-Weak}
use x_os_tmp.RbTree.Keyed.{
  insert_with, pid_less, blk_less2, pcinfo_rb_tree_insert, blkbuffer_rb_tree_insert,
}
use x_os_tmp.RbTree.Insert.{
  place, plug-place, inorder-grown, occ_above-place, length-place, place-IsRbAbove,
}
use x_os_tmp.RbTree.Link.{linked, Descent, descend}

-- A head with a red-black tree of nodes that are met once.
pub record IsTree (s : Nodes) (head : ℕ) (t : Tree) : Type 0 where
  pub whole : Whole s head t
  pub once : Once head t []
  pub balanced : Balanced t

-- A node that is not in the tree, with no children.
pub record IsNew (s : Nodes) (head : ℕ) (t : Tree) (n : ℕ) : Type 0 where
  pub absent : occ n t + one n head + one n nil ≡ 0
  pub bare : (e : Side) → s.child e n ≡ nil

occurs-inorder : (z : ℕ) (t : Tree) → occurs z (inorder t) ≡ occ z t
unfolding occurs
occurs-inorder z leaf = refl
occurs-inorder z (bin c l x r) =
    omega
      (arith, occurs-append z (inorder l) (x ∷ inorder r), occurs-inorder z l, occurs-inorder z r)

pub occ-inorder : (z : ℕ) (t t' : Tree) → inorder t ≡ inorder t' → occ z t ≡ occ z t'
occ-inorder z t t' h = sym (occurs-inorder z t) ∙ ap (occurs z) h ∙ occurs-inorder z t'

linked-At :
    (less : ℕ → ℕ → Bool) (n head : ℕ) (s : Nodes) (d : Side) (c : Color) (x : ℕ) (u : Tree)
    (k : List Frame)
    → At s head (frame d c x u ∷ k) x nil leaf
    → ((z : ℕ) → one z n + occ_above z (frame d c x u ∷ k) + one z head + one z nil ≤ 1)
    → ((e : Side) → s.child e n ≡ nil)
    → At
        (set_color n red (linked less n head s d x))
        head
        (frame d c x u ∷ k)
        x
        n
        (bin red leaf n leaf)
linked-At less n head s d c x u k h o b = record {
  sub = (
    refl,
    set_at_self s.color n red,
    set_at_self s.parent n x,
    put_ne d left x n s.child n n-ne-x ∙ b left,
    put_ne d right x n s.child n n-ne-x ∙ b right,
  );
  hole = (
    refl,
    put_self d x n s.child,
    set_at_ne s.color n red x (λ e. n-ne-x (sym e)) ∙ h.hole.2,
    rw (put-opp d x n s.child x)
        (Sub-frame s s' x (s.child (opp d) x) u (λ z m. apart z (omega arith)) h.hole.3),
    rw (set_at_ne s.parent n x x (λ e. n-ne-x (sym e)))
        (Hole-frame s s' head k (s.parent x) x (λ z m. apart z (omega arith)) h.hole.4),
  );
  nil_black =
      set_at_ne s.color n red nil (ne_of_one nil n (omega (arith, o nil, one_self nil)))
      ∙ h.nil_black;
}
  where
    s' : Nodes
    s' = set_color n red (linked less n head s d x)

    n-ne-x : n ≢ x
    n-ne-x = ne_of_one n x (omega (arith, o n, one_self n))

    apart : (z : ℕ) → 1 ≤ occ z u + occ_above z k + one z head → Same s s' z
    apart z m =
        let hn = ne_of_one z n (omega (arith, o z)) in
        let hx = ne_of_one z x (omega (arith, o z)) in
        record {
          color = set_at_ne s.color n red z hn;
          parent = set_at_ne s.parent n x z hn;
          child = λ e. put_ne d e x n s.child z hx;
        }

-- The tree after an insertion, with the run that leads to it.
pub record Inserted (less : ℕ → ℕ → Bool) (run : Run Nodes) (head n : ℕ) (t : Tree) : Type 0 where
  pub store : Nodes
  pub tree : Tree
  pub done : run ≡ ok store
  pub is_tree : IsTree store head tree
  pub in_order : inorder tree ≡ insert_by less n (inorder t)
  pub sorted : Sorted less (inorder tree)

insert_with-Inserted :
    (less : ℕ → ℕ → Bool) (fuel head n : ℕ) (s : Nodes) (t : Tree)
    → Weak less
    → IsTree s head t
    → 1 ≤ length (inorder t)
    → Sorted less (inorder t)
    → IsNew s head t n
    → length (inorder t) < fuel
    → Inserted less (insert_with fuel less head n s) head n t
unfolding insert_with rb_tree_rebalance
insert_with-Inserted less fuel head n s t w h m srt new hf = record {
  store = loop.0;
  tree = rebalanced k (bin red leaf n leaf);
  done = rw (D.run) loop.1;
  is_tree = record {
    whole = loop.2;
    once = λ z. omega (
      arith,
      o z,
      occ-inorder z (rebalanced k (bin red leaf n leaf)) (plug k (bin red leaf n leaf)) same,
      occ-plug z k (bin red leaf n leaf),
    );
    balanced = rebalanced-Balanced k 0 (bin red leaf n leaf) above (refl, refl, refl, refl) refl;
  };
  in_order = ordered;
  sorted = subst (Sorted less) (sym ordered) (insert_by-Sorted less w n (inorder t) srt);
}
  where
    k : List Frame
    k = place less n [] t

    D : Descent less n head s fuel [] (s.child left head) t
    D =
        descend less n head s t fuel [] head (s.child left head) (omega (arith, hf))
          (record { sub = h.whole.sub; hole = (refl, refl); nil_black = h.whole.nil_black }) h.once
          m

    above : IsRbAbove k 0
    above = place-IsRbAbove less n [] h.balanced.0 t tt h.balanced.1 (λ e. cc (e, h.balanced.2))

    o : (z : ℕ) → one z n + occ_above z k + one z head + one z nil ≤ 1
    o z = elim (Bool-cases (n == z)) [
      | inl e ↦ rw (occ_above-place less n z [] t) (
          omega (
            arith,
            subst (λ q. occ q t + one q head + one q nil ≡ 0) (==→eq n z e) new.absent,
            one_cases z n,
          ))
      | inr e ↦
          omega
            (arith, occ_above-place less n z [] t, h.once z, one_ne z n (λ q. ==→ne n z e (sym q)))
    ]

    same : inorder (rebalanced k (bin red leaf n leaf)) ≡ inorder (plug k (bin red leaf n leaf))
    same = inorder-rebalanced k (bin red leaf n leaf)

    ordered : inorder (rebalanced k (bin red leaf n leaf)) ≡ insert_by less n (inorder t)
    ordered = same ∙ ap inorder (plug-place less n [] t) ∙ inorder-grown less n w t srt

    start : At (set_color n red (linked less n head s D.d D.x)) head k D.x n (bin red leaf n leaf)
    start =
        subst
          (λ q.
            At (set_color n red (linked less n head s D.d D.x)) head q D.x n (bin red leaf n leaf))
          (sym D.frames)
          (linked-At less n head s D.d D.c D.x D.u D.rest D.free
            (λ z. subst (λ q. one z n + occ_above z q + one z head + one z nil ≤ 1) D.frames (o z))
            new.bare)

    loop :
        (s' : Nodes) × (rebalance_from fuel
            ((linked less n head s D.d D.x).child left head)
            n
            (set_color n red (linked less n head s D.d D.x))
          ≡ ok s')
        × Whole s' head (rebalanced k (bin red leaf n leaf))
    loop =
        rebalance_from-Whole k fuel ((linked less n head s D.d D.x).child left head)
          (set_color n red (linked less n head s D.d D.x)) head D.x n 0 (bin red leaf n leaf)
          (omega (arith, hf, length-place less n [] t)) refl start (λ z. omega (arith, o z))
          (omega (arith, one_self n)) (set_at_self s.parent n D.x) above

-- Given a red-black tree with a root, whose leaf nil is black, which the code does not see to, and
-- whose nodes stand in the order of their pids, a new node without children and fuel above the
-- number of nodes, pcinfo_rb_tree_insert ends with a red-black tree, with a black root and each
-- node met once, whose nodes, in order again, are those of an insertion of the node into the
-- ordered list.
pub pcinfo_rb_tree_insert-Inserted :
    (fuel : ℕ) (pid : ℕ → ℕ) (head n : ℕ) (s : Nodes) (t : Tree)
    → IsTree s head t
    → 1 ≤ length (inorder t)
    → Sorted (pid_less pid) (inorder t)
    → IsNew s head t n
    → length (inorder t) < fuel
    → Inserted (pid_less pid) (pcinfo_rb_tree_insert fuel pid head n s) head n t
unfolding pcinfo_rb_tree_insert
pcinfo_rb_tree_insert-Inserted fuel pid head n s t h m srt new hf =
    insert_with-Inserted (pid_less pid) fuel head n s t (pid_less-Weak pid) h m srt new hf

-- Given a red-black tree with a root, whose blocks stand in the order of their driver types and
-- numbers, a new node without children and fuel above the number of nodes,
-- blkbuffer_rb_tree_insert ends with a red-black tree whose nodes, in order again, are those of an
-- insertion of the node into the ordered list.
pub blkbuffer_rb_tree_insert-Inserted :
    (fuel : ℕ) (types numbers : ℕ → ℕ) (head n : ℕ) (s : Nodes) (t : Tree)
    → IsTree s head t
    → 1 ≤ length (inorder t)
    → Sorted (blk_less2 types numbers) (inorder t)
    → IsNew s head t n
    → length (inorder t) < fuel
    → Inserted
        (blk_less2 types numbers)
        (blkbuffer_rb_tree_insert fuel types numbers head n s)
        head
        n
        t
unfolding blkbuffer_rb_tree_insert
blkbuffer_rb_tree_insert-Inserted fuel types numbers head n s t h m srt new hf =
    insert_with-Inserted (blk_less2 types numbers) fuel head n s t (blk_less2-Weak types numbers) h
      m srt new hf

-- With a black nil, and a head and a root that differ from it and from each other, rb_tree_init
-- leaves a red-black tree of the root alone.
pub rb_tree_init-IsTree :
    (head root : ℕ) (s : Nodes)
    → head ≢ root
    → head ≢ nil
    → root ≢ nil
    → s.color nil ≡ black
    → IsTree (rb_tree_init head root s) head (bin black leaf root leaf)
unfolding rb_tree_init
rb_tree_init-IsTree head root s hr hn rn b = record {
  whole = record {
    sub = (
      set_at_ne (set_at (s.child left) head root) root nil head hr
          ∙ set_at_self (s.child left) head root,
      set_at_self (set_at s.color head black) root black,
      set_at_self (set_at s.parent head root) root head,
      set_at_self (set_at (s.child left) head root) root nil,
      set_at_self (set_at (s.child right) head root) root nil,
    );
    nil_black =
        set_at_ne (set_at s.color head black) root black nil (λ e. rn (sym e))
        ∙ set_at_ne s.color head black nil (λ e. hn (sym e))
        ∙ b;
  };
  once = λ z. omega (
    arith,
    apart z root head (λ e. hr (sym e)),
    apart z root nil rn,
    apart z head nil hn,
    one_cases z root,
    one_cases z head,
    one_cases z nil,
  );
  balanced = (1, (refl, refl), refl);
}
  where
    apart : (z a b : ℕ) → a ≢ b → one z a + one z b ≤ 1
    apart z a b h = elim (Bool-cases (z == a)) [
      | inl e ↦ omega (arith, one_cases z a, one_ne z b (λ q. h (sym (==→eq z a e) ∙ q)))
      | inr e ↦ omega (arith, one_cases z b, one_ne z a (==→ne z a e))
    ]
