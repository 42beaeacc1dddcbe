-- ===== src/Mpt/CollapseLaw.antt =====
-- pkg/core/mpt/trie.go: what Collapse keeps of a trie.
use epicchain_go.Common.{
  ℕ, zero, suc, List, [], ◌∷◌, ◌≡◌, refl, ap, sym, ◌∙◌, false, Option, none, some,
}
use epicchain_go.Mpt.Node.{
  Node, leaf, branch, extension, hash, lost, empty, children_count, last_child, split_path,
  is_empty, as_child, hash_of,
}
use epicchain_go.Mpt.Delete.{state_root}
use epicchain_go.Mpt.View.{value_at, IsStored, IsTrie}
use epicchain_go.Mpt.Branches.{value_at-branch, split_path-IsPath, branch-IsTrie}
use epicchain_go.Mpt.Shrink.{is_empty-true}
use epicchain_go.Mpt.Canonical.{join_below-same}
use epicchain_go.Mpt.GetLaw.{Stands, leaf-Stands, extension-Stands}
use epicchain_go.Mpt.Keys.{IsBytes, to_nibbles-IsPath}
use epicchain_go.Mpt.Contents.{contents}
use epicchain_go.Mpt.Get.{to_nibbles}
use epicchain_go.Mpt.Refcount.{Refcounts}
use epicchain_go.Mpt.Collapse.{hash_node, new_hash_node, hashed, collapse_node, collapse}

module _ (sha : List ℕ → List ℕ) where
  -- All children replaced by ones that stand for them.
  children-Stands :
      (cs ds : ℕ → Node)
      → IsTrie sha (branch cs)
      → ((i : ℕ) → Stands sha (cs i) (ds i))
      → Stands sha (branch cs) (branch ds)
  unfolding hash_of
  children-Stands cs ds t s = record {
    trie =
        branch-IsTrie sha ds
          (record {
            end = (s last_child).end t.0.end;
            beyond = λ i lt. is_empty-true (ds i) ((s i).empty_eq ∙ ap is_empty (t.0.beyond i lt));
            tries = λ i. (s i).trie;
          })
          (record {
            first = t.0.two.first;
            second = t.0.two.second;
            apart = t.0.two.apart;
            filled1 = (s t.0.two.first).empty_eq ∙ t.0.two.filled1;
            filled2 = (s t.0.two.second).empty_eq ∙ t.0.two.filled2;
          });
    hash_eq =
        ap (λ x. sha (0 ∷ x))
          (join_below-same children_count (λ j. as_child (is_empty (ds j)) (hash_of sha (ds j)))
            (λ j. as_child (is_empty (cs j)) (hash_of sha (cs j)))
            (λ j. rw ((s j).empty_eq, (s j).hash_eq) refl));
    empty_eq = refl;
    head = λ h. h;
    end = λ h. h;
    same = λ q iq.
        value_at-branch ds q
        ∙ (s (split_path q).0).same (split_path q).1 (split_path-IsPath q iq)
        ∙ sym (value_at-branch cs q);
  }

  -- A node under its hash.
  under_hash :
      (n m : Node)
      → IsStored m
      → is_empty n ≡ false
      → Stands sha n m
      → Stands sha n (hash (hash_of sha n) m)
  unfolding hash_of value_at
  under_hash n m stored filled s = record {
    trie = ((stored, sym s.hash_eq), s.trie);
    hash_eq = refl;
    empty_eq = sym filled;
    head = s.head;
    end = s.end;
    same = s.same;
  }

  same-Stands : (n : Node) → IsTrie sha n → Stands sha n n
  same-Stands n t = record {
    trie = t;
    hash_eq = refl;
    empty_eq = refl;
    head = λ h. h;
    end = λ h. h;
    same = λ q iq. refl;
  }

-- A node that is no more than its hash.
abbrev pub IsHash : Node → Type 0
IsHash (leaf v) = ⊥
IsHash (branch cs) = ⊥
IsHash (extension k n) = ⊥
IsHash (hash h n) = Unit
IsHash (lost h) = Unit
IsHash empty = Unit

-- At the depth there are such nodes only.
abbrev pub IsCollapsed : ℕ → Node → Type 0
IsCollapsed zero n = IsHash n
IsCollapsed (suc depth) (leaf v) = Unit
IsCollapsed (suc depth) (branch cs) = (i : ℕ) → IsCollapsed depth (cs i)
IsCollapsed (suc depth) (extension k n) = IsCollapsed depth n
IsCollapsed (suc depth) (hash h n) = Unit
IsCollapsed (suc depth) (lost h) = Unit
IsCollapsed (suc depth) empty = Unit

module _ (sha : List ℕ → List ℕ) (store : List ℕ → Option Node) where
  -- Flush has been called: the store has every node in memory, its children as their hashes.
  abbrev pub IsFlushed : Node → Type 0
  IsFlushed (leaf v) = store (hash_of sha (leaf v)) ≡ some (leaf v)
  IsFlushed (branch cs) =
      (store (hash_of sha (branch cs)) ≡ some (branch (λ i. hashed sha store (cs i))))
      × ((i : ℕ) → IsFlushed (cs i))
  IsFlushed (extension key next) =
      (store (hash_of sha (extension key next)) ≡ some (extension key (hashed sha store next)))
      × IsFlushed next
  IsFlushed (hash h n) = Unit
  IsFlushed (lost h) = Unit
  IsFlushed empty = Unit

  stored_under :
      (n m : Node)
      → store (hash_of sha n) ≡ some m
      → IsStored m
      → is_empty n ≡ false
      → Stands sha n m
      → Stands sha n (new_hash_node sha store n)
  unfolding new_hash_node
  stored_under n m at stored filled s = rw at (under_hash sha n m stored filled s)

  hashed-Stands : (n : Node) → IsTrie sha n → IsFlushed n → Stands sha n (hashed sha store n)
  hashed-Stands (leaf v) t f = stored_under (leaf v) (leaf v) f tt refl (leaf-Stands sha v)
  hashed-Stands (branch cs) t f =
      stored_under (branch cs) (branch (λ i. hashed sha store (cs i))) f.0 tt refl (
        children-Stands sha cs (λ i. hashed sha store (cs i)) t
          (λ i. hashed-Stands (cs i) (t.1 i) (f.1 i)))
  hashed-Stands (extension key next) t f =
      stored_under (extension key next) (extension key (hashed sha store next)) f.0 tt refl
        (extension-Stands sha key next (hashed sha store next) t (hashed-Stands next t.1.1 f.1))
  hashed-Stands (hash h n) t f = same-Stands sha (hash h n) t
  hashed-Stands (lost h) t f = absurd t
  hashed-Stands empty t f = same-Stands sha empty t

  collapse_node-Stands :
      (depth : ℕ) (n : Node)
      → IsTrie sha n
      → IsFlushed n
      → Stands sha n (collapse_node sha store depth n)
  unfolding collapse_node
  collapse_node-Stands zero n t f = hashed-Stands n t f
  collapse_node-Stands (suc depth) (leaf v) t f = leaf-Stands sha v
  collapse_node-Stands (suc depth) (branch cs) t f =
      children-Stands sha cs (λ i. collapse_node sha store depth (cs i)) t
        (λ i. collapse_node-Stands depth (cs i) (t.1 i) (f.1 i))
  collapse_node-Stands (suc depth) (extension key next) t f =
      extension-Stands sha key next (collapse_node sha store depth next) t
        (collapse_node-Stands depth next t.1.1 f.1)
  collapse_node-Stands (suc depth) (hash h n) t f = same-Stands sha (hash h n) t
  collapse_node-Stands (suc depth) (lost h) t f = absurd t
  collapse_node-Stands (suc depth) empty t f = same-Stands sha empty t

  IsHash-hash_node : (h : List ℕ) (o : Option Node) → IsHash (hash_node h o)
  IsHash-hash_node h none = tt
  IsHash-hash_node h (some n) = tt

  IsHash-hashed : (n : Node) → IsHash (hashed sha store n)
  unfolding new_hash_node
  IsHash-hashed (leaf v) = IsHash-hash_node _ _
  IsHash-hashed (branch cs) = IsHash-hash_node _ _
  IsHash-hashed (extension key next) = IsHash-hash_node _ _
  IsHash-hashed (hash h n) = tt
  IsHash-hashed (lost h) = tt
  IsHash-hashed empty = tt

  collapse_node-IsCollapsed :
      (depth : ℕ) (n : Node) → IsCollapsed depth (collapse_node sha store depth n)
  unfolding collapse_node
  collapse_node-IsCollapsed zero n = IsHash-hashed n
  collapse_node-IsCollapsed (suc depth) (leaf v) = tt
  collapse_node-IsCollapsed (suc depth) (branch cs) = λ i. collapse_node-IsCollapsed depth (cs i)
  collapse_node-IsCollapsed (suc depth) (extension key next) = collapse_node-IsCollapsed depth next
  collapse_node-IsCollapsed (suc depth) (hash h n) = tt
  collapse_node-IsCollapsed (suc depth) (lost h) = tt
  collapse_node-IsCollapsed (suc depth) empty = tt

  -- Collapse of a trie, every node of which that is in memory has been flushed to the store, leaves hash
  -- nodes or nothing at the depth that is given, and a trie with the same state root and the same value of
  -- every key, and no reference counts.
  pub collapse_lem :
      (depth : ℕ) (root : Node) (m : Refcounts)
      → IsTrie sha root
      → IsFlushed root
      → IsCollapsed depth (collapse sha store depth root m).0
        × IsTrie sha (collapse sha store depth root m).0
        × (state_root sha (collapse sha store depth root m).0 ≡ state_root sha root)
        × ((k : List ℕ)
            → IsBytes k
            → contents (collapse sha store depth root m).0 k ≡ contents root k)
        × ((collapse sha store depth root m).1 ≡ [])
  unfolding state_root
  collapse_lem depth root m t f =
      let s = collapse_node-Stands depth root t f in
      (
        collapse_node-IsCollapsed depth root,
        s.trie,
        rw (s.empty_eq, s.hash_eq) refl,
        λ k bk. s.same (to_nibbles k) (to_nibbles-IsPath k bk),
        refl,
      )
