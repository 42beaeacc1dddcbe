-- ===== src/Mpt/PutFork.antt =====
-- pkg/core/mpt/trie.go: putIntoLeaf, and putIntoExtension where the paths part.
use epicchain_go.Common.{
  subst, ℕ, false, List, [], ◌∷◌, ◌++◌, ◌≡◌, ◌≢◌, refl, sym, ◌∙◌, some, All-append_left, arith,
}
use epicchain_go.Mpt.Node.{
  Node, leaf, branch, extension, last_child, put_child, no_children, is_empty, split_path,
}
use epicchain_go.Mpt.Get.{done}
use epicchain_go.Mpt.Put.{removed, Put, put_into_leaf, fork}
use epicchain_go.Mpt.View.{under, value_at, update, IsNibble, IsPath, IsHead, IsEnd, IsTrie}
use epicchain_go.Mpt.Paths.{Same, IsOther, under-append, under-Same, under-update}
use epicchain_go.Mpt.Branches.{
  sub_trie, sub_trie-filled, IsHead-filled, split_path-le, split_path-IsPath, sub_trie-IsTrie,
  put_two-IsTrie,
}
use epicchain_go.Mpt.Views.{put_into_leaf-view, update_leaf, fork-view, All-append_right}

module _ (sha : List ℕ → List ℕ) where
  -- A trie with the value at the path, and otherwise as the old one.
  pub record Written (n : Node) (path v : List ℕ) (res : Put) : Type 0 where
    pub node : Node
    pub is_done : res.1 ≡ done node
    pub trie : IsTrie sha node
    pub filled : is_empty node ≡ false
    pub head : IsHead n → IsHead node
    pub end : path ≡ [] → IsEnd n → IsEnd node
    pub view : Same (value_at node) (update path (some v) (value_at n))

  pub put_into_leaf-Written :
      (w path v : List ℕ) → IsPath path → Written (leaf w) path v (put_into_leaf w path v)
  unfolding put_into_leaf
  put_into_leaf-Written w [] v ip =
      unfold value_at update in
      record {
        node = leaf v;
        is_done = refl;
        trie = tt;
        filled = refl;
        head = λ h. tt;
        end = λ e h. tt;
        view = update_leaf w v;
      }
  put_into_leaf-Written w (x ∷ path) v ip =
      unfold value_at update in
      record {
        node =
            branch
              (put_child last_child (leaf w) (put_child x (sub_trie path (leaf v)) no_children));
        is_done = refl;
        trie =
            put_two-IsTrie sha last_child x (leaf w) (sub_trie path (leaf v))
              (λ e. ground (arith, ip.0)) (record { le = omega arith; trie = tt; end = λ e. tt })
              (record {
                le = omega (arith, ip.0);
                trie = sub_trie-IsTrie sha path (leaf v) ip.1 tt tt;
                end = λ e. absurd (ground (arith, ip.0));
              })
              refl (sub_trie-filled path (leaf v) refl);
        filled = refl;
        head = λ h. tt;
        end = λ e h. cc;
        view = put_into_leaf-view w x path v ip;
      }

  fork-IsTrie :
      (x : ℕ) (key_tail path_tail v : List ℕ) (next : Node)
      → IsNibble x
      → IsPath key_tail
      → IsPath path_tail
      → IsOther x path_tail
      → IsHead next
      → IsTrie sha next
      → IsTrie sha (
          branch (
            put_child
              (split_path path_tail).0
              (sub_trie (split_path path_tail).1 (leaf v))
              (put_child x (sub_trie key_tail next) no_children)))
  fork-IsTrie x key_tail path_tail v next ix ik ip other h t =
      put_two-IsTrie sha (split_path path_tail).0 x (sub_trie (split_path path_tail).1 (leaf v))
        (sub_trie key_tail next) (apart path_tail ip other)
        (record {
          le = split_path-le path_tail ip;
          trie =
              sub_trie-IsTrie sha (split_path path_tail).1 (leaf v) (split_path-IsPath path_tail ip)
                tt tt;
          end = at_end path_tail ip;
        })
        (record {
          le = omega (arith, ix);
          trie = sub_trie-IsTrie sha key_tail next ik h t;
          end = λ e. absurd (ground (arith, ix));
        })
        (sub_trie-filled (split_path path_tail).1 (leaf v) refl)
        (sub_trie-filled key_tail next (IsHead-filled next h))
    where
      apart : (p : List ℕ) → IsPath p → IsOther x p → (split_path p).0 ≢ x
      apart [] q o e = absurd (ground (arith, ix))
      apart (y ∷ p) q o e = o (sym e)

      at_end :
          (p : List ℕ)
          → IsPath p
          → (split_path p).0 ≡ last_child
          → IsEnd (sub_trie (split_path p).1 (leaf v))
      at_end [] q e = tt
      at_end (y ∷ p) q e = absurd (ground (arith, q.0))

  abbrev forked : ℕ → List ℕ → List ℕ → List ℕ → Node → Node
  forked x key_tail path_tail v next = branch (
      put_child (split_path path_tail).0 (sub_trie (split_path path_tail).1 (leaf v))
        (put_child x (sub_trie key_tail next) no_children))

  -- putIntoExtension where the key is no prefix of the path.
  pub fork-Written :
      (key path v shared : List ℕ) (x : ℕ) (key_tail path_tail : List ℕ) (next : Node)
      → IsTrie sha (extension key next)
      → IsPath path
      → IsOther x path_tail
      → key ≡ shared ++ (x ∷ key_tail)
      → path ≡ shared ++ path_tail
      → Written (extension key next) path v (
          let (refs, r) = fork shared (x ∷ key_tail) path_tail next v in
          (removed (extension key next) ∷ refs, r))
  unfolding update
  fork-Written key path v shared x key_tail path_tail next t ip other ek ep = wrapped shared ek ep
    where
      on_key : IsPath (shared ++ (x ∷ key_tail))
      on_key = subst IsPath ek t.0.0

      on_turn : IsPath (x ∷ key_tail)
      on_turn = All-append_right IsNibble shared (x ∷ key_tail) on_key

      on_tail : IsPath path_tail
      on_tail = All-append_right IsNibble shared path_tail (subst IsPath ep ip)

      b : Node
      b = forked x key_tail path_tail v next

      b-IsTrie : IsTrie sha b
      b-IsTrie =
          fork-IsTrie x key_tail path_tail v next on_turn.0 on_turn.1 on_tail other t.1.0 t.1.1

      b-view :
          (pref : List ℕ)
          → key ≡ pref ++ (x ∷ key_tail)
          → path ≡ pref ++ path_tail
          → Same (under pref (value_at b)) (update path (some v) (under key (value_at next)))
      b-view pref e1 e2 q iq =
          under-Same pref (value_at b)
            (update path_tail (some v) (under (x ∷ key_tail) (value_at next)))
            (fork-view x key_tail path_tail v next on_turn.0 on_tail other) q iq
          ∙ under-update pref path_tail (some v) (under (x ∷ key_tail) (value_at next)) q
          ∙ rw (e1, e2, under-append pref (x ∷ key_tail) (value_at next) q) refl

      wrapped :
          (pref : List ℕ)
          → key ≡ pref ++ (x ∷ key_tail)
          → path ≡ pref ++ path_tail
          → Written (extension key next) path v (
              let (refs, r) = fork pref (x ∷ key_tail) path_tail next v in
              (removed (extension key next) ∷ refs, r))
      wrapped [] e1 e2 = record {
        node = b;
        is_done = refl;
        trie = b-IsTrie;
        filled = refl;
        head = λ h. tt;
        end = λ e h. absurd h;
        view = unfold value_at under in b-view [] e1 e2;
      }
      wrapped (y ∷ pref) e1 e2 = record {
        node = extension (y ∷ pref) b;
        is_done = refl;
        trie = (
          (All-append_left IsNibble (y ∷ pref) (x ∷ key_tail) (subst IsPath e1 t.0.0), λ e. cc),
          (tt, b-IsTrie),
        );
        filled = refl;
        head = λ h. absurd h;
        end = λ e h. absurd h;
        view = unfold value_at in b-view (y ∷ pref) e1 e2;
      }
