-- ===== src/Mpt/PutLaw.antt =====
-- pkg/core/mpt/trie.go: what putIntoNode makes of a trie.
use epicchain_go.Common.{
  subst, ℕ, false, List, [], ◌∷◌, ◌++◌, ◌==◌, ◌≡◌, refl, ap, sym, ◌∙◌, inl, inr, some, arith,
  Bool-cases, Option-cases,
}
use epicchain_go.Mpt.Node.{
  Node, leaf, branch, extension, hash, lost, empty, last_child, put_child, is_empty, split_path,
}
use epicchain_go.Mpt.Get.{strip_prefix, done, failed, panicked}
use epicchain_go.Mpt.Put.{Put, replaced, put_into_node}
use epicchain_go.Mpt.View.{value_at, update, IsNibble, IsPath, IsEnd, HasTwo, IsTrie}
use epicchain_go.Mpt.Paths.{strip_prefix-some, strip_prefix-Parts, under-Same, under-update}
use epicchain_go.Mpt.Branches.{
  sub_trie, value_at-sub_trie, under-leaf, sub_trie-filled, split_path-le, split_path-IsPath,
  sub_trie-IsTrie, branch-IsTrie, put_child-AreChildren, branch-AreChildren,
}
use epicchain_go.Mpt.Views.{put_child-update, All-append_right}
use epicchain_go.Mpt.PutFork.{Written, fork-Written, put_into_leaf-Written}

module _ (sha : List ℕ → List ℕ) where
  done_eq : {A : Type 0} {a b : A} → done a ≡ done b → a ≡ b
  done_eq e = cc

  replaced-done :
      (old : Node) (wrap : Node → Node) (res : Put) (n : Node)
      → res.1 ≡ done n
      → (replaced old wrap res).1 ≡ done (wrap n)
  replaced-done old wrap (refs, done m) n e = ap (λ k. done (wrap k)) (done_eq e)
  replaced-done old wrap (refs, failed x) n e = cc
  replaced-done old wrap (refs, panicked) n e = cc

  HasTwo-put_child :
      (i : ℕ) (r : Node) (cs : ℕ → Node)
      → is_empty r ≡ false
      → HasTwo cs
      → HasTwo (put_child i r cs)
  HasTwo-put_child i r cs e two = record {
    first = two.first;
    second = two.second;
    apart = two.apart;
    filled1 = elim (Bool-cases (i == two.first)) [
      | inl same ↦ rw same e
      | inr differ ↦ rw differ two.filled1
    ];
    filled2 = elim (Bool-cases (i == two.second)) [
      | inl same ↦ rw same e
      | inr differ ↦ rw differ two.filled2
    ];
  }

  pub split_path-last :
      (path : List ℕ) → IsPath path → (split_path path).0 ≡ last_child → (split_path path).1 ≡ []
  split_path-last [] ip e = refl
  split_path-last (x ∷ path) ip e = absurd (ground (arith, ip.0))

  branch-Written :
      (cs : ℕ → Node) (path v : List ℕ) (res : Put)
      → IsTrie sha (branch cs)
      → IsPath path
      → Written sha (cs (split_path path).0) (split_path path).1 v res
      → Written sha
          (branch cs)
          path
          v
          (replaced (branch cs) (λ r. branch (put_child (split_path path).0 r cs)) res)
  branch-Written cs path v res t ip w =
      let i = (split_path path).0 in
      record {
        node = branch (put_child i w.node cs);
        is_done = replaced-done (branch cs) (λ r. branch (put_child i r cs)) res w.node w.is_done;
        trie =
            branch-IsTrie sha (put_child i w.node cs)
              (put_child-AreChildren sha i w.node cs
                (record {
                  le = split_path-le path ip;
                  trie = w.trie;
                  end = λ e.
                      w.end (split_path-last path ip e) (subst (λ j. IsEnd (cs j)) (sym e) t.0.end);
                })
                (branch-AreChildren sha cs t))
              (HasTwo-put_child i w.node cs w.filled t.0.two);
        filled = refl;
        head = λ h. tt;
        end = λ e h. absurd h;
        view = put_child-update cs path (some v) w.node ip w.view;
      }

  extension-Written :
      (key rest path v : List ℕ) (next : Node) (res : Put)
      → IsTrie sha (extension key next)
      → path ≡ key ++ rest
      → Written sha next rest v res
      → Written sha (extension key next) path v (replaced (extension key next) (extension key) res)
  unfolding value_at update
  extension-Written key rest path v next res t e w = record {
    node = extension key w.node;
    is_done = replaced-done (extension key next) (extension key) res w.node w.is_done;
    trie = (t.0, (w.head t.1.0, w.trie));
    filled = refl;
    head = λ h. absurd h;
    end = λ x h. absurd h;
    view = λ q iq.
        under-Same key (value_at w.node) (update rest (some v) (value_at next)) w.view q iq
        ∙ under-update key rest (some v) (value_at next) q
        ∙ rw e refl;
  }

  hash-Written :
      (h : List ℕ) (n : Node) (path v : List ℕ) (res : Put)
      → Written sha n path v res
      → Written sha (hash h n) path v res
  unfolding value_at update
  hash-Written h n path v res w = record {
    node = w.node;
    is_done = w.is_done;
    trie = w.trie;
    filled = w.filled;
    head = w.head;
    end = w.end;
    view = w.view;
  }

  -- On a trie whose nodes are all in the store putIntoNode succeeds and makes a trie that has the value at
  -- the path and at every other path what the old one has.
  pub put_into_node-Written :
      (n : Node) (path v : List ℕ)
      → IsTrie sha n
      → IsPath path
      → Written sha n path v (put_into_node n path v)
  unfolding put_into_node
  put_into_node-Written (leaf w) path v t ip = put_into_leaf-Written sha w path v ip
  put_into_node-Written (branch cs) path v t ip =
      branch-Written cs path v (put_into_node (cs (split_path path).0) (split_path path).1 v) t ip (
        put_into_node-Written (cs (split_path path).0) (split_path path).1 v
          (t.1 (split_path path).0) (split_path-IsPath path ip))
  put_into_node-Written (extension key next) path v t ip =
      elim (Option-cases (strip_prefix key path)) [
        | inl parts ↦
            let p = strip_prefix-Parts key path parts in
            rw (parts, p.key_drop, p.path_drop, p.lcp_eq)
              (fork-Written sha key path v p.shared p.turn p.key_tail p.path_tail next t ip p.other
                p.key_eq p.path_eq)
        | inr (rest, e) ↦
            let split = strip_prefix-some key path rest e in
            rw e (
              extension-Written key rest path v next (put_into_node next rest v) t split (
                put_into_node-Written next rest v t.1.1
                  (All-append_right IsNibble key rest (subst IsPath split ip))))
      ]
  put_into_node-Written (hash h n) path v t ip =
      hash-Written h n path v (put_into_node n path v) (put_into_node-Written n path v t.1 ip)
  put_into_node-Written (lost h) path v t ip = absurd t
  put_into_node-Written empty path v t ip = record {
    node = sub_trie path (leaf v);
    is_done = refl;
    trie = sub_trie-IsTrie sha path (leaf v) ip tt tt;
    filled = sub_trie-filled path (leaf v) refl;
    head = λ h. absurd h;
    end = λ e h. rw e tt;
    view = λ q iq. value_at-sub_trie path (leaf v) q ∙ under-leaf path v q;
  }
