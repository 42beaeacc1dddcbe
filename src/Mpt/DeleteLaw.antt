-- ===== src/Mpt/DeleteLaw.antt =====
-- pkg/core/mpt/trie.go: what deleteFromNode makes of a trie.
use epicchain_go.Common.{
  ltb→lt, ltb-false→le, ℕ, ◌≤◌, true, false, List, [], ◌∷◌, ◌++◌, ltb, ◌==◌, ◌≡◌, refl, ap, sym,
  subst, ◌∙◌, inl, inr, none, Bool-cases, Option-cases, ==_iff,
}
use epicchain_go.Mpt.Node.{
  Node, leaf, branch, extension, hash, lost, empty, last_child, put_child, is_empty, split_path,
}
use epicchain_go.Mpt.Get.{strip_prefix}
use epicchain_go.Mpt.Put.{removed}
use epicchain_go.Mpt.Delete.{
  becomes, stuck, Delete, shrink, join_extension, delete_from_branch, extension_deleted,
  deleted_in_store, delete_from_node,
}
use epicchain_go.Mpt.View.{under, value_at, update, IsNibble, IsPath, IsEnd, IsTrie}
use epicchain_go.Mpt.Paths.{strip_prefix-some, under-Same, under-update}
use epicchain_go.Mpt.Branches.{
  put_child-AreChildren, branch-AreChildren, ==-other, split_path-le, split_path-IsPath,
}
use epicchain_go.Mpt.Views.{put_child-update, All-append_right}
use epicchain_go.Mpt.PutLaw.{split_path-last}
use epicchain_go.Mpt.Shrink.{IsRest, Holds, shrink-Holds, Holds-trans}
use epicchain_go.Mpt.Joined.{
  Holds-answer, extension_none, update-none, update_empty, join_extension-Holds,
}

module _ (sha : List ℕ → List ℕ) where
  -- The trie without the path.
  pub record Removed (n : Node) (path : List ℕ) (res : Delete) : Type 0 where
    pub holds : Holds sha (update path none (value_at n)) res
    pub end : path ≡ [] → IsEnd n → IsEnd holds.node

  becomes_eq : {a b : Node} → becomes a ≡ becomes b → a ≡ b
  becomes_eq e = cc

  other_filled :
      (i : ℕ) (r : Node) (cs : ℕ → Node)
      → IsTrie sha (branch cs)
      → (k : ℕ) × (k ≤ last_child) × (is_empty (put_child i r cs k) ≡ false)
  other_filled i r cs t =
      let two = t.0.two in
      elim (Bool-cases (i == two.first)) [
        | inl same ↦ (
          two.second,
          inside two.second two.filled2,
          rw (==-other i two.second (λ e. two.apart (sym ((==_iff i two.first).0 same) ∙ e)))
              two.filled2,
        )
        | inr differ ↦ (two.first, inside two.first two.filled1, rw differ two.filled1)
      ]
    where
      inside : (k : ℕ) → is_empty (cs k) ≡ false → k ≤ last_child
      inside k filled = elim (Bool-cases (ltb last_child k)) [
        | inl out ↦
            let gone : is_empty (cs k) ≡ true =
              ap is_empty (t.0.beyond k (ltb→lt last_child k out)) in
            cc
        | inr within ↦ ltb-false→le last_child k within
      ]

  branch-Holds :
      (cs : ℕ → Node) (path : List ℕ) (res : Delete)
      → IsTrie sha (branch cs)
      → IsPath path
      → Removed (cs (split_path path).0) (split_path path).1 res
      → Holds sha
          (update path none (value_at (branch cs)))
          (delete_from_branch cs (split_path path).0 res)
  branch-Holds cs path (refs, stuck r) t ip d = cc d.holds.is_done
  branch-Holds cs path (refs, becomes r) t ip d =
      let i = (split_path path).0 in
      let n = d.holds.node in
      let (k, le, filled) = other_filled i n cs t in
      rw (becomes_eq d.holds.is_done) (
        Holds-answer sha (update path none (value_at (branch cs))) (shrink (put_child i n cs))
          (
            refs ++ (removed (branch cs) ∷ (shrink (put_child i n cs)).0),
            (shrink (put_child i n cs)).1,
          )
          refl
          (Holds-trans sha (value_at (branch (put_child i n cs)))
            (update path none (value_at (branch cs))) (shrink (put_child i n cs))
            (put_child-update cs path none n ip d.holds.same)
            (shrink-Holds sha (put_child i n cs) k le filled (
              put_child-AreChildren sha i n cs
                (record {
                  le = split_path-le path ip;
                  trie = d.holds.trie;
                  end = λ e.
                      d.end (split_path-last sha path ip e)
                        (subst (λ j. IsEnd (cs j)) (sym e) t.0.end);
                })
                (branch-AreChildren sha cs t)))))

  below_extension-Holds :
      (key rest path : List ℕ) (next : Node) (res : Delete)
      → IsTrie sha (extension key next)
      → path ≡ key ++ rest
      → Removed next rest res
      → Holds sha
          (update path none (value_at (extension key next)))
          (extension_deleted key next res)
  unfolding value_at update
  below_extension-Holds key rest path next (refs, stuck r) t e d = cc d.holds.is_done
  below_extension-Holds key rest path next (refs, becomes r) t e d =
      let n = d.holds.node in
      rw (becomes_eq d.holds.is_done) (
        Holds-answer sha (update path none (value_at (extension key next))) (join_extension key n)
          (
            refs ++ (removed (extension key next) ∷ (join_extension key n).0),
            (join_extension key n).1,
          )
          refl
          (Holds-trans sha (under key (value_at n))
            (update path none (value_at (extension key next))) (join_extension key n)
            (λ q iq.
              under-Same key (value_at n) (update rest none (value_at next)) d.holds.same q iq
              ∙ under-update key rest none (value_at next) q
              ∙ rw e refl)
            (join_extension-Holds sha key n t.0 d.holds.rest d.holds.trie)))

  -- A node that has nothing at the path.
  kept-Removed :
      (n : Node) (path : List ℕ)
      → IsTrie sha n
      → IsRest n
      → value_at n path ≡ none
      → Removed n path ([], becomes n)
  kept-Removed n path t s e = record {
    holds = record {
      node = n;
      is_done = refl;
      trie = t;
      rest = s;
      same = λ q iq. update-none path (value_at n) e q;
    };
    end = λ x h. h;
  }

  hash-Removed :
      (h : List ℕ) (n : Node) (path : List ℕ) (res : Delete)
      → Removed n path res
      → Removed (hash h n) path (deleted_in_store h n res)
  unfolding value_at
  hash-Removed h n path (refs, stuck r) d = cc d.holds.is_done
  hash-Removed h n path (refs, becomes r) d = record {
    holds = record {
      node = d.holds.node;
      is_done = d.holds.is_done;
      trie = d.holds.trie;
      rest = d.holds.rest;
      same = d.holds.same;
    };
    end = d.end;
  }

  -- On a trie whose nodes are all in the store deleteFromNode succeeds and makes a trie that has no value
  -- at the path and at every other path what the old one has.
  pub delete_from_node-Removed :
      (n : Node) (path : List ℕ)
      → IsTrie sha n
      → IsPath path
      → Removed n path (delete_from_node n path)
  unfolding delete_from_node
  delete_from_node-Removed (leaf w) [] t ip = record {
    holds = record { node = empty; is_done = refl; trie = tt; rest = tt; same = update_empty w };
    end = λ e h. tt;
  }
  delete_from_node-Removed (leaf w) (x ∷ path) t ip =
      unfold value_at in kept-Removed (leaf w) (x ∷ path) tt tt refl
  delete_from_node-Removed (branch cs) path t ip = record {
    holds =
        branch-Holds cs path (delete_from_node (cs (split_path path).0) (split_path path).1) t ip (
          delete_from_node-Removed (cs (split_path path).0) (split_path path).1
            (t.1 (split_path path).0) (split_path-IsPath path ip));
    end = λ e h. absurd h;
  }
  delete_from_node-Removed (extension key next) path t ip =
      elim (Option-cases (strip_prefix key path)) [
        | inl parts ↦
            rw parts
              (kept-Removed (extension key next) path t tt (extension_none key next path parts))
        | inr (rest, e) ↦
            let split = strip_prefix-some key path rest e in
            rw e (record {
              holds =
                  below_extension-Holds key rest path next (delete_from_node next rest) t split (
                    delete_from_node-Removed next rest t.1.1
                      (All-append_right IsNibble key rest (subst IsPath split ip)));
              end = λ x h. absurd h;
            })
      ]
  delete_from_node-Removed (hash h n) path t ip =
      hash-Removed h n path (delete_from_node n path) (delete_from_node-Removed n path t.1 ip)
  delete_from_node-Removed (lost h) path t ip = absurd t
  delete_from_node-Removed empty path t ip = unfold value_at in kept-Removed empty path tt tt refl
