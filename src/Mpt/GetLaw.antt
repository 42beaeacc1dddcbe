-- ===== src/Mpt/GetLaw.antt =====
-- pkg/core/mpt/trie.go: what getWithPath finds in a trie.
use epicchain_go.Common.{
  ◌&&◌, ℕ, ◌≤◌, Bool, true, false, List, [], ◌∷◌, ◌++◌, length, ◌==◌, ◌≡◌, refl, ap, sym, subst,
  ◌∙◌, inl, inr, none, some, arith, Bool-cases, Option-cases, ==_iff,
}
use epicchain_go.Mpt.Node.{
  Node, leaf, branch, extension, hash, lost, empty, children_count, last_child, put_child, is_empty,
  split_path, as_child, hash_of,
}
use epicchain_go.Mpt.Get.{strip_prefix, Found, found_below, get_with_path}
use epicchain_go.Mpt.View.{under, value_at, IsNibble, IsPath, IsHead, IsEnd, IsTrie}
use epicchain_go.Mpt.Paths.{Same, strip_prefix-some, under-Same}
use epicchain_go.Mpt.Branches.{
  value_at-branch, split_path-le, split_path-IsPath, IsStored-filled, put_child-AreChildren,
  branch-AreChildren, branch-IsTrie,
}
use epicchain_go.Mpt.Views.{put_child_hit, put_child_other, All-append_right}
use epicchain_go.Mpt.Joined.{extension_none}
use epicchain_go.Mpt.Fans.{under-at}
use epicchain_go.Mpt.Canonical.{join_below-same}

&&-false : (b : Bool) → (b && false) ≡ false
&&-false true = refl
&&-false false = refl

module _ (sha : List ℕ → List ℕ) where
  -- A node that stands for another: with the same hash and the same values.
  pub record Stands (n r : Node) : Type 0 where
    pub trie : IsTrie sha r
    pub hash_eq : hash_of sha r ≡ hash_of sha n
    pub empty_eq : is_empty r ≡ is_empty n
    pub head : IsHead n → IsHead r
    pub end : IsEnd n → IsEnd r
    pub same : Same (value_at r) (value_at n)

  -- What a strict getWithPath answers: a value of the view, or no value.
  pub data Got (n : Node) (path : List ℕ) : Found → Type 0 where
    missing : value_at n path ≡ none → Got n path none
    found :
        (r : Node) (v prefix : List ℕ)
        → value_at n path ≡ some v
        → Stands n r
        → Got n path (some (r, (leaf v, prefix)))

  -- A child replaced by one that stands for it.
  put_child-Stands :
      (cs : ℕ → Node) (i : ℕ) (r : Node)
      → i ≤ last_child
      → IsTrie sha (branch cs)
      → Stands (cs i) r
      → Stands (branch cs) (branch (put_child i r cs))
  unfolding hash_of
  put_child-Stands cs i r le t s = record {
    trie =
        branch-IsTrie sha (put_child i r cs)
          (put_child-AreChildren sha i r cs
            (record {
              le = le;
              trie = s.trie;
              end = λ e. s.end (subst (λ j. IsEnd (cs j)) (sym e) t.0.end);
            })
            (branch-AreChildren sha cs t))
          (record {
            first = t.0.two.first;
            second = t.0.two.second;
            apart = t.0.two.apart;
            filled1 = as_empty t.0.two.first ∙ t.0.two.filled1;
            filled2 = as_empty t.0.two.second ∙ t.0.two.filled2;
          });
    hash_eq =
        ap (λ x. sha (0 ∷ x))
          (join_below-same children_count
            (λ j. as_child (is_empty (put_child i r cs j)) (hash_of sha (put_child i r cs j)))
            (λ j. as_child (is_empty (cs j)) (hash_of sha (cs j)))
            (λ j. rw (as_empty j, as_hash j) refl));
    empty_eq = refl;
    head = λ h. h;
    end = λ h. h;
    same = λ q iq.
        value_at-branch (put_child i r cs) q
        ∙ as_value (split_path q).0 (split_path q).1 (split_path-IsPath q iq)
        ∙ sym (value_at-branch cs q);
  }
    where
      as_empty : (j : ℕ) → is_empty (put_child i r cs j) ≡ is_empty (cs j)
      as_empty j = elim (Bool-cases (i == j)) [
        | inl same ↦ rw (same, ← (==_iff i j).0 same) s.empty_eq
        | inr differ ↦ rw differ refl
      ]

      as_hash : (j : ℕ) → hash_of sha (put_child i r cs j) ≡ hash_of sha (cs j)
      as_hash j = elim (Bool-cases (i == j)) [
        | inl same ↦
            ap (hash_of sha) (put_child_hit i j r cs same)
            ∙ s.hash_eq
            ∙ ap (λ k. hash_of sha (cs k)) ((==_iff i j).0 same)
        | inr differ ↦ ap (hash_of sha) (put_child_other i j r cs (λ e. ground (arith, differ)))
      ]

      as_value :
          (j : ℕ) (q : List ℕ) → IsPath q → value_at (put_child i r cs j) q ≡ value_at (cs j) q
      as_value j q iq = elim (Bool-cases (i == j)) [
        | inl same ↦
            ap (λ n. value_at n q) (put_child_hit i j r cs same)
            ∙ s.same q iq
            ∙ ap (λ k. value_at (cs k) q) ((==_iff i j).0 same)
        | inr differ ↦
            ap (λ n. value_at n q) (put_child_other i j r cs (λ e. ground (arith, differ)))
      ]

  pub extension-Stands :
      (key : List ℕ) (next r : Node)
      → IsTrie sha (extension key next)
      → Stands next r
      → Stands (extension key next) (extension key r)
  unfolding hash_of value_at
  extension-Stands key next r t s = record {
    trie = (t.0, (s.head t.1.0, s.trie));
    hash_eq = rw (s.empty_eq, s.hash_eq) refl;
    empty_eq = refl;
    head = λ h. h;
    end = λ h. h;
    same = under-Same key (value_at r) (value_at next) s.same;
  }

  hash-Stands : (h : List ℕ) (n r : Node) → IsTrie sha (hash h n) → Stands n r → Stands (hash h n) r
  unfolding hash_of value_at
  hash-Stands h n r t s = record {
    trie = s.trie;
    hash_eq = s.hash_eq ∙ sym t.0.1;
    empty_eq = s.empty_eq ∙ IsStored-filled n t.0.0;
    head = s.head;
    end = s.end;
    same = s.same;
  }

  pub leaf-Stands : (v : List ℕ) → Stands (leaf v) (leaf v)
  leaf-Stands v = record {
    trie = tt;
    hash_eq = refl;
    empty_eq = refl;
    head = λ h. h;
    end = λ h. h;
    same = λ q iq. refl;
  }

  -- The answer for a child is one for its branch.
  branch-Got :
      (cs : ℕ → Node) (path : List ℕ) (res : Found)
      → IsTrie sha (branch cs)
      → IsPath path
      → Got (cs (split_path path).0) (split_path path).1 res
      → Got (branch cs) path (
          found_below
            (λ r. branch (put_child (split_path path).0 r cs))
            ((split_path path).0 ∷ [])
            res)
  branch-Got cs path none t ip (missing e) = missing (value_at-branch cs path ∙ e)
  branch-Got cs path (some _) t ip (found r v prefix e s) =
      found (branch (put_child (split_path path).0 r cs)) v ((split_path path).0 ∷ prefix)
        (value_at-branch cs path ∙ e)
        (put_child-Stands cs (split_path path).0 r (split_path-le path ip) t s)

  extension-Got :
      (key rest path : List ℕ) (next : Node) (res : Found)
      → IsTrie sha (extension key next)
      → path ≡ key ++ rest
      → Got next rest res
      → Got (extension key next) path (found_below (extension key) key res)
  unfolding value_at
  extension-Got key rest path next none t split (missing e) =
      missing (ap (under key (value_at next)) split ∙ under-at key (value_at next) rest ∙ e)
  extension-Got key rest path next (some _) t split (found r v prefix e s) =
      found (extension key r) v (key ++ prefix)
        (ap (under key (value_at next)) split ∙ under-at key (value_at next) rest ∙ e)
        (extension-Stands key next r t s)

  hash-Got :
      (h : List ℕ) (n : Node) (path : List ℕ) (res : Found)
      → IsTrie sha (hash h n)
      → Got n path res
      → Got (hash h n) path res
  unfolding value_at
  hash-Got h n path none t (missing e) = missing e
  hash-Got h n path (some _) t (found r v prefix e s) = found r v prefix e (hash-Stands h n r t s)

  -- On a trie whose nodes are all in the store a strict getWithPath finds the value at the path, if there
  -- is one, and leaves a node that stands for the old one.
  pub get_with_path-Got :
      (n : Node) (path : List ℕ)
      → IsTrie sha n
      → IsPath path
      → Got n path (get_with_path n path true)
  unfolding get_with_path
  get_with_path-Got (leaf v) [] t ip = unfold value_at in found (leaf v) v [] refl (leaf-Stands v)
  get_with_path-Got (leaf v) (x ∷ path) t ip = unfold value_at in missing refl
  get_with_path-Got (branch cs) path t ip = rw (&&-false ((split_path path).0 == last_child)) (
      branch-Got cs path (get_with_path (cs (split_path path).0) (split_path path).1 true) t ip (
        get_with_path-Got (cs (split_path path).0) (split_path path).1 (t.1 (split_path path).0)
          (split_path-IsPath path ip)))
  get_with_path-Got (extension key next) path t ip =
      rw (&&-false (length path == 0)) (elim (Option-cases (strip_prefix key path)) [
        | inl parts ↦ rw parts (missing (extension_none key next path parts))
        | inr (rest, e) ↦
            let split = strip_prefix-some key path rest e in
            rw e (
              extension-Got key rest path next (get_with_path next rest true) t split (
                get_with_path-Got next rest t.1.1
                  (All-append_right IsNibble key rest (subst IsPath split ip))))
      ])
  get_with_path-Got (hash h n) path t ip =
      hash-Got h n path (get_with_path n path true) t (get_with_path-Got n path t.1 ip)
  get_with_path-Got (lost h) path t ip = absurd t
  get_with_path-Got empty path t ip = unfold value_at in missing refl
