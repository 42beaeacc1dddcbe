-- ===== src/Mpt/Joined.antt =====
-- pkg/core/mpt/trie.go: an extension after its next node was replaced, as deleteFromExtension leaves it.
use epicchain_go.Common.{
  ℕ, List, [], ◌∷◌, ◌++◌, ◌==◌, ◌≡◌, ◌≢◌, refl, ap, sym, ◌∙◌, inl, inr, none, All, Bool-cases,
  bytes_beq, bytes_beq_iff,
}
use epicchain_go.Mpt.Node.{Node, leaf, branch, extension, hash, lost, empty}
use epicchain_go.Mpt.Get.{strip_prefix}
use epicchain_go.Mpt.Delete.{becomes, Delete, join_extension}
use epicchain_go.Mpt.View.{View, under, value_at, update, IsNibble, IsPath, IsHead, IsTrie}
use epicchain_go.Mpt.Paths.{Same, under-append}
use epicchain_go.Mpt.Shrink.{IsRest, Holds}

-- Deleting what is not there changes no view.
pub update-none : (p : List ℕ) (f : View) → f p ≡ none → (q : List ℕ) → f q ≡ update p none f q
unfolding update
update-none p f e q = elim (Bool-cases (bytes_beq p q)) [
  | inl same ↦ rw same (ap f (sym ((bytes_beq_iff p q).0 same)) ∙ e)
  | inr differ ↦ rw differ refl
]

under-none :
    (key : List ℕ) (f : View) (path : List ℕ)
    → strip_prefix key path ≡ none
    → under key f path ≡ none
unfolding under strip_prefix
under-none [] f path e = cc
under-none (x ∷ key) f [] e = refl
under-none (x ∷ key) f (y ∷ path) e = elim (Bool-cases (x == y)) [
  | inl same ↦ rw same (under-none key f path (rw same at e))
  | inr differ ↦ rw differ refl
]

pub under-empty : (key q : List ℕ) → value_at empty q ≡ under key (value_at empty) q
unfolding value_at under
under-empty [] q = refl
under-empty (x ∷ key) [] = refl
under-empty (x ∷ key) (y ∷ q) = elim (Bool-cases (x == y)) [
  | inl same ↦ rw same (under-empty key q)
  | inr differ ↦ rw differ refl
]

pub update_empty : (w : List ℕ) → Same (value_at empty) (update [] none (value_at (leaf w)))
unfolding value_at update
update_empty w [] iq = refl
update_empty w (y ∷ q) iq = refl

pub extension_none :
    (key : List ℕ) (next : Node) (path : List ℕ)
    → strip_prefix key path ≡ none
    → value_at (extension key next) path ≡ none
unfolding value_at
extension_none key next path e = under-none key (value_at next) path e

pub append-filled : {A : Type 0} (a b : List A) → a ≢ [] → a ++ b ≢ []
append-filled [] b e = λ x. e refl
append-filled (x ∷ a) b e = λ x. cc

pub All-append {ℓ κ} :
    {A : Type ℓ} (P : A → Type κ) (xs ys : List A) → All P xs → All P ys → All P (xs ++ ys)
All-append P [] ys a b = b
All-append P (x ∷ xs) ys a b = (a.0, All-append P xs ys a.1 b)

module _ (sha : List ℕ → List ℕ) where
  -- Only the answer matters.
  pub Holds-answer :
      (f : View) (res res' : Delete) → res'.1 ≡ res.1 → Holds sha f res → Holds sha f res'
  Holds-answer f res res' e h = record {
    node = h.node;
    is_done = e ∙ h.is_done;
    trie = h.trie;
    rest = h.rest;
    same = h.same;
  }

  extension-Holds :
      (key : List ℕ) (r : Node)
      → IsPath key × (key ≢ [])
      → IsHead r
      → IsTrie sha r
      → Holds sha (under key (value_at r)) ([], becomes (extension key r))
  unfolding value_at
  extension-Holds key r ik h t = record {
    node = extension key r;
    is_done = refl;
    trie = (ik, (h, t));
    rest = tt;
    same = λ q iq. refl;
  }

  -- An extension whose next node was replaced.
  pub join_extension-Holds :
      (key : List ℕ) (r : Node)
      → IsPath key × (key ≢ [])
      → IsRest r
      → IsTrie sha r
      → Holds sha (under key (value_at r)) (join_extension key r)
  join_extension-Holds key (leaf v) ik s t =
      Holds-answer (under key (value_at (leaf v))) ([], becomes (extension key (leaf v)))
        (join_extension key (leaf v)) refl (extension-Holds key (leaf v) ik tt t)
  join_extension-Holds key (branch cs) ik s t =
      Holds-answer (under key (value_at (branch cs))) ([], becomes (extension key (branch cs)))
        (join_extension key (branch cs)) refl (extension-Holds key (branch cs) ik tt t)
  join_extension-Holds key (extension k n) ik s t =
      unfold value_at in
      record {
        node = extension (key ++ k) n;
        is_done = refl;
        trie = ((All-append IsNibble key k ik.0 t.0.0, append-filled key k ik.1), t.1);
        rest = tt;
        same = λ q iq. under-append key k (value_at n) q;
      }
  join_extension-Holds key (hash h n) ik s t =
      Holds-answer (under key (value_at (hash h n))) ([], becomes (extension key (hash h n)))
        (join_extension key (hash h n)) refl (extension-Holds key (hash h n) ik s t)
  join_extension-Holds key (lost h) ik s t = absurd t
  join_extension-Holds key empty ik s t = record {
    node = empty;
    is_done = refl;
    trie = tt;
    rest = tt;
    same = λ q iq. under-empty key q;
  }
