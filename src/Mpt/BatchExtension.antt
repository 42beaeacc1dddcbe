-- ===== src/Mpt/BatchExtension.antt =====
-- pkg/core/mpt/batch.go: putBatchIntoExtension.
use epicchain_go.Common.{
  ℕ, suc, ◌<◌, false, List, [], ◌∷◌, ◌++◌, length, ◌==◌, ◌≡◌, ◌≢◌, refl, sym, subst, ◌∙◌, All,
  All-append_left, arith, ==-refl, length-append, drop-append_length,
}
use epicchain_go.Mpt.Node.{Node, extension}
use epicchain_go.Mpt.View.{under, value_at, IsNibble, IsTrie}
use epicchain_go.Mpt.Paths.{under-append}
use epicchain_go.Mpt.Branches.{==-other}
use epicchain_go.Mpt.Views.{All-append_right}
use epicchain_go.Mpt.Batch.{
  KeyValue, BatchResult, merge_result, strip_key, strip_keys, put_batch_no_prefix,
  put_batch_into_extension,
}
use epicchain_go.Mpt.BatchPaths.{
  apply_batch, apply_batch-Same, apply_batch-under, Begins, Fits, strip_keys-Fits,
  length-strip_keys, append_nil,
}
use epicchain_go.Mpt.BatchBranch.{PutsBatch, PutsEnd}
use epicchain_go.Mpt.BatchMerge.{BatchedTo, merge_result-BatchedTo}
use epicchain_go.Mpt.BatchLaw.{BatchedTo-trans, put_batch_no_prefix-BatchedTo}

module _ (sha : List ℕ → List ℕ) (put : Node → List KeyValue → BatchResult) (m : ℕ)
    (puts : PutsBatch sha put m) (ends : PutsEnd sha put) where
  whole_key :
      (key : List ℕ) (next : Node) (x : KeyValue) (kv : List KeyValue)
      → IsTrie sha (extension key next)
      → All (Begins key) (x ∷ kv)
      → All (Fits (suc m)) (x ∷ kv)
      → BatchedTo sha
          (apply_batch (x ∷ kv) (value_at (extension key next)))
          (length (x ∷ kv))
          (merge_result key (put next (strip_keys (length key) (x ∷ kv))))
  unfolding value_at
  whole_key key next x kv t begins fits =
      let n = length key in
      let batch = strip_keys n (x ∷ kv) in
      let inner =
        strip_keys-Fits key m (suc m) (x ∷ kv) (omega (arith, filled key t.0.1)) begins fits in
      let b = puts next (strip_key n x) (strip_keys n kv) t.1.1 inner in
      BatchedTo-trans sha (under key (apply_batch batch (value_at next)))
        (apply_batch (x ∷ kv) (under key (value_at next))) (length batch) (length (x ∷ kv))
        (merge_result key (put next batch))
        (λ q iq. sym (apply_batch-under key (x ∷ kv) (value_at next) begins q iq))
        (length-strip_keys n (x ∷ kv))
        (merge_result-BatchedTo sha key (apply_batch batch (value_at next)) (length batch)
          (put next batch) t.0.0 b)
    where
      filled : (k : List ℕ) → k ≢ [] → 0 < length k
      filled [] e = absurd (e refl)
      filled (y ∷ k) e = omega arith

  part_of_key :
      (pref : List ℕ) (c : ℕ) (tail : List ℕ) (next : Node) (x : KeyValue) (kv : List KeyValue)
      → IsTrie sha (extension (pref ++ (c ∷ tail)) next)
      → All (Begins pref) (x ∷ kv)
      → All (Fits (suc m)) (x ∷ kv)
      → BatchedTo sha
          (apply_batch (x ∷ kv) (value_at (extension (pref ++ (c ∷ tail)) next)))
          (length (x ∷ kv))
          (merge_result pref
            (put_batch_no_prefix put (c ∷ tail) next (strip_keys (length pref) (x ∷ kv))))
  unfolding value_at
  part_of_key pref c tail next x kv t begins fits =
      let n = length pref in
      let batch = strip_keys n (x ∷ kv) in
      let inner = strip_keys-Fits pref (suc m) (suc m) (x ∷ kv) (omega arith) begins fits in
      let r = put_batch_no_prefix put (c ∷ tail) next batch in
      let view = apply_batch batch (under (c ∷ tail) (value_at next)) in
      let b =
        put_batch_no_prefix-BatchedTo sha put m puts ends c tail next batch
          ((All-append_right IsNibble pref (c ∷ tail) t.0.0, λ e. cc), t.1) inner in
      BatchedTo-trans sha (under pref view)
        (apply_batch (x ∷ kv) (under (pref ++ (c ∷ tail)) (value_at next))) (length batch)
        (length (x ∷ kv)) (merge_result pref r)
        (λ q iq.
          sym (apply_batch-under pref (x ∷ kv) (under (c ∷ tail) (value_at next)) begins q iq)
          ∙ sym (
              apply_batch-Same (x ∷ kv) (under (pref ++ (c ∷ tail)) (value_at next))
                (under pref (under (c ∷ tail) (value_at next)))
                (λ s is. under-append pref (c ∷ tail) (value_at next) s) q iq))
        (length-strip_keys n (x ∷ kv))
        (merge_result-BatchedTo sha pref view (length batch) r
          (All-append_left IsNibble pref (c ∷ tail) t.0.0) b)

  -- What putBatchIntoExtension is to answer.
  abbrev Extended : List ℕ → List ℕ → Node → KeyValue → List KeyValue → Type 0
  Extended pref key next x kv =
      IsTrie sha (extension key next)
      → All (Begins pref) (x ∷ kv)
      → All (Fits (suc m)) (x ∷ kv)
      → BatchedTo sha (apply_batch (x ∷ kv) (value_at (extension key next))) (length (x ∷ kv))
          (put_batch_into_extension put pref key next (x ∷ kv))

  Extended-whole :
      (key : List ℕ) (next : Node) (x : KeyValue) (kv : List KeyValue) → Extended key key next x kv
  Extended-whole key next x kv t begins fits =
      rw (==-refl (length key)) (whole_key key next x kv t begins fits)

  Extended-part :
      (pref : List ℕ) (c : ℕ) (tail : List ℕ) (next : Node) (x : KeyValue) (kv : List KeyValue)
      → Extended pref (pref ++ (c ∷ tail)) next x kv
  Extended-part [] c tail next x kv t begins fits =
      let differ : (0 == suc (length tail)) ≡ false = ground arith in
      rw differ (
        unfold value_at in
        put_batch_no_prefix-BatchedTo sha put m puts ends c tail next (x ∷ kv) t fits)
  Extended-part (y ∷ pref) c tail next x kv t begins fits =
      let l = length-append pref (c ∷ tail) in
      let differ : (suc (length pref) == suc (length (pref ++ (c ∷ tail)))) ≡ false =
        ==-other (suc (length pref)) (suc (length (pref ++ (c ∷ tail))))
          (λ e. omega (arith, l, e)) in
      let some_shared : (suc (length pref) == 0) ≡ false = ground arith in
      rw (differ, some_shared)
        (subst
          (λ k.
            BatchedTo sha
              (apply_batch (x ∷ kv) (value_at (extension ((y ∷ pref) ++ (c ∷ tail)) next)))
              (length (x ∷ kv))
              (merge_result (y ∷ pref)
                (put_batch_no_prefix put k next (strip_keys (length (y ∷ pref)) (x ∷ kv)))))
          (sym (drop-append_length (y ∷ pref) (c ∷ tail)))
          (part_of_key (y ∷ pref) c tail next x kv t begins fits))

  pub extension-BatchedTo :
      (pref rest key : List ℕ) (next : Node) (x : KeyValue) (kv : List KeyValue)
      → key ≡ pref ++ rest
      → Extended pref key next x kv
  extension-BatchedTo pref [] key next x kv e =
      subst (λ p. Extended p key next x kv) (e ∙ append_nil pref) (Extended-whole key next x kv)
  extension-BatchedTo pref (c ∷ tail) key next x kv e =
      subst (λ k. Extended pref k next x kv) (sym e) (Extended-part pref c tail next x kv)
