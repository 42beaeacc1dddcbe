-- ===== src/Storage/CutPrefix.antt =====
-- pkg/core/storage/memcached_store.go: performSeek with cutPrefix, as SeekAsync calls it. The key of the
-- cached item is cut in place, and the last one is compared with the keys of the lower store all the same.
use epicchain_go.Common.{
  Bool, All, map, sym, ap, ◌∙◌, length, drop, if◌then◌else◌, ℕ, ◌≡◌, refl, true, false, List, [],
  ◌∷◌, ◌++◌, arith, drop-append_length, bytes_beq, bytes_beq_iff,
}
use mathlib.Core.List.{append_assoc, append-nil}
use epicchain_go.Storage.Types.{KeyValue, KeyValueExists, SeekRange, less}
use epicchain_go.Storage.Seek.{
  Merging, Callback, sort_slice, insert_sorted, visit_mem, visit_ps, merge_loop, merge_func,
  seek_ps, visit_rest, perform_seek,
}
use epicchain_go.Storage.View.{less_unequal}
use epicchain_go.Storage.Order.{less_trans}

-- The consumer of the channel, which takes all.
abbrev pub collect : Callback (List KeyValue)
collect kv l = (true, l ++ (kv ∷ []))

abbrev pub range_of : List ℕ → SeekRange
range_of prefix = record { prefix = prefix; start = []; backwards = false; search_depth = 0 }

beq_refl : (a : List ℕ) → bytes_beq a a ≡ true
beq_refl a = (bytes_beq_iff a a).1 refl

unequal : (a b : List ℕ) → less false a b ≡ true → bytes_beq a b ≡ false
unequal a b h = ground (arith, less_unequal false a b, bytes_beq_iff a b, bytes_beq_iff b a)

-- The state of the seek once the cached item was handed out: its key, cut or not, is still compared.
abbrev after_cached : KeyValueExists → List KeyValue → Merging (List KeyValue)
after_cached kv l = record { done = false; rest = []; kv_mem = kv; have_mem = false; state = l }

abbrev pub cut_key : List ℕ → Bool → KeyValue → KeyValue
cut_key prefix cuts q = record q { key = if cuts then drop (length prefix) q.key else q.key }

seek_ps-after_cached :
    (prefix : List ℕ) (cuts : Bool) (kv : KeyValueExists) (rest l : List KeyValue)
    → All (λ (q : KeyValue). bytes_beq kv.key q.key ≡ false) rest
    → seek_ps (range_of prefix) cuts collect rest (after_cached kv l)
      ≡ after_cached kv (l ++ map (cut_key prefix cuts) rest)
unfolding seek_ps merge_func merge_loop visit_mem visit_ps
seek_ps-after_cached prefix cuts kv [] l a = ap (after_cached kv) (sym (append-nil l))
seek_ps-after_cached prefix cuts kv (q ∷ rest) l (differs, a) = rw differs (
    seek_ps-after_cached prefix cuts kv rest (l ++ (cut_key prefix cuts q ∷ [])) a
    ∙ ap (after_cached kv)
        (append_assoc l (cut_key prefix cuts q ∷ []) (map (cut_key prefix cuts) rest)))

behind_unequal :
    (a b : List ℕ) (rest : List KeyValue)
    → less false a b ≡ true
    → All (λ (q : KeyValue). less false b q.key ≡ true) rest
    → All (λ (q : KeyValue). bytes_beq a q.key ≡ false) rest
behind_unequal a b [] h all = tt
behind_unequal a b (q ∷ rest) h (behind, all) =
    (unequal a q.key (less_trans false a b q.key h behind), behind_unequal a b rest h all)

last_unequal :
    (b : List ℕ) (rest : List KeyValue)
    → All (λ (q : KeyValue). less false b q.key ≡ true) rest
    → All (λ (q : KeyValue). bytes_beq b q.key ≡ false) rest
last_unequal b [] all = tt
last_unequal b (q ∷ rest) (behind, all) = (unequal b q.key behind, last_unequal b rest all)

-- Let the cache have one item in the range, with the key `prefix ++ prefix ++ k`, and the lower store after
-- it the item with the key `prefix ++ k` and any others behind that. A forward seek through all layers hands
-- out the cached item and then all of the lower store's; one that cuts the prefix off the keys misses the
-- item with the key `prefix ++ k`, since the cached one's key is by then the same.
pub cut_prefix_skips :
    (prefix k v w : List ℕ) (rest : List KeyValue)
    → less false (prefix ++ (prefix ++ k)) (prefix ++ k) ≡ true
    → All (λ (q : KeyValue). less false (prefix ++ k) q.key ≡ true) rest
    → (perform_seek
          (range_of prefix)
          false
          collect
          (λ r. record { key = prefix ++ k; value = w } ∷ rest)
          (record { key = prefix ++ (prefix ++ k); value = v; exists = true } ∷ [])
          []
        ≡ record { key = prefix ++ (prefix ++ k); value = v }
          ∷ (record { key = prefix ++ k; value = w } ∷ map (cut_key prefix false) rest))
      × (perform_seek
            (range_of prefix)
            true
            collect
            (λ r. record { key = prefix ++ k; value = w } ∷ rest)
            (record { key = prefix ++ (prefix ++ k); value = v; exists = true } ∷ [])
            []
          ≡ record { key = prefix ++ k; value = v } ∷ map (cut_key prefix true) rest)
unfolding perform_seek seek_ps merge_func merge_loop visit_mem visit_ps visit_rest sort_slice
    insert_sorted
cut_prefix_skips prefix k v w rest h behind =
    let whole : KeyValueExists = record {
      key = prefix ++ (prefix ++ k);
      value = v;
      exists = true;
    } in
    let cut : KeyValueExists = record { key = prefix ++ k; value = v; exists = true } in
    let item : KeyValue = record { key = prefix ++ k; value = w } in
    (
      rw
          (
            h,
            unequal (prefix ++ (prefix ++ k)) (prefix ++ k) h,
            seek_ps-after_cached prefix false whole rest
                (record { key = prefix ++ (prefix ++ k); value = v } ∷ (item ∷ []))
                (behind_unequal (prefix ++ (prefix ++ k)) (prefix ++ k) rest h behind),
          )
          refl,
      rw
          (
            h,
            drop-append_length prefix (prefix ++ k),
            beq_refl (prefix ++ k),
            seek_ps-after_cached prefix true cut rest (record { key = prefix ++ k; value = v } ∷ [])
                (last_unequal (prefix ++ k) rest behind),
          )
          refl,
    )
