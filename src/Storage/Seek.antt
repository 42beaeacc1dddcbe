-- ===== src/Storage/Seek.antt =====
-- pkg/core/storage/memcached_store.go: performSeek, the merge of a cache with what lies below. A callback
-- works on a state of its own and answers whether it wants more.
use epicchain_go.Common.{
  ℕ, ◌-◌, Bool, true, false, not, List, [], ◌∷◌, ◌&&◌, ◌||◌, ◌==◌, ltb, length, drop, bytes_beq,
  if◌then◌else◌,
}
use epicchain_go.Storage.Types.{KeyValue, KeyValueExists, SeekRange, less}

abbrev pub Callback : Type 0 → Type 0
Callback X = KeyValue → X → Bool × X

-- for each kv { if !f(kv.Key, kv.Value) { break } }; whether it ran to the end, and the state.
unfoldable pub visit : {X : Type 0} → Callback X → List KeyValue → X → Bool × X
visit f [] x = (true, x)
visit f (kv ∷ kvs) x = let (more, x') = f kv x in if more then visit f kvs x' else (false, x')

-- sort.Slice
unfoldable pub insert_sorted : Bool → KeyValueExists → List KeyValueExists → List KeyValueExists
insert_sorted backwards kv [] = kv ∷ []
insert_sorted backwards kv (x ∷ xs) =
    if less backwards x.key kv.key then x ∷ insert_sorted backwards kv xs else kv ∷ (x ∷ xs)

unfoldable pub sort_slice : Bool → List KeyValueExists → List KeyValueExists
sort_slice backwards [] = []
sort_slice backwards (x ∷ xs) = insert_sorted backwards x (sort_slice backwards xs)

-- The variables of performSeek: `rest` is memRes[iMem:], and `state` is the callback's.
pub record Merging (X : Type 0) : Type 0 where
  pub done : Bool
  pub rest : List KeyValueExists
  pub kv_mem : KeyValueExists
  pub have_mem : Bool
  pub state : X

abbrev pub start_merging : {X : Type 0} → List KeyValueExists → X → Merging X
start_merging [] x = record {
  done = false;
  rest = [];
  kv_mem = record { key = []; value = []; exists = false };
  have_mem = false;
  state = x;
}
start_merging (kv ∷ kvs) x = record {
  done = false;
  rest = kvs;
  kv_mem = kv;
  have_mem = true;
  state = x;
}

-- The depth is counted down for the layer below.
abbrev pub lower_range : SeekRange → SeekRange
lower_range rng =
    if ltb 1 rng.search_depth then record rng { search_depth = rng.search_depth - 1 } else rng

module _ {X : Type 0} (rng : SeekRange) (cut_prefix : Bool) (f : Callback X) where
  -- if cutPrefix { Key = Key[lPrefix:] }
  abbrev pub cut : List ℕ → List ℕ
  cut key = if cut_prefix then drop (length rng.prefix) key else key

  -- An item of the cache: its key is cut in place, and an item that does not exist is passed over.
  unfoldable pub visit_mem : KeyValueExists → X → KeyValueExists × (Bool × X)
  visit_mem kv x =
      let kv' : KeyValueExists = record kv { key = cut kv.key } in
      if kv.exists
      then (kv', f (record { key = kv'.key; value = kv'.value }) x)
      else (kv, (true, x))

  -- The other branch of the loop: the item of the lower store, unless the cache has its key.
  unfoldable pub visit_ps :
      KeyValue → List KeyValueExists → KeyValueExists → Bool → X → Bool × Merging X
  visit_ps kv_ps rest kv have x =
      let (more, x') = f (record kv_ps { key = cut kv_ps.key }) x in
      if bytes_beq kv.key kv_ps.key
      then (true, record { done = false; rest = rest; kv_mem = kv; have_mem = have; state = x })
      else (more, record { done = not more; rest = rest; kv_mem = kv; have_mem = have; state = x' })

  -- The loop of mergeFunc.
  unfoldable pub merge_loop :
      KeyValue → List KeyValueExists → KeyValueExists → Bool → X → Bool × Merging X
  merge_loop kv_ps [] kv have x =
      let (kv', (more, x')) = visit_mem kv x in
      if have && less rng.backwards kv.key kv_ps.key
      then (if more then visit_ps kv_ps [] kv' false x' else (
        false,
        record { done = true; rest = []; kv_mem = kv'; have_mem = have; state = x' },
      ))
      else visit_ps kv_ps [] kv have x
  merge_loop kv_ps (y ∷ rest) kv have x =
      let (kv', (more, x')) = visit_mem kv x in
      let next = merge_loop kv_ps rest y true x' in
      if have && less rng.backwards kv.key kv_ps.key
      then (if more then next else (
        false,
        record { done = true; rest = y ∷ rest; kv_mem = kv'; have_mem = have; state = x' },
      ))
      else visit_ps kv_ps (y ∷ rest) kv have x

  unfoldable pub merge_func : KeyValue → Merging X → Bool × Merging X
  merge_func kv_ps s =
      if s.done then (false, s) else merge_loop kv_ps s.rest s.kv_mem s.have_mem s.state

  -- ps.Seek(rng, mergeFunc): the lower store hands out its items in order, until the answer is false.
  unfoldable pub seek_ps : List KeyValue → Merging X → Merging X
  seek_ps [] s = s
  seek_ps (kv ∷ kvs) s = let (more, s') = merge_func kv s in if more then seek_ps kvs s' else s'

  -- The loop over what is left of the cache.
  unfoldable pub visit_rest : List KeyValueExists → X → X
  visit_rest [] x = x
  visit_rest (kv ∷ kvs) x =
      let (kv', (more, x')) = visit_mem kv x in if more then visit_rest kvs x' else x'

  unfoldable pub perform_seek : (SeekRange → List KeyValue) → List KeyValueExists → X → X
  perform_seek ps mem_res x =
      let s = start_merging (sort_slice rng.backwards mem_res) x in
      let below = seek_ps (ps (lower_range rng)) s in
      let s' = if (rng.search_depth == 0) || ltb 1 rng.search_depth then below else s in
      if not s'.done && s'.have_mem then visit_rest (s'.kv_mem ∷ s'.rest) s'.state else s'.state
