-- ===== src/Storage/SeekLaw.antt =====
-- pkg/core/storage/memcached_store.go: performSeek, followed item by item, against the merge.
use epicchain_go.Common.{
  ◌≡◌, ◌≢◌, ◌⊎◌, refl, sym, ap, ◌∙◌, inl, inr, Bool, true, false, not, List, [], ◌∷◌, ◌++◌, ◌&&◌,
  ◌||◌, ◌==◌, ltb, arith, All, Bool-cases, bytes_beq, bytes_beq_iff, if◌then◌else◌,
}
use mathlib.Core.List.{append_assoc}
use epicchain_go.Storage.Types.{KeyValue, KeyValueExists, SeekRange, less}
use epicchain_go.Storage.Seek.{
  Callback, visit, Merging, visit_mem, visit_ps, merge_loop, merge_func, seek_ps, visit_rest,
  sort_slice, lower_range, start_merging, perform_seek,
}
use epicchain_go.Storage.Merge.{
  live, below, from, unless_cached, merge, visit-append, Unlike, less-Unlike, IsAscending,
}

module _ {X : Type 0} (rng : SeekRange) (f : Callback X) where
  visit_rest-live :
      (l : List KeyValueExists) (x : X) → visit_rest rng false f l x ≡ (visit f (live l) x).1
  unfolding visit_rest visit_mem live visit
  visit_rest-live [] x = refl
  visit_rest-live (m ∷ l) x = elim (Bool-cases m.exists) [
    | inl here ↦ rw here (elim (Bool-cases (f (record { key = m.key; value = m.value }) x).0) [
      | inl more ↦ rw more (visit_rest-live l _)
      | inr stop ↦ rw stop refl
    ])
    | inr gone ↦ rw gone (visit_rest-live l x)
  ]

  -- What mergeFunc leaves for the items `ps`, with `ms` of the cache to come. When the cache is used up, the
  -- last item of it that was looked at is still compared with.
  record Left (ps : List KeyValue) (ms : List KeyValueExists) (s : Merging X) : Type 0 where
    going : s.done ≡ false
    pending :
        ((s.have_mem ≡ true) × (s.kv_mem ∷ s.rest ≡ ms))
        ⊎ ((s.have_mem ≡ false) × (s.rest ≡ []) × ([] ≡ ms) × All (Unlike s.kv_mem.key) ps)

  -- One call of mergeFunc visits `l`.
  record Called (ps : List KeyValue) (ms : List KeyValueExists) (l : List KeyValue) (x : X)
      (r : Bool × Merging X) : Type 0 where
    more : r.0 ≡ (visit f l x).0
    done : r.1.done ≡ not (visit f l x).0
    state : r.1.state ≡ (visit f l x).1
    left : (visit f l x).0 ≡ true → Left ps ms r.1

  Called-visited :
      (ps : List KeyValue) (ms : List KeyValueExists) (kv : KeyValue) (l : List KeyValue) (x : X)
      (r : Bool × Merging X)
      → (f kv x).0 ≡ true
      → Called ps ms l (f kv x).1 r
      → Called ps ms (kv ∷ l) x r
  unfolding visit
  Called-visited ps ms kv l x r more c = record {
    more = rw more c.more;
    done = rw more c.done;
    state = rw more c.state;
    left = λ h. c.left (rw more at h);
  }

  Called-stopped :
      (ps : List KeyValue) (ms : List KeyValueExists) (kv : KeyValue) (l : List KeyValue) (x : X)
      (s : Merging X)
      → (f kv x).0 ≡ false
      → s.done ≡ true
      → s.state ≡ (f kv x).1
      → Called ps ms (kv ∷ l) x (false, s)
  unfolding visit
  Called-stopped ps ms kv l x s stop done state = record {
    more = rw stop refl;
    done = rw stop done;
    state = rw stop state;
    left = λ h. absurd (cc (rw stop at h));
  }

  visit_one : (kv : KeyValue) (x : X) → visit f (kv ∷ []) x ≡ f kv x
  unfolding visit
  visit_one kv x = elim (Bool-cases (f kv x).0) [
    | inl more ↦ rw more refl
    | inr stop ↦ rw stop refl
  ]

  visit_ps-have :
      (p : KeyValue) (ps : List KeyValue) (rest : List KeyValueExists) (kv : KeyValueExists) (x : X)
      → Called ps
          (kv ∷ rest)
          (unless_cached p (kv ∷ rest))
          x
          (visit_ps rng false f p rest kv true x)
  unfolding visit_ps unless_cached
  visit_ps-have p ps rest kv x = elim (Bool-cases (bytes_beq kv.key p.key)) [
    | inl same ↦
        unfold visit in
        rw same (record {
          more = refl;
          done = refl;
          state = refl;
          left = λ h. record { going = refl; pending = inl (refl, refl) };
        })
    | inr other ↦ rw other (record {
      more = ap (λ (z : Bool × X). z.0) (sym (visit_one p x));
      done = ap (λ (z : Bool × X). not z.0) (sym (visit_one p x));
      state = ap (λ (z : Bool × X). z.1) (sym (visit_one p x));
      left = λ h. record {
        going = ap (λ (z : Bool × X). not z.0) (sym (visit_one p x)) ∙ ap not h;
        pending = inl (refl, refl);
      };
    })
  ]

  visit_ps-none :
      (p : KeyValue) (ps : List KeyValue) (kv : KeyValueExists) (x : X)
      → Unlike kv.key p
      → All (Unlike kv.key) ps
      → Called ps [] (p ∷ []) x (visit_ps rng false f p [] kv false x)
  unfolding visit_ps
  visit_ps-none p ps kv x other others = rw other (record {
    more = ap (λ (z : Bool × X). z.0) (sym (visit_one p x));
    done = ap (λ (z : Bool × X). not z.0) (sym (visit_one p x));
    state = ap (λ (z : Bool × X). z.1) (sym (visit_one p x));
    left = λ h. record {
      going = ap (λ (z : Bool × X). not z.0) (sym (visit_one p x)) ∙ ap not h;
      pending = inr (refl, refl, refl, others);
    };
  })

  visit_mem-live :
      (kv : KeyValueExists) (x : X)
      → kv.exists ≡ true
      → visit_mem rng false f kv x ≡ (kv, f (record { key = kv.key; value = kv.value }) x)
  unfolding visit_mem
  visit_mem-live kv x e =
      ap (λ b. if b then (kv, f (record { key = kv.key; value = kv.value }) x) else (kv, (true, x)))
        e

  visit_mem-gone :
      (kv : KeyValueExists) (x : X)
      → kv.exists ≡ false
      → visit_mem rng false f kv x ≡ (kv, (true, x))
  unfolding visit_mem
  visit_mem-gone kv x e =
      ap (λ b. if b then (kv, f (record { key = kv.key; value = kv.value }) x) else (kv, (true, x)))
        e

  live-live :
      (kv : KeyValueExists) (l : List KeyValueExists)
      → kv.exists ≡ true
      → live (kv ∷ l) ≡ record { key = kv.key; value = kv.value } ∷ live l
  unfolding live
  live-live kv l e =
      ap (λ b. if b then record { key = kv.key; value = kv.value } ∷ live l else live l) e

  live-gone :
      (kv : KeyValueExists) (l : List KeyValueExists) → kv.exists ≡ false → live (kv ∷ l) ≡ live l
  unfolding live
  live-gone kv l e =
      ap (λ b. if b then record { key = kv.key; value = kv.value } ∷ live l else live l) e

  visits : KeyValue → List KeyValueExists → List KeyValue
  visits p ms = live (below rng.backwards p.key ms) ++ unless_cached p (from rng.backwards p.key ms)

  -- The loop of mergeFunc visits the cache up to the key, and then the item.
  merge_loop_lem :
      (p : KeyValue) (ps : List KeyValue) (rest : List KeyValueExists) (kv : KeyValueExists) (x : X)
      → All (λ q. less rng.backwards p.key q.key ≡ true) ps
      → Called ps
          (from rng.backwards p.key (kv ∷ rest))
          (visits p (kv ∷ rest))
          x
          (merge_loop rng false f p rest kv true x)
  unfolding merge_loop below from visits
  merge_loop_lem p ps [] kv x above = elim (Bool-cases (less rng.backwards kv.key p.key)) [
    | inr late ↦ rw late (unfold live in visit_ps-have p ps [] kv x)
    | inl early ↦
        let others = less-Unlike rng.backwards kv.key p ps early above in
        rw early (elim (Bool-cases kv.exists) [
          | inr gone ↦
              rw (visit_mem-gone kv x gone, live-gone kv [] gone)
                (unfold unless_cached live in visit_ps-none p ps kv x others.0 others.1)
          | inl here ↦
              let kv' : KeyValue = record { key = kv.key; value = kv.value } in
              rw (visit_mem-live kv x here, live-live kv [] here)
                (elim (Bool-cases (f kv' x).0) [
                  | inl more ↦
                      unfold unless_cached live in
                      Called-visited ps [] kv' (p ∷ []) x _ more
                        (rw more (visit_ps-none p ps kv (f kv' x).1 others.0 others.1))
                  | inr stop ↦ rw stop (Called-stopped ps _ kv' _ x _ stop refl refl)
                ])
        ])
  ]
  merge_loop_lem p ps (y ∷ rest) kv x above = elim (Bool-cases (less rng.backwards kv.key p.key)) [
    | inr late ↦ rw late (unfold live in visit_ps-have p ps (y ∷ rest) kv x)
    | inl early ↦ rw early (elim (Bool-cases kv.exists) [
      | inr gone ↦
          rw (visit_mem-gone kv x gone, live-gone kv _ gone) (merge_loop_lem p ps rest y x above)
      | inl here ↦
          let kv' : KeyValue = record { key = kv.key; value = kv.value } in
          rw (visit_mem-live kv x here, live-live kv _ here)
            (elim (Bool-cases (f kv' x).0) [
              | inl more ↦
                  Called-visited ps _ kv' _ x _ more
                    (rw more (merge_loop_lem p ps rest y (f kv' x).1 above))
              | inr stop ↦ rw stop (Called-stopped ps _ kv' _ x _ stop refl refl)
            ])
    ])
  ]

  abbrev finish_merging : Merging X → X
  finish_merging s =
      if not s.done && s.have_mem
      then visit_rest rng false f (s.kv_mem ∷ s.rest) s.state
      else s.state

  merge_loop-Called :
      (p : KeyValue) (ps : List KeyValue) (ms : List KeyValueExists) (s : Merging X)
      → All (λ q. less rng.backwards p.key q.key ≡ true) ps
      → Left (p ∷ ps) ms s
      → Called ps
          (from rng.backwards p.key ms)
          (visits p ms)
          s.state
          (merge_loop rng false f p s.rest s.kv_mem s.have_mem s.state)
  merge_loop-Called p ps ms s above l = elim l.pending [
    | inl (have, e) ↦ rw (have, ← e) (merge_loop_lem p ps s.rest s.kv_mem s.state above)
    | inr (have, none_left, e, others) ↦
        rw (have, none_left, ← e)
          (unfold merge_loop from below live unless_cached visits in
            visit_ps-none p ps s.kv_mem s.state others.0 others.1)
  ]

  seek_ps_lem :
      (ps : List KeyValue) (ms : List KeyValueExists) (s : Merging X)
      → IsAscending rng.backwards ps
      → Left ps ms s
      → finish_merging (seek_ps rng false f ps s) ≡ (visit f (merge rng.backwards ms ps) s.state).1
  unfolding seek_ps merge_func merge
  seek_ps_lem [] ms s asc l = elim l.pending [
    | inl (have, e) ↦ rw (l.going, have, ← e) (visit_rest-live (s.kv_mem ∷ s.rest) s.state)
    | inr (have, none_left, e, others) ↦ rw (l.going, have, ← e) (unfold live visit in refl)
  ]
  seek_ps_lem (p ∷ ps) ms s asc l =
      let c = merge_loop-Called p ps ms s asc.0 l in
      let ms' = from rng.backwards p.key ms in
      let r = merge_loop rng false f p s.rest s.kv_mem s.have_mem s.state in
      let first = visits p ms in
      let v = visit f first s.state in
      let assoc : (live (below rng.backwards p.key ms)
            ++ (unless_cached p ms' ++ merge rng.backwards ms' ps))
          ≡ first ++ merge rng.backwards ms' ps =
        unfold visits in
        sym (
          append_assoc (live (below rng.backwards p.key ms)) (unless_cached p ms')
            (merge rng.backwards ms' ps)) in
      rw (assoc, visit-append f first (merge rng.backwards ms' ps) s.state, l.going)
        (elim (Bool-cases v.0) [
          | inl more ↦
              rw (c.more, more)
                (seek_ps_lem ps ms' r.1 asc.1 (c.left more)
                  ∙ ap (λ y. (visit f (merge rng.backwards ms' ps) y).1) c.state)
          | inr stop ↦ rw (c.more, stop) (rw (c.done, stop) c.state)
        ])

  Unlike-empty : (ps : List KeyValue) → All (λ (p : KeyValue). p.key ≢ []) ps → All (Unlike []) ps
  Unlike-empty [] h = tt
  Unlike-empty (p ∷ ps) h = (ground (arith, bytes_beq_iff [] p.key, h.0), Unlike-empty ps h.1)

  start_merging-Left :
      (ms : List KeyValueExists) (ps : List KeyValue) (x : X)
      → All (λ (p : KeyValue). p.key ≢ []) ps
      → Left ps ms (start_merging ms x)
  start_merging-Left [] ps x h = record {
    going = refl;
    pending = inr (refl, refl, refl, Unlike-empty ps h);
  }
  start_merging-Left (m ∷ ms) ps x h = record { going = refl; pending = inl (refl, refl) }

start_merging-state :
    {X : Type 0} (ms : List KeyValueExists) (x : X) → (start_merging ms x).state ≡ x
start_merging-state [] x = refl
start_merging-state (m ∷ ms) x = refl

-- What the lower store hands out; it is not asked if the depth is 1.
abbrev pub reached : SeekRange → (SeekRange → List KeyValue) → List KeyValue
reached rng ps =
    if (rng.search_depth == 0) || ltb 1 rng.search_depth then ps (lower_range rng) else []

-- performSeek without cutPrefix visits the merge of the cache and the lower store.
pub perform_seek_lem :
    {X : Type 0} (rng : SeekRange) (f : Callback X) (ps : SeekRange → List KeyValue)
    (mem_res : List KeyValueExists) (x : X)
    → IsAscending rng.backwards (ps (lower_range rng))
    → All (λ (p : KeyValue). p.key ≢ []) (ps (lower_range rng))
    → perform_seek rng false f ps mem_res x
      ≡ (visit f (merge rng.backwards (sort_slice rng.backwards mem_res) (reached rng ps)) x).1
unfolding perform_seek
perform_seek_lem rng f ps mem_res x asc keys =
    let ms = sort_slice rng.backwards mem_res in
    let s = start_merging ms x in
    let r = lower_range rng in
    elim (Bool-cases ((rng.search_depth == 0) || ltb 1 rng.search_depth)) [
      | inl deep ↦ rw deep (
          seek_ps_lem rng f (ps r) ms s asc (start_merging-Left rng f ms (ps r) x keys)
          ∙ ap (λ y. (visit f (merge rng.backwards ms (ps r)) y).1) (start_merging-state ms x))
      | inr shallow ↦ rw shallow (
          unfold seek_ps in
          seek_ps_lem rng f [] ms s tt (start_merging-Left rng f ms [] x tt)
          ∙ ap (λ y. (visit f (merge rng.backwards ms []) y).1) (start_merging-state ms x))
    ]
