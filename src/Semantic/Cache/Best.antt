-- ===== src/Semantic/Cache/Best.antt =====
-- Which entry Get of internal/semantic/cache.go answers.
use cache_pot.Prelude.{
  ap, sym, ◌∙◌, ◌≡◌, arith, beq, ℕ, true, false, not, Option, none, some, List, Bytes,
  if◌then◌else◌, get_elem?, filter,
}
use cache_pot.GoMap.{lookup}
use cache_pot.GoMap.Laws.{lookup-put}
use cache_pot.Float.{Float64, flt}
use cache_pot.Sorting.Laws.{All-At}
use cache_pot.Embed.{Embedding, Arith, cosine}
use cache_pot.Semantic.Cache.{
  SemanticEntry, semantic_expired, Partitions, or_no_entries, partition_key, neg_inf, start,
  scan_loop, get_semantic,
}
use cache_pot.Semantic.Cache.Scanning.{scanned, IsBest, pick_best_hit, pick_best_miss}

-- The live entries of a partition.
abbrev pub live_entries : Bytes → Bytes → ℕ → Partitions → List SemanticEntry
live_entries model temp now c =
    filter (λ e. not (semantic_expired e now)) (or_no_entries (lookup (partition_key model temp) c))

module _ (fp : Arith) (embed_one : Bytes → Option Embedding) (prompt model temp : Bytes)
    (vec : Embedding) (threshold : Float64) (now : ℕ) (c : Partitions) where
  pub get_semantic_hit :
      (answer : Bytes × Float64)
      → embed_one prompt ≡ some vec
      → (get_semantic fp embed_one prompt model temp threshold now c).0 ≡ some (some answer)
      → (i : ℕ) × (e : SemanticEntry) × (get_elem? (live_entries model temp now c) i ≡ some e)
        × (answer ≡ (e.response, e.cost))
        × (flt (cosine fp vec e.embedding) threshold ≡ false)
        × ((j : ℕ) (f : SemanticEntry)
            → get_elem? (live_entries model temp now c) j ≡ some f
            → flt (cosine fp vec e.embedding) (cosine fp vec f.embedding) ≡ false)
  unfolding get_semantic IsBest
  get_semantic_hit answer embedded h =
      let l = or_no_entries (lookup (partition_key model temp) c) in
      let (kept, scan) = scanned fp vec now l in
      let (i, e, at, same, enough, best) =
        pick_best_hit fp vec threshold (scan_loop fp now vec l start) answer scan
          (ground (arith, embedded, h)) in
      (
        i,
        e,
        ap (λ k. get_elem? k i) (sym kept) ∙ at,
        same,
        enough,
        λ j f there.
            All-At (λ g. flt (cosine fp vec e.embedding) (cosine fp vec g.embedding) ≡ false) _ j f
              best (ap (λ k. get_elem? k j) kept ∙ there),
      )

  pub get_semantic_miss :
      (j : ℕ) (f : SemanticEntry)
      → embed_one prompt ≡ some vec
      → (get_semantic fp embed_one prompt model temp threshold now c).0 ≡ some none
      → get_elem? (live_entries model temp now c) j ≡ some f
      → flt neg_inf (cosine fp vec f.embedding) ≡ true
      → flt (cosine fp vec f.embedding) threshold ≡ true
  unfolding get_semantic
  get_semantic_miss j f embedded h there above =
      let l = or_no_entries (lookup (partition_key model temp) c) in
      let (kept, scan) = scanned fp vec now l in
      pick_best_miss fp vec threshold (scan_loop fp now vec l start) f scan
        (j, ap (λ k. get_elem? k j) kept ∙ there) above (ground (arith, embedded, h))

  pub lookup-get_semantic :
      (key : Bytes)
      → embed_one prompt ≡ some vec
      → or_no_entries (lookup key (get_semantic fp embed_one prompt model temp threshold now c).1)
        ≡ (if beq (partition_key model temp) key
            then live_entries model temp now c
            else or_no_entries (lookup key c))
  unfolding get_semantic
  lookup-get_semantic key embedded =
      let l = or_no_entries (lookup (partition_key model temp) c) in
      ground (
        arith,
        embedded,
        (scanned fp vec now l).0,
        lookup-put (partition_key model temp) key (scan_loop fp now vec l start).kept c,
      )
