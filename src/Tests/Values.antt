-- ===== src/Tests/Values.antt =====
-- The theorems about one key, at concrete inputs.
use cache_pot.Prelude.{
  ℕ, ◌+◌, ◌≤◌, true, false, none, some, List, [], ◌∷◌, ◌≡◌, ◌↔◌, refl, arith, Bytes, codes, beq,
  get_elem?, pos, negsuc, add64,
}
use cache_pot.GoMap.{lookup}
use cache_pot.Strconv.{format_int}
use cache_pot.Glob.{glob_match}
use cache_pot.Glob.Correct.{glob_match_iff}
use cache_pot.Glob.Relation.{Matches}
use cache_pot.Memstore.Entry.{zset_val, Entry, ok, string_val}
use cache_pot.Memstore.Cell.{
  Cell, get_locked, get_for_write, live_or_drop, with_live, with_ensured, ensure_kind,
  evict_if_needed, over_cap, pick_eviction_victim, pick_loop, sweep_sample,
}
use cache_pot.Memstore.Strings.{get, set, guarded_write, write_string, SetOpts}
use cache_pot.Memstore.Strings.Laws.{get-set}
use cache_pot.Memstore.Strings.Expiry.{set_lem}
use cache_pot.Memstore.Hash.{hget, hincr_by}
use cache_pot.Memstore.Hash.Counters.{hincr_by-hincr_by}
use cache_pot.Memstore.Lists.{rem}
use cache_pot.Memstore.Lists.Removal.{rem_lem, occurrences, others}
use cache_pot.Memstore.SortedSets.{ZMember}
use cache_pot.Memstore.Live.{get_locked-sweep_sample}
use cache_pot.Memstore.Eviction.{
  pick_eviction_victim_lem, entry_count-write_string, sampled, none_better,
}
use cache_pot.Tests.{uncapped, capped, key_a, key_b, empty_cell, entry_of, cell_of}

-- SET with an expiry of 5 ns, read before and at its deadline.
abbrev five : SetOpts
five = record { ttl = pos 5; only_if_nx = false; only_if_xx = false; get_old = false }

get-set_example :
    (get key_a 9 (set uncapped key_a 5 (codes "v") five empty_cell).1).0 ≡ ok (some (codes "v"))
unfolding set get_for_write live_or_drop lookup with_live guarded_write
get-set_example =
    get-set uncapped key_a 5 9 (codes "v") five empty_cell (record { done = true; prev_val = none })
      refl refl

set_lem_example :
    (set uncapped key_a 5 (codes "v") five empty_cell).0
    ≡ ok (record { done = true; prev_val = none })
unfolding get_locked lookup
set_lem_example = set_lem uncapped key_a 5 (codes "v") five empty_cell

hincr_by-hincr_by_example :
    ((hget key_a 5 (codes "f") (hincr_by uncapped key_a 5 (codes "f") (pos 7) empty_cell).1).0
      ≡ ok (some (format_int (pos 7))))
    × ((hincr_by uncapped key_a 5
          (codes "f")
          (pos 1)
          (hincr_by uncapped key_a 5 (codes "f") (pos 7) empty_cell).1).0
        ≡ ok (add64 (pos 7) (pos 1)))
unfolding hincr_by with_ensured ensure_kind get_for_write live_or_drop lookup evict_if_needed
    over_cap add64
hincr_by-hincr_by_example =
    hincr_by-hincr_by uncapped key_a 5 (codes "f") (pos 7) (pos 1) (pos 7) empty_cell refl

abbrev two : List Bytes
two = codes "x" ∷ codes "y" ∷ []

rem_lem_example :
    ((rem (negsuc 0) (codes "x") two).0 ≡ 1)
    × (occurrences (codes "x") (rem (negsuc 0) (codes "x") two).1
          + (rem (negsuc 0) (codes "x") two).0
        ≡ 1)
    × (others (codes "x") (rem (negsuc 0) (codes "x") two).1 ≡ codes "y" ∷ [])
unfolding beq
rem_lem_example = rem_lem (negsuc 0) (codes "x") two (omega arith)

get_locked-sweep_sample_example :
    get_locked key_a 5 (sweep_sample 20 5 two (cell_of (string_val []))).1
    ≡ get_locked key_a 5 (cell_of (string_val []))
get_locked-sweep_sample_example = get_locked-sweep_sample key_a 20 5 two (cell_of (string_val []))

-- A cell whose entry expires at 3.
abbrev dying : Cell
dying = record (cell_of (string_val [])) {
  data_map = (key_a, record (entry_of (string_val [])) { expires_at = some 3 }) ∷ [];
}

pick_eviction_victim_lem_example :
    (i : ℕ) × (e : Entry) × (get_elem? (sampled capped (cell_of (string_val []))) i
      ≡ some (pick_eviction_victim capped 5 (cell_of (string_val [])), e))
    × (none_better capped.policy 5
          (capped.policy
            (record { last_access = e.last_access; now = 5; access_count = e.access_count }))
          (sampled capped (cell_of (string_val [])))
        ≡ true)
pick_eviction_victim_lem_example =
    pick_eviction_victim_lem capped 5 (cell_of (string_val [])) (key_a, entry_of (string_val []))
      refl

entry_count-write_string_example :
    (write_string capped key_b 5 [] (pos 0) false (cell_of (string_val []))).entry_count ≤ 1
unfolding pick_eviction_victim pick_loop lookup beq
entry_count-write_string_example =
    entry_count-write_string capped key_b 5 [] (pos 0) (cell_of (string_val [])) 0 refl refl refl
      (omega arith)

glob_match_iff_example :
    (glob_match (codes "h[a-c]*") (codes "hbxx") ≡ true) ↔ Matches (codes "h[a-c]*") (codes "hbxx")
glob_match_iff_example = glob_match_iff (codes "h[a-c]*") (codes "hbxx")

-- Two members with the score 1 and one with the score 0, which ZRANGE puts first.
abbrev scored : List ZMember
scored = (codes "z", 0) ∷ (codes "x", 4607182418800017408) ∷ (codes "y", 4607182418800017408) ∷ []

abbrev board : Cell
board = cell_of (
    zset_val
      ((codes "x", 4607182418800017408) ∷ (codes "z", 0) ∷ (codes "y", 4607182418800017408) ∷ []))
