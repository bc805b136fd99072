-- ===== src/Cache/Tests.antt =====
-- server/response_cache.rs on a directory of two responses and a folder.
use ida_mcp.Base.{
  ℕ, ◌+◌, ◌≤◌, ◌≡◌, refl, true, false, none, some, [], ◌∷◌, text, text_discrete, ℕ_discrete, arith,
  text_key,
}
use ida_mcp.Base.Sort.{sort, place}
use ida_mcp.Cache.{prune_to_limit, stats}
use ida_mcp.Cache.Prune.{prune_to_limit_lem}
use ida_mcp.Files.{Metadata, Dir, evict_group, evict_groups}
use ida_mcp.Files.Evict.{size, every, always}

abbrev file : ℕ → ℕ → Metadata
file len modified = record { is_file = true; len = len; modified = some modified }

abbrev responses : Dir
responses =
    (text "new.json", some (file 500 2))
    ∷ (text "old.json", some (file 600 1))
    ∷ (text "folder", some (record { is_file = false; len = 64; modified = none }))
    ∷ []

-- The older of the two goes.
prune_to_limit_test :
    (prune_to_limit always 700 responses).dir
    ≡ (text "new.json", some (file 500 2))
      ∷ (text "folder", some (record { is_file = false; len = 64; modified = none }))
      ∷ []
unfolding prune_to_limit evict_groups evict_group sort place text_discrete ℕ_discrete
prune_to_limit_test = refl

-- A file that cannot be removed is counted as gone.
prune_to_limit_stuck : (prune_to_limit (λ name. false) 700 responses).remaining_bytes ≡ 500
unfolding prune_to_limit evict_groups evict_group sort place
prune_to_limit_stuck = refl

stats_test : (stats (some responses)).file_count ≡ 2
unfolding stats
stats_test = refl

prune_to_limit_lem_example :
    let w = prune_to_limit always 700 responses in
    (w.remaining_bytes ≡ size every w.dir)
    × (w.remaining_bytes ≤ 700)
    × (w.evicted_bytes + w.remaining_bytes ≡ size every responses)
prune_to_limit_lem_example =
    prune_to_limit_lem 700 responses (unfold text_discrete ℕ_discrete in (refl, (refl, (refl, tt))))
      (omega arith)
