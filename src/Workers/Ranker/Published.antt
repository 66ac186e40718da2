-- ===== src/Workers/Ranker/Published.antt =====
-- What a cycle of validator/ranker.py publishes.
use transparent_gateway.Prelude.{
  ◌≤◌, ◌≡◌, refl, subst, ◌∙◌, false, Option, some, List, [], Text, str, text_eq, text_beq, eq_self,
  length, min,
}
use transparent_gateway.Prelude.Int.{pos_part}
use transparent_gateway.Python.{
  ok, >>=-eq-ok, ok_injective, Value, Fields, obj, Runtime, IsFloatOrder,
}
use transparent_gateway.Ranking.{passing, rank_entries, select_active_entries}
use transparent_gateway.Ranking.Active.{select_active_entries_bounds}
use transparent_gateway.Ranking.Greedy.Total.{rank_entries-length}
use transparent_gateway.Storage.{
  Redis, value_of, temporary_key, active_key, gateway_active_key, publish_active_snapshot,
}
use transparent_gateway.Storage.Atomic.{published, publish_snapshot-published, value_of-published}
use transparent_gateway.Workers.Ranker.{Settings, Pools, entries_of, make_pools}

module _ (R : Runtime) (getenv : Text → Option Text) where
  -- The ranked pool has the reserve size or all entries that pass the minimum score, whichever is
  -- fewer, and the active pool has at most the pool size.
  pub make_pools_sizes :
      IsFloatOrder R
      → (s : Settings) (validated : Fields) (pools : Pools)
      → make_pools R getenv s validated ≡ ok pools
      → (entries : List Fields) × (kept : List Fields) × (entries_of validated ≡ ok entries)
        × (passing R s.min_score entries ≡ ok kept)
        × (length pools.ranked ≡ min (pos_part s.reserve_size) (length kept))
        × (length pools.active ≤ pos_part s.pool_size)
  unfolding make_pools
  make_pools_sizes L s validated pools h =
      let (entries, found, h₁) = >>=-eq-ok (entries_of validated) _ h in
      let (ranked, made, h₂) =
        >>=-eq-ok (rank_entries R entries s.reserve_size s.min_score s.unknown_asn_penalty) _ h₁ in
      let (active, selected, h₃) =
        >>=-eq-ok (select_active_entries R ranked s.pool_size s.max_unknown_asn_ratio) _ h₂ in
      let (kept, passed, count) = rank_entries-length R L entries _ _ _ ranked made in
      let (_, _, bound, _) = select_active_entries_bounds R ranked _ _ active selected in
      (
        entries,
        kept,
        found,
        passed,
        subst (λ p. length p.ranked ≡ min (pos_part s.reserve_size) (length kept)) (ok_injective h₃)
            count,
        subst (λ p. length p.active ≤ pos_part s.pool_size) (ok_injective h₃) bound,
      )

module _ (dumps : Value → Text) (active_uuid gateway_uuid : Text) (snapshot : Fields) where
  gateway_key_apart : text_beq gateway_active_key active_key ≡ false
  unfolding gateway_active_key active_key str text_beq
  gateway_key_apart = refl

  temporary_key_apart : text_beq (temporary_key gateway_active_key gateway_uuid) active_key ≡ false
  unfolding gateway_active_key active_key temporary_key str text_beq
  temporary_key_apart = refl

  -- If no command fails, both keys of the active pool end with the text of the snapshot, whatever
  -- Redis held before and whatever the identifiers of the temporary keys are.
  pub publish_active_snapshot_lem :
      (content : List (Text × Text))
      → (final : Redis) × (publish_active_snapshot dumps active_uuid gateway_uuid snapshot
            (record { content = content; fates = [] })
          ≡ (ok tt, final))
        × (value_of final.content active_key ≡ some (dumps (obj snapshot)))
        × (value_of final.content gateway_active_key ≡ some (dumps (obj snapshot)))
  unfolding publish_active_snapshot
  publish_active_snapshot_lem content =
      let once = published dumps active_uuid active_key snapshot content in
      (
        record {
          content = published dumps gateway_uuid gateway_active_key snapshot once;
          fates = [];
        },
        rw (publish_snapshot-published dumps active_uuid active_key snapshot content)
            (publish_snapshot-published dumps gateway_uuid gateway_active_key snapshot once),
        value_of-published dumps gateway_uuid gateway_active_key snapshot once active_key
            ∙ rw (gateway_key_apart, temporary_key_apart)
                (value_of-published dumps active_uuid active_key snapshot content active_key
                  ∙ rw (eq_self active_key) refl),
        value_of-published dumps gateway_uuid gateway_active_key snapshot once gateway_active_key
            ∙ rw (eq_self gateway_active_key) refl,
      )
