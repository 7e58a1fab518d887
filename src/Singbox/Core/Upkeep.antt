-- ===== src/Singbox/Core/Upkeep.antt =====
-- core/singboxcore/core.go: probes on request, the collection of removed nodes, and the snapshot.
use proxy_hub.Prelude.{ℕ, Bool, String, Option, none, some, List, [], ◌∷◌, ◌++◌, map}
use proxy_hub.Prelude.Maps.{Map, insert}
use proxy_hub.Prelude.Sort.{stable_sort}
use proxy_hub.Prelude.Text.{trim_space, text_less}
use proxy_hub.Singbox.Time.{Time}
use proxy_hub.Singbox.Errors.{Error, Result, ok, ◌>>=◌}
use proxy_hub.Singbox.Manager.{Manager}
use proxy_hub.Singbox.Group.State.{Group, Clock}
use proxy_hub.Singbox.Group.Members.{gc}
use proxy_hub.Singbox.Group.Candidates.{select_best_candidate}
use proxy_hub.Singbox.Group.Probe.{ProbeAnswer, run_probe_round_now}
use proxy_hub.Singbox.Group.Snapshot.{GroupSnapshot, snapshot_group}
use proxy_hub.Singbox.Core.State.{Core, remove_all_tags, find_group}

module _ (m : Manager) where
  open m use {Store, has, create, remove}

  abbrev pub with_probed : Core m → String → Option Group → Option (Core m)
  with_probed c id none = none
  with_probed c id (some g) = some (record c { groups = insert (trim_space id) g c.groups })

  -- ProbeLeastLatencyGroup: a round, then the best candidate is selected. `none` is the panic.
  unfoldable pub probe_group :
      Core m
      → String
      → (ℕ → ProbeAnswer)
      → Clock
      → (ℕ → Clock)
      → Time
      → List (ℕ × ℕ)
      → Result (Option (Core m))
  probe_group c group_id answers clock clocks now swaps = do
    g ← find_group m c group_id
    ok (
        with_probed c group_id
          (select_best_candidate (run_probe_round_now g answers clock clocks) now swaps))

  -- GC of every group that was there at its start, each with its clock.
  unfoldable pub gc_groups : Core m → (String → Clock) → Map Group → Core m × List Error
  unfolding remove_all_tags
  gc_groups c clocks [] = (c, [])
  gc_groups c clocks ((id, g) ∷ gs) =
      let (g', ready) = gc g (clocks id) in
      let (c', es) = remove_all_tags m (record c { groups = insert id g' c.groups }) ready in
      let (c'', fs) = gc_groups c' clocks gs in (c'', es ++ fs)

  unfoldable pub gc_core : Core m → (String → Clock) → Core m × List Error
  unfolding gc_groups
  gc_core c clocks = gc_groups c clocks c.groups

-- CoreState, with the groups in the order of their tags.
pub record CoreState : Type 0 where
  pub running : Bool
  pub groups : List GroupSnapshot

-- Snapshot.
unfoldable pub snapshot_core : (m : Manager) → Core m → Time → CoreState
unfolding snapshot_group text_less
snapshot_core m c now = record {
  running = c.started;
  groups =
      stable_sort (λ (a b : GroupSnapshot). text_less a.tag b.tag)
        (map (λ e. snapshot_group e.1 now) c.groups);
}
