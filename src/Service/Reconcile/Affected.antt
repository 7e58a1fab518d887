-- ===== src/Service/Reconcile/Affected.antt =====
-- runtime_reconcile.go: the nodes and groups that a change affects, and the mappings that use them.
-- affectedNodeIDs and expandedNodeIDs of the code have the same elements, and are one set here.
use mathlib.Core.Option
use proxy_hub.Prelude.{
  ℕ, suc, ◌+◌, ◌==◌, Bool, false, not, ◌&&◌, ◌||◌, String, List, [], ◌∷◌, ◌++◌, Option, none, some,
  if◌then◌else◌, length,
}
use proxy_hub.Prelude.Text.{is_empty, trim_space}
use proxy_hub.ProxyUri.Unique.{has_text, has_trimmed, unique_non_empty}
use proxy_hub.Service.Errors.{Result, ok, err, ◌>>=◌}
use proxy_hub.Service.Rows.{
  JsonReader, ProxyNode, ProxyGroup, PortMapping, is_chain_protocol, chain_node_ids,
  chain_group_ids, chain_members, decode_strings,
}
use proxy_hub.Service.Reconcile.Closure.{sweep, saturate}

unfoldable pub slices_intersect : List String → List String → Bool
unfolding has_trimmed trim_space
slices_intersect [] second = false
slices_intersect (f ∷ fs) second =
    (not (is_empty (trim_space f)) && has_trimmed (trim_space f) second)
    || slices_intersect fs second

-- Whether one of the texts is in the set, as it stands.
unfoldable pub some_in : List String → List String → Bool
unfolding has_text
some_in [] set = false
some_in (x ∷ xs) set = has_text x set || some_in xs set

abbrev pub node_id : ProxyNode → String
node_id n = n.id

abbrev pub group_id : ProxyGroup → String
group_id g = g.id

-- The nodes and the groups that are affected.
pub record Affected : Type 0 where
  pub nodes : List String
  pub groups : List String

module _ (json : JsonReader) where
  abbrev pub chains_a_node : List String → ProxyNode → Bool
  chains_a_node nodes n =
      is_chain_protocol n.protocol && slices_intersect (chain_node_ids (chain_members json n)) nodes

  abbrev pub chains_a_group : List String → ProxyNode → Bool
  chains_a_group groups n =
      is_chain_protocol n.protocol
      && slices_intersect (chain_group_ids (chain_members json n)) groups

  abbrev pub holds_a_node : List String → ProxyGroup → Bool
  holds_a_node nodes g = slices_intersect (decode_strings json g.node_ids_json) nodes

  abbrev pub holds_a_group : List String → ProxyGroup → Bool
  holds_a_group groups g = some_in (decode_strings json g.group_ids_json) groups

  -- A round of the first loop tests against the set at its start.
  unfoldable pub chain_round : List ProxyNode → List String → Option (List String × Bool)
  unfolding sweep slices_intersect
  chain_round rows set = some (sweep node_id (λ n t. chains_a_node set n) rows set)

  -- A round of expandAffectedGroups tests against the set as it grows.
  unfoldable pub group_round : List ProxyGroup → List String → Option (List String × Bool)
  unfolding sweep some_in
  group_round rows set = some (sweep group_id (λ g t. holds_a_group t g) rows set)

  unfoldable pub expand_affected_groups : ℕ → List ProxyGroup → List String → Option (List String)
  unfolding saturate group_round
  expand_affected_groups fuel groups set = saturate (group_round groups) fuel set

  -- The rest of a round of the second loop, once the groups are expanded.
  abbrev pub finish_round :
      List ProxyNode → Affected → List String × Bool → List String → Affected × Bool
  finish_round nodes a found expanded =
      let chained = sweep node_id (λ n t. chains_a_group expanded n) nodes a.nodes in
      (
        record { nodes = chained.0; groups = expanded },
        found.1 || not (length expanded == length found.0) || chained.1,
      )

  unfoldable pub affected_round :
      ℕ → List ProxyNode → List ProxyGroup → Affected → Option (Affected × Bool)
  unfolding sweep expand_affected_groups slices_intersect
  affected_round fuel nodes groups a =
      let found = sweep group_id (λ g t. holds_a_node a.nodes g) groups a.groups in
      Option.map (finish_round nodes a found) (expand_affected_groups fuel groups found.0)

  abbrev pub second_loop :
      ℕ → List ProxyNode → List ProxyGroup → Option (List String) → Option Affected
  second_loop fuel nodes groups none = none
  second_loop fuel nodes groups (some chained) =
      saturate (affected_round fuel nodes groups) fuel (record { nodes = chained; groups = [] })

  -- Both loops, each of them and each round of the second one on the same fuel.
  unfoldable pub affected_by_nodes :
      ℕ → List ProxyNode → List ProxyGroup → List String → Option Affected
  unfolding saturate chain_round affected_round
  affected_by_nodes fuel nodes groups changed =
      second_loop fuel nodes groups (saturate (chain_round nodes) fuel changed)

  abbrev pub uses_affected : List String → List String → PortMapping → Bool
  uses_affected nodes groups m =
      slices_intersect (decode_strings json m.node_ids_json) nodes
      || slices_intersect (decode_strings json m.group_ids_json) groups

  unfoldable pub mapping_ids : List String → List String → List PortMapping → List String
  unfolding slices_intersect
  mapping_ids nodes groups [] = []
  mapping_ids nodes groups (m ∷ ms) =
      let rest = mapping_ids nodes groups ms in
      if uses_affected nodes groups m then m.id ∷ rest else rest

  -- runtimeAffectedMappingIDsByNodesAndGroups, with the rows of the mappings or the error.
  unfoldable pub mappings_by_nodes_and_groups :
      List String → List String → Result (List PortMapping) → Result (List String)
  unfolding mapping_ids unique_non_empty
  mappings_by_nodes_and_groups nodes groups find_mappings =
      let ns = unique_non_empty nodes in
      let gs = unique_non_empty groups in
      elim (ns ++ gs) [
        | [] ↦ ok []
        | x ∷ xs ↦ find_mappings >>= λ ms. ok (unique_non_empty (mapping_ids ns gs ms))
      ]

  -- Enough for every loop: each round but the last adds a node or a group.
  abbrev pub loop_fuel : List ProxyNode → List ProxyGroup → ℕ
  loop_fuel nodes groups = suc (length nodes + length groups)

  abbrev pub mappings_of :
      Result (List PortMapping) → Option Affected → Option (Result (List String))
  mappings_of find_mappings none = none
  mappings_of find_mappings (some a) =
      some (mappings_by_nodes_and_groups a.nodes a.groups find_mappings)

  -- runtimeAffectedMappingIDsByNodes, with the rows of each table or the error; `none` means that
  -- the fuel ran out.
  unfoldable pub mappings_by_nodes :
      List String
      → Result (List ProxyGroup)
      → Result (List ProxyNode)
      → Result (List PortMapping)
      → Option (Result (List String))
  unfolding affected_by_nodes mappings_by_nodes_and_groups unique_non_empty
  mappings_by_nodes changed find_groups find_nodes find_mappings = elim (unique_non_empty changed) [
    | [] ↦ some (ok [])
    | c ∷ cs ↦ elim find_groups [
      | err e ↦ some (err e)
      | ok groups ↦ elim find_nodes [
        | err e ↦ some (err e)
        | ok nodes ↦
            mappings_of find_mappings
              (affected_by_nodes (loop_fuel nodes groups) nodes groups (c ∷ cs))
      ]
    ]
  ]

  abbrev pub chain_ids : List String → List ProxyNode → List String
  chain_ids groups [] = []
  chain_ids groups (n ∷ ns) =
      let rest = chain_ids groups ns in if chains_a_group groups n then n.id ∷ rest else rest

  abbrev pub joined : Result (List String) → Result (List String) → Result (List String)
  joined by_nodes by_groups =
      by_nodes >>= λ ns. by_groups >>= λ gs. ok (unique_non_empty (gs ++ ns))

  -- runtimeAffectedMappingIDsByGroups.
  unfoldable pub mappings_by_groups :
      List String
      → Result (List ProxyGroup)
      → Result (List ProxyNode)
      → Result (List PortMapping)
      → Option (Result (List String))
  unfolding expand_affected_groups mappings_by_nodes mappings_by_nodes_and_groups unique_non_empty
  mappings_by_groups changed find_groups find_nodes find_mappings =
      elim (unique_non_empty changed) [
        | [] ↦ some (ok [])
        | c ∷ cs ↦ elim find_groups [
          | err e ↦ some (err e)
          | ok groups ↦ elim (expand_affected_groups (suc (length groups)) groups (c ∷ cs)) [
            | none ↦ none
            | some expanded ↦ elim find_nodes [
              | err e ↦ some (err e)
              | ok nodes ↦
                  let by_groups = mappings_by_nodes_and_groups [] expanded find_mappings in
                  elim (chain_ids expanded nodes) [
                    | [] ↦ some by_groups
                    | n ∷ ns ↦
                        Option.map (λ by_nodes. joined by_nodes by_groups)
                          (mappings_by_nodes (n ∷ ns) (ok groups) (ok nodes) find_mappings)
                  ]
            ]
          ]
        ]
      ]
