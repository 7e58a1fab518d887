-- ===== src/Service/Rows.antt =====
-- The rows of service/proxy and what dto.go reads in them: lists of identities and the members of
-- chains, both kept as JSON.
use proxy_hub.Prelude.{
  ℕ, ◌==◌, Bool, true, false, ◌&&◌, ◌||◌, String, List, [], ◌∷◌, map, Option, none, some,
  if◌then◌else◌,
}
use Prim.Native.Char.{code}
use proxy_hub.Prelude.Text.{str_eq, is_empty, trim_space, codes, lower_codes}
use proxy_hub.ProxyUri.Unique.{unique_non_empty}

pub record ChainMember : Type 0 where
  pub member_type : String
  pub id : String

-- encoding/json on the two kinds of lists; `none` is an error.
pub record JsonReader : Type 0 where
  pub read_strings : String → Option (List String)
  pub read_members : String → Option (List ChainMember)

-- The fields of the rows that the runtime reads to find what a change affects.
pub record ProxyNode : Type 0 where
  pub id : String
  pub protocol : String
  pub chain_node_ids_json : String
  pub chain_members_json : String

pub record ProxyGroup : Type 0 where
  pub id : String
  pub node_ids_json : String
  pub group_ids_json : String

pub record PortMapping : Type 0 where
  pub id : String
  pub node_ids_json : String
  pub group_ids_json : String

abbrev pub member_node : String
member_node = "node"

abbrev pub member_group : String
member_group = "group"

-- strings.TrimSuffix(s, ":").
unfoldable pub trim_colon : String → String
trim_colon String.[] = String.[]
trim_colon (String.◌∷◌ c s) =
    let rest = trim_colon s in if is_empty s && code c == b':' then String.[] else String.◌∷◌ c rest

unfoldable pub same_codes : List ℕ → List ℕ → Bool
same_codes [] [] = true
same_codes (a ∷ as') (b ∷ bs) = a == b && same_codes as' bs
same_codes _ _ = false

-- normalizeProtocol(protocol) == ProtocolChain: the normalization of proxyuri never says "chain".
unfoldable pub is_chain_protocol : String → Bool
unfolding trim_colon same_codes lower_codes codes trim_space
is_chain_protocol protocol =
    same_codes (lower_codes (trim_space (trim_colon protocol))) (codes "chain")

unfoldable pub normalize_member_type : String → String
unfolding trim_space
normalize_member_type value =
    let t = trim_space value in
    if str_eq t member_node then member_node else if str_eq t member_group then member_group else ""

abbrev pub same_member : ChainMember → ChainMember → Bool
same_member a b = str_eq a.member_type b.member_type && str_eq a.id b.id

unfoldable pub has_member : ChainMember → List ChainMember → Bool
has_member a [] = false
has_member a (b ∷ bs) = same_member b a || has_member a bs

-- The loop, with the members that it has seen: a key is a type, which is one of the two, and an
-- identity.
unfoldable pub normalize_members_from : List ChainMember → List ChainMember → List ChainMember
unfolding has_member normalize_member_type trim_space
normalize_members_from seen [] = []
normalize_members_from seen (m ∷ ms) =
    let a = record m { member_type = normalize_member_type m.member_type; id = trim_space m.id } in
    let skipped = normalize_members_from seen ms in
    let kept = a ∷ normalize_members_from (a ∷ seen) ms in
    if is_empty a.member_type || is_empty a.id || has_member a seen then skipped else kept

unfoldable pub normalize_members : List ChainMember → List ChainMember
unfolding normalize_members_from
normalize_members members = normalize_members_from [] members

unfoldable pub members_of_type : String → List ChainMember → List String
members_of_type t [] = []
members_of_type t (m ∷ ms) =
    let rest = members_of_type t ms in if str_eq m.member_type t then m.id ∷ rest else rest

unfoldable pub chain_node_ids : List ChainMember → List String
unfolding normalize_members members_of_type
chain_node_ids members = members_of_type member_node (normalize_members members)

unfoldable pub chain_group_ids : List ChainMember → List String
unfolding normalize_members members_of_type
chain_group_ids members = members_of_type member_group (normalize_members members)

unfoldable pub members_from_node_ids : List String → List ChainMember
unfolding unique_non_empty
members_from_node_ids nodes =
    map (λ node. record { member_type = member_node; id = node }) (unique_non_empty nodes)

abbrev pub list_or_empty {ℓ} : {A : Type ℓ} → Option (List A) → List A
list_or_empty none = []
list_or_empty (some xs) = xs

abbrev pub first_if_any : List ChainMember → List ChainMember → List ChainMember
first_if_any [] other = other
first_if_any (m ∷ ms) other = m ∷ ms

module _ (json : JsonReader) where
  unfoldable pub decode_strings : String → List String
  decode_strings raw = if is_empty raw then [] else list_or_empty (json.read_strings raw)

  unfoldable pub decode_members : String → List ChainMember
  unfolding normalize_members
  decode_members raw =
      if is_empty raw then [] else normalize_members (list_or_empty (json.read_members raw))

  unfoldable pub chain_members : ProxyNode → List ChainMember
  unfolding decode_members decode_strings members_from_node_ids
  chain_members node =
      first_if_any (decode_members node.chain_members_json)
        (members_from_node_ids (decode_strings node.chain_node_ids_json))
