-- ===== src/Tree.antt =====
-- The accessibility tree: crates/core/src/node.rs, node_identity.rs and node_presentation.rs. The
-- fields of a node but its children are the record `NodeData`.
pub mod Paths
use agent_desktop.Prelude.{
  Bool, List, Option, [], false, map_option, true, ℕ, ◌++◌, ◌∷◌, none, some,
}
use agent_desktop.Text.{Text}
use agent_desktop.Geometry.{Rect}
use agent_desktop.RefEntry.{ElementIdentifier}
use agent_desktop.RefToken.{qualify_ref_id}

pub record NodeIdentity : Type 0 where
  pub retained_object : Option Text
  pub name : Option Text
  pub value : Option Text
  pub description : Option Text
  pub native_id : Option ElementIdentifier

pub record NodePresentation : Type 0 where
  pub hint : Option Text
  pub states : List Text
  pub available_actions : List Text
  pub bounds : Option Rect

pub record NodeData : Type 0 where
  pub ref_id : Option Text
  pub role : Text
  pub identity : NodeIdentity
  pub presentation : NodePresentation
  pub children_count : Option ℕ
  pub subtree_truncated : Bool

mutual
  pub data AccessibilityNode : Type 0 where
    node : NodeData → Nodes → AccessibilityNode

  pub data Nodes : Type 0 where
    nil : Nodes
    cons : AccessibilityNode → Nodes → Nodes

abbrev pub node_data : AccessibilityNode → NodeData
node_data (node d cs) = d

abbrev pub children : AccessibilityNode → Nodes
children (node d cs) = cs

abbrev pub no_nodes : Nodes → Bool
no_nodes nil = true
no_nodes (cons c cs) = false

-- `children.len() == 1`.
abbrev pub is_singleton : Nodes → Bool
is_singleton nil = false
is_singleton (cons c cs) = no_nodes cs

-- `children.into_iter().next()`, put in front of what follows.
abbrev pub promote_first : Nodes → Nodes → Nodes
promote_first nil rest = rest
promote_first (cons c cs) rest = cons c rest

-- `qualify_tree_refs` of ref_token.rs.
unfoldable mutual
  pub qualify_tree_refs : Text → AccessibilityNode → AccessibilityNode
  qualify_tree_refs snapshot_id (node d cs) =
      node (record d { ref_id = map_option (qualify_ref_id snapshot_id) d.ref_id })
        (qualify_children snapshot_id cs)

  pub qualify_children : Text → Nodes → Nodes
  qualify_children snapshot_id nil = nil
  qualify_children snapshot_id (cons c cs) =
      cons (qualify_tree_refs snapshot_id c) (qualify_children snapshot_id cs)

abbrev pub own_ref : Option Text → NodeData → List (Text × NodeData)
own_ref none d = []
own_ref (some id) d = (id, d) ∷ []

-- The nodes of a tree that carry a ref, in document order, each with its ref.
unfoldable mutual
  pub ref_nodes : AccessibilityNode → List (Text × NodeData)
  ref_nodes (node d cs) = own_ref d.ref_id d ++ ref_nodes_in cs

  pub ref_nodes_in : Nodes → List (Text × NodeData)
  ref_nodes_in nil = []
  ref_nodes_in (cons c cs) = ref_nodes c ++ ref_nodes_in cs
