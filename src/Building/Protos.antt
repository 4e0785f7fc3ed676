-- ===== src/Building/Protos.antt =====
-- network/graph/building.rs: the proto-edges and proto-nodes, and the three builders' fields.
use osmgraphing.Prelude.{ℕ, Option, List}
use osmgraphing.Prelude.Int.{ℤ}
use osmgraphing.Network.Graph.{NodeIdx, EdgeIdx, Config}

pub record ProtoNode (C : Type 0) : Type 0 where
  pub id : ℤ
  pub coord : C
  pub ch_level : Option ℕ

pub record ProtoEdge (F : Type 0) : Type 0 where
  pub id : Option ℕ
  pub src_id : ℤ
  pub dst_id : ℤ
  pub metrics : List F

pub record ProtoShortcut (F : Type 0) : Type 0 where
  pub proto_edge : ProtoEdge F
  pub sc_edges : Option (EdgeIdx × EdgeIdx)

pub record ProtoEdgeA (F : Type 0) : Type 0 where
  pub idx : ℕ
  pub id : Option ℕ
  pub src_id : ℤ
  pub dst_id : ℤ
  pub metrics : List F
  pub sc_edges : Option ℕ

pub record ProtoEdgeB (F : Type 0) : Type 0 where
  pub idx : ℕ
  pub id : Option ℕ
  pub src_idx : NodeIdx
  pub dst_idx : NodeIdx
  pub metrics : List F
  pub sc_edges : Option ℕ

pub record ProtoEdgeC : Type 0 where
  pub src_idx : NodeIdx
  pub dst_idx : NodeIdx
  pub idx : ℕ
  pub id : Option ℕ

pub record EdgeBuilder (F : Type 0) : Type 0 where
  pub cfg : Config
  pub node_ids : List ℤ
  pub proto_edges : List (ProtoEdgeA F)
  pub proto_shortcuts : List (EdgeIdx × EdgeIdx)

pub record NodeBuilder (F C : Type 0) : Type 0 where
  pub cfg : Config
  pub node_ids : List ℤ
  pub node_coords : List (Option C)
  pub node_ch_levels : List ℕ
  pub proto_edges : List (ProtoEdgeA F)
  pub proto_shortcuts : List (EdgeIdx × EdgeIdx)

pub record GraphBuilder (F C : Type 0) : Type 0 where
  pub cfg : Config
  pub node_ids : List ℤ
  pub node_coords : List (Option C)
  pub node_ch_levels : List ℕ
  pub proto_edges : List (ProtoEdgeA F)
  pub proto_shortcuts : List (EdgeIdx × EdgeIdx)
