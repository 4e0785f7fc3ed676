-- ===== src/Writing/EdgeLine/Ends.antt =====
-- The columns for the coordinates of an edge's destination.
use osmgraphing.Prelude.{◌≡◌, ◌≢◌, refl, sym, ◌∙◌}
use osmgraphing.Rust.Outcome.{ok, ok_inj}
use osmgraphing.Rust.Float.{Float64, FloatText}
use osmgraphing.Network.Geo.{Geo}
use osmgraphing.Network.Graph.{
  EdgeIdx, NodeIdx, Graph, nodes, fwd_edges, bwd_edges, node_coord, dst_idx,
}
use osmgraphing.Configs.Edges
use osmgraphing.Writing.EdgeLine.{edge_info}

module _ {F C : Type 0} ⦃f : Float64 F⦄ ⦃t : FloatText F⦄ ⦃geo : Geo F C⦄ where
  -- If the latitudes of an edge's ends are displayed differently, then what is written for the
  -- latitude of its destination is the latitude of its source, and not that of its destination.
  pub edge_info-dst_lat :
      (graph : Graph F C) (edge_idx : EdgeIdx) (src dst : NodeIdx) (from to : C)
      → dst_idx (bwd_edges graph) edge_idx ≡ ok src
      → dst_idx (fwd_edges graph) edge_idx ≡ ok dst
      → node_coord (nodes graph) src ≡ ok from
      → node_coord (nodes graph) dst ≡ ok to
      → t.display_f64 (geo.lat from) ≢ t.display_f64 (geo.lat to)
      → (edge_info graph edge_idx Edges.MetaInfo.dst_lat ≡ ok (t.display_f64 (geo.lat from)))
        × (edge_info graph edge_idx Edges.MetaInfo.dst_lat ≢ ok (t.display_f64 (geo.lat to)))
  unfolding edge_info
  edge_info-dst_lat graph edge_idx src dst from to src_is dst_is from_is to_is differ =
      let written : edge_info graph edge_idx Edges.MetaInfo.dst_lat
          ≡ ok (t.display_f64 (geo.lat from)) =
        rw src_is (rw from_is refl) in
      (written, λ h. differ (ok_inj (sym written ∙ h)))
