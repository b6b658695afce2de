-- ===== src/Node/Shown.antt =====
-- The commands of internal/cmd/show_node_id.go and version.go.
use tenderseed.Common.{ℕ, List, [], ◌∷◌, ◌≡◌, Text, ap, refl}
use tenderseed.Address.{Net}
use tenderseed.Config.{Config}
use tenderseed.Node.{version, World, Built, built, stopped, Outside}
use tenderseed.Node.Tm2.{Tm2Calls}
use tenderseed.Node.Cosmos.{CosmosCalls}
use tenderseed.Node.Choice.{Node, announced, announced_version, new_node, node_id}
use tenderseed.Node.Lifecycle.{ExitStatus, exit_success, exit_failure}
use tenderseed.Node.Identity.{node_id-announced}

-- The lines on the standard output, and the status of the process; an error is printed on the other output.
unfoldable shown : Built Text → List Text × ExitStatus
shown (built id) = (id ∷ [], exit_success)
shown (stopped e) = ([], exit_failure)

-- `Execute` of the version command.
unfoldable pub execute_version : List Text × ExitStatus
execute_version = (version ∷ [], exit_success)

module _ {Addr : Type 0} (outside : Outside) (cosmos_calls : CosmosCalls Addr) (calls : Tm2Calls)
    (net : Net) where
  -- `Execute` of the show-node-id command.
  unfoldable pub execute_show_node_id : Text → Config → World → List Text × ExitStatus
  unfolding shown
  execute_show_node_id home config w =
      shown (node_id outside cosmos_calls calls net home config w).0

  -- Where a node is built from a home and a configuration, at whatever time, on either stack: the
  -- show-node-id command for the same home and configuration succeeds and prints one line, which is the
  -- identity that the node announces, and the version command prints the version that it announces.
  pub execute_show_node_id-announced :
      (home : Text) (config : Config) (now : ℕ) (w w' : World) {node : Node Addr}
      → (new_node outside cosmos_calls calls net home config now w).0 ≡ built node
      → (execute_show_node_id home config w' ≡ (announced node ∷ [], exit_success))
        × (execute_version ≡ (announced_version node ∷ [], exit_success))
  unfolding execute_show_node_id execute_version
  execute_show_node_id-announced home config now w w' h =
      let (id, v) = node_id-announced outside cosmos_calls calls net home config now w w' h in
      (ap shown id, rw v refl)
