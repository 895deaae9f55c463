-- ===== src/Mutex/Frame.antt =====
-- mutex/ricart_agrawala.go: what the messages of a request and of a release leave alone.
use dynamo_db.Prelude.{◌≡◌, refl, ◌∙◌, ap, Bool, List, [], ◌∷◌, arith, ℤ, Bool-cases, inl, inr}
use dynamo_db.Node.{Node, increment_clock, get_node_address}
use dynamo_db.Node.Storage.{Network, Cluster}
use dynamo_db.Node.Handlers.{CsRequestArgs, CsReleaseArgs, request_cs, release_cs}
use dynamo_db.Node.Rpc.{call, dials, increment_at, view, Preserves, call-keeps, increment_at-keeps}
use dynamo_db.Mutex.{
  Tally, send_cs_request, ask_all, Notice, deferred_reply, release_notice, send_deferred_reply,
  send_release_notification, send_notice, send_all,
}

module _ {A : Type 0} (part : Node → A) (j : ℤ)
    (keeps : (args : CsRequestArgs) → Preserves part j (request_cs args)) where
  send_cs_request-eq :
      (net : Network) (n : Node) (node_id timestamp : ℤ) (cluster : Cluster)
      → (send_cs_request net n node_id timestamp cluster).0
        ≡ (call net
            (get_node_address node_id n)
            (request_cs (record { node_id = n.id; timestamp = timestamp }))
            cluster).0
  unfolding send_cs_request
  send_cs_request-eq net n node_id timestamp cluster = ground arith

  pub ask_all-keeps :
      (net : Network) (n : Node) (in_time : ℤ → Bool) (timestamp : ℤ) (node_ids : List ℤ)
      (cluster : Cluster) (tally : Tally)
      → view part j (ask_all net n in_time timestamp node_ids cluster tally).0 ≡ view part j cluster
  unfolding ask_all
  ask_all-keeps net n in_time timestamp [] cluster tally = refl
  ask_all-keeps net n in_time timestamp (node_id ∷ node_ids) cluster tally =
      let args : CsRequestArgs = record { node_id = n.id; timestamp = timestamp } in
      ask_all-keeps net n in_time timestamp node_ids _ _
      ∙ ap (view part j) (send_cs_request-eq net n node_id timestamp cluster)
      ∙ call-keeps part j net (get_node_address node_id n) (request_cs args) cluster (keeps args)

  module _ (releases : (args : CsReleaseArgs) → Preserves part j (release_cs args))
      (ticks : (n : Node) → part (increment_clock n).0 ≡ part n) where
    send_notice-keeps :
        (net : Network) (n : Node) (notice : Notice) (cluster : Cluster)
        → view part j (send_notice net n notice cluster) ≡ view part j cluster
    unfolding send_notice send_deferred_reply send_release_notification
    send_notice-keeps net n (deferred_reply node_id) cluster =
        let at = get_node_address node_id n in
        let ticked = increment_at n.id cluster in
        let args : CsRequestArgs = record { node_id = n.id; timestamp = ticked.1 } in
        elim (Bool-cases (dials net at)) [
          | inl up ↦ rw up (
              call-keeps part j net at (request_cs args) ticked.0 (keeps args)
              ∙ increment_at-keeps part j n.id cluster ticks)
          | inr down ↦ rw down refl
        ]
    send_notice-keeps net n (release_notice node_id) cluster =
        let at = get_node_address node_id n in
        let ticked = increment_at n.id cluster in
        let args : CsReleaseArgs = record { node_id = n.id; timestamp = ticked.1 } in
        elim (Bool-cases (dials net at)) [
          | inl up ↦ rw up (
              call-keeps part j net at (release_cs args) ticked.0 (releases args)
              ∙ increment_at-keeps part j n.id cluster ticks)
          | inr down ↦ rw down refl
        ]

    pub send_all-keeps :
        (net : Network) (n : Node) (notices : List Notice) (cluster : Cluster)
        → view part j (send_all net n notices cluster) ≡ view part j cluster
    unfolding send_all
    send_all-keeps net n [] cluster = refl
    send_all-keeps net n (notice ∷ rest) cluster =
        send_all-keeps net n rest (send_notice net n notice cluster)
        ∙ send_notice-keeps net n notice cluster
