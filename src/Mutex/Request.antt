-- ===== src/Mutex/Request.antt =====
-- mutex/ricart_agrawala.go: how a request ends.
use dynamo_db.Prelude.{
  ℕ, zero, suc, ◌≡◌, ◌≢◌, refl, Bool, true, false, some, List, arith, length, eqb_ℕ, ℤ,
  if◌then◌else◌, Bool-cases, inl, inr, int_key, ◌∙◌, ==_iff, ==_refl,
}
use dynamo_db.GoMap.{insert}
use dynamo_db.Node.{Node, get_other_nodes, increment_clock}
use dynamo_db.Node.Storage.{Network, Cluster}
use dynamo_db.Node.Handlers.{CsRequestArgs, request_cs}
use dynamo_db.Node.Rpc.{view, Preserves, view-insert}
use dynamo_db.Node.Exclusion.{request_cs-kept}
use dynamo_db.Mutex.Frame.{ask_all-keeps}
use dynamo_db.Mutex.{begin_request, wait_for_deferred_replies, request_critical_section}

wait-eq-true : (remaining : ℕ) → wait_for_deferred_replies remaining ≡ true
unfolding wait_for_deferred_replies
wait-eq-true zero = refl
wait-eq-true (suc remaining) = refl

begin_request-requesting : (n : Node) → (begin_request n).requesting_cs ≡ true
unfolding begin_request increment_clock
begin_request-requesting n = refl

wait-if :
    (b : Bool) (remaining : ℕ) → (if b then true else wait_for_deferred_replies remaining) ≡ true
wait-if true remaining = refl
wait-if false remaining = wait-eq-true remaining

-- A request leaves a part alone that RequestCS leaves alone, once it has begun.
module _ {A : Type 0} (part : Node → A) (j : ℤ)
    (keeps : (args : CsRequestArgs) → Preserves part j (request_cs args)) where
  pub request_critical_section-keeps :
      (net : Network) (order : List ℤ → List ℤ) (in_time : ℤ → Bool) (n : Node) (cluster : Cluster)
      → view part j (request_critical_section net order in_time n cluster).0
        ≡ view part j (insert n.id (begin_request n) cluster)
  unfolding request_critical_section
  request_critical_section-keeps net order in_time n cluster =
      elim (Bool-cases (eqb_ℕ (length (get_other_nodes (begin_request n))) 0)) [
        | inl alone ↦ rw alone refl
        | inr peers ↦ rw peers (ask_all-keeps part j keeps net (begin_request n) in_time _ _ _ _)
      ]

pub request_critical_section-true :
    (net : Network) (order : List ℤ → List ℤ) (in_time : ℤ → Bool) (n : Node) (cluster : Cluster)
    → (request_critical_section net order in_time n cluster).1 ≡ true
unfolding request_critical_section
request_critical_section-true net order in_time n cluster =
    elim (Bool-cases (eqb_ℕ (length (get_other_nodes (begin_request n))) 0)) [
      | inl alone ↦ rw alone refl
      | inr peers ↦ rw peers (wait-if _ _)
    ]

-- What the network does, in whatever order and however late the answers come, and whoever defers or
-- is dead: a request ends with the node let in. The node then stands as requesting, and so does
-- still every other node that did before, as it does in its own critical section.
pub request_critical_section-enters :
    (net : Network) (order : List ℤ → List ℤ) (in_time : ℤ → Bool) (n : Node) (cluster : Cluster)
    → let (after, entered) = request_critical_section net order in_time n cluster in
      (entered ≡ true)
      × (view (λ m. m.requesting_cs) n.id after ≡ some true)
      × ((j : ℤ)
          → n.id ≢ j
          → view (λ m. m.requesting_cs) j after ≡ view (λ m. m.requesting_cs) j cluster)
request_critical_section-enters net order in_time n cluster =
    let requesting : Node → Bool = λ m. m.requesting_cs in
    let kept = λ (j : ℤ).
      request_critical_section-keeps requesting j (λ args m. (request_cs-kept args m).0) net order
        in_time n cluster
      ∙ view-insert requesting j n.id (begin_request n) cluster in
    (
      request_critical_section-true net order in_time n cluster,
      ground (arith, kept n.id, ==_refl n.id, begin_request-requesting n),
      λ j other. ground (arith, kept j, ==_iff n.id j),
    )
