-- ===== src/Client/DeadlockTest/Script.antt =====
-- client/client.go: the command deadlock-test from its first call to its last.
use dynamo_db.Prelude.{
  ◌≡◌, ◌≢◌, String, text_append, Bool, true, false, Option, some, List, [], ◌∷◌, map, arith, ℤ, pos,
  int_key, text_key, ==_iff,
}
use text.Mathlib.TextLemmas.{append_cancel_left}
use dynamo_db.GoMap.{IsOrder, lookup}
use dynamo_db.Deadlock.{Message, DagManager}
use dynamo_db.Node.{Node, NodeConfig}
use dynamo_db.Node.Storage.{Network, Cluster}
use dynamo_db.Client.{find_leader}
use dynamo_db.Client.Calls.{IsUp}
use dynamo_db.Client.DeadlockTest.{Reply, Visits, deadlock_steps, tested, handle_deadlock_test}
use dynamo_db.Client.DeadlockTest.Steps.{
  manager, lock_first, lock_second, lock_third, lock_fourth, detect_circle, resolve_second,
  lock_fifth, detect_none, unlock_first, unlock_second,
}
use dynamo_db.Client.DeadlockTest.Run.{
  Maps, heard, Runs, run-nil, run-cons, serve-reset, serve-lock, serve-graph, serve-detect,
  serve-resolve, serve-unlock,
}

pub record IsVisits (visits : Visits) : Type 0 where
  pub first_detect : IsOrder visits.first_detect
  pub second_detect : IsOrder visits.second_detect
  pub resolve_held : IsOrder visits.resolve_held
  pub resolve_waiting : IsOrder visits.resolve_waiting
  pub unlock_a : IsOrder visits.unlock_a
  pub unlock_b : IsOrder visits.unlock_b

-- What the replies of the calls say: the reset and two locks are done, something is held, two locks
-- are refused, somebody waits, there is a deadlock, the abort and the lock are done, there is no
-- deadlock, two unlocks are done, and nothing is held.
abbrev pub expected : List Bool
expected =
    true ∷ true ∷ true ∷ false ∷ false ∷ false ∷ false ∷ true ∷ true ∷ true ∷ false ∷ true ∷ true
    ∷ true ∷ []

abbrev nothing : Maps
nothing = record { held = []; waits = []; asked = [] }

module _ (a b : String) (other : a ≢ b) where
  abbrev one_lock : Maps
  one_lock = record { held = (a, pos 1) ∷ []; waits = []; asked = [] }

  abbrev two_locks : Maps
  two_locks = record { held = (a, pos 1) ∷ (b, pos 2) ∷ []; waits = []; asked = [] }

  abbrev one_wait : Maps
  one_wait = record {
    held = (a, pos 1) ∷ (b, pos 2) ∷ [];
    waits = (pos 1, pos 2 ∷ []) ∷ [];
    asked = (pos 1, b) ∷ [];
  }

  abbrev deadlocked : Maps
  deadlocked = record {
    held = (a, pos 1) ∷ (b, pos 2) ∷ [];
    waits = (pos 1, pos 2 ∷ []) ∷ (pos 2, pos 1 ∷ []) ∷ [];
    asked = (pos 1, b) ∷ (pos 2, a) ∷ [];
  }

  abbrev resolved : Maps
  resolved = record { held = (a, pos 1) ∷ []; waits = []; asked = (pos 1, b) ∷ [] }

  abbrev both_held : Maps
  both_held = record { held = (a, pos 1) ∷ (b, pos 1) ∷ []; waits = []; asked = (pos 1, b) ∷ [] }

  abbrev last_held : Maps
  last_held = record { held = (b, pos 1) ∷ []; waits = []; asked = (pos 1, b) ∷ [] }

  module _ (net : Network) (at : String) (id : ℤ) (listens : net.listener at ≡ some id)
      (executed : net.executes at ≡ true) (is_answered : net.answers at ≡ true) (visits : Visits)
      (v : IsVisits visits) (s : Maps) where
    deadlock_steps-Runs :
        Runs net at id listens executed is_answered (deadlock_steps visits a b) s nothing expected
    unfolding deadlock_steps
    deadlock_steps-Runs =
        let cons = run-cons net at id listens executed is_answered in
        cons false _ _ s nothing nothing true _ (serve-reset s) (
          cons true _ _ nothing one_lock nothing true _
            (serve-lock (pos 1) a nothing one_lock true (pos 0) (λ l. (_, lock_first a b other l)))
            (cons true _ _ one_lock two_locks nothing true _
              (serve-lock (pos 2) b one_lock two_locks true (pos 0)
                (λ l. (_, lock_second a b other l)))
              (cons false _ _ two_locks two_locks nothing false _ (serve-graph two_locks) (
                cons true _ _ two_locks one_wait nothing false _
                  (serve-lock (pos 1) b two_locks one_wait false (pos 2)
                    (λ l. (_, lock_third a b other l)))
                  (cons true _ _ one_wait deadlocked nothing false _
                    (serve-lock (pos 2) a one_wait deadlocked false (pos 1)
                      (λ l. (_, lock_fourth a b other l)))
                    (cons false _ _ deadlocked deadlocked nothing false _ (serve-graph deadlocked) (
                      cons true _ _ deadlocked deadlocked nothing true _
                        (serve-detect visits.first_detect deadlocked deadlocked true
                          (λ l. detect_circle a b other l visits.first_detect v.first_detect))
                        (cons true _ _ deadlocked resolved nothing true _
                          (serve-resolve visits.resolve_held visits.resolve_waiting (pos 2)
                            deadlocked resolved
                            (λ l. (
                              _,
                              resolve_second a b other l visits.resolve_held visits.resolve_waiting
                                  v.resolve_held v.resolve_waiting,
                            )))
                          (cons true _ _ resolved both_held nothing true _
                            (serve-lock (pos 1) b resolved both_held true (pos 0)
                              (λ l. (_, lock_fifth a b other l)))
                            (cons false _ _ both_held both_held nothing false _
                              (serve-detect visits.second_detect both_held both_held false (λ l. (
                                [],
                                _,
                                detect_none a b other l visits.second_detect both_held.held
                                    both_held.asked v.second_detect,
                              )))
                              (cons false _ _ both_held last_held nothing true _
                                (serve-unlock visits.unlock_a (pos 1) a both_held last_held
                                  (λ l. (_, unlock_first a b other l visits.unlock_a v.unlock_a)))
                                (cons false _ _ last_held nothing nothing true _
                                  (serve-unlock visits.unlock_b (pos 1) b last_held nothing (λ l.
                                    (_, unlock_second a b other l visits.unlock_b v.unlock_b)))
                                  (cons false _ _ nothing nothing nothing true _
                                    (serve-graph nothing)
                                    (run-nil net at id listens executed is_answered
                                      nothing))))))))))))))

apart : (resource : String) → text_append resource "_A" ≢ text_append resource "_B"
apart resource same =
    ground (arith, append_cancel_left resource "_A" "_B" same, ==_iff {K = String} "_A" "_B")

-- The command deadlock-test with a resource, where the leader that is found can be reached and has
-- a lock manager, in whatever state: it runs all its calls, and in every order of the visits the
-- replies say what is expected, so the deadlock that it makes is found, and none after the abort.
-- In the end nothing is held and nobody waits.
pub handle_deadlock_test-detects :
    (net : Network) (nodes : List NodeConfig) (visits : Visits) (command resource : String)
    (parts : List String) (id : ℤ) (m : Node) (dm : DagManager) (cluster : Cluster)
    → IsVisits visits
    → (up : IsUp net nodes id m cluster) → find_leader net nodes nodes cluster ≡ some (id, up.at)
    → m.deadlock_mgr ≡ some dm
    → (final : Cluster) × (m' : Node) × (replies : List (Option Reply)) × (logs : List Message)
      × (handle_deadlock_test net nodes visits (command ∷ resource ∷ parts) cluster
          ≡ some (final, tested id replies))
      × (map heard replies ≡ expected)
      × (lookup id final ≡ some m')
      × (m'.deadlock_mgr ≡ some (manager [] [] [] logs))
unfolding handle_deadlock_test
handle_deadlock_test-detects net nodes visits command resource parts id m dm cluster v up leader
      has =
    let s : Maps = record {
      held = dm.held_resources;
      waits = dm.waiting_for;
      asked = dm.waiting_resource;
    } in
    let (final, m', replies, e, said, here, (logs, free)) =
      deadlock_steps-Runs (text_append resource "_A") (text_append resource "_B") (apart resource)
        net up.at id up.listens up.executed up.is_answered visits v s m cluster up.here up.own
        (dm.logs, has) in
    (final, m', replies, logs, ground (arith, leader, e), said, here, free)
