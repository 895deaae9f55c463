-- ===== src/Client/Session.antt =====
-- client/client.go: every session of commands returns.
use dynamo_db.Prelude.{
  ℕ, ◌≡◌, ◌≢◌, refl, inl, inr, String, Bool, true, false, ◌||◌, Option, none, some, List, [], ◌∷◌,
  arith, ℤ, text_key, ◌==◌, if◌then◌else◌, Bool-cases,
}
use dynamo_db.GoMap.{IsOrder}
use dynamo_db.Node.{NodeConfig}
use dynamo_db.Node.Storage.{Cluster}
use dynamo_db.Client.{handle_status, handle_list}
use dynamo_db.Client.Help.{print_help}
use dynamo_db.Client.Sound.{IsSound, Safe}
use dynamo_db.Client.Reads.{handle_quorum_get-Safe}
use dynamo_db.Client.Commands.{
  handle_put-Safe, handle_get-Safe, handle_delete-Safe, handle_partition_info-Safe,
  handle_mutex_put-Safe,
}
use dynamo_db.Client.DeadlockTest.Safe.{handle_deadlock_test-Safe}
use dynamo_db.Client.Prompt.{
  Choices, Response, printed, tested, help, goodbye, unknown_command, with_response, run_command,
  ends, session,
}

-- The goroutines of a deletion and the visits of the searches come in some order.
pub record IsFair (c : Choices) : Type 0 where
  pub deletes : IsOrder c.delete_order
  pub first_detect : IsOrder c.visits.first_detect
  pub second_detect : IsOrder c.visits.second_detect

abbrev pub AreFair : List (Choices × String) → Type 0
AreFair [] = Unit
AreFair (input ∷ inputs) = IsFair input.0 × AreFair inputs

-- What is left of a line without the spaces around it has a word, unless it is empty.
abbrev pub Splits : (String → String) → (String → List String) → Type 0
Splits trim_space fields =
    (line : String) → (trim_space line == "") ≡ false → fields (trim_space line) ≢ []

List-cases : {A : Type 0} (xs : List A) → (xs ≢ []) → (x : A) × (rest : List A) × (xs ≡ x ∷ rest)
List-cases [] full = absurd (full refl)
List-cases (x ∷ rest) full = (x, rest, refl)

module _ (md5 : String → List ℕ) where
  with_response-Safe :
      {R : Type 0} (respond : R → Response) (result : Option (Cluster × R))
      → Safe md5 result
      → Safe md5 (with_response respond result)
  unfolding with_response
  with_response-Safe respond none (after, reply, e, s) = absurd (ground (arith, e))
  with_response-Safe respond (some (c, r)) (after, reply, e, s) =
      (after, respond reply, ground (arith, e), s)

  if-Safe :
      {R : Type 0} (test : Bool) (x y : Option (Cluster × R))
      → Safe md5 x
      → Safe md5 y
      → Safe md5 (if test then x else y)
  if-Safe true x y sx sy = sx
  if-Safe false x y sx sy = sy

  module _ (atoi : String → Option ℤ) (nodes : List NodeConfig) where
    run_command-Safe :
        (c : Choices) (command : String) (parts : List String) (cluster : Cluster)
        → IsFair c
        → IsSound md5 cluster
        → Safe md5 (run_command md5 atoi nodes c command parts cluster)
    unfolding run_command
    run_command-Safe c command parts cluster fair sound =
        if-Safe (command == "put") _ _
          (with_response-Safe printed _ (
            handle_put-Safe md5 atoi c.read_file c.write_file c.net nodes cluster sound c.now
              parts))
          (if-Safe (command == "get") _ _
            (with_response-Safe printed _
              (handle_get-Safe md5 atoi c.read_file c.write_file c.net nodes cluster sound parts))
            (if-Safe (command == "quorum-get") _ _
              (with_response-Safe printed _
                (handle_quorum_get-Safe md5 c.net nodes c.write_file parts cluster sound))
              (if-Safe (command == "delete") _ _
                (with_response-Safe printed _ (
                  handle_delete-Safe md5 atoi c.read_file c.write_file c.net nodes cluster sound
                    c.delete_order parts fair.deletes))
                (if-Safe (command == "status") _ _
                  (
                    cluster,
                    printed
                        (handle_status md5 atoi c.read_file c.write_file c.net nodes parts cluster),
                    refl,
                    sound,
                  )
                  (if-Safe (command == "list") _ _
                    (
                      cluster,
                      printed (
                          handle_list md5 atoi c.read_file c.write_file c.net nodes c.list_order
                            parts cluster),
                      refl,
                      sound,
                    )
                    (if-Safe (command == "partition-info") _ _
                      (with_response-Safe printed _ (
                        handle_partition_info-Safe md5 atoi c.read_file c.write_file c.net nodes
                          cluster sound parts))
                      (if-Safe (command == "mutex-put") _ _
                        (with_response-Safe printed _ (
                          handle_mutex_put-Safe md5 atoi c.read_file c.write_file c.net nodes
                            cluster sound c.schedule c.has_manager c.now parts))
                        (if-Safe (command == "deadlock-test") _ _
                          (with_response-Safe tested _ (
                            handle_deadlock_test-Safe md5 c.net nodes c.visits parts cluster
                              fair.first_detect fair.second_detect sound))
                          (if-Safe (command == "help") _ _ (cluster, help print_help, refl, sound)
                            (if-Safe (command == "exit" || command == "quit") _ _
                              (cluster, goodbye, refl, sound)
                              (cluster, unknown_command command, refl, sound)))))))))))

    -- Every list of lines, whatever their commands and arguments, is read without a panic, and
    -- leaves every node of the cluster under its own ID with a valid partition manager, as it was
    -- before. Each command has a network and files of its own, so that between two commands any
    -- nodes may fail or come back; within a command an address stays as it is, and a Delete ends
    -- with its goroutines. A line has a word wherever it is not blank, and the goroutines and
    -- visits come in some order.
    pub session-returns :
        (trim_space : String → String) (fields : String → List String)
        (inputs : List (Choices × String)) (cluster : Cluster)
        → Splits trim_space fields
        → AreFair inputs
        → IsSound md5 cluster
        → Safe md5 (session md5 atoi nodes trim_space fields inputs cluster)
    unfolding session
    session-returns trim_space fields [] cluster splits fair sound = (cluster, [], refl, sound)
    session-returns trim_space fields ((c, line) ∷ inputs) cluster splits fair sound =
        elim (Bool-cases (trim_space line == "")) [
          | inl blank ↦
              let (final, responses, e, s) =
                session-returns trim_space fields inputs cluster splits fair.1 sound in
              (final, responses, ground (arith, blank, e), s)
          | inr full ↦
              let (command, parts, words) =
                List-cases (fields (trim_space line)) (splits line full) in
              let (after, response, e, s) =
                run_command-Safe c command (command ∷ parts) cluster fair.0 sound in
              elim (Bool-cases (ends response)) [
                | inl last ↦ (after, response ∷ [], ground (arith, full, words, e, last), s)
                | inr more ↦
                    let (final, responses, f, t) =
                      session-returns trim_space fields inputs after splits fair.1 s in
                    (final, response ∷ responses, ground (arith, full, words, e, more, f), t)
              ]
        ]
